-- ===== src/ByteArray/Static/Access.antt =====
-- The readers and writers of numbers and strings of `StaticByteArray`, where there is room or data.
use elegance.Prelude.{
  ℕ, ◌+◌, ◌-◌, ◌%◌, ◌^◌, ◌≤◌, ◌<◌, ◌≡◌, refl, ap, sym, ◌∙◌, some, List, [], ◌∷◌, ◌++◌, arith,
  length, length-append, append_assoc,
}
use elegance.Prelude.Bytes.{little_bytes, from_little, from_little-little_bytes_2}
use elegance.ByteArray.Static.{
  StaticByteArray, Faulty, max_msg_length, get_bytes, read_num, write_num, read_item_from_buffer,
  write_item_to_buffer, read_string, read_string_body, write_string, c_string,
}
use elegance.ByteArray.Static.Safety.{
  IsValid, contents, length-contents, Appends, put_bytes-Appends, Consumes, get_bytes-Consumes,
}
use elegance.ByteArray.Static.Script.{NoNull}

pub c_string-NoNull : (s : List ℕ) → NoNull s → c_string s ≡ s
unfolding c_string
c_string-NoNull [] h = refl
c_string-NoNull (b ∷ bs) h = ground (arith, c_string-NoNull bs h.1)

-- A write that has room appends; `r` is the array that it leaves.
abbrev pub Writes : Faulty StaticByteArray → StaticByteArray → List ℕ → Type 0
Writes m s bs = (r : StaticByteArray) × (m ≡ some r) × Appends s bs r

pub write_num-Writes :
    (n w : ℕ) (s : StaticByteArray)
    → IsValid s
    → length (little_bytes n w) ≡ n
    → s.has_write_length + n ≤ max_msg_length
    → Writes (write_num n w s) s (little_bytes n w)
unfolding write_num write_item_to_buffer
write_num-Writes n w s v e h =
    let (r, p, a) = put_bytes-Appends s (little_bytes n w) v (omega (arith, e)) in
    (r, ground (arith, p), a)

pub write_string-Writes :
    (str : List ℕ) (s : StaticByteArray)
    → IsValid s
    → s.has_write_length + length str + 2 ≤ max_msg_length
    → Writes (write_string str s) s (little_bytes 2 (length str % 2 ^ 16) ++ str)
unfolding write_string
write_string-Writes str s v h =
    let (r, p, a) = write_num-Writes 2 (length str % 2 ^ 16) s v refl (omega arith) in
    let (r', p', a') = put_bytes-Appends r str a.valid (omega (arith, a.grown)) in
    (
      r',
      ground (arith, p, p'),
      record {
        valid = a'.valid;
        appended = a'.appended ∙ ap (λ c. c ++ str) a.appended ∙ append_assoc (contents s) _ str;
        grown = omega (arith, a.grown, a'.grown);
      },
    )

-- A read that finds the bytes takes them off.
abbrev pub Reads :
    {A : Type 0} → Faulty (A × StaticByteArray) → A → StaticByteArray → List ℕ → Type 0
Reads m a s rest = (r : StaticByteArray) × (m ≡ some (a, r)) × Consumes s rest r

pub has_bytes :
    (s : StaticByteArray) (bs rest : List ℕ)
    → contents s ≡ bs ++ rest
    → s.has_write_length - s.has_read_length ≡ length bs + length rest
has_bytes s bs rest e = sym (length-contents s) ∙ ap length e ∙ length-append bs rest

pub read_num-Reads :
    (n w : ℕ) (s : StaticByteArray) (rest : List ℕ)
    → IsValid s
    → length (little_bytes n w) ≡ n
    → from_little (little_bytes n w) ≡ w
    → contents s ≡ little_bytes n w ++ rest
    → Reads (read_num n s) w s rest
unfolding read_num read_item_from_buffer
read_num-Reads n w s rest v size value e =
    let (r, p, c) = get_bytes-Consumes s (little_bytes n w) rest v e in
    let p' : get_bytes n s ≡ some (little_bytes n w, r) = ap (λ k. get_bytes k s) (sym size) ∙ p in
    (r, ground (arith, p', value, has_bytes s (little_bytes n w) rest e, v.ordered, size), c)

pub read_string-Reads :
    (str : List ℕ) (s : StaticByteArray) (rest : List ℕ)
    → IsValid s
    → length str < 2 ^ 16
    → contents s ≡ (little_bytes 2 (length str) ++ str) ++ rest
    → Reads (read_string s) (c_string str) s rest
unfolding read_string read_string_body
read_string-Reads str s rest v h e =
    let k = length str in
    let e' : contents s ≡ little_bytes 2 k ++ (str ++ rest) =
      e ∙ append_assoc (little_bytes 2 k) str rest in
    let (r, p, c) = read_num-Reads 2 k s (str ++ rest) v refl (from_little-little_bytes_2 k h) e' in
    let (r', p', c') = get_bytes-Consumes r str rest c.valid c.left in
    (
      r',
      ground
          (arith, p, p', has_bytes s (little_bytes 2 k) (str ++ rest) e', length-append str rest),
      record { valid = c'.valid; left = c'.left; kept = c'.kept ∙ c.kept },
    )
