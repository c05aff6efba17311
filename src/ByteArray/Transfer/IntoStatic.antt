-- ===== src/ByteArray/Transfer/IntoStatic.antt =====
-- `StaticByteArray::ReadFromByteArray`, on each of its branches.
use elegance.Prelude.{
  ℕ, ◌+◌, ◌%◌, ◌^◌, ◌||◌, false, ◌⊎◌, inl, inr, Option, some, List, ltb, ◌==◌, length, arith, ◌≡◌,
  ◌≤◌, ◌<◌, take, drop, refl, length-take,
}
use elegance.Prelude.Int.{ℤ, pos}
use elegance.ByteArray.{Source, Lawful}
use elegance.ByteArray.Static
use native.Mathlib.Decide.{dec_le}
use elegance.ByteArray.Static.{StaticByteArray, ◌>>=◌, max_msg_length}
use elegance.ByteArray.Static.Safety.{IsValid, Appends, put_bytes-Appends}
use elegance.ByteArray.Transfer.{to_uint, to_int, write_pointer_static, read_into_static}
use elegance.ByteArray.Transfer.Laws.{take-take}

write_pointer-room :
    (n : ℕ) (t : StaticByteArray) (bs : List ℕ)
    → IsValid t
    → length bs ≡ n
    → take n bs ≡ bs
    → t.has_write_length + n ≤ max_msg_length
    → (t' : StaticByteArray) × (write_pointer_static (some bs) (pos n) t ≡ some t')
      × Appends t bs t'
unfolding write_pointer_static Static.write_object
write_pointer-room n t bs v size whole room =
    let (t', p, a) = put_bytes-Appends t bs v (omega (arith, size)) in
    (t', rw whole (ground (arith, p, room)), a)

write_pointer-full :
    (n : ℕ) (t : StaticByteArray) (bs : List ℕ)
    → max_msg_length < t.has_write_length + n
    → t.has_write_length + n < 2 ^ 31
    → write_pointer_static (some bs) (pos n) t ≡ some t
unfolding write_pointer_static Static.write_object
write_pointer-full n t bs full small = ground (arith, small)

module _ {S : Type 0} ⦃src : Source S⦄ ⦃law : Lawful S⦄ where
  -- A request for no byte, or for more than there are, changes neither array.
  pub read_into_static-refused :
      (bytes_len : ℤ) (t : StaticByteArray) (other : S)
      → (to_uint bytes_len ≡ 0) ⊎ (length (law.contents other) < to_uint bytes_len)
      → read_into_static bytes_len t other ≡ some (t, other)
  unfolding read_into_static
  read_into_static-refused bytes_len t other h = ground (arith, law.available other)

  abbrev pull : ℕ → StaticByteArray → S → Option (StaticByteArray × S)
  pull n t other = do
    (obj, rest) ← src.read_object other n
    r ← write_pointer_static obj (pos n) t
    some (r, rest)

  read_into_static-pull :
      (n : ℕ) (t : StaticByteArray) (other : S)
      → 0 < n
      → n < 2 ^ 31
      → n ≤ length (law.contents other)
      → read_into_static (pos n) t other ≡ pull n t other
  unfolding read_into_static
  read_into_static-pull n t other positive small fits =
      let word : n % 2 ^ 32 ≡ n = omega arith in
      let sign : to_int n ≡ pos n = ground (arith, small) in
      let open_test : (n == 0 || ltb (src.bytes_available other) n) ≡ false =
        ground (arith, law.available other) in
      rw (word, sign, open_test)

  -- A request for `n` bytes, at most as many as a valid array holds, and fewer than 2 ^ 31 together
  -- with the write position of the target, takes them from it. If a valid target has room they are
  -- appended to it; if it has none, the target stays as it was and the bytes are lost. No access
  -- leaves the buffer in either case.
  pub read_into_static-moves :
      (n : ℕ) (t : StaticByteArray) (other : S)
      → IsValid t
      → law.IsValid other
      → 0 < n
      → t.has_write_length + n < 2 ^ 31
      → n ≤ length (law.contents other)
      → (t' : StaticByteArray) × (rest : S) × (read_into_static (pos n) t other ≡ some (t', rest))
        × (law.contents rest ≡ drop n (law.contents other))
        × (((t.has_write_length + n ≤ max_msg_length) × Appends t (take n (law.contents other)) t')
            ⊎ ((max_msg_length < t.has_write_length + n) × (t' ≡ t)))
  read_into_static-moves n t other vt vo positive small fits =
      let (rest, p, c, w) = law.reads other n vo positive fits in
      let e = read_into_static-pull n t other positive (omega (arith, small)) fits in
      let bs = take n (law.contents other) in
      elim (dec_le (t.has_write_length + n) max_msg_length) [
        | yes room ↦
            (let (t', q, a) =
                write_pointer-room n t bs vt (omega (arith, length-take n (law.contents other)))
                  (take-take n (law.contents other) fits) room in
              (t', rest, rw (e, p, q), c, inl (room, a)))
        | no full ↦
            (let full' : max_msg_length < t.has_write_length + n = omega arith in
              (t, rest, rw (e, p, write_pointer-full n t bs full' small), c, inr (full', refl)))
      ]
