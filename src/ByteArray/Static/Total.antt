-- ===== src/ByteArray/Static/Total.antt =====
-- Any calls of a valid `StaticByteArray`, with lengths that the sums of the source have room for.
use elegance.Prelude.{
  ℕ, zero, suc, ap, ◌+◌, ◌-◌, ◌≤◌, ◌≡◌, refl, arith, false, some, List, [], ◌∷◌, length, take,
  length-take, ltb, ◌==◌, ◌||◌, Bool-cases, inl, inr,
}
use elegance.Prelude.Int.{pos, int_max}
use elegance.Prelude.Bytes.{little_bytes, from_little}
use elegance.ByteArray.Static.{
  StaticByteArray, Faulty, ◌>>=◌, max_msg_length, put_bytes, get_bytes, read_num, write_num,
  read_item_from_buffer, write_item_to_buffer, read_string, read_string_body, read_object,
  write_string, write_object, clear,
}
use elegance.Prelude.Memory.{load}
use elegance.ByteArray.Static.Access.{write_string-Writes}
use elegance.ByteArray.Static.Safety.{IsValid, put_bytes-Appends}

-- A call: of a reader or writer of numbers of some width, of the others, or of `Clear`.
pub data Op : Type 0 where
  read_num_op : ℕ → Op
  write_num_op : ℕ → ℕ → Op
  read_string_op : Op
  write_string_op : List ℕ → Op
  read_object_op : ℕ → Op
  write_object_op : List ℕ → ℕ → Op
  clear_op : Op

abbrev array_of : {A : Type 0} → Faulty (A × StaticByteArray) → Faulty StaticByteArray
array_of m = m >>= λ r. some r.1

unfoldable pub call : Op → StaticByteArray → Faulty StaticByteArray
call (read_num_op n) s = array_of (read_num n s)
call (write_num_op n w) s = write_num n w s
call read_string_op s = array_of (read_string s)
call (write_string_op str) s = write_string str s
call (read_object_op n) s = array_of (read_object s n)
call (write_object_op obj n) s = write_object obj (pos n) s
call clear_op s = some (clear s)

unfoldable pub calls : List Op → StaticByteArray → Faulty StaticByteArray
calls [] s = some s
calls (op ∷ ops) s = call op s >>= calls ops

-- The length that a call writes, if it leaves room for the sum with any write position.
abbrev pub IsShort : Op → Type 0
IsShort (read_num_op n) = Unit {0}
IsShort (write_num_op n w) = Unit {0}
IsShort read_string_op = Unit {0}
IsShort (write_string_op str) = max_msg_length + length str + 2 ≤ int_max
IsShort (read_object_op n) = Unit {0}
IsShort (write_object_op obj n) = max_msg_length + n ≤ int_max
IsShort clear_op = Unit {0}

abbrev pub AllShort : List Op → Type 0
AllShort [] = Unit {0}
AllShort (op ∷ ops) = IsShort op × AllShort ops

-- A call that is no fault and leaves a valid array.
abbrev pub Succeeds : Faulty StaticByteArray → Type 0
Succeeds m = (t : StaticByteArray) × (m ≡ some t) × IsValid t

put_bytes-Succeeds :
    (bs : List ℕ) (s : StaticByteArray)
    → IsValid s
    → s.has_write_length + length bs ≤ max_msg_length
    → Succeeds (put_bytes bs s)
put_bytes-Succeeds bs s v room = let (t, e, a) = put_bytes-Appends s bs v room in (t, e, a.valid)

length-little_bytes : (n w : ℕ) → length (little_bytes n w) ≡ n
length-little_bytes zero w = refl
length-little_bytes (suc n) w = ap suc (length-little_bytes n _)

get_bytes-Gets :
    (n : ℕ) (s : StaticByteArray)
    → IsValid s
    → s.has_read_length + n ≤ s.has_write_length
    → (bs : List ℕ) × (t : StaticByteArray) × (get_bytes n s ≡ some (bs, t))
      × IsValid t
      × (t.has_read_length ≡ s.has_read_length + n)
      × (t.has_write_length ≡ s.has_write_length)
unfolding get_bytes
get_bytes-Gets n s v there =
    let fits : ltb max_msg_length (s.has_read_length + n) ≡ false =
      ground (arith, there, v.bounded) in
    (
      load s.buffer_cache s.has_read_length n,
      record s { has_read_length = s.has_read_length + n },
      rw fits,
      record { ordered = there; bounded = v.bounded },
      refl,
      refl,
    )

-- A reader of a number gives 0 or takes its bytes.
read_num-Gets :
    (n : ℕ) (s : StaticByteArray)
    → IsValid s
    → (w : ℕ) × (t : StaticByteArray) × (read_num n s ≡ some (w, t)) × IsValid t
unfolding read_num read_item_from_buffer
read_num-Gets n s v = elim (Bool-cases (ltb s.has_write_length (s.has_read_length + n))) [
  | inl short ↦ (0, s, rw (read_num, short), v)
  | inr there ↦
      (let (bs, t, e, w, _, _) = get_bytes-Gets n s v (ground (arith, there)) in
        (from_little bs, t, rw (read_num, there, read_item_from_buffer, e), w))
]

write_num-Succeeds : (n w : ℕ) (s : StaticByteArray) → IsValid s → Succeeds (write_num n w s)
unfolding write_num write_item_to_buffer
write_num-Succeeds n w s v = elim (Bool-cases (ltb max_msg_length (s.has_write_length + n))) [
  | inl full ↦ (s, rw (write_num, full), v)
  | inr room ↦
      (let (t, e, u) =
          put_bytes-Succeeds (little_bytes n w) s v
            (ground (arith, room, length-little_bytes n w)) in
        (t, rw (write_num, room, write_item_to_buffer, e), u))
]

read_object-Succeeds :
    (n : ℕ) (s : StaticByteArray) → IsValid s → Succeeds (array_of (read_object s n))
unfolding read_object
read_object-Succeeds n s v =
    elim (Bool-cases (n == 0 || ltb (s.has_write_length - s.has_read_length) n)) [
      | inl refused ↦ (s, rw (read_object, refused), v)
      | inr there ↦
          (let (bs, t, e, w, _, _) = get_bytes-Gets n s v (ground (arith, there, v.ordered)) in
            (t, rw (read_object, there, e), w))
    ]

write_object-Succeeds :
    (obj : List ℕ) (n : ℕ) (s : StaticByteArray)
    → IsValid s
    → max_msg_length + n ≤ int_max
    → Succeeds (write_object obj (pos n) s)
unfolding write_object
write_object-Succeeds obj n s v small =
    let sum : ltb int_max (s.has_write_length + n) ≡ false = ground (arith, small, v.bounded) in
    elim (Bool-cases (ltb max_msg_length (s.has_write_length + n))) [
      | inl full ↦ (s, rw (write_object, sum, full), v)
      | inr room ↦
          (let (t, e, u) =
              put_bytes-Succeeds (take n obj) s v (ground (arith, room, length-take n obj)) in
            (t, rw (write_object, sum, room, e), u))
    ]

read_string_body-Succeeds :
    (str_len valid : ℕ) (s : StaticByteArray)
    → IsValid s
    → s.has_read_length + valid ≤ s.has_write_length
    → Succeeds (array_of (read_string_body str_len valid s))
unfolding read_string_body
read_string_body-Succeeds str_len valid s v there = elim (Bool-cases (ltb valid str_len)) [
  | inl short ↦ (s, rw (read_string_body, short), v)
  | inr enough ↦
      (let (bs, t, e, w, _, _) = get_bytes-Gets str_len s v (ground (arith, enough, there)) in
        (t, rw (read_string_body, enough, e), w))
]

read_string-Succeeds : (s : StaticByteArray) → IsValid s → Succeeds (array_of (read_string s))
unfolding read_string read_num read_item_from_buffer
read_string-Succeeds s v = elim (Bool-cases (ltb (s.has_write_length - s.has_read_length) 2)) [
  | inl short ↦ (s, rw (read_string, short), v)
  | inr there ↦
      (let (bs, r, e, w, read, kept) = get_bytes-Gets 2 s v (ground (arith, there, v.ordered)) in
        let enough : ltb s.has_write_length (s.has_read_length + 2) ≡ false =
          ground (arith, there, v.ordered) in
        let (t, e', w') =
          read_string_body-Succeeds (from_little bs) (s.has_write_length - s.has_read_length - 2) r
            w (ground (arith, there, v.ordered, read, kept)) in
        (t, rw (read_string, there, read_num, enough, read_item_from_buffer, e, e'), w'))
]

write_string-Succeeds :
    (str : List ℕ) (s : StaticByteArray)
    → IsValid s
    → max_msg_length + length str + 2 ≤ int_max
    → Succeeds (write_string str s)
unfolding write_string
write_string-Succeeds str s v small =
    let sum : ltb int_max (s.has_write_length + length str + 2) ≡ false =
      ground (arith, small, v.bounded) in
    elim (Bool-cases (ltb max_msg_length (s.has_write_length + length str + 2))) [
      | inl full ↦ (s, rw (write_string, sum, full), v)
      | inr room ↦
          (let (t, e, a) = write_string-Writes str s v (ground (arith, room)) in (t, e, a.valid))
    ]

call-Succeeds : (op : Op) (s : StaticByteArray) → IsValid s → IsShort op → Succeeds (call op s)
unfolding call clear
call-Succeeds (read_num_op n) s v h = let (w, t, e, u) = read_num-Gets n s v in (t, rw e, u)
call-Succeeds (write_num_op n w) s v h = write_num-Succeeds n w s v
call-Succeeds read_string_op s v h = read_string-Succeeds s v
call-Succeeds (write_string_op str) s v h = write_string-Succeeds str s v h
call-Succeeds (read_object_op n) s v h = read_object-Succeeds n s v
call-Succeeds (write_object_op obj n) s v h = write_object-Succeeds obj n s v h
call-Succeeds clear_op s v h =
    (clear s, refl, record { ordered = omega arith; bounded = omega arith })

-- Calls of a valid array in any order, of the readers and writers of numbers of any width, of
-- `ReadString`, `ReadObject` and `Clear`, and of `WriteString` and `WriteObject` with a length that
-- is not negative and at most INT_MAX less 2 bytes and the size of the buffer: none of them leaves
-- the buffer, and the array stays valid.
pub calls-IsValid :
    (ops : List Op) (s : StaticByteArray) → IsValid s → AllShort ops → Succeeds (calls ops s)
unfolding calls
calls-IsValid [] s v h = (s, refl, v)
calls-IsValid (op ∷ ops) s v h =
    let (t, e, w) = call-Succeeds op s v h.0 in
    let (u, e', w') = calls-IsValid ops t w h.1 in (u, rw e e', w')
