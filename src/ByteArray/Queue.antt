-- ===== src/ByteArray/Queue.antt =====
-- elegance/memory/byte_array/queue_byte_array.hpp and .cpp: a queue of bytes. A reader returns its
-- value and the new array, a writer the new array. A byte is a number below 256, a `float` or a
-- `double` its bit pattern. The debug prints, and `ShowAllBytes`, which only prints, are left out.
pub mod Words
pub mod Script
use elegance.Prelude.{
  ℕ, zero, suc, ◌+◌, ◌-◌, ◌*◌, ◌/◌, ◌%◌, ◌^◌, Bool, true, false, Option, none, some, List, [], ◌∷◌,
  ◌++◌, length, take, drop, get_or, ltb, leb, ◌==◌, if◌then◌else◌,
}
use elegance.Prelude.Int.{ℤ, pos, negsuc, signed, unsigned}
use elegance.ByteArray.{Endian, big_endian, little_endian, Source, ushrt_max}

pub record QueueByteArray : Type 0 where
  pub cur_endian : Endian
  pub bytes_queue : List ℕ

-- The constructor.
unfoldable pub new_queue : QueueByteArray
new_queue = record { cur_endian = little_endian; bytes_queue = [] }

unfoldable pub set_endian : Endian → QueueByteArray → QueueByteArray
set_endian e q = record q { cur_endian = e }

unfoldable pub bytes_available : QueueByteArray → ℕ
bytes_available q = length q.bytes_queue

unfoldable pub clear : QueueByteArray → QueueByteArray
clear q = record q { bytes_queue = [] }

-- `bytes_queue_[0]` and `pop_front`, both behind the test that the queue is not empty.
unfoldable pub read_uint8 : QueueByteArray → ℕ × QueueByteArray
read_uint8 q = elim q.bytes_queue [ [] ↦ (0, q) | b ∷ rest ↦ (b, record q { bytes_queue = rest }) ]

unfoldable pub read_int8 : QueueByteArray → ℤ × QueueByteArray
read_int8 q = let (b, r) = read_uint8 q in (signed 0x80 b, r)

-- A word of two halves of `half` values each, the first read being the upper one on big endian.
abbrev pub join : ℕ → Endian → ℕ → ℕ → ℕ
join half big_endian left right = left * half + right
join half little_endian left right = left + right * half

unfoldable pub read_uint16 : QueueByteArray → ℕ × QueueByteArray
read_uint16 q =
    let (left, q₁) = read_uint8 q in
    let (right, q₂) = read_uint8 q₁ in (join 0x100 q.cur_endian left right, q₂)

unfoldable pub read_int16 : QueueByteArray → ℤ × QueueByteArray
read_int16 q = let (w, r) = read_uint16 q in (signed 0x8000 w, r)

unfoldable pub read_uint32 : QueueByteArray → ℕ × QueueByteArray
read_uint32 q =
    let (left, q₁) = read_uint16 q in
    let (right, q₂) = read_uint16 q₁ in (join 0x1_0000 q.cur_endian left right, q₂)

-- The code reads a `long`, of 8 bytes, at the address of a 4-byte variable, and returns its low
-- half as an `int`. `beyond` is what the 4 bytes after the variable hold.
unfoldable pub read_int32 : ℕ → QueueByteArray → ℤ × QueueByteArray
read_int32 beyond q =
    let (w, r) = read_uint32 q in (signed 0x8000_0000 ((w + beyond * 2 ^ 32) % 2 ^ 32), r)

-- The bit pattern of the result.
unfoldable pub read_float : QueueByteArray → ℕ × QueueByteArray
read_float q = let (w, r) = read_uint32 q in (w % 2 ^ 32, r)

unfoldable pub read_uint64 : QueueByteArray → ℕ × QueueByteArray
read_uint64 q =
    let (left, q₁) = read_uint32 q in
    let (right, q₂) = read_uint32 q₁ in (join 0x1_0000_0000 q.cur_endian left right, q₂)

unfoldable pub read_int64 : QueueByteArray → ℤ × QueueByteArray
read_int64 q = let (w, r) = read_uint64 q in (signed (2 ^ 63) w, r)

unfoldable pub read_double : QueueByteArray → ℕ × QueueByteArray
read_double q = read_uint64 q

-- The length that the first two bytes of the queue give, which the reader only looks at.
abbrev pub peek_length : QueueByteArray → ℕ
peek_length q = join 0x100 q.cur_endian (get_or q.bytes_queue 0 0) (get_or q.bytes_queue 1 0)

-- A string is the list of its bytes. Nothing is consumed unless the whole string is there; the
-- loop that pops `len` bytes is `take` and `drop`.
unfoldable pub read_string : QueueByteArray → List ℕ × QueueByteArray
read_string q =
    if ltb (length q.bytes_queue) 2
    then ([], q)
    else if ltb (length q.bytes_queue) (2 + peek_length q)
    then ([], q)
    else (
      take (peek_length q) (drop 2 q.bytes_queue),
      record q { bytes_queue = drop (2 + peek_length q) q.bytes_queue },
    )

-- `none` is the null pointer. A size of 0 means all bytes.
unfoldable pub read_object : QueueByteArray → ℕ → Option (List ℕ) × QueueByteArray
read_object q size =
    if ltb (length q.bytes_queue) size
    then (none, q)
    else if size == 0
    then (some q.bytes_queue, record q { bytes_queue = [] })
    else (some (take size q.bytes_queue), record q { bytes_queue = drop size q.bytes_queue })

unfoldable pub write_uint8 : ℕ → QueueByteArray → QueueByteArray
write_uint8 b q = record q { bytes_queue = q.bytes_queue ++ b ∷ [] }

unfoldable pub write_int8 : ℤ → QueueByteArray → QueueByteArray
write_int8 z q = write_uint8 (unsigned 0x80 z) q

-- The parameters of the writers narrow: `WriteUint8(value>>8)` keeps the low 8 bits.
unfoldable pub write_uint16 : ℕ → QueueByteArray → QueueByteArray
write_uint16 w q = elim q.cur_endian [
  | big_endian ↦ write_uint8 (w % 256) (write_uint8 (w / 2 ^ 8 % 2 ^ 8) q)
  | little_endian ↦ write_uint8 (w / 2 ^ 8 % 2 ^ 8) (write_uint8 (w % 256) q)
]

unfoldable pub write_int16 : ℤ → QueueByteArray → QueueByteArray
write_int16 z q = write_uint16 (unsigned 0x8000 z) q

-- `(value << 16) >> 16` on 32 bits.
abbrev pub low_half : ℕ → ℕ → ℕ
low_half half w = w * half % (half * half) / half

unfoldable pub write_uint32 : ℕ → QueueByteArray → QueueByteArray
write_uint32 w q = elim q.cur_endian [
  | big_endian ↦ write_uint16 (low_half (2 ^ 16) w) (write_uint16 (w / 2 ^ 16 % 2 ^ 16) q)
  | little_endian ↦ write_uint16 (w / 2 ^ 16 % 2 ^ 16) (write_uint16 (low_half (2 ^ 16) w) q)
]

unfoldable pub write_int32 : ℤ → QueueByteArray → QueueByteArray
write_int32 z q = write_uint32 (unsigned 0x8000_0000 z) q

-- The code reads an `unsigned long`, of 8 bytes, at the address of the `float`, and passes it as an
-- `unsigned int`. `beyond` is what the 4 bytes after the `float` hold.
unfoldable pub write_float : ℕ → ℕ → QueueByteArray → QueueByteArray
write_float beyond w q = write_uint32 ((w + beyond * 2 ^ 32) % 2 ^ 32) q

unfoldable pub write_uint64 : ℕ → QueueByteArray → QueueByteArray
write_uint64 w q = elim q.cur_endian [
  | big_endian ↦ write_uint32 (low_half (2 ^ 32) w) (write_uint32 (w / 2 ^ 32 % 2 ^ 32) q)
  | little_endian ↦ write_uint32 (w / 2 ^ 32 % 2 ^ 32) (write_uint32 (low_half (2 ^ 32) w) q)
]

unfoldable pub write_int64 : ℤ → QueueByteArray → QueueByteArray
write_int64 z q = write_uint64 (unsigned (2 ^ 63) z) q

unfoldable pub write_double : ℕ → QueueByteArray → QueueByteArray
write_double w q = write_uint64 w q

unfoldable pub write_string : List ℕ → QueueByteArray → QueueByteArray
write_string s q =
    if ltb ushrt_max (length s)
    then q
    else (let r = write_uint16 (length s % 2 ^ 16) q in
        record r { bytes_queue = r.bytes_queue ++ take (length s % 2 ^ 16) s })

-- `obj` lists the bytes that the pointer leads to, at least `bytes_len` of them.
unfoldable pub write_object : List ℕ → ℤ → QueueByteArray → QueueByteArray
write_object obj (pos n) q = record q { bytes_queue = q.bytes_queue ++ take n obj }
write_object obj (negsuc n) q = q
