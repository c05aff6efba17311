-- ===== src/ByteArray/Static.antt =====
-- elegance/memory/byte_array/static_byte_array.hpp and .cpp: a byte array over a fixed buffer with a
-- read and a write position. `none` is an access outside the buffer, or a sum of lengths that is no
-- `int`. The machine is little endian, and the source ignores the endianness that is set.
-- `ShowAllBytes`, which only prints, and the error print of `ReadString` are left out.
pub mod Safety
pub mod Script
pub mod Access
pub mod RoundTrip
pub mod Overlong
pub mod Total
use elegance.Prelude.{
  ℕ, zero, suc, ◌+◌, ◌-◌, ◌*◌, ◌%◌, ◌^◌, Option, none, some, List, [], ◌∷◌, length, take, ltb, leb,
  ◌==◌, if◌then◌else◌, ◌||◌,
}
use elegance.Prelude.Int.{ℤ, int_max, pos, negsuc, signed, unsigned}
use elegance.Prelude.Bytes.{little_bytes, from_little}
use elegance.Prelude.Memory.{Memory, store, load}
use elegance.ByteArray.{Endian, little_endian}

-- MAX_MSG_LENGTH, 1024 * 256
abbrev pub max_msg_length : ℕ
max_msg_length = 262144

-- STRING_LENGTH_BYTE_SIZE
abbrev pub string_length_byte_size : ℕ
string_length_byte_size = 2

-- `none` is undefined behaviour.
abbrev pub Faulty : Type 0 → Type 0
Faulty A = Option A

infixl 5 ◌>>=◌
abbrev pub ◌>>=◌ : {A B : Type 0} → Faulty A → (A → Faulty B) → Faulty B
none >>= f = none
some a >>= f = f a

pub record StaticByteArray : Type 0 where
  pub cur_endian : Endian
  pub buffer_cache : Memory
  pub has_read_length : ℕ
  pub has_write_length : ℕ

-- The constructor.
unfoldable pub new_static : StaticByteArray
new_static = record {
  cur_endian = little_endian;
  buffer_cache = λ i. 0;
  has_read_length = 0;
  has_write_length = 0;
}

unfoldable pub bytes_available : StaticByteArray → ℕ
bytes_available s = s.has_write_length - s.has_read_length

unfoldable pub clear : StaticByteArray → StaticByteArray
clear s = record s { buffer_cache = λ i. 0; has_read_length = 0; has_write_length = 0 }

-- Copies bytes to the write position and moves it.
unfoldable pub put_bytes : List ℕ → StaticByteArray → Faulty StaticByteArray
put_bytes bs s =
    if ltb max_msg_length (s.has_write_length + length bs)
    then none
    else some (record s {
      buffer_cache = store s.buffer_cache s.has_write_length bs;
      has_write_length = s.has_write_length + length bs;
    })

-- Copies `n` bytes from the read position and moves it.
unfoldable pub get_bytes : ℕ → StaticByteArray → Faulty (List ℕ × StaticByteArray)
get_bytes n s =
    if ltb max_msg_length (s.has_read_length + n)
    then none
    else some (
      load s.buffer_cache s.has_read_length n,
      record s { has_read_length = s.has_read_length + n },
    )

-- `WriteItemToBuffer<T>`, for a type of `n` bytes.
unfoldable pub write_item_to_buffer : ℕ → ℕ → StaticByteArray → Faulty StaticByteArray
write_item_to_buffer n w s = put_bytes (little_bytes n w) s

-- `ReadItemFromBuffer<T>`
unfoldable pub read_item_from_buffer : ℕ → StaticByteArray → Faulty (ℕ × StaticByteArray)
read_item_from_buffer n s = do (bs, r) ← get_bytes n s; some (from_little bs, r)

-- The macro READNUM, which is the body of every reader of a number.
unfoldable pub read_num : ℕ → StaticByteArray → Faulty (ℕ × StaticByteArray)
read_num n s =
    if ltb s.has_write_length (s.has_read_length + n)
    then some (0, s)
    else read_item_from_buffer n s

-- The macro WRITENUM.
unfoldable pub write_num : ℕ → ℕ → StaticByteArray → Faulty StaticByteArray
write_num n w s =
    if ltb max_msg_length (s.has_write_length + n) then some s else write_item_to_buffer n w s

-- `ReadUint8`, `ReadUint16`, `ReadUint32` and `ReadUint64`; `ReadFloat` and `ReadDouble` as bits.
abbrev pub read_uint8 : StaticByteArray → Faulty (ℕ × StaticByteArray)
read_uint8 = read_num 1

abbrev pub read_uint16 : StaticByteArray → Faulty (ℕ × StaticByteArray)
read_uint16 = read_num 2

abbrev pub read_uint32 : StaticByteArray → Faulty (ℕ × StaticByteArray)
read_uint32 = read_num 4

abbrev pub read_uint64 : StaticByteArray → Faulty (ℕ × StaticByteArray)
read_uint64 = read_num 8

-- The signed readers: the same bytes at a signed type.
unfoldable pub read_signed : ℕ → ℕ → StaticByteArray → Faulty (ℤ × StaticByteArray)
read_signed n half s = do (w, r) ← read_num n s; some (signed half w, r)

abbrev pub read_int8 : StaticByteArray → Faulty (ℤ × StaticByteArray)
read_int8 = read_signed 1 0x80

abbrev pub read_int16 : StaticByteArray → Faulty (ℤ × StaticByteArray)
read_int16 = read_signed 2 0x8000

abbrev pub read_int32 : StaticByteArray → Faulty (ℤ × StaticByteArray)
read_int32 = read_signed 4 0x8000_0000

abbrev pub read_int64 : StaticByteArray → Faulty (ℤ × StaticByteArray)
read_int64 = read_signed 8 0x8000_0000_0000_0000

abbrev pub write_uint8 : ℕ → StaticByteArray → Faulty StaticByteArray
write_uint8 = write_num 1

abbrev pub write_uint16 : ℕ → StaticByteArray → Faulty StaticByteArray
write_uint16 = write_num 2

abbrev pub write_uint32 : ℕ → StaticByteArray → Faulty StaticByteArray
write_uint32 = write_num 4

abbrev pub write_uint64 : ℕ → StaticByteArray → Faulty StaticByteArray
write_uint64 = write_num 8

unfoldable pub write_signed : ℕ → ℕ → ℤ → StaticByteArray → Faulty StaticByteArray
write_signed n half z s = write_num n (unsigned half z) s

abbrev pub write_int8 : ℤ → StaticByteArray → Faulty StaticByteArray
write_int8 = write_signed 1 0x80

abbrev pub write_int16 : ℤ → StaticByteArray → Faulty StaticByteArray
write_int16 = write_signed 2 0x8000

abbrev pub write_int32 : ℤ → StaticByteArray → Faulty StaticByteArray
write_int32 = write_signed 4 0x8000_0000

abbrev pub write_int64 : ℤ → StaticByteArray → Faulty StaticByteArray
write_int64 = write_signed 8 0x8000_0000_0000_0000

-- `std::string(const char *)`: up to the first null byte.
unfoldable pub c_string : List ℕ → List ℕ
c_string [] = []
c_string (b ∷ bs) = if b == 0 then [] else b ∷ c_string bs

-- The body of `ReadString` behind the length that it has read.
unfoldable pub read_string_body : ℕ → ℕ → StaticByteArray → Faulty (List ℕ × StaticByteArray)
read_string_body str_len valid s =
    if ltb valid str_len
    then some ([], s)
    else (do (bs, r) ← get_bytes str_len s; some (c_string bs, r))

unfoldable pub read_string : StaticByteArray → Faulty (List ℕ × StaticByteArray)
read_string s =
    if ltb (s.has_write_length - s.has_read_length) string_length_byte_size
    then some ([], s)
    else (do
      (str_len, r) ← read_uint16 s
      read_string_body str_len (s.has_write_length - s.has_read_length - string_length_byte_size) r)

-- The inner `none` is the null pointer.
unfoldable pub read_object : StaticByteArray → ℕ → Faulty (Option (List ℕ) × StaticByteArray)
read_object s size =
    if size == 0 || ltb (s.has_write_length - s.has_read_length) size
    then some (none, s)
    else (do (bs, r) ← get_bytes size s; some (some bs, r))

-- The length goes through `WriteUint16`, which keeps its low 16 bits. A string that makes the sum no
-- `int` is `none`.
unfoldable pub write_string : List ℕ → StaticByteArray → Faulty StaticByteArray
write_string str s =
    if ltb int_max (s.has_write_length + length str + string_length_byte_size)
    then none
    else if ltb max_msg_length (s.has_write_length + length str + string_length_byte_size)
    then some s
    else (do r ← write_uint16 (length str % 2 ^ 16) s; put_bytes str r)

-- `obj` lists the bytes that the pointer leads to, at least `bytes_len` of them. The test lets a
-- negative length through, and `memcpy` takes it for a huge one.
unfoldable pub write_object : List ℕ → ℤ → StaticByteArray → Faulty StaticByteArray
write_object obj (pos n) s =
    if ltb int_max (s.has_write_length + n)
    then none
    else if ltb max_msg_length (s.has_write_length + n)
    then some s
    else put_bytes (take n obj) s
write_object obj (negsuc n) s =
    if ltb (max_msg_length + suc n) s.has_write_length then some s else none
