-- ===== src/ByteArray/Items.antt =====
-- What the byte arrays hold: a kind of value for each pair of a writer and a reader, the range of
-- its C type, and its bytes.
use elegance.Prelude.{ℕ, ◌*◌, ◌^◌, ◌≤◌, ◌<◌, List, [], ◌∷◌, ◌++◌, arith, length}
use elegance.Prelude.Int.{ℤ, pos, negsuc, unsigned, InRange}
use elegance.Prelude.Bytes.{little_bytes, big_bytes}
use elegance.ByteArray.{Endian, big_endian, little_endian, ushrt_max}

abbrev pub word_bytes : Endian → ℕ → ℕ → List ℕ
word_bytes big_endian n w = big_bytes n w []
word_bytes little_endian n w = little_bytes n w

-- A value for each pair of a writer and a reader.
pub data Item : Type 0 where
  int8 int16 int32 int64 : ℤ → Item
  uint8 uint16 uint32 uint64 float double : ℕ → Item
  string : List ℕ → Item

-- The values that the C types hold, and the strings that `WriteString` accepts.
abbrev pub IsFit : Item → Type 0
IsFit (int8 z) = InRange 0x80 z
IsFit (int16 z) = InRange 0x8000 z
IsFit (int32 z) = InRange 0x8000_0000 z
IsFit (int64 z) = InRange 0x8000_0000_0000_0000 z
IsFit (uint8 n) = n < 256
IsFit (uint16 n) = n < 2 ^ 16
IsFit (uint32 n) = n < 2 ^ 32
IsFit (uint64 n) = n < 2 ^ 64
IsFit (float n) = n < 2 ^ 32
IsFit (double n) = n < 2 ^ 64
IsFit (string s) = length s ≤ ushrt_max

abbrev pub AllFit : List Item → Type 0
AllFit [] = Unit {0}
AllFit (i ∷ is) = IsFit i × AllFit is

-- The bytes of an item, by the byte order of its words.
abbrev pub item_bytes : Endian → Item → List ℕ
item_bytes e (int8 z) = unsigned 0x80 z ∷ []
item_bytes e (int16 z) = word_bytes e 2 (unsigned 0x8000 z)
item_bytes e (int32 z) = word_bytes e 4 (unsigned 0x8000_0000 z)
item_bytes e (int64 z) = word_bytes e 8 (unsigned 0x8000_0000_0000_0000 z)
item_bytes e (uint8 n) = n ∷ []
item_bytes e (uint16 n) = word_bytes e 2 n
item_bytes e (uint32 n) = word_bytes e 4 n
item_bytes e (uint64 n) = word_bytes e 8 n
item_bytes e (float n) = word_bytes e 4 n
item_bytes e (double n) = word_bytes e 8 n
item_bytes e (string s) = word_bytes e 2 (length s) ++ s

abbrev pub items_bytes : Endian → List Item → List ℕ
items_bytes e [] = []
items_bytes e (i ∷ is) = item_bytes e i ++ items_bytes e is

pub unsigned-lt : (half : ℕ) (z : ℤ) → 0 < half → unsigned half z < 2 * half
unsigned-lt half (pos n) h = ground arith
unsigned-lt half (negsuc n) h = ground arith
