-- ===== src/Prelude/Int.antt =====
-- Signed integers over the native numbers, and the C views of machine words.
use elegance.Prelude.{ℕ, suc, ◌+◌, ◌-◌, ◌%◌, ◌*◌, ◌<◌, ◌≡◌, Bool, arith, ltb, leb, if◌then◌else◌}

-- `negsuc n` is -(n + 1).
pub data ℤ : Type 0 where
  pos : ℕ → ℤ
  negsuc : ℕ → ℤ

abbrev pub pos_part : ℤ → ℕ
pos_part (pos n) = n
pos_part (negsuc n) = 0

abbrev pub neg_part : ℤ → ℕ
neg_part (pos n) = 0
neg_part (negsuc n) = suc n

-- INT_MAX
abbrev pub int_max : ℕ
int_max = 2147483647

-- a - b, as an integer.
abbrev pub sub_ℕ : ℕ → ℕ → ℤ
sub_ℕ a b = if leb b a then pos (a - b) else negsuc (b - a - 1)

abbrev pub ltb_ℤ : ℤ → ℤ → Bool
ltb_ℤ a b = ltb (pos_part a + neg_part b) (pos_part b + neg_part a)

-- The value that a bit pattern below 2 * `half` has as a signed integer of that width.
abbrev pub signed : ℕ → ℕ → ℤ
signed half w = if ltb w half then pos w else negsuc (2 * half - w - 1)

-- The bit pattern of a signed integer: its residue modulo 2 * `half`.
abbrev pub unsigned : ℕ → ℤ → ℕ
unsigned half (pos n) = n % (2 * half)
unsigned half (negsuc n) = 2 * half - 1 - n % (2 * half)

-- The integers of the width.
abbrev pub InRange : ℕ → ℤ → Type 0
InRange half (pos n) = n < half
InRange half (negsuc n) = n < half

pub signed-unsigned_8 : (z : ℤ) → InRange 0x80 z → signed 0x80 (unsigned 0x80 z) ≡ z
signed-unsigned_8 (pos n) h = ground arith
signed-unsigned_8 (negsuc n) h = ground arith

pub signed-unsigned_16 : (z : ℤ) → InRange 0x8000 z → signed 0x8000 (unsigned 0x8000 z) ≡ z
signed-unsigned_16 (pos n) h = ground arith
signed-unsigned_16 (negsuc n) h = ground arith

pub signed-unsigned_32 :
    (z : ℤ) → InRange 0x8000_0000 z → signed 0x8000_0000 (unsigned 0x8000_0000 z) ≡ z
signed-unsigned_32 (pos n) h = ground arith
signed-unsigned_32 (negsuc n) h = ground arith

pub signed-unsigned_64 :
    (z : ℤ)
    → InRange 0x8000_0000_0000_0000 z
    → signed 0x8000_0000_0000_0000 (unsigned 0x8000_0000_0000_0000 z) ≡ z
signed-unsigned_64 (pos n) h = ground arith
signed-unsigned_64 (negsuc n) h = ground arith
