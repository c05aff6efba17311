-- ===== src/Prelude/Bytes.antt =====
-- Words as bytes.
use elegance.Prelude.{ℕ, zero, suc, ◌+◌, ◌*◌, ◌/◌, ◌%◌, ◌^◌, ◌<◌, ◌≡◌, List, [], ◌∷◌, arith}

-- The `n` bytes of a word, lowest first and highest first.
abbrev pub little_bytes : ℕ → ℕ → List ℕ
little_bytes zero w = []
little_bytes (suc n) w = w % 256 ∷ little_bytes n (w / 256)

abbrev pub big_bytes : ℕ → ℕ → List ℕ → List ℕ
big_bytes zero w rest = rest
big_bytes (suc n) w rest = big_bytes n (w / 256) (w % 256 ∷ rest)

-- The word that bytes in memory make on a little-endian machine.
abbrev pub from_little : List ℕ → ℕ
from_little [] = 0
from_little (b ∷ bs) = b + 256 * from_little bs

pub from_little-little_bytes_2 : (w : ℕ) → w < 2 ^ 16 → from_little (little_bytes 2 w) ≡ w
from_little-little_bytes_2 w h = omega arith

pub from_little-little_bytes_4 : (w : ℕ) → w < 2 ^ 32 → from_little (little_bytes 4 w) ≡ w
from_little-little_bytes_4 w h = omega arith

pub from_little-little_bytes_8 : (w : ℕ) → w < 2 ^ 64 → from_little (little_bytes 8 w) ≡ w
from_little-little_bytes_8 w h = omega arith
