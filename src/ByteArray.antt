-- ===== src/ByteArray.antt =====
-- elegance/memory/byte_array/byte_array.hpp: what the byte arrays share.
pub mod Items
pub mod Queue
pub mod Static
pub mod Transfer
pub mod Interop
use elegance.Prelude.{ℕ, ◌≤◌, ◌<◌, ◌≡◌, List, [], Option, some, length, take, drop}

-- `enum class Endian`
pub data Endian : Type 0 where
  big_endian little_endian : Endian

-- The part of the class `ByteArray` that another array reads through (`ReadFromByteArray` takes a
-- `ByteArray *`): `BytesAvailable` and `ReadObject`. The outer `none` is undefined behaviour, the
-- inner one a null result.
pub record Source (S : Type 0) : Type 0 where
  pub bytes_available : S → ℕ
  pub read_object : S → ℕ → Option (Option (List ℕ) × S)

-- What a reader may rely on: a request of at most the bytes that are there, and of none only where
-- there are none, takes them off the front.
pub record Lawful (S : Type 0) ⦃src : Source S⦄ : Type 1 where
  pub IsValid : S → Type 0
  pub contents : S → List ℕ
  pub available : (s : S) → src.bytes_available s ≡ length (contents s)
  pub reads :
      (s : S) (n : ℕ)
      → IsValid s
      → 0 < n
      → n ≤ length (contents s)
      → (t : S) × (src.read_object s n ≡ some (some (take n (contents s)), t))
        × (contents t ≡ drop n (contents s))
        × IsValid t
  pub reads_nothing :
      (s : S)
      → IsValid s
      → contents s ≡ []
      → (t : S) × (obj : Option (List ℕ)) × (src.read_object s 0 ≡ some (obj, t))
        × (contents t ≡ [])
        × IsValid t

-- USHRT_MAX, the longest string that `QueueByteArray` writes.
abbrev pub ushrt_max : ℕ
ushrt_max = 65535
