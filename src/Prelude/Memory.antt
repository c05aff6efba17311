-- ===== src/Prelude/Memory.antt =====
-- Memory as a function of the address, for arrays that are too large to list.
use elegance.Prelude.{
  ℕ, zero, suc, ◌+◌, ◌≤◌, ◌<◌, ◌≡◌, refl, ap, ap₂, ◌∙◌, List, [], ◌∷◌, ◌++◌, arith, length, ◌==◌,
  if◌then◌else◌,
}

abbrev pub Memory : Type 0
Memory = ℕ → ℕ

-- Copies bytes to an address: the loops of `memcpy` and its like.
unfoldable pub store : Memory → ℕ → List ℕ → Memory
store m at [] = m
store m at (b ∷ bs) = store (λ i. if i == at then b else m i) (at + 1) bs

-- The `n` bytes from an address on.
abbrev pub load : Memory → ℕ → ℕ → List ℕ
load m at zero = []
load m at (suc n) = m at ∷ load m (at + 1) n

pub length-load : (m : Memory) (at n : ℕ) → length (load m at n) ≡ n
length-load m at zero = refl
length-load m at (suc n) = ap suc (length-load m (at + 1) n)

pub store-below : (m : Memory) (at : ℕ) (bs : List ℕ) (i : ℕ) → i < at → store m at bs i ≡ m i
unfolding store
store-below m at [] i h = refl
store-below m at (b ∷ bs) i h =
    store-below (λ j. if j == at then b else m j) (at + 1) bs i (omega arith) ∙ ground arith

pub load-store_below :
    (m : Memory) (at : ℕ) (bs : List ℕ) (i n : ℕ)
    → i + n ≤ at
    → load (store m at bs) i n ≡ load m i n
load-store_below m at bs i zero h = refl
load-store_below m at bs i (suc n) h =
    ap₂ ◌∷◌ (store-below m at bs i (omega arith)) (load-store_below m at bs (i + 1) n (omega arith))

pub load-store : (m : Memory) (at : ℕ) (bs : List ℕ) → load (store m at bs) at (length bs) ≡ bs
unfolding store
load-store m at [] = refl
load-store m at (b ∷ bs) =
    ap₂ ◌∷◌ (store-below _ (at + 1) bs at (omega arith) ∙ ground arith)
      (load-store (λ i. if i == at then b else m i) (at + 1) bs)

pub load-add : (m : Memory) (at n k : ℕ) → load m at (n + k) ≡ load m at n ++ load m (at + n) k
load-add m at zero k = ap₂ (load m) (omega arith) (omega arith)
load-add m at (suc n) k =
    let e : suc n + k ≡ suc (n + k) = omega arith in
    let f : at + suc n ≡ at + 1 + n = omega arith in
    rw (e, f) (ap (◌∷◌ (m at)) (load-add m (at + 1) n k))
