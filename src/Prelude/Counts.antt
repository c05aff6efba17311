-- ===== src/Prelude/Counts.antt =====
-- How often a number stands in a list or is a key of a map.
use elegance.Prelude.{
  ℕ, suc, ◌+◌, ◌≤◌, ◌≡◌, Option, none, some, List, [], ◌∷◌, arith, ◌==◌, if◌then◌else◌, ap, ◌∙◌,
  if_map,
}
use elegance.Prelude.Map.{Map, find, insert, erase, find-insert, find-erase, nat_key}

abbrev pub count : ℕ → List ℕ → ℕ
count n [] = 0
count n (k ∷ ks) = (if k == n then 1 else 0) + count n ks

pub count-head : (id : ℕ) (ids : List ℕ) → count id (id ∷ ids) ≡ suc (count id ids)
count-head id ids = ground arith

pub count-tail : (j id : ℕ) (ids : List ℕ) → count j ids ≤ count j (id ∷ ids)
count-tail j id ids = omega arith

abbrev pub present : {A : Type 0} → Option A → ℕ
present none = 0
present (some a) = 1

pub present-insert :
    {A : Type 0}
    → (j k : ℕ) (v : A) (m : Map ℕ A)
    → present (find j (insert k v m)) ≡ (if k == j then 1 else present (find j m))
present-insert j k v m =
    ap present (find-insert j k v m) ∙ if_map (k == j) present (some v) (find j m)

pub present-erase :
    {A : Type 0}
    → (j k : ℕ) (m : Map ℕ A)
    → present (find j (erase k m)) ≡ (if k == j then 0 else present (find j m))
present-erase j k m = ap present (find-erase j k m) ∙ if_map (k == j) present none (find j m)
