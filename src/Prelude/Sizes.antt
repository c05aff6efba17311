-- ===== src/Prelude/Sizes.antt =====
-- `std::map`: how many entries there are, where no two have the same key.
use elegance.Prelude.{
  suc, ◌≡◌, refl, ap, ◌∙◌, Bool, true, false, none, some, [], ◌∷◌, arith, length, if◌then◌else◌,
}
use elegance.Prelude.Map.{Key, Map, find, insert, erase, find-insert, find-erase, find-same}

module _ {ℓ κ} {K : Type ℓ} {V : Type κ} ⦃e : Key K⦄ where
  abbrev pub Distinct : Map K V → Type κ
  Distinct [] = Unit
  Distinct ((k, v) ∷ m) = (find k m ≡ none) × Distinct m

  pub insert-Distinct : (k : K) (v : V) (m : Map K V) → Distinct m → Distinct (insert k v m)
  unfolding insert find
  insert-Distinct k v [] h = (refl, tt)
  insert-Distinct k v ((j, w) ∷ m) h = split (e.same k j) refl (insert-Distinct k v m h.1)
    where
      split :
          (b : Bool)
          → e.same k j ≡ b
          → Distinct (insert k v m)
          → Distinct (if b then (j, v) ∷ m else (j, w) ∷ insert k v m)
      split true t d = h
      split false t d = (ground (arith, t, h.0, find-insert j k v m), d)

  pub erase-Distinct : (k : K) (m : Map K V) → Distinct m → Distinct (erase k m)
  unfolding erase
  erase-Distinct k [] h = tt
  erase-Distinct k ((j, w) ∷ m) h = split (e.same k j) refl (erase-Distinct k m h.1)
    where
      split :
          (b : Bool)
          → e.same k j ≡ b
          → Distinct (erase k m)
          → Distinct (if b then erase k m else (j, w) ∷ erase k m)
      split true t d = d
      split false t d = (ground (arith, t, h.0, find-erase j k m), d)

  pub length-insert :
      (k : K) (v : V) (m : Map K V) → find k m ≡ none → length (insert k v m) ≡ suc (length m)
  unfolding insert find
  length-insert k v [] h = refl
  length-insert k v ((j, w) ∷ m) h = ground (arith, length-insert k v m)

  length-erase-none : (k : K) (m : Map K V) → find k m ≡ none → length (erase k m) ≡ length m
  unfolding erase find
  length-erase-none k [] h = refl
  length-erase-none k ((j, w) ∷ m) h = ground (arith, length-erase-none k m)

  pub length-erase :
      (k : K) (v : V) (m : Map K V)
      → Distinct m
      → find k m ≡ some v
      → suc (length (erase k m)) ≡ length m
  unfolding erase find
  length-erase k v [] d h = absurd (ground (arith, h))
  length-erase k v ((j, w) ∷ m) d h = split (e.same k j) refl h (length-erase k v m d.1)
    where
      split :
          (b : Bool)
          → e.same k j ≡ b
          → (if b then some w else find k m) ≡ some v
          → (find k m ≡ some v → suc (length (erase k m)) ≡ length m)
          → suc (length (if b then erase k m else (j, w) ∷ erase k m)) ≡ suc (length m)
      split true t found rec = ap suc (length-erase-none k m (find-same k j m t ∙ d.0))
      split false t found rec = ap suc (rec found)
