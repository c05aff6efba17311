-- ===== src/Prelude/Map.antt =====
-- `std::map` and `std::set`: association lists over the equivalence that a key's comparator
-- induces (two keys are the same if neither is below the other).
use elegance.Prelude.{
  ◌≡◌, refl, Bool, true, false, ◌⊎◌, inl, inr, Option, none, some, List, [], ◌∷◌, arith,
  if◌then◌else◌, ℕ, ◌==◌,
}

-- What a comparator has to give: an equivalence.
pub record Key {ℓ} (K : Type ℓ) : Type ℓ where
  pub same : K → K → Bool
  pub same_refl : (a : K) → same a a ≡ true
  pub same_sym : (a b : K) → same a b ≡ same b a
  pub same_cong : (a b c : K) → same a b ≡ true → same a c ≡ same b c

pub ℕ-same_refl : (a : ℕ) → (a == a) ≡ true
ℕ-same_refl a = ground arith

pub ℕ-same_sym : (a b : ℕ) → (a == b) ≡ (b == a)
ℕ-same_sym a b = ground arith

pub ℕ-same_cong : (a b c : ℕ) → (a == b) ≡ true → (a == c) ≡ (b == c)
ℕ-same_cong a b c h = ground arith

instance abbrev pub nat_key : Key ℕ
nat_key = record {
  same = ◌==◌;
  same_refl = ℕ-same_refl;
  same_sym = ℕ-same_sym;
  same_cong = ℕ-same_cong;
}

abbrev pub Map {ℓ κ} : Type ℓ → Type κ → Type (ℓ ⊔ κ)
Map K V = List (K × V)

module _ {ℓ κ} {K : Type ℓ} {V : Type κ} ⦃e : Key K⦄ where
  -- `m.find(k)`: `none` is `m.end()`.
  unfoldable pub find : K → Map K V → Option V
  find k [] = none
  find k ((j, v) ∷ m) = if e.same k j then some v else find k m

  -- `m[k] = v`: an entry of an equivalent key keeps its key.
  unfoldable pub insert : K → V → Map K V → Map K V
  insert k v [] = (k, v) ∷ []
  insert k v ((j, w) ∷ m) = if e.same k j then (j, v) ∷ m else (j, w) ∷ insert k v m

  -- `m.erase(k)`
  unfoldable pub erase : K → Map K V → Map K V
  erase k [] = []
  erase k ((j, w) ∷ m) = let rest = erase k m in if e.same k j then rest else (j, w) ∷ rest

  -- `m[k]` where it is read: a key that is missing is entered with the default.
  unfoldable pub enter : K → V → Map K V → Map K V
  enter k d m = elim (find k m) [ none ↦ insert k d m | some v ↦ m ]

  unfoldable pub find_or : K → V → Map K V → V
  find_or k d m = elim (find k m) [ none ↦ d | some v ↦ v ]

  pub find-insert :
      (j k : K) (v : V) (m : Map K V)
      → find j (insert k v m) ≡ (if e.same k j then some v else find j m)
  unfolding find insert
  find-insert j k v [] = rw (e.same_sym j k)
  find-insert j k v ((i, w) ∷ m) = ground (
    arith,
    find-insert j k v m,
    e.same_sym j i,
    e.same_sym k i,
    e.same_sym k j,
    e.same_cong k i j,
    e.same_cong j i k,
  )

  pub find-erase :
      (j k : K) (m : Map K V) → find j (erase k m) ≡ (if e.same k j then none else find j m)
  unfolding find erase
  find-erase j k [] = ground arith
  find-erase j k ((i, w) ∷ m) = ground (
    arith,
    find-erase j k m,
    e.same_sym j i,
    e.same_sym k i,
    e.same_sym k j,
    e.same_cong k i j,
    e.same_cong j i k,
  )

  -- Equivalent keys find the same entry.
  pub find-same : (j k : K) (m : Map K V) → e.same j k ≡ true → find j m ≡ find k m
  unfolding find
  find-same j k [] h = refl
  find-same j k ((i, w) ∷ m) h = ground (arith, e.same_cong j k i, find-same j k m)

  pub find-insert_cases :
      (j k : K) (v w : V) (m : Map K V)
      → find j (insert k v m) ≡ some w
      → ((e.same k j ≡ true) × (v ≡ w)) ⊎ (find j m ≡ some w)
  find-insert_cases j k v w m h = split (e.same k j) refl
    where
      split : (b : Bool) → e.same k j ≡ b → ((e.same k j ≡ true) × (v ≡ w)) ⊎ (find j m ≡ some w)
      split true t = inl (t, ground (arith, t, h, find-insert j k v m))
      split false t = inr (ground (arith, t, h, find-insert j k v m))

  pub find-erase_cases :
      (j k : K) (w : V) (m : Map K V)
      → find j (erase k m) ≡ some w
      → (e.same k j ≡ false) × (find j m ≡ some w)
  find-erase_cases j k w m h = split (e.same k j) refl
    where
      split : (b : Bool) → e.same k j ≡ b → (e.same k j ≡ false) × (find j m ≡ some w)
      split true t = absurd (ground (arith, t, h, find-erase j k m))
      split false t = (t, ground (arith, t, h, find-erase j k m))

  pub find-enter :
      (j k : K) (d : V) (m : Map K V)
      → find j (enter k d m) ≡ (if e.same k j then some (find_or k d m) else find j m)
  unfolding enter find_or
  find-enter j k d m = split (find k m) refl
    where
      split :
          (o : Option V)
          → find k m ≡ o
          → find j (elim o [ none ↦ insert k d m | some v ↦ m ])
            ≡ (if e.same k j then some (elim o [ none ↦ d | some v ↦ v ]) else find j m)
      split none h = find-insert j k d m
      split (some v) h = ground (arith, h, find-same k j m)

  pub find-enter_keeps :
      (j k : K) (d v : V) (m : Map K V) → find j m ≡ some v → find j (enter k d m) ≡ some v
  unfolding find_or
  find-enter_keeps j k d v m h = split (find k m) refl
    where
      split : (o : Option V) → find k m ≡ o → find j (enter k d m) ≡ some v
      split none t = ground (arith, t, h, find-enter j k d m, find-same j k m, e.same_sym j k)
      split (some w) t = ground (arith, t, h, find-enter j k d m, find-same j k m, e.same_sym j k)

  pub find-enter_cases :
      (j k : K) (d w : V) (m : Map K V)
      → find j (enter k d m) ≡ some w
      → (d ≡ w) ⊎ (find j m ≡ some w)
  unfolding enter
  find-enter_cases j k d w m h = split (find k m) h
    where
      split :
          (o : Option V)
          → find j (elim o [ none ↦ insert k d m | some v ↦ m ]) ≡ some w
          → (d ≡ w) ⊎ (find j m ≡ some w)
      split none t = elim (find-insert_cases j k d w m t) [ inl p ↦ inl p.1 | inr q ↦ inr q ]
      split (some v) t = inr t

  pub find-insert_same : (k : K) (v : V) (m : Map K V) → find k (insert k v m) ≡ some v
  find-insert_same k v m = ground (arith, find-insert k k v m, e.same_refl k)

  pub find-enter_same : (k : K) (d : V) (m : Map K V) → find k (enter k d m) ≡ some (find_or k d m)
  find-enter_same k d m = ground (arith, find-enter k k d m, e.same_refl k)

  pub find_or-found : (k : K) (d v : V) (m : Map K V) → find k m ≡ some v → find_or k d m ≡ v
  unfolding find_or
  find_or-found k d v m h = rw (find_or, h)

  -- What is found under `j` is still found where `k` is another key.
  pub find-insert_keeps :
      (j k : K) (v w : V) (m : Map K V)
      → e.same k j ≡ false
      → find j m ≡ some w
      → find j (insert k v m) ≡ some w
  find-insert_keeps j k v w m n h = ground (arith, n, h, find-insert j k v m)

  pub find-erase_keeps :
      (j k : K) (w : V) (m : Map K V)
      → e.same k j ≡ false
      → find j m ≡ some w
      → find j (erase k m) ≡ some w
  find-erase_keeps j k w m n h = ground (arith, n, h, find-erase j k m)

  -- An insertion leaves an entry under every key that had one.
  pub find-insert_present :
      (j k : K) (v w : V) (m : Map K V)
      → find j m ≡ some w
      → (x : V) × (find j (insert k v m) ≡ some x)
  find-insert_present j k v w m h = split (e.same k j) refl
    where
      split : (b : Bool) → e.same k j ≡ b → (x : V) × (find j (insert k v m) ≡ some x)
      split true t = (v, ground (arith, t, find-insert j k v m))
      split false t = (w, find-insert_keeps j k v w m t h)

  pub find_or-missing : (k : K) (d : V) (m : Map K V) → find k m ≡ none → find_or k d m ≡ d
  unfolding find_or
  find_or-missing k d m h = rw (find_or, h)
