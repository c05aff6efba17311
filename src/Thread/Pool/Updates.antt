-- ===== src/Thread/Pool/Updates.antt =====
-- elegance/platform/thread/thread_pool.cpp: where the workers are, after some of them have moved.
use elegance.Prelude.{
  ℕ, zero, suc, ◌<◌, ◌≡◌, ◌≢◌, ◌⊎◌, inl, inr, refl, sym, subst, Bool, true, false, arith, ◌==◌,
  if◌then◌else◌, Bool-cases,
}
use elegance.Thread.Pool.{
  Pc, outside, entering, checked, waiting, awake, chosen, running, ended, update, has_mutex, All,
  Free, wake,
}

-- What is said of every worker after one has moved: of that one, and of the others.
pub All-update :
    (n : ℕ) (pc : ℕ → Pc) (i : ℕ) (p : Pc) (P : Pc → Type 0)
    → ((j : ℕ) → j < n → j ≢ i → P (pc j))
    → P p
    → All n (update pc i p) P
unfolding update
All-update n pc i p P others this j h = split (j == i) refl
  where
    split : (b : Bool) → (j == i) ≡ b → P (if b then p else pc j)
    split true e = this
    split false e = others j h (λ same. absurd (ground arith))

pub update_same : (pc : ℕ → Pc) (i : ℕ) (p : Pc) → update pc i p i ≡ p
unfolding update
update_same pc i p = ground arith

pub update_other : (pc : ℕ → Pc) (i j : ℕ) (p : Pc) → j ≢ i → update pc i p j ≡ pc j
unfolding update
update_other pc i j p h = ground arith

-- Some worker holds the mutex, or none does.
pub holder_or_Free :
    (n : ℕ) (pc : ℕ → Pc) → ((j : ℕ) × (j < n) × (has_mutex (pc j) ≡ true)) ⊎ Free n pc
holder_or_Free zero pc = inr (λ i h. absurd (omega arith))
holder_or_Free (suc n) pc = elim (holder_or_Free n pc) [
  | inl (j, h, e) ↦ inl (j, omega arith, e)
  | inr f ↦ (elim (Bool-cases (has_mutex (pc n))) [
    | inl t ↦ inl (n, omega arith, t)
    | inr g ↦ inr (λ i h. elim (Bool-cases (i == n)) [
      | inl e ↦ subst (λ k. has_mutex (pc k) ≡ false) (ground (arith, e)) g
      | inr e ↦ f i (ground (arith, e, h))
    ])
  ])
]

-- Waking the waiting changes nothing else.
pub wake_back : (p q : Pc) → wake p ≡ q → q ≢ awake → p ≡ q
wake_back outside q e f = e
wake_back entering q e f = e
wake_back checked q e f = e
wake_back waiting q e f = absurd (f (sym e))
wake_back awake q e f = e
wake_back chosen q e f = e
wake_back (running t) q e f = e
wake_back ended q e f = e

pub has_mutex-wake : (p : Pc) → has_mutex (wake p) ≡ has_mutex p
has_mutex-wake outside = refl
has_mutex-wake entering = refl
has_mutex-wake checked = refl
has_mutex-wake waiting = refl
has_mutex-wake awake = refl
has_mutex-wake chosen = refl
has_mutex-wake (running t) = refl
has_mutex-wake ended = refl
