-- ===== src/Thread/Pool/Progress.antt =====
-- elegance/platform/thread/thread_pool.cpp: no task is left in a pool that runs while all its
-- workers sleep.
use elegance.Prelude.{
  ℕ, ◌<◌, ◌≡◌, ◌≢◌, ◌⊎◌, inl, inr, refl, ap, sym, ◌∙◌, Bool, true, false, some, List, [], ◌∷◌,
  arith, if◌then◌else◌,
}
use elegance.Thread.Pool.{
  ThreadPool, next_of, next_task, must_wait, Pc, outside, entering, checked, waiting, awake, chosen,
  running, ended, System, has_mutex, Free, move, Step, calls, looks, takes, Reach,
}
use elegance.Thread.Pool.Updates.{update_same, holder_or_Free}
use elegance.Thread.Pool.Sound.{Sound, Reach-Sound}

-- Worker `i` runs a task, or can take a step.
abbrev pub CanMove : ℕ → System → ℕ → Type 0
CanMove n s i =
    ((t : ℕ) × (s.pc i ≡ running t)) ⊎ ((s' : System) × Step n s s' × (s'.pc i ≢ s.pc i))

-- A step of worker `i` to another place.
moves :
    (n : ℕ) (s s' : System) (i : ℕ) (p q : Pc)
    → s.pc i ≡ p
    → s'.pc i ≡ q
    → q ≢ p
    → Step n s s'
    → CanMove n s i
moves n s s' i p q e f d step = inr (s', step, λ x. d (sym f ∙ x ∙ e))

next_task-something :
    (p : ThreadPool)
    → p.is_running ≡ true
    → p.task_list ≢ []
    → (t : ℕ) × (q : ThreadPool) × (next_task p ≡ (some t, q))
unfolding next_task next_of
next_task-something p r some_task = split p.task_list refl
  where
    split :
        (ts : List ℕ) → p.task_list ≡ ts → (t : ℕ) × (q : ThreadPool) × (next_of ts p ≡ (some t, q))
    split [] e = absurd (some_task e)
    split (t ∷ ts) e = (t, record p { task_list = ts }, rw r)

-- The worker that holds the mutex goes on.
holder-CanMove :
    (n : ℕ) (s : System) (i : ℕ)
    → i < n
    → has_mutex (s.pc i) ≡ true
    → Sound n s
    → s.pool.is_running ≡ true
    → s.pool.task_list ≢ []
    → CanMove n s i
holder-CanMove n s i h held w r some_task = split (s.pc i) refl held
  where
    split : (p : Pc) → s.pc i ≡ p → has_mutex p ≡ true → CanMove n s i
    split checked e x = absurd (some_task (w.checked_empty i h e))
    split chosen e x =
        let (t, q, first) = next_task-something s.pool r some_task in
        moves n s _ i chosen (running t) e (update_same s.pc i (running t))
          (λ y. absurd (ground (arith, y))) (takes i t q h e first)
    split outside e x = absurd (ground (arith, x))
    split entering e x = absurd (ground (arith, x))
    split waiting e x = absurd (ground (arith, x))
    split awake e x = absurd (ground (arith, x))
    split (running t) e x = absurd (ground (arith, x))
    split ended e x = absurd (ground (arith, x))

-- One that wants the mutex takes it if it is free.
looks-CanMove :
    (n : ℕ) (s : System) (i : ℕ)
    → i < n
    → (s.pc i ≡ entering) ⊎ (s.pc i ≡ awake)
    → Free n s.pc
    → CanMove n s i
looks-CanMove n s i h wants free = inr (
  move i (if must_wait s.pool then checked else chosen) s,
  looks i h wants free,
  λ x. absurd (
      ground (
        arith,
        free i h,
        ap has_mutex x,
        held (must_wait s.pool),
        ap has_mutex (update_same s.pc i (if must_wait s.pool then checked else chosen)),
      )),
)
  where
    held : (b : Bool) → has_mutex (if b then checked else chosen) ≡ true
    held true = refl
    held false = refl

-- A pool with a task in its list makes progress, as long as it runs: in every state that it comes
-- to, some worker runs a task, or can take a step to another place. So the workers do not all sleep
-- while there is something to do; no signal of `AddTask` is lost.
pub Reach-progress :
    {n : ℕ}
    → {s : System} → Reach n s
    → s.pool.is_running ≡ true
    → s.pool.task_list ≢ []
    → (i : ℕ) × (i < n) × CanMove n s i
Reach-progress {n = n} {s = s} reach r some_task = elim (Reach-Sound reach).1.up [
  | inl e ↦ absurd (some_task e)
  | inr (i, h, up) ↦ split i h up (s.pc i) refl
]
  where
    w : Sound n s
    w = (Reach-Sound reach).1

    locked :
        (i : ℕ) → i < n → (s.pc i ≡ entering) ⊎ (s.pc i ≡ awake) → (j : ℕ) × (j < n) × CanMove n s j
    locked i h wants = elim (holder_or_Free n s.pc) [
      | inl (j, hj, held) ↦ (j, hj, holder-CanMove n s j hj held w r some_task)
      | inr free ↦ (i, h, looks-CanMove n s i h wants free)
    ]

    split :
        (i : ℕ)
        → i < n
        → s.pc i ≢ waiting
        → (p : Pc) → s.pc i ≡ p
        → (j : ℕ) × (j < n) × CanMove n s j
    split i h up outside e = (
      i,
      h,
      moves n s (move i (if s.pool.is_running then entering else ended) s) i outside entering e
          (update_same s.pc i _ ∙ ap (λ b. if b then entering else ended) r)
          (λ y. absurd (ground (arith, y))) (calls i h e),
    )
    split i h up entering e = locked i h (inl e)
    split i h up awake e = locked i h (inr e)
    split i h up waiting e = absurd (up e)
    split i h up checked e = (i, h, holder-CanMove n s i h (ap has_mutex e) w r some_task)
    split i h up chosen e = (i, h, holder-CanMove n s i h (ap has_mutex e) w r some_task)
    split i h up (running t) e = (i, h, inl (t, e))
    split i h up ended e = absurd (w.none_ended r i h e)
