-- ===== src/Thread/Pool/Sound.antt =====
-- elegance/platform/thread/thread_pool.cpp: what holds of a pool in every interleaving.
use elegance.Prelude.{
  ℕ, ◌<◌, ◌≡◌, ◌≢◌, ◌⊎◌, inl, inr, refl, ap, sym, ◌∙◌, Bool, true, false, none, List, [], ◌∷◌,
  arith, ◌==◌, if◌then◌else◌, ◌&&◌, Bool-cases,
}
use elegance.Thread.Pool.{
  ThreadPool, next_of, next_task, must_wait, add_task, Pc, outside, entering, checked, waiting,
  awake, chosen, running, ended, System, update, has_mutex, All, Free, Signals, one, nobody, wake,
  move, no_task, Exit, joining, Step, calls, looks, waits, takes, gives_up, finishes, add_called,
  add_pushed, stop_clears, stop_unsets, stop_broadcasts, stop_returns, Reach, start, later, woken,
  started,
}
use elegance.Thread.Pool.Order.{next_task-first, run-started}
use elegance.Thread.Pool.Updates.{All-update, update_same, update_other, wake_back, has_mutex-wake}

-- What holds of a pool with `n` workers in the mean time.
pub record Sound (n : ℕ) (s : System) : Type 0 where
  -- The mutex has one owner.
  pub unique :
      (i j : ℕ) → i < n → j < n → has_mutex (s.pc i) ≡ true → has_mutex (s.pc j) ≡ true → i ≡ j
  pub none_ended : s.pool.is_running ≡ true → All n s.pc (λ p. p ≢ ended)
  pub checked_empty : All n s.pc (λ p. p ≡ checked → s.pool.task_list ≡ [])
  pub chosen_some : s.pool.is_running ≡ true → All n s.pc (λ p. p ≡ chosen → s.pool.task_list ≢ [])
  -- With a task in the list, some worker does not wait.
  pub up : (s.pool.task_list ≡ []) ⊎ ((i : ℕ) × (i < n) × (s.pc i ≢ waiting))

-- A worker moves, and the list stays.
move-Sound :
    (n : ℕ) (s : System) (i : ℕ) (p : Pc)
    → i < n
    → (has_mutex p ≡ false) ⊎ Free n s.pc
    → (s.pool.is_running ≡ true → p ≢ ended)
    → (p ≡ checked → s.pool.task_list ≡ [])
    → (s.pool.is_running ≡ true → p ≡ chosen → s.pool.task_list ≢ [])
    → (s.pool.task_list ≡ []) ⊎ (p ≢ waiting)
    → Sound n s
    → Sound n (move i p s)
move-Sound n s i p h lock alive checks chooses up' w = record {
  unique = λ j k hj hk ej ek. owner j k hj hk ej ek lock;
  none_ended =
      λ r. All-update n s.pc i p (λ q. q ≢ ended) (λ j hj d. w.none_ended r j hj) (alive r);
  checked_empty =
      All-update n s.pc i p (λ q. q ≡ checked → s.pool.task_list ≡ [])
        (λ j hj d. w.checked_empty j hj) checks;
  chosen_some = λ r.
      All-update n s.pc i p (λ q. q ≡ chosen → s.pool.task_list ≢ [])
        (λ j hj d. w.chosen_some r j hj) (chooses r);
  up = elim up' [ inl e ↦ inl e | inr f ↦ inr (i, h, λ e. f (sym (update_same s.pc i p) ∙ e)) ];
}
  where
    -- Only the worker itself may hold it anew.
    only : Free n s.pc → (j : ℕ) → j < n → has_mutex (update s.pc i p j) ≡ true → j ≡ i
    only free j hj e = elim (Bool-cases (j == i)) [
      | inl t ↦ ground (arith, t)
      | inr f ↦ absurd (
          let d : j ≢ i = ground (arith, f) in
          ground (arith, e, free j hj, ap has_mutex (update_other s.pc i j p d)))
    ]

    was :
        has_mutex p ≡ false
        → (j : ℕ) → j < n
        → has_mutex (update s.pc i p j) ≡ true
        → has_mutex (s.pc j) ≡ true
    was gone j hj e = elim (Bool-cases (j == i)) [
      | inl t ↦ absurd (
          let same : j ≡ i = ground (arith, t) in
          ground (
            arith,
            sym e
                ∙ ap (λ k. has_mutex (update s.pc i p k)) same
                ∙ ap has_mutex (update_same s.pc i p)
                ∙ gone,
          ))
      | inr f ↦
          (let d : j ≢ i = ground (arith, f) in ap has_mutex (sym (update_other s.pc i j p d)) ∙ e)
    ]

    owner :
        (j k : ℕ)
        → j < n
        → k < n
        → has_mutex (update s.pc i p j) ≡ true
        → has_mutex (update s.pc i p k) ≡ true
        → (has_mutex p ≡ false) ⊎ Free n s.pc
        → j ≡ k
    owner j k hj hk ej ek (inl gone) = w.unique j k hj hk (was gone j hj ej) (was gone k hk ek)
    owner j k hj hk ej ek (inr free) = only free j hj ej ∙ sym (only free k hk ek)

-- Where no worker holds the mutex.
Free-Sound :
    (n : ℕ) (s : System)
    → Free n s.pc
    → (s.pool.is_running ≡ true → All n s.pc (λ p. p ≢ ended))
    → (s.pool.task_list ≡ []) ⊎ ((i : ℕ) × (i < n) × (s.pc i ≢ waiting))
    → Sound n s
Free-Sound n s free alive up' = record {
  unique = λ i j hi hj ei ej. absurd (ground (arith, ei, free i hi));
  none_ended = alive;
  checked_empty = λ i h e. absurd (ground (arith, ap has_mutex e, free i h));
  chosen_some = λ r i h e. absurd (ground (arith, ap has_mutex e, free i h));
  up = up';
}

Signals-Free : {n : ℕ} → {pc pc' : ℕ → Pc} → Signals n pc pc' → Free n pc → Free n pc'
Signals-Free {n = n} {pc = pc} (one i h e) free =
    All-update n pc i awake (λ p. has_mutex p ≡ false) (λ j hj d. free j hj) refl
Signals-Free (nobody none_waits) free = free

Signals-alive :
    {n : ℕ}
    → {pc pc' : ℕ → Pc} → Signals n pc pc'
    → All n pc (λ p. p ≢ ended)
    → All n pc' (λ p. p ≢ ended)
Signals-alive {n = n} {pc = pc} (one i h e) alive =
    All-update n pc i awake (λ p. p ≢ ended) (λ j hj d. alive j hj)
      (λ e. absurd (ground (arith, e)))
Signals-alive (nobody none_waits) alive = alive

-- Behind a signal some worker does not wait.
Signals-up :
    {n : ℕ} → {pc pc' : ℕ → Pc} → 0 < n → Signals n pc pc' → (i : ℕ) × (i < n) × (pc' i ≢ waiting)
Signals-up {pc = pc} some_worker (one i h e) =
    (i, h, λ e'. absurd (ground (arith, sym (update_same pc i awake) ∙ e')))
Signals-up some_worker (nobody none_waits) = (0, some_worker, none_waits 0 some_worker)

-- `next_task` gives nothing to a worker that may go on only where nothing runs.
next_task-nothing :
    (p q : ThreadPool) → next_task p ≡ (none, q) → p.is_running ≡ true → p.task_list ≡ []
unfolding next_task next_of
next_task-nothing p q h r = split p.task_list h
  where
    split : (ts : List ℕ) → next_of ts p ≡ (none, q) → ts ≡ []
    split [] e = refl
    split (t ∷ ts) e = absurd (ground (arith, ap (λ x. x.0) e, r))

takes-Sound :
    (n : ℕ) (s : System) (i t : ℕ) (p : ThreadPool) (l : List Exit)
    → i < n
    → s.pc i ≡ chosen
    → p.is_running ≡ s.pool.is_running
    → Sound n s
    → Sound n (move i (running t) (record s { pool = p; left = l }))
takes-Sound n s i t p l h e same w =
    Free-Sound n (move i (running t) (record s { pool = p; left = l }))
      (All-update n s.pc i (running t) (λ q. has_mutex q ≡ false) others refl)
      (λ r.
        All-update n s.pc i (running t) (λ q. q ≢ ended)
          (λ j hj d. w.none_ended (sym same ∙ r) j hj) (λ x. absurd (ground (arith, x))))
      (inr (i, h, λ x. absurd (ground (arith, sym (update_same s.pc i (running t)) ∙ x))))
  where
    others : (j : ℕ) → j < n → j ≢ i → has_mutex (s.pc j) ≡ false
    others j hj d = elim (Bool-cases (has_mutex (s.pc j))) [
      | inl x ↦ absurd (d (w.unique j i hj h x (ap has_mutex e)))
      | inr x ↦ x
    ]

looks-Sound :
    (n : ℕ) (s : System) (i : ℕ)
    → i < n
    → Free n s.pc
    → Sound n s
    → Sound n (move i (if must_wait s.pool then checked else chosen) s)
unfolding must_wait
looks-Sound n s i h free w = split s.pool.task_list s.pool.is_running refl refl
  where
    waits_now : s.pool.task_list ≡ [] → Sound n (move i checked s)
    waits_now empty =
        move-Sound n s i checked h (inr free) (λ r x. absurd (ground (arith, x))) (λ x. empty)
          (λ r x. absurd (ground (arith, x))) (inl empty) w

    goes_on : (s.pool.is_running ≡ true → s.pool.task_list ≢ []) → Sound n (move i chosen s)
    goes_on some_task =
        move-Sound n s i chosen h (inr free) (λ r x. absurd (ground (arith, x)))
          (λ x. absurd (ground (arith, x))) (λ r x. some_task r)
          (inr (λ x. absurd (ground (arith, x)))) w

    split :
        (ts : List ℕ) (b : Bool)
        → s.pool.task_list ≡ ts
        → s.pool.is_running ≡ b
        → Sound n (move i (if no_task ts && b then checked else chosen) s)
    split [] true e f = waits_now e
    split [] false e f = goes_on (λ r. absurd (ground (arith, f, r)))
    split (t ∷ ts) b e f = goes_on (λ r x. absurd (ground (arith, sym e ∙ x)))

wake-Sound :
    (n : ℕ) (s : System)
    → Sound n s
    → Sound n (record s { pc = λ i. wake (s.pc i); stopping = joining })
wake-Sound n s w = record {
  unique = λ i j hi hj ei ej.
      w.unique i j hi hj (sym (has_mutex-wake (s.pc i)) ∙ ei) (sym (has_mutex-wake (s.pc j)) ∙ ej);
  none_ended =
      λ r i h e. w.none_ended r i h (wake_back (s.pc i) ended e (λ x. absurd (ground (arith, x))));
  checked_empty =
      λ i h e. w.checked_empty i h (wake_back (s.pc i) checked e (λ x. absurd (ground (arith, x))));
  chosen_some = λ r i h e.
      w.chosen_some r i h (wake_back (s.pc i) chosen e (λ x. absurd (ground (arith, x))));
  up = elim w.up [
    | inl e ↦ inl e
    | inr (i, h, f) ↦
        inr (i, h, λ e. f (wake_back (s.pc i) waiting e (λ x. absurd (ground (arith, x)))))
  ];
}

calls-Sound :
    (n : ℕ) (s : System) (i : ℕ)
    → i < n
    → Sound n s
    → Sound n (move i (if s.pool.is_running then entering else ended) s)
calls-Sound n s i h w = split s.pool.is_running refl
  where
    split : (b : Bool) → s.pool.is_running ≡ b → Sound n (move i (if b then entering else ended) s)
    split true e =
        move-Sound n s i entering h (inl refl) (λ r x. absurd (ground (arith, x)))
          (λ x. absurd (ground (arith, x))) (λ r x. absurd (ground (arith, x)))
          (inr (λ x. absurd (ground (arith, x)))) w
    split false e =
        move-Sound n s i ended h (inl refl) (λ r x. absurd (ground (arith, e, r)))
          (λ x. absurd (ground (arith, x))) (λ r x. absurd (ground (arith, x)))
          (inr (λ x. absurd (ground (arith, x)))) w

Step-Sound : {n : ℕ} → {s t : System} → 0 < n → Step n s t → Sound n s → Sound n t
unfolding add_task
Step-Sound {n = n} {s = s} some_worker (calls i h e) w = calls-Sound n s i h w
Step-Sound {n = n} {s = s} some_worker (looks i h e f) w = looks-Sound n s i h f w
Step-Sound {n = n} {s = s} some_worker (waits i h e) w =
    move-Sound n s i waiting h (inl refl) (λ r x. absurd (ground (arith, x)))
      (λ x. absurd (ground (arith, x))) (λ r x. absurd (ground (arith, x)))
      (inl (w.checked_empty i h e)) w
Step-Sound {n = n} {s = s} some_worker (takes i t p h e first) w =
    takes-Sound n s i t p _ h e (next_task-first s.pool p t first).1 w
Step-Sound {n = n} {s = s} some_worker (gives_up i p h e nothing) w =
    move-Sound n s i ended h (inl refl)
      (λ r x. w.chosen_some r i h e (next_task-nothing s.pool p nothing r))
      (λ x. absurd (ground (arith, x))) (λ r x. absurd (ground (arith, x)))
      (inr (λ x. absurd (ground (arith, x)))) w
Step-Sound {n = n} {s = s} some_worker (finishes i t h e) w =
    move-Sound n s i outside h (inl refl) (λ r x. absurd (ground (arith, x)))
      (λ x. absurd (ground (arith, x))) (λ r x. absurd (ground (arith, x)))
      (inr (λ x. absurd (ground (arith, x)))) w
Step-Sound some_worker (add_called t h) w = record {
  unique = w.unique;
  none_ended = w.none_ended;
  checked_empty = w.checked_empty;
  chosen_some = w.chosen_some;
  up = w.up;
}
Step-Sound {n = n} {s = s} some_worker (add_pushed before after t {pc = pc} e f g) w =
    Free-Sound n _ (Signals-Free g f) (λ r. Signals-alive g (w.none_ended r))
      (inr (Signals-up some_worker g))
Step-Sound {n = n} {s = s} some_worker (stop_clears h r f) w =
    Free-Sound n _ f w.none_ended (inl refl)
Step-Sound some_worker (stop_unsets h) w = record {
  unique = w.unique;
  none_ended = λ r. absurd (ground (arith, r));
  checked_empty = w.checked_empty;
  chosen_some = λ r. absurd (ground (arith, r));
  up = w.up;
}
Step-Sound {n = n} {s = s} some_worker (stop_broadcasts h) w = wake-Sound n s w
Step-Sound some_worker (stop_returns h a) w = record {
  unique = w.unique;
  none_ended = w.none_ended;
  checked_empty = w.checked_empty;
  chosen_some = w.chosen_some;
  up = w.up;
}

pub Reach-Sound : {n : ℕ} → {s : System} → Reach n s → (0 < n) × Sound n s
Reach-Sound {n = n} (start cpu_num thread_num p h) =
    let (empty, r, some_worker, few) = run-started cpu_num thread_num p h in
    (
      some_worker,
      Free-Sound n (started p) (λ i h. refl) (λ r i h x. absurd (ground (arith, x))) (inl empty),
    )
Reach-Sound (later r step) =
    let (some_worker, w) = Reach-Sound r in (some_worker, Step-Sound some_worker step w)
Reach-Sound {n = n} (woken {s = s} i h r e) =
    let (some_worker, w) = Reach-Sound r in
    (
      some_worker,
      move-Sound n s i awake h (inl refl) (λ r x. absurd (ground (arith, x)))
          (λ x. absurd (ground (arith, x))) (λ r x. absurd (ground (arith, x)))
          (inr (λ x. absurd (ground (arith, x)))) w,
    )
