-- ===== src/Thread/Pool/Order.antt =====
-- elegance/platform/thread/thread_pool.cpp: the order in which tasks leave the list.
use elegance.Prelude.{
  ℕ, zero, suc, ◌<◌, ◌≤◌, ◌≡◌, subst, refl, ap, ap₂, sym, ◌∙◌, Bool, true, false, Option, none,
  some, List, [], ◌∷◌, ◌++◌, map, arith, append_assoc, append-nil, if◌then◌else◌,
}
use elegance.Prelude.Int.{ℤ, pos, negsuc}
use elegance.Thread.Pool.{
  ThreadPool, new_thread_pool, wanted, allowed, run, run_with, next_of, next_task, add_task,
  exit_task, taken, deleted, Exit, System, Step, calls, looks, waits, takes, gives_up, finishes,
  add_called, add_pushed, stop_clears, stop_unsets, stop_broadcasts, stop_returns, Reach, start,
  later, woken,
}

allowed-bounds : (z : ℤ) (n : ℕ) → allowed z ≡ some n → (0 < n) × (n ≤ 1000)
unfolding allowed
allowed-bounds (pos zero) n h = absurd (ground (arith, h))
allowed-bounds (pos (suc k)) n h = ground (arith, h)
allowed-bounds (negsuc k) n h = absurd (ground (arith, h))

-- A new pool that runs has at least one worker, and at most 1000, and no task.
pub run-started :
    {n : ℕ}
    → (cpu_num thread_num : ℤ) (p : ThreadPool)
    → run cpu_num thread_num new_thread_pool ≡ (true, p, n)
    → (p.task_list ≡ []) × (p.is_running ≡ true) × (0 < n) × (n ≤ 1000)
unfolding run run_with new_thread_pool
run-started {n = n} cpu_num thread_num p h = split (allowed (wanted cpu_num thread_num)) refl h
  where
    split :
        (o : Option ℕ)
        → allowed (wanted cpu_num thread_num) ≡ o
        → run_with o new_thread_pool ≡ (true, p, n)
        → (p.task_list ≡ []) × (p.is_running ≡ true) × (0 < n) × (n ≤ 1000)
    split none k e = absurd (ground (arith, ap (λ r. r.0) e))
    split (some m) k e = (
      ap (λ r. r.1.task_list) (sym e),
      ap (λ r. r.1.is_running) (sym e),
      subst (λ x. 0 < x) (ap (λ r. r.2) e) (allowed-bounds _ m k).0,
      subst (λ x. x ≤ 1000) (ap (λ r. r.2) e) (allowed-bounds _ m k).1,
    )

-- `next_task` takes the first.
pub next_task-first :
    (p q : ThreadPool) (t : ℕ)
    → next_task p ≡ (some t, q)
    → (p.task_list ≡ t ∷ q.task_list) × (q.is_running ≡ p.is_running)
unfolding next_task next_of
next_task-first p q t h = split p.task_list h
  where
    go :
        (u : ℕ) (us : List ℕ) (b : Bool)
        → if◌then◌else◌ {A = Option ℕ × ThreadPool} b
            (some u, record p { task_list = us })
            (none, p)
          ≡ (some t, q)
        → (u ∷ us ≡ t ∷ q.task_list) × (q.is_running ≡ p.is_running)
    go u us true e = (
      ap₂ ◌∷◌ (ground (arith, ap (λ r. r.0) e)) (ap (λ r. r.1.task_list) e),
      sym (ap (λ r. r.1.is_running) e),
    )
    go u us false e = absurd (ground (arith, ap (λ r. r.0) e))

    split :
        (ts : List ℕ)
        → next_of ts p ≡ (some t, q)
        → (ts ≡ t ∷ q.task_list) × (q.is_running ≡ p.is_running)
    split [] e = absurd (ground (arith, ap (λ r. r.0) e))
    split (u ∷ us) e = go u us p.is_running e

map-append : (xs ys : List Exit) → map exit_task (xs ++ ys) ≡ map exit_task xs ++ map exit_task ys
map-append [] ys = refl
map-append (x ∷ xs) ys = ap (◌∷◌ (exit_task x)) (map-append xs ys)

map-deleted : (ts : List ℕ) → map exit_task (map deleted ts) ≡ ts
unfolding exit_task
map-deleted [] = refl
map-deleted (t ∷ ts) = ap (◌∷◌ t) (map-deleted ts)

abbrev InOrder : System → Type 0
InOrder s = s.added ≡ map exit_task s.left ++ s.pool.task_list

Step-InOrder : {n : ℕ} → {s t : System} → Step n s t → InOrder s → InOrder t
unfolding add_task exit_task
Step-InOrder (calls i h e) o = o
Step-InOrder (looks i h e f) o = o
Step-InOrder (waits i h e) o = o
Step-InOrder {s = s} (takes i t p h e first) o =
    let (front, same) = next_task-first s.pool p t first in
    o
    ∙ ap (λ l. map exit_task s.left ++ l) front
    ∙ sym (append_assoc (map exit_task s.left) (t ∷ []) p.task_list)
    ∙ sym (ap (λ l. l ++ p.task_list) (map-append s.left (taken i t ∷ [])))
Step-InOrder (gives_up i p h e nothing) o = o
Step-InOrder (finishes i t h e) o = o
Step-InOrder (add_called t h) o = o
Step-InOrder {s = s} (add_pushed before after t e f g) o =
    ap (λ l. l ++ t ∷ []) o ∙ append_assoc (map exit_task s.left) s.pool.task_list (t ∷ [])
Step-InOrder {s = s} (stop_clears h r f) o =
    o
    ∙ ap (λ l. map exit_task s.left ++ l) (sym (map-deleted s.pool.task_list))
    ∙ sym (map-append s.left (map deleted s.pool.task_list))
    ∙ sym (append-nil _)
Step-InOrder (stop_unsets h) o = o
Step-InOrder (stop_broadcasts h) o = o
Step-InOrder (stop_returns h a) o = o

-- Whatever the workers, the calls of `AddTask` and the call of `Stop` do, in any interleaving: the
-- tasks that have been put into the list are, in the order of putting, those that a worker has
-- taken or `Stop` has deleted, in the order of that, and then those that are still in the list. So
-- no task is lost, none leaves twice for being put in once, and they are taken in the order of
-- putting.
pub Reach-InOrder :
    {n : ℕ} → {s : System} → Reach n s → s.added ≡ map exit_task s.left ++ s.pool.task_list
Reach-InOrder (start cpu_num thread_num p h) = sym (run-started cpu_num thread_num p h).0
Reach-InOrder (later r s) = Step-InOrder s (Reach-InOrder r)
Reach-InOrder (woken i h r e) = Reach-InOrder r
