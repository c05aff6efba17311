-- ===== src/Thread/Pool/Stuck.antt =====
-- elegance/platform/thread/thread_pool.cpp: `Stop` writes `is_running_` and broadcasts without the
-- mutex, so the broadcast can come between the test of a worker and its wait.
use elegance.Prelude.{
  ℕ, ◌<◌, ◌≡◌, ◌≢◌, inl, inr, refl, ap, sym, ◌∙◌, false, List, [], ◌∷◌, ◌++◌, arith,
}
use elegance.Thread.Pool.{
  Pc, outside, entering, awake, checked, waiting, chosen, running, System, wake, move, joining,
  cleared, unset, Step, calls, looks, waits, takes, gives_up, finishes, add_called, add_pushed,
  stop_clears, stop_unsets, stop_broadcasts, stop_returns,
}
use elegance.Thread.Pool.Updates.{update_same, update_other}
use elegance.Thread.Pool.Order.{next_task-first}

-- Steps one after another, with no waking but by a signal.
pub data After (n : ℕ) (s : System) : System → Type 0 where
  here : After n s s
  further : {t u : System} → After n s t → Step n t u → After n s u

-- Worker `i` waits, and nothing that is left to happen wakes it.
record Stuck (i : ℕ) (s : System) : Type 0 where
  asleep : s.pc i ≡ waiting
  stopped : s.pool.is_running ≡ false
  no_add : s.adding ≡ []
  joins : s.stopping ≡ joining

-- Another worker has moved.
move-Stuck :
    (i j : ℕ) (s : System) (p q : Pc) → s.pc j ≡ q → q ≢ waiting → Stuck i s → Stuck i (move j p s)
move-Stuck i j s p q e d w = record {
  asleep = update_other s.pc j i p (λ same. d (sym e ∙ ap s.pc (sym same) ∙ w.asleep)) ∙ w.asleep;
  stopped = w.stopped;
  no_add = w.no_add;
  joins = w.joins;
}

Step-Stuck : {n i : ℕ} → {s t : System} → i < n → Step n s t → Stuck i s → Stuck i t
Step-Stuck {i = i} {s = s} h (calls j hj e) w =
    move-Stuck i j s _ outside e (λ x. absurd (ground (arith, x))) w
Step-Stuck {i = i} {s = s} h (looks j hj (inl e) f) w =
    move-Stuck i j s _ entering e (λ x. absurd (ground (arith, x))) w
Step-Stuck {i = i} {s = s} h (looks j hj (inr e) f) w =
    move-Stuck i j s _ awake e (λ x. absurd (ground (arith, x))) w
Step-Stuck {i = i} {s = s} h (waits j hj e) w =
    move-Stuck i j s _ checked e (λ x. absurd (ground (arith, x))) w
Step-Stuck {i = i} {s = s} h (takes j t p hj e first) w = record {
  asleep =
      update_other s.pc j i (running t)
        (λ same. absurd (ground (arith, sym (ap s.pc same ∙ e) ∙ w.asleep)))
      ∙ w.asleep;
  stopped = (next_task-first s.pool p t first).1 ∙ w.stopped;
  no_add = w.no_add;
  joins = w.joins;
}
Step-Stuck {i = i} {s = s} h (gives_up j p hj e nothing) w =
    move-Stuck i j s _ chosen e (λ x. absurd (ground (arith, x))) w
Step-Stuck {i = i} {s = s} h (finishes j t hj e) w =
    move-Stuck i j s _ (running t) e (λ x. absurd (ground (arith, x))) w
Step-Stuck h (add_called t r) w = absurd (ground (arith, r, w.stopped))
Step-Stuck h (add_pushed before after t e f g) w = absurd (split before (sym w.no_add ∙ e))
  where
    split : (l : List ℕ) → [] ≡ l ++ t ∷ after → ⊥
    split [] x = ground (arith, x)
    split (u ∷ l) x = ground (arith, x)
Step-Stuck h (stop_clears e r f) w = absurd (ground (arith, r, w.stopped))
Step-Stuck h (stop_unsets e) w = absurd (ground (arith, sym e ∙ w.joins))
Step-Stuck h (stop_broadcasts e) w = absurd (ground (arith, sym e ∙ w.joins))
Step-Stuck {i = i} h (stop_returns e a) w = absurd (ground (arith, sym (a i h) ∙ w.asleep))

After-Stuck : {n i : ℕ} → {s t : System} → i < n → After n s t → Stuck i s → Stuck i t
After-Stuck h here w = w
After-Stuck h (further r step) w = Step-Stuck h step (After-Stuck h r w)

-- Where `Stop` has deleted the tasks, a worker has found that it must wait but does not wait yet,
-- and no call of `AddTask` is under way: `Stop` and the worker can go on so that, in whatever steps
-- follow, the worker waits and `Stop` does not return, unless the worker is woken by no signal.
pub After-stuck :
    {n i : ℕ}
    → (s : System) → i < n
    → s.pc i ≡ checked
    → s.stopping ≡ cleared
    → s.adding ≡ []
    → (t : System) × After n s t
      × ((u : System) → After n t u → (u.pc i ≡ waiting) × (u.stopping ≡ joining))
After-stuck {n = n} {i = i} s h e c a =
    let s1 : System = record s { pool = record s.pool { is_running = false }; stopping = unset } in
    let s2 : System = record s1 { pc = λ j. wake (s1.pc j); stopping = joining } in
    let still : s2.pc i ≡ checked = ap wake e in
    let w : Stuck i (move i waiting s2) = record {
      asleep = update_same s2.pc i waiting;
      stopped = refl;
      no_add = a;
      joins = refl;
    } in
    (
      move i waiting s2,
      further (further (further here (stop_unsets c)) (stop_broadcasts refl)) (waits i h still),
      λ u r. let w' = After-Stuck h r w in (w'.asleep, w'.joins),
    )
