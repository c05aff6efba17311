-- ===== src/Tests/Threads.antt =====
-- A pool of threads at concrete inputs.
use elegance.Prelude.{ℕ, ◌<◌, ◌≡◌, inl, refl, arith, true, [], ◌∷◌, ◌++◌, map}
use elegance.Prelude.Int.{pos}
use elegance.Thread.Pool.{
  ThreadPool, System, run, run_with, allowed, wanted, new_thread_pool, started, add_task, update,
  must_wait, outside, entering, checked, waiting, cleared, joining, exit_task, nobody, Reach, start,
  later, calls, looks, add_called, add_pushed, stop_clears,
}
use elegance.Thread.Signal.{
  sig_dfl, handle, new_op, disposition, do_ops, do_ops-default, do_op, new_signal, add_type,
  register, update_signal, signal_calls, status, check_type, bool_value,
}
use elegance.Network.Manager.{insert_handler, has_handler}
use elegance.Prelude.Map.{find_or, insert, find}
use elegance.Thread.Pool.Order.{Reach-InOrder}
use elegance.Thread.Pool.Progress.{CanMove, Reach-progress}
use elegance.Thread.Pool.Stuck.{After, After-stuck}

abbrev idle : ThreadPool
idle = record { is_running = true; task_list = [] }

-- One worker, as many as there are processors.
idle-Reach : Reach 1 (started idle)
unfolding run run_with allowed wanted new_thread_pool
idle-Reach = start (pos 1) (pos 0) idle refl

-- A task has been put in.
abbrev busy : System
busy = record (started idle) { pool = add_task 42 idle; added = 42 ∷ [] }

busy-Reach : Reach 1 busy
busy-Reach =
    later (later idle-Reach (add_called 42 refl))
      (add_pushed [] [] 42 refl (λ i h. refl) (nobody (λ i h x. absurd (ground (arith, x)))))

Reach-InOrder_example : busy.added ≡ map exit_task busy.left ++ busy.pool.task_list
Reach-InOrder_example = Reach-InOrder busy-Reach

Reach-progress_example : (i : ℕ) × (i < 1) × CanMove 1 busy i
unfolding add_task
Reach-progress_example = Reach-progress busy-Reach refl (λ x. absurd (ground (arith, x)))

-- `Stop` has deleted the tasks, and then the worker has looked for one.
abbrev stalled : System
stalled = record (started idle) {
  pc = update (update (λ i. outside) 0 entering) 0 checked;
  stopping = cleared;
}

stalled-Reach : Reach 1 stalled
unfolding must_wait update
stalled-Reach =
    later
      (later (later idle-Reach (stop_clears refl refl (λ i h. refl))) (calls 0 (omega arith) refl))
      (looks 0 (omega arith) (inl refl) (λ i h. ground arith))

After-stuck_example :
    (t : System) × After 1 stalled t
    × ((u : System) → After 1 t u → (u.pc 0 ≡ waiting) × (u.stopping ≡ joining))
unfolding update
After-stuck_example = After-stuck stalled (omega arith) refl refl refl

-- A signal is made, and SIGINT is 2.
do_ops-default_example :
    disposition 2
      (do_ops 2 (new_op 6 0 ∷ []) (record { type_sets = []; signal_set = [] })).1
      sig_dfl
    ≡ sig_dfl
do_ops-default_example = do_ops-default 2 (new_op 6 0 ∷ []) _ (omega arith)

-- What is handled is the signal 1.
handles_one :
    (do_ops 2 (new_op 6 0 ∷ []) (record { type_sets = []; signal_set = [] })).1
    ≡ (2, sig_dfl) ∷ (2, sig_dfl) ∷ (1, handle) ∷ []
unfolding do_ops do_op new_signal add_type register update_signal signal_calls status check_type
    bool_value insert_handler has_handler find_or insert find
handles_one = refl
