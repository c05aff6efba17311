-- ===== src/Tests/LinuxThread.antt =====
-- A `Thread` on Linux and the set of threads at concrete inputs.
use elegance.Prelude.{◌≡◌, refl, arith, true, false, some, [], ◌∷◌}
use elegance.Thread.Linux.{
  Thread, new_thread, run, run_create, run_mark, finish, free_thread, get_free_thread, add_thread,
  joined, wait_all_thread, join, terminate, finish-run,
}

-- A thread that is running, by its address.
abbrev running_thread : Thread
running_thread = record { thread_id = 8; cur_task = some 42; running = true }

get_free_thread_test :
    get_free_thread 200 ((100, running_thread) ∷ [])
    ≡ (200, (100, running_thread) ∷ (200, new_thread) ∷ [])
unfolding get_free_thread free_thread add_thread
get_free_thread_test = refl

wait_all_thread_test :
    wait_all_thread ((100, running_thread) ∷ (200, new_thread) ∷ []) ≡ ([], 100 ∷ [])
unfolding wait_all_thread joined
wait_all_thread_test = refl

join_test : join true running_thread ≡ (true, record running_thread { thread_id = 0 })
unfolding join
join_test = refl

terminate_test : (terminate false running_thread).1.running ≡ false
unfolding terminate
terminate_test = refl

-- The task 42 of the thread at 100 ends behind the assignment of `Run` and before it.
finish-run_example :
    (finish true (run (some 7) 42 new_thread).1 ≡ (new_thread, 42 ∷ []))
    × (free_thread (
          (100, run_mark (finish true (run_create (some 7) 42 new_thread).1).0)
          ∷ (200, new_thread)
          ∷ [])
        ≡ free_thread ((200, new_thread) ∷ []))
finish-run_example =
    finish-run 7 42 true 100 ((200, new_thread) ∷ []) (λ e. absurd (ground (arith, e)))
