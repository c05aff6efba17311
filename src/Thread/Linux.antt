-- ===== src/Thread/Linux.antt =====
-- elegance/platform/thread/thread.hpp and .cpp: `Thread` on Linux, and the set of threads of
-- elegance/network/network_manager.cpp. What pthread gives is an argument: the id of a thread that
-- is created, which is not 0, and whether a call succeeds. A task and a `Thread` go by numbers for
-- their addresses.
use elegance.Prelude.{
  ℕ, zero, suc, ◌≡◌, ◌≢◌, refl, Bool, true, false, Option, none, some, List, [], ◌∷◌, arith, ltb,
  ◌==◌, if◌then◌else◌,
}
use elegance.Prelude.Map.{Map}

pub record Thread : Type 0 where
  pub thread_id : ℕ
  pub cur_task : Option ℕ
  pub running : Bool

abbrev pub new_thread : Thread
new_thread = record { thread_id = 0; cur_task = none; running = false }

-- `Run` of a task that is there, up to `pthread_create`, which gives the id of a thread or fails: the result, the thread and
-- the tasks that are deleted.
unfoldable pub run_create : Option ℕ → ℕ → Thread → Bool × Thread × List ℕ
run_create created func t =
    if t.thread_id == 0
    then (elim created [
      | none ↦ (false, record t { cur_task = none }, func ∷ [])
      | some id ↦ (true, record t { thread_id = id; cur_task = some func }, [])
    ])
    else (false, t, [])

-- The assignment to `running_` behind it.
unfoldable pub run_mark : Thread → Thread
run_mark t = record t { running = true }

-- `Run` with nothing between its parts.
unfoldable pub run : Option ℕ → ℕ → Thread → Bool × Thread × List ℕ
run created func t =
    let (ok, u, deleted) = run_create created func t in (ok, if ok then run_mark u else u, deleted)

-- `Join`, `Terminate` and `Detach`; `ok` is whether the call of pthread succeeds.
unfoldable pub join : Bool → Thread → Bool × Thread
join ok t =
    if t.thread_id == 0 then (false, t) else (ok, if ok then record t { thread_id = 0 } else t)

unfoldable pub terminate : Bool → Thread → Bool × Thread
terminate ok t =
    if t.thread_id == 0
    then (false, t)
    else (ok, record (if ok then record t { thread_id = 0 } else t) { running = false })

unfoldable pub detach : Bool → Thread → Bool × Thread
detach ok t = if t.thread_id == 0 then (false, t) else (ok, record t { thread_id = 0 })

-- `StartRoutine` behind the run of the task: the thread, and the task that is deleted.
unfoldable pub finish : Bool → Thread → Thread × List ℕ
finish ok t = elim t.cur_task [
  | none ↦ (t, [])
  | some task ↦ (record (detach ok (record t { cur_task = none })).1 { running = false }, task ∷ [])
]

-- `NetworkManager::GetFreeThread`: `address` is that of a new `Thread`, if one is made.
unfoldable pub free_thread : Map ℕ Thread → Option ℕ
free_thread [] = none
free_thread ((a, t) ∷ ts) = let rest = free_thread ts in if t.running then rest else some a

-- A new `Thread` enters the set, which is in the order of the addresses.
unfoldable pub add_thread : ℕ → Map ℕ Thread → Map ℕ Thread
add_thread address [] = (address, new_thread) ∷ []
add_thread address ((a, t) ∷ ts) =
    let rest = add_thread address ts in
    if ltb address a then (address, new_thread) ∷ (a, t) ∷ ts else (a, t) ∷ rest

unfoldable pub get_free_thread : ℕ → Map ℕ Thread → ℕ × Map ℕ Thread
get_free_thread address set = elim (free_thread set) [
  | none ↦ (address, add_thread address set)
  | some a ↦ (a, set)
]

-- `NetworkManager::WaitAllThread`: the threads that are deleted.
unfoldable pub joined : Map ℕ Thread → List ℕ
joined [] = []
joined ((a, t) ∷ ts) = if t.running then a ∷ joined ts else joined ts

unfoldable pub wait_all_thread : Map ℕ Thread → Map ℕ Thread × List ℕ
wait_all_thread set = ([], joined set)

-- A new `Thread` runs a task, as a thread with an id that is not 0. If the task ends behind the
-- assignment of `Run`, whatever detaching gives, the `Thread` is as it was before and the task is
-- deleted. If it ends before that assignment, the next search for a free `Thread` passes this one
-- over, though nothing runs.
pub finish-run :
    (id func : ℕ) (ok : Bool) (a : ℕ) (others : Map ℕ Thread)
    → id ≢ 0
    → (finish ok (run (some id) func new_thread).1 ≡ (new_thread, func ∷ []))
      × (free_thread ((a, run_mark (finish ok (run_create (some id) func new_thread).1).0) ∷ others)
          ≡ free_thread others)
unfolding run run_create run_mark finish detach free_thread
finish-run zero _ _ _ _ some_id = absurd (some_id refl)
finish-run (suc id) func true a others some_id =
    let used : (suc id == 0) ≡ false = ground arith in (rw used, refl)
finish-run (suc id) func false a others some_id =
    let used : (suc id == 0) ≡ false = ground arith in (rw used, refl)
