-- ===== src/Thread/Pool.antt =====
-- elegance/platform/thread/thread_pool.hpp and .cpp: `ThreadPool`, on Linux. A task goes by a number
-- for its address. The workers, the calls of `AddTask` and one call of `Stop` are interleaved: a
-- step is what one of them does up to the next point where another can see it or be seen. The mutex
-- is held from `looks` to `waits`, `takes` or `gives_up`, and by `add_pushed` and `stop_clears`
-- within their step, since nothing else is read there; `is_running_` is read and written without it.
pub mod Order
pub mod Updates
pub mod Sound
pub mod Progress
pub mod Stuck
use elegance.Prelude.{
  ℕ, zero, suc, ◌+◌, ◌<◌, ◌≡◌, ◌≢◌, ◌⊎◌, Bool, true, false, Option, none, some, List, [], ◌∷◌, ◌++◌,
  map, ◌==◌, ltb, if◌then◌else◌, ◌&&◌,
}
use elegance.Prelude.Int.{ℤ, pos, negsuc}

pub record ThreadPool : Type 0 where
  pub is_running : Bool
  pub task_list : List ℕ

unfoldable pub new_thread_pool : ThreadPool
new_thread_pool = record { is_running = false; task_list = [] }

-- MAX_THREAD_NUM_LIMIT
abbrev pub max_thread_num_limit : ℕ
max_thread_num_limit = 1000

-- `thread_num` where it is positive, and otherwise what `SystemInfo::GetCPUNum` gives.
unfoldable pub wanted : ℤ → ℤ → ℤ
wanted cpu_num (pos zero) = cpu_num
wanted cpu_num (pos (suc n)) = pos (suc n)
wanted cpu_num (negsuc n) = cpu_num

-- The threads that are created, if their number is within the limit.
unfoldable pub allowed : ℤ → Option ℕ
allowed (pos zero) = none
allowed (pos (suc n)) = if ltb max_thread_num_limit (suc n) then none else some (suc n)
allowed (negsuc n) = none

unfoldable pub run_with : Option ℕ → ThreadPool → Bool × ThreadPool × ℕ
run_with none p = (false, p, 0)
run_with (some n) p = (true, record p { is_running = true }, n)

-- `Run`: the result, the pool, and how many workers it starts.
unfoldable pub run : ℤ → ℤ → ThreadPool → Bool × ThreadPool × ℕ
run cpu_num thread_num p =
    if p.is_running then (true, p, 0) else run_with (allowed (wanted cpu_num thread_num)) p

abbrev pub no_task : List ℕ → Bool
no_task [] = true
no_task (t ∷ ts) = false

-- The condition of the loop around `pthread_cond_wait`.
unfoldable pub must_wait : ThreadPool → Bool
must_wait p = no_task p.task_list && p.is_running

-- What `GetNextTask` does behind that loop.
unfoldable pub next_of : List ℕ → ThreadPool → Option ℕ × ThreadPool
next_of [] p = (none, p)
next_of (t ∷ ts) p = if p.is_running then (some t, record p { task_list = ts }) else (none, p)

unfoldable pub next_task : ThreadPool → Option ℕ × ThreadPool
next_task p = next_of p.task_list p

-- `task_list_.push_back(task)`
unfoldable pub add_task : ℕ → ThreadPool → ThreadPool
add_task t p = record p { task_list = p.task_list ++ t ∷ [] }

-- Where a worker is in `ThreadPoolWorkingTask::Run` and `GetNextTask`: about to call it, behind its
-- first test, in the mutex behind the test of the loop (to wait, or to go on), waiting, woken,
-- running a task, or at the end of its thread.
pub data Pc : Type 0 where
  outside : Pc
  entering : Pc
  checked : Pc
  waiting : Pc
  awake : Pc
  chosen : Pc
  running : ℕ → Pc
  ended : Pc

-- Where the call of `Stop` is: not made, behind the loop that deletes the tasks, behind the
-- assignment to `is_running_`, behind the broadcast, and returned.
pub data Stopping : Type 0 where
  not_called : Stopping
  cleared : Stopping
  unset : Stopping
  joining : Stopping
  returned : Stopping

-- How a task leaves the list: a worker takes it, or `Stop` deletes it.
pub data Exit : Type 0 where
  taken : ℕ → ℕ → Exit
  deleted : ℕ → Exit

unfoldable pub exit_task : Exit → ℕ
exit_task (taken i t) = t
exit_task (deleted t) = t

-- `adding` are the tasks of calls of `AddTask` behind the test of `is_running_`. `added` and `left`
-- record what has been put into the list and what has left it, in order.
pub record System : Type 0 where
  pub pool : ThreadPool
  pub pc : ℕ → Pc
  pub stopping : Stopping
  pub adding : List ℕ
  pub added : List ℕ
  pub left : List Exit

unfoldable pub update : (ℕ → Pc) → ℕ → Pc → ℕ → Pc
update pc i p j = if j == i then p else pc j

-- Whether a worker holds the mutex.
abbrev pub has_mutex : Pc → Bool
has_mutex checked = true
has_mutex chosen = true
has_mutex _ = false

-- Every worker is at such a place.
abbrev pub All : ℕ → (ℕ → Pc) → (Pc → Type 0) → Type 0
All n pc P = (i : ℕ) → i < n → P (pc i)

-- No worker holds the mutex.
abbrev pub Free : ℕ → (ℕ → Pc) → Type 0
Free n pc = All n pc (λ p. has_mutex p ≡ false)

-- `pthread_cond_signal`: one that waits is woken, if there is one.
pub data Signals (n : ℕ) (pc : ℕ → Pc) : (ℕ → Pc) → Type 0 where
  one : (i : ℕ) → i < n → pc i ≡ waiting → Signals n pc (update pc i awake)
  nobody : All n pc (λ p. p ≢ waiting) → Signals n pc pc

-- `pthread_cond_broadcast`
abbrev pub wake : Pc → Pc
wake waiting = awake
wake p = p

abbrev pub move : ℕ → Pc → System → System
move i p s = record s { pc = update s.pc i p }

pub data Step (n : ℕ) (s : System) : System → Type 0 where
  -- The workers.
  calls :
      (i : ℕ)
      → i < n
      → s.pc i ≡ outside
      → Step n s (move i (if s.pool.is_running then entering else ended) s)
  looks :
      (i : ℕ)
      → i < n
      → (s.pc i ≡ entering) ⊎ (s.pc i ≡ awake)
      → Free n s.pc
      → Step n s (move i (if must_wait s.pool then checked else chosen) s)
  waits : (i : ℕ) → i < n → s.pc i ≡ checked → Step n s (move i waiting s)
  takes :
      (i t : ℕ) (p : ThreadPool)
      → i < n
      → s.pc i ≡ chosen
      → next_task s.pool ≡ (some t, p)
      → Step n s (move i (running t) (record s { pool = p; left = s.left ++ taken i t ∷ [] }))
  gives_up :
      (i : ℕ) (p : ThreadPool)
      → i < n
      → s.pc i ≡ chosen
      → next_task s.pool ≡ (none, p)
      → Step n s (move i ended s)
  finishes : (i t : ℕ) → i < n → s.pc i ≡ running t → Step n s (move i outside s)
  -- `AddTask`
  add_called : (t : ℕ) → s.pool.is_running ≡ true → Step n s (record s { adding = t ∷ s.adding })
  add_pushed :
      (before after : List ℕ) (t : ℕ) {pc : ℕ → Pc}
      → s.adding ≡ before ++ t ∷ after
      → Free n s.pc
      → Signals n s.pc pc
      → Step n s (record s {
        pool = add_task t s.pool;
        pc = pc;
        adding = before ++ after;
        added = s.added ++ t ∷ [];
      })
  -- `Stop`
  stop_clears :
      s.stopping ≡ not_called
      → s.pool.is_running ≡ true
      → Free n s.pc
      → Step n s (record s {
        pool = record s.pool { task_list = [] };
        stopping = cleared;
        left = s.left ++ map deleted s.pool.task_list;
      })
  stop_unsets :
      s.stopping ≡ cleared
      → Step n s (record s { pool = record s.pool { is_running = false }; stopping = unset })
  stop_broadcasts :
      s.stopping ≡ unset → Step n s (record s { pc = λ i. wake (s.pc i); stopping = joining })
  stop_returns :
      s.stopping ≡ joining
      → All n s.pc (λ p. p ≡ ended)
      → Step n s (record s { stopping = returned })

-- The pool behind a `Run` that starts `n` workers, with no task.
abbrev pub started : ThreadPool → System
started p = record {
  pool = p;
  pc = λ i. outside;
  stopping = not_called;
  adding = [];
  added = [];
  left = [];
}

-- What can happen behind a `Run` of a new pool with `n` workers. A worker that waits may also be
-- woken by no signal.
pub data Reach (n : ℕ) : System → Type 0 where
  start :
      (cpu_num thread_num : ℤ) (p : ThreadPool)
      → run cpu_num thread_num new_thread_pool ≡ (true, p, n)
      → Reach n (started p)
  later : {s t : System} → Reach n s → Step n s t → Reach n t
  woken : {s : System} (i : ℕ) → i < n → Reach n s → s.pc i ≡ waiting → Reach n (move i awake s)
