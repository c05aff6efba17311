-- ===== src/Network/Manager/Modes/Order.antt =====
-- Callbacks one after another in both modes.
use elegance.Prelude.{
  ℕ, ◌≡◌, refl, false, List, [], ◌∷◌, ◌++◌, length, append-nil, append_assoc, map, ap, ap₂, sym,
  ◌∙◌,
}
use elegance.Prelude.Map.{nat_key}
use elegance.Network.Endpoint.{endpoint_key}
use elegance.Network.Manager.{
  NetworkManager, NetworkHandleTask, call_handlers, task_call, handle_net_task,
}
use elegance.Network.Manager.Modes.{
  Callback, callback, callbacks, handle_tasks, as_single, calls_of, Kept,
}
use elegance.Network.Manager.Modes.Agrees.{callback-Agrees, Kept-trans}

calls_of-append :
    (ts us : List NetworkHandleTask) (m : NetworkManager)
    → calls_of (ts ++ us) m ≡ calls_of ts m ++ calls_of us m
calls_of-append [] us m = refl
calls_of-append (t ∷ ts) us m =
    rw (calls_of-append ts us m)
      (sym (append_assoc (call_handlers (task_call t) m) (calls_of ts m) (calls_of us m)))

calls_of-Kept :
    (ts : List NetworkHandleTask) (m n : NetworkManager) → Kept m n → calls_of ts n ≡ calls_of ts m
unfolding call_handlers
calls_of-Kept [] m n h = refl
calls_of-Kept (t ∷ ts) m n h =
    ap₂ (◌++◌) (ap (map (λ k. (k, task_call t))) h.0) (calls_of-Kept ts m n h)

-- Callbacks in both modes.
callbacks-Agrees :
    (cs : List Callback) (q : List NetworkHandleTask) (m : NetworkManager)
    → m.single_thread_handle_mode ≡ false
    → (ts : List NetworkHandleTask) × (callbacks cs (as_single q m)
        ≡ (as_single (q ++ ts) (callbacks cs m).0, []))
      × ((callbacks cs m).1 ≡ calls_of ts m)
      × Kept m (callbacks cs m).0
unfolding callbacks
callbacks-Agrees [] q m h = ([], rw append-nil, refl, (refl, refl))
callbacks-Agrees (c ∷ cs) q m h =
    let first = callback-Agrees c q m h in
    let n = (callback c m).0 in
    let (ts, queued, called, kept) = callbacks-Agrees cs (q ++ first.tasks) n (first.kept.1 ∙ h) in
    (
      first.tasks ++ ts,
      rw (first.queued, queued, append_assoc q first.tasks ts),
      rw (first.called, called, calls_of-append first.tasks ts m, calls_of-Kept ts m n first.kept),
      Kept-trans m n (callbacks cs n).0 first.kept kept,
    )

-- `HandleNetTask` empties a queue in order.
handle_tasks-as_single :
    (ts : List NetworkHandleTask) (m : NetworkManager)
    → handle_tasks (length ts) (as_single ts m) ≡ (as_single [] m, calls_of ts m)
unfolding handle_tasks handle_net_task call_handlers
handle_tasks-as_single [] m = refl
handle_tasks-as_single (t ∷ ts) m = rw (handle_tasks-as_single ts m)

-- Accepts, connects, disconnects and failures, in any order, make the same calls of the handlers in
-- both modes: in single-thread mode, with an empty queue before them, they make none, and
-- `HandleNetTask`, called once for each task that they left, makes those of the other mode, in the
-- same order. The connections end up the same, and the queue empty.
pub handle_tasks-callbacks :
    (cs : List Callback) (m : NetworkManager)
    → m.single_thread_handle_mode ≡ false
    → (n : ℕ) × ((callbacks cs (as_single [] m)).1 ≡ [])
      × (handle_tasks n (callbacks cs (as_single [] m)).0
          ≡ (as_single [] (callbacks cs m).0, (callbacks cs m).1))
handle_tasks-callbacks cs m h =
    let (ts, queued, called, kept) = callbacks-Agrees cs [] m h in
    (
      length ts,
      rw queued,
      rw queued (
          handle_tasks-as_single ts (callbacks cs m).0
          ∙ rw (called, calls_of-Kept ts m (callbacks cs m).0 kept)),
    )
