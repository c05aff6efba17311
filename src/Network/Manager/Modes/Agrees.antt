-- ===== src/Network/Manager/Modes/Agrees.antt =====
-- Each callback does the same in both modes.
use elegance.Prelude.{
  ℕ, ◌≡◌, refl, false, Option, none, some, List, [], ◌∷◌, ◌++◌, append-nil, map, ap, ◌∙◌, ◌⊎◌, inl,
  inr,
}
use elegance.Prelude.Map.{find, nat_key}
use elegance.Network.Endpoint.{Endpoint, endpoint_key}
use elegance.Network.Manager.{
  NetworkManager, NetworkHandleTask, Calls, call_handlers, notify, task_call, on_accept, on_connect,
  listen_failed_at, connect_failed_to, on_disconnect, add_accepts, add_connects, accepted,
  connected, connect_failed, listen_failed, disconnected, get_free_net_id, accept_task, new_task,
  forget, free_net_id,
}
use elegance.Network.Manager.Modes.{
  Callback, accept, connect, listen_fail, connect_fail, disconnect, callback, as_single, calls_of,
  Kept,
}
use elegance.Network.Manager.Modes.Steps.{
  add_accepts-as_single, add_connects-as_single, add_accepts-Kept, add_connects-Kept,
  get_free_net_id-as_single, get_free_net_id-Kept, notify-as_single, notify-direct,
}

-- One callback in both modes: what it does to the manager is the same, and the tasks it adds
-- stand for the calls it makes.
pub record Agrees (c : Callback) (q : List NetworkHandleTask) (m : NetworkManager) : Type 0 where
  pub tasks : List NetworkHandleTask
  pub queued : callback c (as_single q m) ≡ (as_single (q ++ tasks) (callback c m).0, [])
  pub called : (callback c m).1 ≡ calls_of tasks m
  pub kept : Kept m (callback c m).0

-- A callback that ends in `notify`, and in `g` behind it, agrees.
module _ (c : Callback) (q : List NetworkHandleTask) (m n : NetworkManager) (t : NetworkHandleTask)
    (g : NetworkManager → NetworkManager) where
  abbrev finished : NetworkManager × Calls → NetworkManager × Calls
  finished (k, calls) = (g k, calls)

  notify-Agrees :
      m.single_thread_handle_mode ≡ false
      → callback c m ≡ finished (notify t (task_call t) n)
      → callback c (as_single q m) ≡ finished (notify t (task_call t) (as_single q n))
      → ((r : List NetworkHandleTask) → g (as_single r n) ≡ as_single r (g n))
      → Kept m n
      → Kept m (g n)
      → Agrees c q m
  unfolding call_handlers
  notify-Agrees mode direct single commutes kept kept' = record {
    tasks = t ∷ [];
    queued =
        single
        ∙ ap finished (notify-as_single t (task_call t) q n)
        ∙ rw (commutes (q ++ t ∷ []), ran);
    called = rw (ran, append-nil) (ap (map (λ h. (h, task_call t))) (kept.0));
    kept = rw ran kept';
  }
    where
      ran : callback c m ≡ (g n, call_handlers (task_call t) n)
      ran = direct ∙ ap finished (notify-direct t (task_call t) n (kept.1 ∙ mode))

pub Kept-trans : (a b c : NetworkManager) → Kept a b → Kept b c → Kept a c
Kept-trans a b c h k = (k.0 ∙ h.0, k.1 ∙ h.1)

accept-Agrees :
    (ep : Endpoint) (q : List NetworkHandleTask) (m : NetworkManager)
    → m.single_thread_handle_mode ≡ false
    → Agrees (accept ep) q m
unfolding callback on_accept task_call accept_task
accept-Agrees ep q m h =
    let (id, m1) = get_free_net_id m in
    let n = add_accepts id ep m1.accept_list m1 in
    let kept : Kept m n =
      Kept-trans m m1 n (get_free_net_id-Kept m) (add_accepts-Kept id ep m1.accept_list m1) in
    notify-Agrees (accept ep) q m n (accept_task accepted id ep) (λ k. k) h refl
      (rw (get_free_net_id-as_single q m, add_accepts-as_single id ep m1.accept_list q m1))
      (λ r. refl) kept kept

connect-Agrees :
    (ep : Endpoint) (q : List NetworkHandleTask) (m : NetworkManager)
    → m.single_thread_handle_mode ≡ false
    → Agrees (connect ep) q m
unfolding callback on_connect task_call accept_task
connect-Agrees ep q m h =
    let (id, m1) = get_free_net_id m in
    let n = add_connects id ep m1.connect_list m1 in
    let kept : Kept m n =
      Kept-trans m m1 n (get_free_net_id-Kept m) (add_connects-Kept id ep m1.connect_list m1) in
    notify-Agrees (connect ep) q m n (accept_task connected id ep) (λ k. k) h refl
      (rw (get_free_net_id-as_single q m, add_connects-as_single id ep m1.connect_list q m1))
      (λ r. refl) kept kept

listen_fail-Agrees :
    (port : ℕ) (q : List NetworkHandleTask) (m : NetworkManager)
    → m.single_thread_handle_mode ≡ false
    → Agrees (listen_fail port) q m
unfolding callback listen_failed_at task_call
listen_fail-Agrees port q m h =
    notify-Agrees (listen_fail port) q m m
      (record new_task { task_type = listen_failed; local_port = port }) (λ k. k) h refl refl
      (λ r. refl) (refl, refl) (refl, refl)

connect_fail-Agrees :
    (ep : Endpoint) (q : List NetworkHandleTask) (m : NetworkManager)
    → m.single_thread_handle_mode ≡ false
    → Agrees (connect_fail ep) q m
unfolding callback connect_failed_to task_call accept_task
connect_fail-Agrees ep q m h =
    notify-Agrees (connect_fail ep) q m m (accept_task connect_failed 0 ep) (λ k. k) h refl refl
      (λ r. refl) (refl, refl) (refl, refl)

disconnect-Agrees :
    (ep : Endpoint) (q : List NetworkHandleTask) (m : NetworkManager)
    → m.single_thread_handle_mode ≡ false
    → Agrees (disconnect ep) q m
unfolding callback on_disconnect task_call forget free_net_id
disconnect-Agrees ep q m h = elim (cases (find ep m.endpoint_to_net_id)) [
  | inl e ↦ record {
    tasks = [];
    queued = rw (on_disconnect, e, append-nil);
    called = rw (on_disconnect, e);
    kept = rw (on_disconnect, e) (refl, refl);
  }
  | inr (id, e) ↦
      notify-Agrees (disconnect ep) q m (forget id ep m)
        (record new_task { task_type = disconnected; net_id = id; local_port = ep.local_port })
        (free_net_id id) h (rw (on_disconnect, e)) (rw (on_disconnect, e)) (λ r. refl) (refl, refl)
        (refl, refl)
]
  where
    cases : (o : Option ℕ) → (o ≡ none) ⊎ ((id : ℕ) × (o ≡ some id))
    cases none = inl refl
    cases (some id) = inr (id, refl)

pub callback-Agrees :
    (c : Callback) (q : List NetworkHandleTask) (m : NetworkManager)
    → m.single_thread_handle_mode ≡ false
    → Agrees c q m
callback-Agrees (accept ep) = accept-Agrees ep
callback-Agrees (connect ep) = connect-Agrees ep
callback-Agrees (listen_fail port) = listen_fail-Agrees port
callback-Agrees (connect_fail ep) = connect_fail-Agrees ep
callback-Agrees (disconnect ep) = disconnect-Agrees ep
