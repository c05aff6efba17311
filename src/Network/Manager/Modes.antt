-- ===== src/Network/Manager/Modes.antt =====
-- The two modes of `NetworkManager`: calls of the handlers at once, and tasks in a queue.
pub mod Steps
pub mod Agrees
pub mod Order
use elegance.Prelude.{
  ℕ, zero, suc, ◌≡◌, refl, arith, Bool, true, false, Option, none, some, List, [], ◌∷◌, ◌++◌,
  length, if◌then◌else◌, append-nil, append_assoc, map, ap, ap₂, sym, if_map, ◌∙◌, ◌⊎◌, inl, inr,
}
use elegance.Prelude.Map.{Map, find, insert, nat_key}
use elegance.Network.Endpoint.{Endpoint, endpoint_key}
use elegance.Network.Manager.{
  NetworkManager, NetworkHandleTask, SocketAccept, SocketConnect, Call, Calls, call_handlers,
  notify, push_task, task_call, handle_net_task, on_accept, on_connect, listen_failed_at,
  connect_failed_to, on_disconnect, add_accepts, add_connects, add_endpoint, accepted, connected,
  connect_failed, listen_failed, disconnected, get_free_net_id, accept_task, new_task, forget,
  free_net_id, check_on_handle_accept, check_on_handle_connect,
}

-- A callback of the sockets, apart from the arrival of bytes.
pub data Callback : Type 0 where
  accept : Endpoint → Callback
  connect : Endpoint → Callback
  listen_fail : ℕ → Callback
  connect_fail : Endpoint → Callback
  disconnect : Endpoint → Callback

unfoldable pub callback : Callback → NetworkManager → NetworkManager × Calls
callback (accept ep) = on_accept ep
callback (connect ep) = on_connect ep
callback (listen_fail port) = listen_failed_at port
callback (connect_fail ep) = connect_failed_to ep
callback (disconnect ep) = on_disconnect ep

unfoldable pub callbacks : List Callback → NetworkManager → NetworkManager × Calls
callbacks [] m = (m, [])
callbacks (c ∷ cs) m =
    let (m1, calls) = callback c m in let (m2, more) = callbacks cs m1 in (m2, calls ++ more)

-- `HandleNetTask` called `n` times, with the calls it makes.
unfoldable pub handle_tasks : ℕ → NetworkManager → NetworkManager × Calls
handle_tasks zero m = (m, [])
handle_tasks (suc n) m =
    let (m1, calls) = handle_net_task m in let (m2, more) = handle_tasks n m1 in (m2, calls ++ more)

-- The manager in single-thread mode, with these tasks in its queue.
abbrev pub as_single : List NetworkHandleTask → NetworkManager → NetworkManager
as_single q m = record m { single_thread_handle_mode = true; handle_task_queue = q }

abbrev pub calls_of : List NetworkHandleTask → NetworkManager → Calls
calls_of [] m = []
calls_of (t ∷ ts) m = call_handlers (task_call t) m ++ calls_of ts m

-- What no callback changes.
abbrev pub Kept : NetworkManager → NetworkManager → Type 0
Kept m n =
    (n.handler_list ≡ m.handler_list) × (n.single_thread_handle_mode ≡ m.single_thread_handle_mode)
