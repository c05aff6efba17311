-- ===== src/Network/Manager/Ids/Growth.antt =====
-- `OnAccept`, `OnConnect` and `OnDisconnect` and the bound of the numbers of connections.
use elegance.Prelude.{
  ℕ, ◌+◌, ◌≤◌, ◌≡◌, refl, arith, true, false, Option, none, some, List, [], ◌∷◌, length,
}
use elegance.Prelude.Map.{Map, find, insert, nat_key}
use elegance.Network.Endpoint.{Endpoint, endpoint_key}
use elegance.Network.Manager.{
  NetworkManager, NetworkHandleTask, Call, SocketAccept, SocketConnect, get_free_net_id, on_accept,
  on_connect, on_disconnect, listen_failed_at, connect_failed_to, forget, free_net_id, notify,
  push_task, add_accepts, add_connects, add_endpoint, accept_task, accepted, connected,
  connect_failed, listen_failed, new_task, on_accept_call, on_connect_call, on_listen_fail,
}
use elegance.Network.Manager.Modes.{
  Callback, accept, connect, listen_fail, connect_fail, disconnect, callback, callbacks,
}

-- `max_net_id_` grows with a callback by at most 1.
pub get_free_net_id-max : (m : NetworkManager) → (get_free_net_id m).1.max_net_id ≤ m.max_net_id + 1
unfolding get_free_net_id
get_free_net_id-max m = ground arith

add_accepts-max :
    (id : ℕ) (ep : Endpoint) (l : Map ℕ SocketAccept) (m : NetworkManager)
    → (add_accepts id ep l m).max_net_id ≡ m.max_net_id
unfolding add_accepts add_endpoint
add_accepts-max id ep [] m = refl
add_accepts-max id ep ((b, s) ∷ rest) m = ground (
  arith,
  add_accepts-max id ep rest m,
  add_accepts-max id ep rest
      (add_endpoint id ep (record m { net_id_to_accept = insert id b m.net_id_to_accept })),
)

add_connects-max :
    (id : ℕ) (ep : Endpoint) (l : Map ℕ SocketConnect) (m : NetworkManager)
    → (add_connects id ep l m).max_net_id ≡ m.max_net_id
unfolding add_connects add_endpoint
add_connects-max id ep [] m = refl
add_connects-max id ep ((b, s) ∷ rest) m = ground (
  arith,
  add_connects-max id ep rest m,
  add_connects-max id ep rest
      (add_endpoint id ep (record m { net_id_to_connect = insert id b m.net_id_to_connect })),
)

notify-max :
    (t : NetworkHandleTask) (c : Call) (m : NetworkManager)
    → (notify t c m).0.max_net_id ≡ m.max_net_id
unfolding notify push_task
notify-max t c m = ground arith

on_disconnect-max :
    (ep : Endpoint) (m : NetworkManager) → (on_disconnect ep m).0.max_net_id ≡ m.max_net_id
unfolding on_disconnect free_net_id forget
on_disconnect-max ep m = go (find ep m.endpoint_to_net_id) refl
  where
    go :
        (o : Option ℕ)
        → find ep m.endpoint_to_net_id ≡ o
        → (on_disconnect ep m).0.max_net_id ≡ m.max_net_id
    go none e = rw (on_disconnect, e)
    go (some id) e = rw (on_disconnect, e) (notify-max _ _ (forget id ep m))

callback-max : (c : Callback) (m : NetworkManager) → (callback c m).0.max_net_id ≤ m.max_net_id + 1
unfolding callback on_accept on_connect listen_failed_at connect_failed_to
callback-max (accept ep) m =
    let (id, m1) = get_free_net_id m in
    omega (
      arith,
      get_free_net_id-max m,
      add_accepts-max id ep m1.accept_list m1,
      notify-max (accept_task accepted id ep)
          (on_accept_call ep.remote_ip_addr ep.remote_port ep.local_port id)
          (add_accepts id ep m1.accept_list m1),
    )
callback-max (connect ep) m =
    let (id, m1) = get_free_net_id m in
    omega (
      arith,
      get_free_net_id-max m,
      add_connects-max id ep m1.connect_list m1,
      notify-max (accept_task connected id ep)
          (on_connect_call ep.remote_ip_addr ep.remote_port ep.local_port true id)
          (add_connects id ep m1.connect_list m1),
    )
callback-max (listen_fail port) m = omega (
  arith,
  notify-max (record new_task { task_type = listen_failed; local_port = port })
      (on_listen_fail port) m,
)
callback-max (connect_fail ep) m = omega (
  arith,
  notify-max (accept_task connect_failed 0 ep)
      (on_connect_call ep.remote_ip_addr ep.remote_port ep.local_port false 0) m,
)
callback-max (disconnect ep) m = omega (arith, on_disconnect-max ep m)

pub callbacks-max :
    (cs : List Callback) (m : NetworkManager)
    → (callbacks cs m).0.max_net_id ≤ m.max_net_id + length cs
unfolding callbacks
callbacks-max [] m = omega arith
callbacks-max (c ∷ cs) m = omega (arith, callback-max c m, callbacks-max cs (callback c m).0)
