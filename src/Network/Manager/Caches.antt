-- ===== src/Network/Manager/Caches.antt =====
-- What the packer keeps of a connection, and the number of the connection.
use elegance.Prelude.{
  ℕ, ◌≡◌, refl, ap, ◌∙◌, Bool, true, false, Option, none, some, List, [], ◌∷◌, arith, if◌then◌else◌,
}
use elegance.Prelude.Map.{Map, find, insert, nat_key}
use elegance.Network.Endpoint.{Endpoint, endpoint_key}
use elegance.Network.Manager.{
  NetworkManager, NetworkHandleTask, SocketAccept, SocketConnect, Call, Calls, add_endpoint,
  add_accepts, add_connects, get_free_net_id, notify, push_task, call_handlers, on_accept,
  on_connect, on_disconnect, listen_failed_at, connect_failed_to, forget, free_net_id,
  check_on_handle_accept, check_on_handle_connect,
}
use elegance.Network.Manager.Modes.{
  Callback, accept, connect, listen_fail, connect_fail, disconnect, callback, callbacks,
}

-- The packer is that of the other manager.
abbrev SamePacker : NetworkManager → NetworkManager → Type 0
SamePacker m n = n.packager ≡ m.packager

SamePacker-if :
    (b : Bool) (m x y : NetworkManager)
    → SamePacker m x
    → SamePacker m y
    → SamePacker m (if b then x else y)
SamePacker-if true m x y h k = h
SamePacker-if false m x y h k = k

add_accepts-SamePacker :
    (id : ℕ) (ep : Endpoint) (l : Map ℕ SocketAccept) (m : NetworkManager)
    → SamePacker m (add_accepts id ep l m)
unfolding add_accepts add_endpoint
add_accepts-SamePacker id ep [] m = refl
add_accepts-SamePacker id ep ((a, s) ∷ rest) m =
    SamePacker-if (check_on_handle_accept ep.remote_ip_addr ep.remote_port s) m _ _
      (add_accepts-SamePacker id ep rest
        (add_endpoint id ep (record m { net_id_to_accept = insert id a m.net_id_to_accept })))
      (add_accepts-SamePacker id ep rest m)

add_connects-SamePacker :
    (id : ℕ) (ep : Endpoint) (l : Map ℕ SocketConnect) (m : NetworkManager)
    → SamePacker m (add_connects id ep l m)
unfolding add_connects add_endpoint
add_connects-SamePacker id ep [] m = refl
add_connects-SamePacker id ep ((c, s) ∷ rest) m =
    SamePacker-if (check_on_handle_connect ep.remote_ip_addr ep.remote_port s) m _ _
      (add_connects-SamePacker id ep rest
        (add_endpoint id ep (record m { net_id_to_connect = insert id c m.net_id_to_connect })))
      (add_connects-SamePacker id ep rest m)

get_free_net_id-SamePacker : (m : NetworkManager) → SamePacker m (get_free_net_id m).1
unfolding get_free_net_id
get_free_net_id-SamePacker m = ground arith

notify-SamePacker :
    (t : NetworkHandleTask) (c : Call) (m : NetworkManager) → SamePacker m (notify t c m).0
unfolding notify push_task
notify-SamePacker t c m = go m.single_thread_handle_mode
  where
    go :
        (b : Bool)
        → SamePacker m
            (if◌then◌else◌ {A = NetworkManager × Calls} b
              (push_task t m, [])
              (m, call_handlers c m)).0
    go true = refl
    go false = refl

on_disconnect-SamePacker :
    (ep : Endpoint) (m : NetworkManager) → SamePacker m (on_disconnect ep m).0
unfolding on_disconnect forget free_net_id
on_disconnect-SamePacker ep m = go (find ep m.endpoint_to_net_id) refl
  where
    go : (o : Option ℕ) → find ep m.endpoint_to_net_id ≡ o → SamePacker m (on_disconnect ep m).0
    go none e = rw (on_disconnect, e)
    go (some id) e = rw (on_disconnect, e) (notify-SamePacker _ _ (forget id ep m))

callback-SamePacker : (c : Callback) (m : NetworkManager) → SamePacker m (callback c m).0
unfolding callback on_accept on_connect listen_failed_at connect_failed_to
callback-SamePacker (accept ep) m =
    let (id, m1) = get_free_net_id m in
    notify-SamePacker _ _ (add_accepts id ep m1.accept_list m1)
    ∙ (add_accepts-SamePacker id ep m1.accept_list m1 ∙ get_free_net_id-SamePacker m)
callback-SamePacker (connect ep) m =
    let (id, m1) = get_free_net_id m in
    notify-SamePacker _ _ (add_connects id ep m1.connect_list m1)
    ∙ (add_connects-SamePacker id ep m1.connect_list m1 ∙ get_free_net_id-SamePacker m)
callback-SamePacker (listen_fail port) m = notify-SamePacker _ _ m
callback-SamePacker (connect_fail ep) m = notify-SamePacker _ _ m
callback-SamePacker (disconnect ep) m = on_disconnect-SamePacker ep m

-- Accepts, connects, disconnects and failures, in any order, change nothing of what the packer keeps
-- for any number of a connection, not even for the number of one that is gone.
pub callbacks-packager :
    (cs : List Callback) (m : NetworkManager) (id : ℕ)
    → find id (callbacks cs m).0.packager ≡ find id m.packager
unfolding callbacks
callbacks-packager [] m id = refl
callbacks-packager (c ∷ cs) m id =
    callbacks-packager cs (callback c m).0 id ∙ ap (find id) (callback-SamePacker c m)
