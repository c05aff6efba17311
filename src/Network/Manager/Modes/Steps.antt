-- ===== src/Network/Manager/Modes/Steps.antt =====
-- What the callbacks have in common does the same in both modes.
use elegance.Prelude.{
  ℕ, ◌≡◌, refl, arith, Bool, true, false, List, [], ◌∷◌, ◌++◌, if◌then◌else◌, ap₂, sym, if_map, ◌∙◌,
}
use elegance.Prelude.Map.{Map, insert, nat_key}
use elegance.Network.Endpoint.{Endpoint, endpoint_key}
use elegance.Network.Manager.{
  NetworkManager, NetworkHandleTask, SocketAccept, SocketConnect, Call, call_handlers, notify,
  push_task, add_accepts, add_connects, add_endpoint, get_free_net_id, check_on_handle_accept,
  check_on_handle_connect,
}
use elegance.Network.Manager.Modes.{as_single, Kept}

pub add_accepts-as_single :
    (id : ℕ) (ep : Endpoint) (l : Map ℕ SocketAccept) (q : List NetworkHandleTask)
    (m : NetworkManager)
    → add_accepts id ep l (as_single q m) ≡ as_single q (add_accepts id ep l m)
unfolding add_accepts add_endpoint
add_accepts-as_single id ep [] q m = refl
add_accepts-as_single id ep ((a, s) ∷ rest) q m =
    let b = check_on_handle_accept ep.remote_ip_addr ep.remote_port s in
    ap₂ (λ x y. if b then x else y) (add_accepts-as_single id ep rest q _)
      (add_accepts-as_single id ep rest q m)
    ∙ sym (if_map b (as_single q) _ _)

pub add_connects-as_single :
    (id : ℕ) (ep : Endpoint) (l : Map ℕ SocketConnect) (q : List NetworkHandleTask)
    (m : NetworkManager)
    → add_connects id ep l (as_single q m) ≡ as_single q (add_connects id ep l m)
unfolding add_connects add_endpoint
add_connects-as_single id ep [] q m = refl
add_connects-as_single id ep ((c, s) ∷ rest) q m =
    let b = check_on_handle_connect ep.remote_ip_addr ep.remote_port s in
    ap₂ (λ x y. if b then x else y) (add_connects-as_single id ep rest q _)
      (add_connects-as_single id ep rest q m)
    ∙ sym (if_map b (as_single q) _ _)

pub Kept-if :
    (b : Bool) (m x y : NetworkManager) → Kept m x → Kept m y → Kept m (if b then x else y)
Kept-if true m x y h k = h
Kept-if false m x y h k = k

pub add_accepts-Kept :
    (id : ℕ) (ep : Endpoint) (l : Map ℕ SocketAccept) (m : NetworkManager)
    → Kept m (add_accepts id ep l m)
unfolding add_accepts add_endpoint
add_accepts-Kept id ep [] m = (refl, refl)
add_accepts-Kept id ep ((a, s) ∷ rest) m =
    Kept-if (check_on_handle_accept ep.remote_ip_addr ep.remote_port s) m _ _
      (add_accepts-Kept id ep rest
        (add_endpoint id ep (record m { net_id_to_accept = insert id a m.net_id_to_accept })))
      (add_accepts-Kept id ep rest m)

pub add_connects-Kept :
    (id : ℕ) (ep : Endpoint) (l : Map ℕ SocketConnect) (m : NetworkManager)
    → Kept m (add_connects id ep l m)
unfolding add_connects add_endpoint
add_connects-Kept id ep [] m = (refl, refl)
add_connects-Kept id ep ((c, s) ∷ rest) m =
    Kept-if (check_on_handle_connect ep.remote_ip_addr ep.remote_port s) m _ _
      (add_connects-Kept id ep rest
        (add_endpoint id ep (record m { net_id_to_connect = insert id c m.net_id_to_connect })))
      (add_connects-Kept id ep rest m)

pub get_free_net_id-as_single :
    (q : List NetworkHandleTask) (m : NetworkManager)
    → get_free_net_id (as_single q m) ≡ ((get_free_net_id m).0, as_single q (get_free_net_id m).1)
unfolding get_free_net_id
get_free_net_id-as_single q m = ground arith

pub get_free_net_id-Kept : (m : NetworkManager) → Kept m (get_free_net_id m).1
unfolding get_free_net_id
get_free_net_id-Kept m = ground arith

pub notify-as_single :
    (t : NetworkHandleTask) (c : Call) (q : List NetworkHandleTask) (m : NetworkManager)
    → notify t c (as_single q m) ≡ (as_single (q ++ t ∷ []) m, [])
unfolding notify push_task
notify-as_single t c q m = refl

pub notify-direct :
    (t : NetworkHandleTask) (c : Call) (m : NetworkManager)
    → m.single_thread_handle_mode ≡ false
    → notify t c m ≡ (m, call_handlers c m)
unfolding notify
notify-direct t c m h = rw h
