-- ===== src/Network/Sockets/Numbered.antt =====
-- elegance/platform/network/socket_accept.cpp with elegance/network/network_manager.cpp: a
-- connection from the socket that the listener accepts to the number that the handlers know.
use elegance.Prelude.{
  ℕ, ◌+◌, ◌≡◌, ◌≢◌, ◌⊎◌, inl, inr, subst, refl, ap, sym, ◌∙◌, Bool, true, false, none, some, List,
  [], ◌∷◌, arith, ◌==◌, if◌then◌else◌, Bool-cases,
}
use elegance.Prelude.Map.{Map, find, insert, nat_key, find-insert_same}
use elegance.Network.Endpoint.{Endpoint, endpoint_key}
use elegance.Network.Manager.{
  NetworkManager, SocketAccept, get_free_net_id, check_on_handle_accept, add_accepts, add_endpoint,
  on_accept, notify, push_task, NetworkHandleTask, Call, Calls, call_handlers, has_entry,
}
use elegance.Network.Manager.Raw.{IsAccepted, find_sock}
use elegance.Network.Sockets.{accept_sock}

-- `CheckOnHandle` holds of no other listener of the list.
abbrev pub OnlyListener : ℕ → Endpoint → Map ℕ SocketAccept → Type 0
OnlyListener a ep [] = Unit
OnlyListener a ep ((b, s) ∷ rest) =
    ((b ≢ a) → check_on_handle_accept ep.remote_ip_addr ep.remote_port s ≡ false)
    × OnlyListener a ep rest

-- What the loop of `OnAccept` leaves.
record Added (id a : ℕ) (ep : Endpoint) (m : NetworkManager) : Type 0 where
  has_endpoint : find id m.net_id_to_endpoint ≡ some ep
  has_listener : find id m.net_id_to_accept ≡ some a

add_endpoint-Added :
    (id a : ℕ) (ep : Endpoint) (m : NetworkManager)
    → Added id a ep
        (add_endpoint id ep (record m { net_id_to_accept = insert id a m.net_id_to_accept }))
unfolding add_endpoint
add_endpoint-Added id a ep m = record {
  has_endpoint = find-insert_same id ep m.net_id_to_endpoint;
  has_listener = find-insert_same id a m.net_id_to_accept;
}

-- The listener has a connection from the peer, and is still to come in the loop.
record IsNext (a : ℕ) (ep : Endpoint) (l : Map ℕ SocketAccept) : Type 0 where
  accept : SocketAccept
  there : find a l ≡ some accept
  checks : check_on_handle_accept ep.remote_ip_addr ep.remote_port accept ≡ true

add_accepts-Added :
    (id a : ℕ) (ep : Endpoint) (l : Map ℕ SocketAccept) (m : NetworkManager)
    → OnlyListener a ep l
    → IsNext a ep l ⊎ Added id a ep m
    → Added id a ep (add_accepts id ep l m)
unfolding add_accepts find
add_accepts-Added id a ep [] m only (inl n) = absurd (ground (arith, n.there))
add_accepts-Added id a ep [] m only (inr d) = d
add_accepts-Added id a ep ((b, s) ∷ rest) m only h =
    split (a == b) refl (check_on_handle_accept ep.remote_ip_addr ep.remote_port s) refl h
      (λ m'. add_accepts-Added id a ep rest m' only.1)
  where
    m1 : NetworkManager
    m1 = add_endpoint id ep (record m { net_id_to_accept = insert id b m.net_id_to_accept })

    split :
        (c : Bool)
        → (a == b) ≡ c
        → (d : Bool) → check_on_handle_accept ep.remote_ip_addr ep.remote_port s ≡ d
        → IsNext a ep ((b, s) ∷ rest) ⊎ Added id a ep m
        → ((m' : NetworkManager)
            → IsNext a ep rest ⊎ Added id a ep m'
            → Added id a ep (add_accepts id ep rest m'))
        → Added id a ep (if d then add_accepts id ep rest m1 else add_accepts id ep rest m)
    split true e true f x rec =
        rec m1
          (inr (subst (λ k. Added id k ep m1) (ground (arith, e)) (add_endpoint-Added id b ep m)))
    split true e false f (inl n) rec = absurd (
        let found : some s ≡ some n.accept = ground (arith, n.there, e) in
        let same : s ≡ n.accept = ground (arith, found) in
        ground
          (arith, f, n.checks, ap (check_on_handle_accept ep.remote_ip_addr ep.remote_port) same))
    split true e false f (inr x) rec = rec m (inr x)
    split false e true f x rec =
        absurd (ground (arith, f, only.0 (λ y. absurd (ground (arith, e, y)))))
    split false e false f (inl n) rec =
        rec m (
          inl (record { accept = n.accept; there = ground (arith, n.there, e); checks = n.checks }))
    split false e false f (inr x) rec = rec m (inr x)

-- The loop leaves the listeners and the connecting sockets as they are.
add_accepts-keeps :
    (id : ℕ) (ep : Endpoint) (l : Map ℕ SocketAccept) (m : NetworkManager)
    → ((add_accepts id ep l m).accept_list ≡ m.accept_list)
      × ((add_accepts id ep l m).net_id_to_connect ≡ m.net_id_to_connect)
unfolding add_accepts add_endpoint
add_accepts-keeps id ep [] m = (refl, refl)
add_accepts-keeps id ep ((b, s) ∷ rest) m =
    elim (Bool-cases (check_on_handle_accept ep.remote_ip_addr ep.remote_port s)) [
      | inl t ↦
          rw (add_accepts, t)
            (add_accepts-keeps id ep rest
              (add_endpoint id ep (record m { net_id_to_accept = insert id b m.net_id_to_accept })))
      | inr f ↦ rw (add_accepts, f) (add_accepts-keeps id ep rest m)
    ]

-- The handlers' notice changes nothing that a send looks at.
notify-IsAccepted :
    (t : NetworkHandleTask) (c : Call) (m : NetworkManager) (id sock : ℕ)
    → IsAccepted m id sock
    → IsAccepted (notify t c m).0 id sock
unfolding notify push_task
notify-IsAccepted t c m id sock h = by_mode m.single_thread_handle_mode
  where
    by_mode :
        (b : Bool)
        → IsAccepted
            (if◌then◌else◌ {A = NetworkManager × Calls} b
              (push_task t m, [])
              (m, call_handlers c m)).0
            id
            sock
    by_mode true = record {
      endpoint = h.endpoint;
      listener = h.listener;
      accept = h.accept;
      has_endpoint = h.has_endpoint;
      has_listener = h.has_listener;
      has_accept = h.has_accept;
      has_sock = h.has_sock;
      no_connect = h.no_connect;
    }
    by_mode false = h

get_free_net_id-keeps :
    (m : NetworkManager)
    → ((get_free_net_id m).1.accept_list ≡ m.accept_list)
      × ((get_free_net_id m).1.net_id_to_connect ≡ m.net_id_to_connect)
unfolding get_free_net_id
get_free_net_id-keeps m = by_list m.free_net_id_list
  where
    by_list :
        (l : List ℕ)
        → ((elim l as (λ x. ℕ × NetworkManager) [
          | [] ↦ (m.max_net_id + 1, record m { max_net_id = m.max_net_id + 1 })
          | id ∷ ids ↦ (id, record m { free_net_id_list = ids })
        ]).1.accept_list
            ≡ m.accept_list)
          × ((elim l as (λ x. ℕ × NetworkManager) [
            | [] ↦ (m.max_net_id + 1, record m { max_net_id = m.max_net_id + 1 })
            | id ∷ ids ↦ (id, record m { free_net_id_list = ids })
          ]).1.net_id_to_connect
              ≡ m.net_id_to_connect)
    by_list [] = (refl, refl)
    by_list (id ∷ ids) = (refl, refl)

abbrev pub endpoint_from : List ℕ → ℕ → SocketAccept → Endpoint
endpoint_from ip port s = record {
  remote_ip_addr = ip;
  remote_port = port;
  local_port = s.local_port;
}

-- The manager, in whose list the listener `a` has accepted a connection.
abbrev pub with_accepted : ℕ → ℕ → List ℕ → ℕ → SocketAccept → NetworkManager → NetworkManager
with_accepted a sock ip port s m = record m {
  accept_list = insert a (accept_sock sock ip port s).0 m.accept_list;
}

-- A connection that a listener of the manager accepts, and then reports to it, where `CheckOnHandle`
-- is false for every other listener, so that none has a connection from the same port of an address
-- of the same length, and the number that is given is not in the table of connecting sockets: the
-- manager's tables lead from that number to the listener, and through it
-- to the socket of the connection. So what `Send` writes for that number goes to that socket.
pub on_accept-IsAccepted :
    (a sock port : ℕ) (ip : List ℕ) (s : SocketAccept) (m : NetworkManager)
    → OnlyListener a (endpoint_from ip port s) (with_accepted a sock ip port s m).accept_list
    → find (get_free_net_id (with_accepted a sock ip port s m)).0 m.net_id_to_connect ≡ none
    → IsAccepted
        (on_accept (endpoint_from ip port s) (with_accepted a sock ip port s m)).0
        (get_free_net_id (with_accepted a sock ip port s m)).0
        sock
unfolding on_accept accept_sock check_on_handle_accept find_sock
on_accept-IsAccepted a sock port ip s m only free =
    let ep : Endpoint = endpoint_from ip port s in
    let t : SocketAccept = (accept_sock sock ip port s).0 in
    let id : ℕ = (get_free_net_id (with_accepted a sock ip port s m)).0 in
    let m1 : NetworkManager = (get_free_net_id (with_accepted a sock ip port s m)).1 in
    let (lists, connects) = get_free_net_id-keeps (with_accepted a sock ip port s m) in
    let (lists', connects') = add_accepts-keeps id ep m1.accept_list m1 in
    let found : find ep t.endpoint_sock_map ≡ some sock =
      find-insert_same ep sock s.endpoint_sock_map in
    let listed : find a m1.accept_list ≡ some t =
      ap (find a) lists ∙ find-insert_same a t m.accept_list in
    let added =
      add_accepts-Added id a ep m1.accept_list m1 (subst (OnlyListener a ep) (sym lists) only)
        (inl (record { accept = t; there = listed; checks = ap has_entry found })) in
    notify-IsAccepted _ _ (add_accepts id ep m1.accept_list m1) id sock (record {
      endpoint = ep;
      listener = a;
      accept = t;
      has_endpoint = added.has_endpoint;
      has_listener = added.has_listener;
      has_accept = ap (find a) lists' ∙ listed;
      has_sock = found;
      no_connect = ap (find id) connects' ∙ ap (find id) connects ∙ free;
    })
