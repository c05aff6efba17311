-- ===== src/Network/Sockets/Threads.antt =====
-- elegance/network/network_manager.cpp: `ListenThread` and `ConnectThread`, in which the sockets'
-- loops call the manager. An object that a thread makes has the address that is given.
use elegance.Prelude.{
  ℕ, ◌<◌, ◌≡◌, refl, ap, fun_ext, Bool, true, false, none, some, List, [], ◌∷◌, map, if◌then◌else◌,
  flatten,
}
use elegance.Prelude.Map.{find, insert, erase, nat_key}
use elegance.Network.Endpoint.{Endpoint, endpoint_key}
use elegance.Packer.{Packer, Package, Run, done, fault, out_of_fuel}
use elegance.Packer.Delivery.{AllSendable, AllNonempty}
use elegance.Network.Manager.{
  NetworkManager, SocketAccept, SocketConnect, Calls, on_accept, on_connect, on_disconnect, on_recv,
  listen_failed_at, connect_failed_to, more_calls,
}
use elegance.Network.Manager.Raw.{IsAccepted, Writes, send_all, payloads}
use elegance.Network.Manager.Delivery.{on_recv_all, calls_for_each, on_recv_all-send_all}
use elegance.Network.Sockets.{
  EpollEvent, readable, SocketAction, calls_on_accept, calls_on_connect, calls_on_recv,
  calls_on_disconnect, closes, on_event, connect_socket, connect_endpoint, Turn, Ending,
  still_running, returns,
}
use elegance.Network.Sockets.Paired.{AllShort, on_event-delivers}

-- An action of a loop, whose handler is the manager.
unfoldable pub perform : SocketAction → NetworkManager → Run (NetworkManager × Calls)
perform (calls_on_accept ep) m = done (on_accept ep m)
perform (calls_on_connect ep) m = done (on_connect ep m)
perform (calls_on_recv ep bytes) m = on_recv ep bytes m
perform (calls_on_disconnect ep) m = done (on_disconnect ep m)
perform (closes sock) m = done (m, [])

unfoldable pub performs : List SocketAction → NetworkManager → Run (NetworkManager × Calls)
performs [] m = done (m, [])
performs (x ∷ xs) m = elim (perform x m) [
  | done (m', calls) ↦ more_calls calls (performs xs m')
  | fault ↦ fault
  | out_of_fuel ↦ out_of_fuel
]

-- One event of the listener `a`: whether its loop goes on, and what the manager makes of it.
unfoldable pub listener_turn : ℕ → EpollEvent → NetworkManager → Bool × Run (NetworkManager × Calls)
listener_turn a e m = elim (find a m.accept_list) [
  | none ↦ (false, fault)
  | some s ↦ (elim (on_event e s) [
    | none ↦ (false, fault)
    | some (b, t, actions) ↦
        (b, performs actions (record m { accept_list = insert a t m.accept_list }))
  ])
]

-- What `ListenThread` does when `Listen` has returned.
unfoldable pub end_listener : ℕ → ℕ → NetworkManager → NetworkManager × Calls
end_listener a port m =
    let (m1, calls) = listen_failed_at port m in
    (record m1 { accept_list = erase a m1.accept_list }, calls)

-- The events of a listener, up to the one at which `Listen` returns.
unfoldable pub listener_turns :
    ℕ → ℕ → List EpollEvent → NetworkManager → Run (NetworkManager × Calls)
listener_turns a port [] m = done (m, [])
listener_turns a port (e ∷ es) m =
    let (on, run) = listener_turn a e m in
    elim run [
      | done (m', calls) ↦
          more_calls calls
            (elim on [ true ↦ listener_turns a port es m' | false ↦ done (end_listener a port m') ])
      | fault ↦ fault
      | out_of_fuel ↦ out_of_fuel
    ]

-- `ListenThread`: `ready` is whether the calls of `Listen` in front of its loop succeed.
unfoldable pub listen_thread :
    ℕ → Bool → ℕ → List EpollEvent → NetworkManager → Run (NetworkManager × Calls)
listen_thread a ready port es m =
    let listener : SocketAccept = record {
      handler_set = true;
      listening = ready;
      local_port = if ready then port else 0;
      endpoint_sock_map = [];
      sock_endpoint_map = [];
    } in
    let m1 = record m { accept_list = insert a listener m.accept_list } in
    if ready then listener_turns a port es m1 else done (end_listener a port m1)

-- What `ConnectThread` does when `Connect` has returned.
unfoldable pub end_connect : ℕ → SocketConnect → Ending → NetworkManager → NetworkManager × Calls
end_connect c s still_running m = (m, [])
end_connect c s (returns true) m = (record m { connect_list = erase c m.connect_list }, [])
end_connect c s (returns false) m =
    let (m1, calls) = connect_failed_to (connect_endpoint s) m in
    (record m1 { connect_list = erase c m1.connect_list }, calls)

-- `ConnectThread`: `ready` is whether the calls of `Connect` in front of `OnConnect` succeed, `s`
-- the object that they leave, and `added` and `turns` are those of its loop.
unfoldable pub connect_thread :
    ℕ → Bool → SocketConnect → Bool → List Turn → NetworkManager → Run (NetworkManager × Calls)
connect_thread c ready s added turns m =
    let m1 = record m { connect_list = insert c s m.connect_list } in
    if ready
    then (elim (connect_socket added turns s) [
      | none ↦ fault
      | some (ending, actions) ↦ (elim (performs actions m1) [
        | done (m2, calls) ↦ more_calls calls (done (end_connect c s ending m2))
        | fault ↦ fault
        | out_of_fuel ↦ out_of_fuel
      ])
    ])
    else done (end_connect c s (returns false) m1)

-- The calls of `OnRecv` for the pieces of an event.
performs-on_recv_all :
    (ep : Endpoint) (pieces : List (List ℕ)) (m : NetworkManager)
    → performs (map (calls_on_recv ep) pieces) m ≡ on_recv_all ep pieces m
unfolding performs perform on_recv_all
performs-on_recv_all ep [] m = refl
performs-on_recv_all ep (piece ∷ pieces) m =
    ap
      (λ (f : NetworkManager → Run (NetworkManager × Calls)).
        elim (on_recv ep piece m) as (λ x. Run (NetworkManager × Calls)) [
          | done (m', calls) ↦ more_calls calls (f m')
          | fault ↦ fault
          | out_of_fuel ↦ out_of_fuel
        ])
      (fun_ext (λ m'. performs-on_recv_all ep pieces m'))

-- From `Send` to the handlers, through the sockets: packages of at least one byte and of sizes that
-- are an `int` are sent one after another on an accepted connection. In the receiving process, the
-- bytes that the sending socket has been given come in one event of a listener's socket, in any
-- pieces of 1 to 4095 bytes. The listener knows the socket's endpoint, and its manager a number
-- above zero for that; it has read nothing of that connection yet and does not use single-thread
-- mode. Then the listener goes on, each handler is called with each package, whole and in the order
-- of sending, and nothing changes but the packer's state.
pub listener_turn-send_all :
    (m1 m2 : NetworkManager) (id1 id2 sock1 sock2 a : ℕ) (s : SocketAccept) (ep : Endpoint)
    (ps : List Package) (piece : List ℕ) (pieces : List (List ℕ)) (closed : Bool) (w : Writes)
    → IsAccepted m1 id1 sock1
    → send_all id1 ps m1 ≡ some w
    → AllSendable ps
    → flatten (payloads w) ≡ flatten (piece ∷ pieces)
    → AllNonempty (piece ∷ pieces)
    → AllShort (piece ∷ pieces)
    → find a m2.accept_list ≡ some s
    → s.handler_set ≡ true
    → find sock2 s.sock_endpoint_map ≡ some ep
    → find ep m2.endpoint_to_net_id ≡ some id2
    → 0 < id2
    → find id2 m2.packager ≡ none
    → m2.single_thread_handle_mode ≡ false
    → (k : Packer) × (listener_turn a (readable sock2 (piece ∷ pieces) closed) m2 ≡ (
      true,
      done (
        record m2 { accept_list = insert a s m2.accept_list; packager = k },
        calls_for_each id2 ps m2.handler_list,
      ),
    ))
unfolding listener_turn
listener_turn-send_all m1 m2 id1 id2 sock1 sock2 a s ep ps piece pieces closed w accepted sent
      sendable same nonempty short there handled known numbered positive fresh mode =
    let m3 : NetworkManager = record m2 { accept_list = insert a s m2.accept_list } in
    let (k, ran) =
      on_recv_all-send_all m1 m3 id1 id2 sock1 ep ps (piece ∷ pieces) w accepted numbered positive
        fresh mode sendable sent nonempty same in
    (
      k,
      rw (
        listener_turn,
        there,
        on_event-delivers sock2 ep piece pieces closed s handled known short,
        performs-on_recv_all ep (piece ∷ pieces) m3,
        ran,
      ),
    )
