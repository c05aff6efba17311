-- ===== src/Tests/Sockets.antt =====
-- The sockets' loops at concrete inputs.
use elegance.Prelude.{
  Bool, false, ◌++◌, ℕ, ◌+◌, length, ◌≡◌, refl, arith, true, some, List, [], ◌∷◌, map,
}
use elegance.Prelude.Map.{find, insert, nat_key, find-insert_same}
use elegance.Network.Endpoint.{Endpoint, endpoint_key, same_endpoint}
use elegance.Network.Manager.{NetworkManager, SocketAccept, get_free_net_id, on_accept}
use elegance.Network.Manager.Raw.{IsAccepted}
use elegance.Network.Sockets.{
  incoming, from, readable, calls_on_recv, calls_on_accept, on_event, accept_sock, SocketAction,
  listen_loop, hung_up,
}
use elegance.Network.Sockets.Balanced.{opened, over, Listens-balanced}
use elegance.Network.Sockets.Missed.{NotClosed, listen_loop-missed_end}
use elegance.Network.Sockets.Paired.{Listens, begins, turns, Listens-Paired}
use elegance.Network.Sockets.Numbered.{with_accepted, on_accept-IsAccepted}
use elegance.Packer.{Packer, done}
use elegance.Network.Manager.Delivery.{calls_for_each}
use elegance.Network.Endpoint.{below}
use elegance.Network.Sockets.Threads.{listener_turn, listener_turn-send_all}
use elegance.Tests.Managers.{
  peer, listener, server, server-IsAccepted, packages, writes, pieces, send_all_packages,
}

abbrev quiet : SocketAccept
quiet = record listener { endpoint_sock_map = []; sock_endpoint_map = [] }

abbrev address : List ℕ
address = 49 ∷ 50 ∷ []

-- The listener with one connection, on the socket 9.
abbrev busy : SocketAccept
busy = (accept_sock 9 address 4000 quiet).0

busy-Listens : Listens quiet busy (calls_on_accept peer ∷ [])
unfolding on_event find accept_sock
busy-Listens = turns begins (incoming (from 9 address 4000)) refl refl

Listens-Paired_example :
    (ep' : Endpoint) × (find 9 busy.sock_endpoint_map ≡ some ep') × (same_endpoint ep' peer ≡ true)
unfolding accept_sock
Listens-Paired_example = Listens-Paired busy-Listens refl peer 9 (find-insert_same peer 9 [])

-- The connection on the socket 9 sends a byte and ends; another comes and goes.
listen_loop-missed_end_example :
    (b : Bool) × (t : SocketAccept) × (more : List SocketAction) × (listen_loop
        (readable 9 ((5 ∷ []) ∷ []) true
          ∷ incoming (from 10 address 5000)
          ∷ readable 10 ((6 ∷ []) ∷ []) false
          ∷ hung_up 10
          ∷ [])
        busy
      ≡ some (b, t, map (calls_on_recv peer) ((5 ∷ []) ∷ []) ++ more))
    × (find 9 t.sock_endpoint_map ≡ some peer)
    × NotClosed 9 more
unfolding accept_sock
listen_loop-missed_end_example =
    listen_loop-missed_end 9 peer (5 ∷ []) []
      (incoming (from 10 address 5000) ∷ readable 10 ((6 ∷ []) ∷ []) false ∷ hung_up 10 ∷ []) busy
      refl (find-insert_same 9 peer []) (omega arith, tt)
      (refl, ((refl, (omega arith, tt)), (refl, tt)))

abbrev serving : NetworkManager
serving = record server { accept_list = (3, quiet) ∷ [] }

on_accept-IsAccepted_example :
    IsAccepted
      (on_accept peer (with_accepted 3 9 address 4000 quiet serving)).0
      (get_free_net_id (with_accepted 3 9 address 4000 quiet serving)).0
      9
unfolding find insert
on_accept-IsAccepted_example =
    on_accept-IsAccepted 3 9 4000 address quiet serving ((λ h. absurd (h refl)), tt) refl

-- The packages of the other tests, which come to the listener of the server on its socket 7.
listener_turn-send_all_example :
    (k : Packer) × (listener_turn 3 (readable 7 pieces true) server ≡ (
      true,
      done (
        record server { accept_list = insert 3 listener server.accept_list; packager = k },
        calls_for_each 1 packages (100 ∷ 200 ∷ []),
      ),
    ))
unfolding find same_endpoint below
listener_turn-send_all_example =
    listener_turn-send_all server server 1 1 7 7 3 listener peer packages (2 ∷ 0 ∷ [])
      ((0 ∷ 0 ∷ 5 ∷ 6 ∷ []) ∷ []) true writes server-IsAccepted send_all_packages
      ((omega arith, omega arith), tt) refl (omega arith, (omega arith, tt))
      (omega arith, (omega arith, tt)) refl refl refl refl (omega arith) refl refl

Listens-balanced_example :
    opened (calls_on_accept peer ∷ [])
    ≡ over (calls_on_accept peer ∷ []) + length busy.sock_endpoint_map
Listens-balanced_example = Listens-balanced busy-Listens refl refl
