-- ===== src/Tests/Sessions.antt =====
-- Managers of remote procedure calls at concrete inputs.
use elegance.Prelude.{ℕ, true, ◌≡◌, refl, arith, Option, some, List, [], ◌∷◌}
use elegance.Prelude.Map.{find, insert, nat_key, find-insert_same}
use elegance.Prelude.Strings.{string_key, c_string_in, Without}
use elegance.Rpc.Session.{
  RpcSession, new_session, async_call, sent, message, type_request, type_response,
}
use elegance.Rpc.Manager.{
  RpcManager, new_manager, UncheckRpcInfo, async_connect, async_listen, on_connect, on_accept,
  on_recv_package, on_check_key_response, on_disconnect, calculate_rpc_session_key,
  check_key_message, activate, send_to, disconnect, request_called_back, request_deleted,
}
use elegance.Rpc.Manager.Links.{WellLinked, info_key}
use elegance.Rpc.Manager.Steps.{
  start, later, listens, accepted, received, disconnected, Reach-WellLinked,
}
use elegance.Rpc.Manager.Handshake.{
  Activated, on_recv_package-handshake, on_recv_package-wrong_key, on_recv_package-reused,
  on_recv_package-bypass,
}
use elegance.Rpc.Manager.Dispatch.{
  calculate_rpc_session_key_injective, on_recv_package-activate_stale, on_recv_package-async_call,
}

-- "::1" and "key"
abbrev address : List ℕ
address = 58 ∷ 58 ∷ 49 ∷ []

abbrev key : List ℕ
key = 107 ∷ 101 ∷ 121 ∷ []

abbrev echo : ℕ → List ℕ → Option (List ℕ)
echo h bytes = some bytes

abbrev client : RpcManager
client = (async_connect address 80 key (new_manager (some 1))).0

abbrev server : RpcManager
server = (async_listen 80 key (new_manager (some 2))).0

-- The server with one connection, under the number 7.
abbrev visited : RpcManager
visited = (on_accept address 5000 80 7 server).0

Reach-WellLinked_example : WellLinked (on_disconnect 7 (on_check_key_response 7 1 visited).0).0
unfolding on_recv_package
Reach-WellLinked_example = Reach-WellLinked {handle_call = echo} {h = some 2} (
    later
      (later (later (later start (listens 80 key)) (accepted address 5000 80 7))
        (received 7 (1 ∷ 1 ∷ []) refl))
      (disconnected 7))

key-Without : Without 0 key
key-Without = (omega arith, (omega arith, (omega arith, tt)))

address-Without : Without 95 address
address-Without = (omega arith, (omega arith, (omega arith, tt)))

on_recv_package-handshake_example :
    (request response : List ℕ) × ((on_connect address 80 5000 true 3 client).1
      ≡ send_to 3 request ∷ [])
    × Activated
        (on_recv_package echo 7 request visited)
        (send_to 7 response ∷ [])
        server
        7
        (calculate_rpc_session_key 0 address 5000)
    × Activated
        (on_recv_package echo 3 response (on_connect address 80 5000 true 3 client).0)
        []
        client
        3
        (calculate_rpc_session_key 5000 address 80)
unfolding async_connect async_listen new_manager find
on_recv_package-handshake_example =
    on_recv_package-handshake echo echo client server address address key 80 5000 5000 80 3 7
      (find-insert_same (calculate_rpc_session_key 0 address 80) key [])
      (find-insert_same 80 key []) refl (omega arith) key-Without

on_recv_package-wrong_key_example :
    (m' : RpcManager) × (on_recv_package echo 7 (check_key_message (107 ∷ [])) visited
      ≡ some (m', disconnect 7 ∷ []))
    × (m'.session_map ≡ visited.session_map)
    × (m'.network_id_to_session_id ≡ visited.network_id_to_session_id)
    × (m'.session_id_to_network_id ≡ visited.session_id_to_network_id)
unfolding check_key_message on_accept async_listen new_manager find insert c_string_in
on_recv_package-wrong_key_example =
    on_recv_package-wrong_key echo 7 key (107 ∷ []) _ visited refl refl
      (λ e. absurd (ground (arith, e)))

-- The information that a connection from the port 4000 left under the number 7.
abbrev left_over : UncheckRpcInfo
left_over = record { network_id = 7; remote_ip_addr = address; remote_port = 4000; local_port = 0 }

abbrev reused : RpcManager
reused = record server { uncheck_rpc_info_map = (7, left_over) ∷ [] }

on_recv_package-reused_example :
    Activated
      (on_recv_package echo 7 (check_key_message key) (on_accept address 5000 80 7 reused).0)
      (send_to 7 (1 ∷ 1 ∷ []) ∷ [])
      reused
      7
      (info_key left_over)
unfolding async_listen new_manager find
on_recv_package-reused_example =
    on_recv_package-reused echo address key 5000 80 7 left_over reused (find-insert_same 80 key [])
      key-Without refl

on_recv_package-bypass_example :
    Activated
      (on_recv_package echo 7 (1 ∷ 1 ∷ []) visited)
      []
      server
      7
      (calculate_rpc_session_key 0 address 5000)
unfolding async_listen new_manager find
on_recv_package-bypass_example =
    on_recv_package-bypass echo address key [] 5000 80 7 server (find-insert_same 80 key []) refl

calculate_rpc_session_key_injective_example :
    (◌≡◌ {A = ℕ} 80 80) × (address ≡ address) × (◌≡◌ {A = ℕ} 5000 5000)
calculate_rpc_session_key_injective_example =
    calculate_rpc_session_key_injective address address 80 80 5000 5000 address-Without
      address-Without refl

-- The session of a connection under the number 3, which is gone.
abbrev old_session : RpcSession
old_session = record new_session { network_id = 3; handler_list = 5 ∷ [] }

abbrev returning : RpcManager
returning = record reused { session_map = insert (info_key left_over) old_session [] }

on_recv_package-activate_stale_example :
    (m' : RpcManager) × (on_recv_package echo 7
        (message type_request 0 12 (8 ∷ []))
        (activate 7 returning).0
      ≡ some (m', send_to 3 (message type_response 0 12 (8 ∷ [])) ∷ []))
unfolding find
on_recv_package-activate_stale_example =
    on_recv_package-activate_stale echo 7 5 12 0 (8 ∷ []) (8 ∷ []) left_over old_session returning
      refl (find-insert_same (info_key left_over) old_session []) refl (omega arith)
      (omega arith, omega arith) refl (omega arith, omega arith)

abbrev calling : RpcManager
calling = record client {
  network_id_to_session_id = (3, key) ∷ [];
  session_map = (key, new_session) ∷ [];
}

abbrev called : RpcManager
called = record server {
  network_id_to_session_id = (7, address) ∷ [];
  session_map = insert address (record new_session { network_id = 7; handler_list = 5 ∷ [] }) [];
}

on_recv_package-async_call_example :
    (request response : List ℕ) × ((async_call 42 (8 ∷ 9 ∷ []) new_session).1 ≡ sent request ∷ [])
    × ((server' : RpcManager) × (on_recv_package echo 7 request called
          ≡ some (server', send_to 7 response ∷ [])))
    × ((client' : RpcManager) × (on_recv_package echo 3 response (record calling {
      session_map = insert key (async_call 42 (8 ∷ 9 ∷ []) new_session).0 calling.session_map;
    })
          ≡ some (client', request_called_back 42 (8 ∷ 9 ∷ []) ∷ request_deleted 42 ∷ [])))
unfolding find
on_recv_package-async_call_example =
    on_recv_package-async_call echo echo calling called 3 7 42 5 key address (8 ∷ 9 ∷ [])
      (8 ∷ 9 ∷ []) new_session (record new_session { network_id = 7; handler_list = 5 ∷ [] }) refl
      refl (find-insert_same address _ []) refl refl
      (record { partition = λ id. ground arith; bounded = omega arith }) (omega arith)
      (omega arith, omega arith) refl (omega arith, omega arith)
