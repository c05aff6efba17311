-- ===== src/Rpc/Manager.antt =====
-- elegance/rpc/rpc_manager.hpp and .cpp: `RPCManager`, the handler of a network manager that checks
-- the keys of connections and gives each connection with a checked key its session. What a callback
-- does to the outside is a list of actions, in order. The debug output is left out. A key is a
-- `std::string` of any bytes, and a package is its bytes: `none` is a read behind them, or of a
-- string that does not end in them.
pub mod Links
pub mod Steps
pub mod Handshake
pub mod Dispatch
use elegance.Prelude.{
  ℕ, Bool, Option, none, some, List, [], ◌∷◌, ◌++◌, length, map, ltb, ◌==◌, if◌then◌else◌, drop,
}
use elegance.Prelude.Bytes.{little_bytes}
use elegance.Prelude.Map.{Map, find, insert, erase, enter, find_or, nat_key}
use elegance.Prelude.Strings.{equal_bytes, string_key, c_string_in, decimal}
use elegance.Rpc.Session.{
  RpcSession, Event, sent, called_back, deleted, new_session, set_data, on_recv,
}

-- RPC_MAX_KEY_STRING_LENGTH, RPC_MESSAGE_TYPE_CHECK_KEY and RPC_MESSAGE_TYPE_CHECK_KEY_RESPONSE
abbrev pub max_key_string_length : ℕ
max_key_string_length = 99

abbrev pub type_check_key : ℕ
type_check_key = 0

abbrev pub type_check_key_response : ℕ
type_check_key_response = 1

pub record UncheckRpcInfo : Type 0 where
  pub network_id : ℕ
  pub remote_ip_addr : List ℕ
  pub remote_port : ℕ
  pub local_port : ℕ

abbrev pub new_info : UncheckRpcInfo
new_info = record { network_id = 0; remote_ip_addr = []; remote_port = 0; local_port = 0 }

-- `handler` is the address in `handler_`, if that is not null.
pub record RpcManager : Type 0 where
  pub handler : Option ℕ
  pub session_id_to_network_id : Map (List ℕ) ℕ
  pub network_id_to_session_id : Map ℕ (List ℕ)
  pub session_map : Map (List ℕ) RpcSession
  pub uncheck_key_map : Map (List ℕ) (List ℕ)
  pub uncheck_rpc_info_map : Map ℕ UncheckRpcInfo
  pub listen_port_to_key : Map ℕ (List ℕ)
  pub network_id_to_key : Map ℕ (List ℕ)

unfoldable pub new_manager : Option ℕ → RpcManager
new_manager h = record {
  handler = h;
  session_id_to_network_id = [];
  network_id_to_session_id = [];
  session_map = [];
  uncheck_key_map = [];
  uncheck_rpc_info_map = [];
  listen_port_to_key = [];
  network_id_to_key = [];
}

-- The calls of an `IRpcConnectHandler`; a session is named by its id.
pub data HandlerCall : Type 0 where
  listen_fail : ℕ → HandlerCall
  connect_fail : List ℕ → ℕ → HandlerCall
  session_active : List ℕ → HandlerCall
  session_inactive : List ℕ → HandlerCall

-- What the manager and its sessions do: a call of the network manager, of the handler, or of a
-- request.
pub data Action : Type 0 where
  sync_connect : List ℕ → ℕ → Action
  sync_listen : ℕ → Action
  send_to : ℕ → List ℕ → Action
  disconnect : ℕ → Action
  handled : ℕ → HandlerCall → Action
  request_called_back : ℕ → List ℕ → Action
  request_deleted : ℕ → Action

unfoldable pub tell : HandlerCall → RpcManager → List Action
tell c m = elim m.handler [ none ↦ [] | some h ↦ handled h c ∷ [] ]

unfoldable pub calculate_rpc_session_key : ℕ → List ℕ → ℕ → List ℕ
calculate_rpc_session_key local_port remote_ip_addr remote_port =
    decimal local_port ++ 95 ∷ (remote_ip_addr ++ 95 ∷ decimal remote_port)

unfoldable pub async_connect : List ℕ → ℕ → List ℕ → RpcManager → RpcManager × List Action
async_connect server_ip port key m = (
  record m {
    uncheck_key_map = insert (calculate_rpc_session_key 0 server_ip port) key m.uncheck_key_map;
  },
  sync_connect server_ip port ∷ [],
)

unfoldable pub async_listen : ℕ → List ℕ → RpcManager → RpcManager × List Action
async_listen port key m =
    (record m { listen_port_to_key = insert port key m.listen_port_to_key }, sync_listen port ∷ [])

-- The session that `OnActiveNetwork` creates, if there is none.
unfoldable pub create_session :
    List ℕ → ℕ → ℕ → List ℕ → ℕ → Map (List ℕ) RpcSession → Map (List ℕ) RpcSession
create_session session_id network_id listen_port remote_ip_addr remote_port sessions =
    elim (find session_id sessions) [
      | none ↦
          insert session_id (set_data remote_ip_addr remote_port listen_port network_id new_session)
            sessions
      | some s ↦ sessions
    ]

unfoldable pub on_active_network : ℕ → ℕ → List ℕ → ℕ → RpcManager → RpcManager × List Action
on_active_network network_id listen_port remote_ip_addr remote_port m =
    let session_id = calculate_rpc_session_key listen_port remote_ip_addr remote_port in
    (
      record m {
        session_map =
            create_session session_id network_id listen_port remote_ip_addr remote_port
              m.session_map;
        session_id_to_network_id = insert session_id network_id m.session_id_to_network_id;
        network_id_to_session_id = insert network_id session_id m.network_id_to_session_id;
      },
      tell (session_active session_id) m,
    )

-- The bytes of `RPCMessageCheckKeyCS` that `OnConnect` sends: the padding behind `type` is 0, and
-- the key ends with a null byte.
unfoldable pub check_key_message : List ℕ → List ℕ
check_key_message key = type_check_key ∷ 0 ∷ (little_bytes 2 (length key) ++ (key ++ 0 ∷ []))

unfoldable pub on_connect : List ℕ → ℕ → ℕ → Bool → ℕ → RpcManager → RpcManager × List Action
on_connect ip port local_port success net_id m =
    if success
    then (elim (find (calculate_rpc_session_key 0 ip port) m.uncheck_key_map) [
      | none ↦ (m, [])
      | some rpc_key ↦
          (if ltb (length rpc_key) max_key_string_length
            then (
              record m {
                uncheck_rpc_info_map =
                    insert net_id
                      (record {
                        network_id = net_id;
                        remote_ip_addr = ip;
                        remote_port = port;
                        local_port = local_port;
                      })
                      m.uncheck_rpc_info_map;
              },
              send_to net_id (check_key_message rpc_key) ∷ [],
            )
            else (m, []))
    ])
    else (m, tell (connect_fail ip port) m)

unfoldable pub on_listen_fail : ℕ → RpcManager → RpcManager × List Action
on_listen_fail port m = (m, tell (listen_fail port) m)

-- An entry that is there already stays.
unfoldable pub on_accept : List ℕ → ℕ → ℕ → ℕ → RpcManager → RpcManager × List Action
on_accept remote_ip_addr remote_port local_port net_id m =
    elim (find local_port m.listen_port_to_key) [
      | none ↦ (m, [])
      | some key ↦ (
        record m {
          network_id_to_key = insert net_id key m.network_id_to_key;
          uncheck_rpc_info_map =
              enter net_id
                (record {
                  network_id = net_id;
                  remote_ip_addr = remote_ip_addr;
                  remote_port = remote_port;
                  local_port = 0;
                })
                m.uncheck_rpc_info_map;
        },
        [],
      )
    ]

-- `OnActiveNetwork` with what `uncheck_rpc_info_map_[network_id]` holds.
unfoldable pub activate : ℕ → RpcManager → RpcManager × List Action
activate network_id m =
    let info = find_or network_id new_info m.uncheck_rpc_info_map in
    on_active_network network_id info.local_port info.remote_ip_addr info.remote_port
      (record m { uncheck_rpc_info_map = enter network_id new_info m.uncheck_rpc_info_map })

abbrev pub before : List Action → RpcManager × List Action → RpcManager × List Action
before out (m, more) = (m, out ++ more)

-- The branch for a key.
unfoldable pub on_check_key : ℕ → List ℕ → RpcManager → RpcManager × List Action
on_check_key network_id receive_key m =
    let m1 = record m { network_id_to_key = enter network_id [] m.network_id_to_key } in
    if equal_bytes receive_key (find_or network_id [] m.network_id_to_key)
    then before (send_to network_id (type_check_key_response ∷ 1 ∷ []) ∷ [])
        (activate network_id m1)
    else (m1, disconnect network_id ∷ [])

-- The branch for the answer to a key.
unfoldable pub on_check_key_response : ℕ → ℕ → RpcManager → RpcManager × List Action
on_check_key_response network_id response m =
    if response == 1 then activate network_id m else (m, disconnect network_id ∷ [])

unfoldable pub session_action : RpcSession → Event → Action
session_action s (sent bytes) = send_to s.network_id bytes
session_action s (called_back req bytes) = request_called_back req bytes
session_action s (deleted req) = request_deleted req

module _ (handle_call : ℕ → List ℕ → Option (List ℕ)) where
  -- The branch for the messages of sessions.
  unfoldable pub on_session_message : ℕ → List ℕ → RpcManager → RpcManager × List Action
  on_session_message network_id bytes m =
      let session_id = find_or network_id [] m.network_id_to_session_id in
      let m1 = record m {
        network_id_to_session_id = enter network_id [] m.network_id_to_session_id;
      } in
      elim (find session_id m1.session_map) [
        | none ↦ (m1, [])
        | some s ↦
            (let (s1, events) = on_recv handle_call bytes s in
              (
                record m1 { session_map = insert session_id s1 m1.session_map },
                map (session_action s) events,
              ))
      ]

  unfoldable pub on_recv_package : ℕ → List ℕ → RpcManager → Option (RpcManager × List Action)
  on_recv_package network_id [] m = none
  on_recv_package network_id (type ∷ bytes) m =
      if type == type_check_key
      then (elim (c_string_in (drop 3 bytes)) [
        | none ↦ none
        | some receive_key ↦ some (on_check_key network_id receive_key m)
      ])
      else if type == type_check_key_response
      then (elim bytes [
        | [] ↦ none
        | response ∷ rest ↦ some (on_check_key_response network_id response m)
      ])
      else some (on_session_message network_id (type ∷ bytes) m)

unfoldable pub on_disconnect : ℕ → RpcManager → RpcManager × List Action
on_disconnect network_id m =
    let session_id = find_or network_id [] m.network_id_to_session_id in
    (
      record m {
        session_id_to_network_id = erase session_id m.session_id_to_network_id;
        network_id_to_session_id = erase network_id m.network_id_to_session_id;
      },
      elim (find session_id m.session_map) [
        | none ↦ []
        | some s ↦ tell (session_inactive session_id) m
      ],
    )
