-- ===== src/Rpc/Session.antt =====
-- elegance/rpc/rpc_manager.hpp and .cpp: `RPCSession`, which sends requests, calls the handlers for
-- those that come, and gives the responses to the requests they belong to. A handler of calls and a
-- request go by numbers for their addresses. The two classes that implement `IRpcHandler` and
-- `IRpcRequest` are the user's, so what `HandleCall` returns is a parameter: nothing for a result
-- other than 0, or the first `return_length` bytes of its answer.
pub mod Ids
pub mod Keeps
pub mod RoundTrip
use elegance.Prelude.{
  ℕ, ◌+◌, ◌^◌, ◌%◌, Bool, true, false, Option, none, some, List, [], ◌∷◌, ◌++◌, length, ltb, leb,
  ◌==◌, if◌then◌else◌,
}
use elegance.Prelude.Int.{ℤ, pos, negsuc, signed}
use elegance.Prelude.Bytes.{little_bytes, from_little}
use elegance.Network.Endpoint.{Endpoint}
use elegance.Network.Manager.{has_handler, insert_handler}
use elegance.Prelude.Map.{Map, find, insert, erase, nat_key}

-- RPC_SESSION_NETWORK_MESSAGE_MAX_LEN, SHRT_MAX and the size of `RPCMessageHeader`.
abbrev pub message_max_len : ℕ
message_max_len = 10240

abbrev pub shrt_max : ℕ
shrt_max = 32767

abbrev pub header_size : ℕ
header_size = 4

-- RPC_MESSAGE_TYPE_REQUEST and RPC_MESSAGE_TYPE_RESPONSE
abbrev pub type_request : ℕ
type_request = 2

abbrev pub type_response : ℕ
type_response = 3

-- `reserve_ch` is the second byte of `message_buffer_`, which nothing writes.
-- `endpoint` and `network_id` are what `SetData` stores.
pub record RpcSession : Type 0 where
  pub endpoint : Endpoint
  pub network_id : ℕ
  pub handler_list : List ℕ
  pub reserve_ch : ℕ
  pub request_list : Map ℕ ℕ
  pub next_request_id : ℕ
  pub free_request_id_stack : List ℕ

-- What a session does: a message that it sends, a request that it calls back or deletes.
pub data Event : Type 0 where
  sent : List ℕ → Event
  called_back : ℕ → List ℕ → Event
  deleted : ℕ → Event

-- The constructor.
abbrev pub new_session : RpcSession
new_session = record {
  endpoint = record { remote_ip_addr = []; remote_port = 0; local_port = 0 };
  network_id = 0;
  handler_list = [];
  reserve_ch = 0;
  request_list = [];
  next_request_id = 0;
  free_request_id_stack = [];
}

-- `SetData`; every session has the network manager of its own manager.
unfoldable pub set_data : List ℕ → ℕ → ℕ → ℕ → RpcSession → RpcSession
set_data remote_ip remote_port local_port network_id s = record s {
  endpoint = record {
    remote_ip_addr = remote_ip;
    remote_port = remote_port;
    local_port = local_port;
  };
  network_id = network_id;
}

-- `RegisterHandler` with a handler that is not null.
unfoldable pub register_handler : ℕ → RpcSession → RpcSession
register_handler h s =
    if has_handler h s.handler_list
    then s
    else record s { handler_list = insert_handler h s.handler_list }

-- `GetRequestID`
unfoldable pub get_request_id : RpcSession → ℕ × RpcSession
get_request_id s = elim s.free_request_id_stack [
  | [] ↦ (s.next_request_id, record s { next_request_id = (s.next_request_id + 1) % shrt_max })
  | id ∷ ids ↦ (id, record s { free_request_id_stack = ids })
]

-- A message: `RPCMessageHeader` and the data behind it.
unfoldable pub message : ℕ → ℕ → ℕ → List ℕ → List ℕ
message type reserve id bytes = type ∷ reserve ∷ (little_bytes 2 id ++ bytes)

-- `AsyncCall` with a request and data that are not null. The data has fewer than 2 ^ 31 - 4 bytes:
-- with more, the length of the message is no `int`.
unfoldable pub async_call : ℕ → List ℕ → RpcSession → RpcSession × List Event
async_call req bytes s =
    if length bytes == 0
    then (s, deleted req ∷ [])
    else if leb message_max_len (length bytes + header_size)
    then (s, deleted req ∷ [])
    else (let (id, s1) = get_request_id s in
        (
          record s1 { request_list = insert id req s1.request_list },
          sent (message type_request s1.reserve_ch id bytes) ∷ [],
        ))

unfoldable pub find_request : ℤ → RpcSession → Option ℕ
find_request (pos id) s = find id s.request_list
find_request (negsuc n) s = none

-- The branch for a response.
unfoldable pub on_response : ℕ → List ℕ → RpcSession → RpcSession × List Event
on_response id bytes s = elim (find_request (signed (2 ^ 15) id) s) [
  | none ↦ (s, [])
  | some req ↦ (
    record s {
      request_list = erase id s.request_list;
      free_request_id_stack = id ∷ s.free_request_id_stack;
    },
    called_back req bytes ∷ deleted req ∷ [],
  )
]

module _ (handle_call : ℕ → List ℕ → Option (List ℕ)) where
  -- The answer of one handler, of fewer than 2 ^ 31 - 4 bytes.
  unfoldable pub answer : ℕ → ℕ → List ℕ → RpcSession → List Event
  answer h id bytes s = elim (handle_call h bytes) [
    | none ↦ []
    | some result ↦
        (if length result == 0
          then []
          else if leb message_max_len (length result + header_size)
          then []
          else sent (message type_response s.reserve_ch id result) ∷ [])
  ]

  -- The branch for a request: every handler may answer.
  unfoldable pub on_request : List ℕ → ℕ → List ℕ → RpcSession → List Event
  on_request [] id bytes s = []
  on_request (h ∷ hs) id bytes s = answer h id bytes s ++ on_request hs id bytes s

  -- `OnRecv` reads a message that is longer than its header.
  unfoldable pub on_message : ℕ → ℕ → List ℕ → RpcSession → RpcSession × List Event
  on_message type id bytes s =
      if type == type_response
      then on_response id bytes s
      else if type == type_request
      then (s, on_request s.handler_list id bytes s)
      else (s, [])

  unfoldable pub on_recv : List ℕ → RpcSession → RpcSession × List Event
  on_recv (type ∷ reserve ∷ lo ∷ hi ∷ b ∷ bytes) s =
      on_message type (from_little (lo ∷ hi ∷ [])) (b ∷ bytes) s
  on_recv data_bytes s = (s, [])
