-- ===== src/Network/Manager/State.antt =====
-- elegance/network/network_manager.hpp, and of elegance/platform/network/socket_accept.hpp and
-- socket_connect.hpp the part that the manager uses: the state of `NetworkManager`, its tasks and the
-- calls of its handlers. An object goes by a number for its address.
use elegance.Prelude.{ℕ, Bool, false, List, []}
use elegance.Prelude.Map.{Map, nat_key}
use elegance.Network.Endpoint.{Endpoint, endpoint_key}
use elegance.Packer.{Packer}

-- What `SocketAccept` and `SocketConnect` know of their connections; `handler_set` is whether
-- `handler_` is not null.
pub record SocketAccept : Type 0 where
  pub handler_set : Bool
  pub listening : Bool
  pub local_port : ℕ
  pub endpoint_sock_map : Map Endpoint ℕ
  pub sock_endpoint_map : Map ℕ Endpoint

pub record SocketConnect : Type 0 where
  pub handler_set : Bool
  pub local_port : ℕ
  pub running : Bool
  pub local_sock : ℕ
  pub remote_ip_addr : List ℕ
  pub remote_port : ℕ

-- The calls of an `INetworkHandler`.
pub data Call : Type 0 where
  on_listen_fail : ℕ → Call
  on_accept_call : List ℕ → ℕ → ℕ → ℕ → Call
  on_connect_call : List ℕ → ℕ → ℕ → Bool → ℕ → Call
  on_recv_call : ℕ → List ℕ → Call
  on_disconnect_call : ℕ → Call

-- `NetworkHandleTask`. Its `data` is the `length` bytes at the front of the source's array.
pub data TaskType : Type 0 where
  connected : TaskType
  connect_failed : TaskType
  listen_failed : TaskType
  accepted : TaskType
  disconnected : TaskType
  received : TaskType

pub record NetworkHandleTask : Type 0 where
  pub task_type : TaskType
  pub net_id : ℕ
  pub remote_ip : List ℕ
  pub remote_port : ℕ
  pub local_port : ℕ
  pub data_bytes : List ℕ

unfoldable pub new_task : NetworkHandleTask
new_task = record {
  task_type = connected;
  net_id = 0;
  remote_ip = [];
  remote_port = 0;
  local_port = 0;
  data_bytes = [];
}

-- MAX_SOCKET_MSG_BUFF_LENGTH
abbrev pub max_socket_msg_buff_length : ℕ
max_socket_msg_buff_length = 4096

pub record NetworkManager : Type 0 where
  pub handler_list : List ℕ
  pub accept_list : Map ℕ SocketAccept
  pub connect_list : Map ℕ SocketConnect
  pub free_net_id_list : List ℕ
  pub max_net_id : ℕ
  pub net_id_to_endpoint : Map ℕ Endpoint
  pub endpoint_to_net_id : Map Endpoint ℕ
  pub net_id_to_accept : Map ℕ ℕ
  pub net_id_to_connect : Map ℕ ℕ
  pub packager : Packer
  pub single_thread_handle_mode : Bool
  pub handle_task_queue : List NetworkHandleTask

-- The constructor, with the packer of fixed headers that `CreatePacker` gives.
unfoldable pub new_manager : NetworkManager
new_manager = record {
  handler_list = [];
  accept_list = [];
  connect_list = [];
  free_net_id_list = [];
  max_net_id = 0;
  net_id_to_endpoint = [];
  endpoint_to_net_id = [];
  net_id_to_accept = [];
  net_id_to_connect = [];
  packager = [];
  single_thread_handle_mode = false;
  handle_task_queue = [];
}

abbrev pub Calls : Type 0
Calls = List (ℕ × Call)
