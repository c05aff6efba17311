-- ===== src/Network/Manager.antt =====
-- elegance/network/network_manager.cpp: the state of `NetworkManager` and its operations. An object
-- goes by a number for its address. A call of a handler is a value, and an operation returns the
-- calls that it makes, in order. The debug output is left out, and so are the mutexes, since the
-- operations are modelled one after another. The size of a connection's number is not bounded.
mod State
pub mod Raw
pub mod Delivery
pub mod Modes
pub mod Ids
pub mod Caches
unfoldable pub use State.*
use elegance.Prelude.{
  ℕ, ◌+◌, Bool, true, false, Option, none, some, List, [], ◌∷◌, ◌++◌, length, map, ltb, leb, ◌==◌,
  if◌then◌else◌, ◌&&◌,
}
use elegance.Prelude.Map.{Map, find, insert, erase, nat_key}
use elegance.Prelude.Strings.{equal_bytes}
use elegance.Network.Endpoint.{Endpoint, endpoint_key}
use elegance.Packer.{Packer, Package, Run, done, fault, out_of_fuel, unpack, unpack_fuel, pack}

-- `for (auto handler : handler_list_)`
unfoldable pub call_handlers : Call → NetworkManager → Calls
call_handlers c m = map (λ h. (h, c)) m.handler_list

unfoldable pub has_handler : ℕ → List ℕ → Bool
has_handler h [] = false
has_handler h (k ∷ ks) = if k == h then true else has_handler h ks

-- A set is kept in the order of its elements.
unfoldable pub insert_handler : ℕ → List ℕ → List ℕ
insert_handler h [] = h ∷ []
insert_handler h (k ∷ ks) =
    let rest = insert_handler h ks in if ltb h k then h ∷ k ∷ ks else k ∷ rest

unfoldable pub erase_handler : ℕ → List ℕ → List ℕ
erase_handler h [] = []
erase_handler h (k ∷ ks) = let rest = erase_handler h ks in if k == h then rest else k ∷ rest

unfoldable pub regist_handler : ℕ → NetworkManager → NetworkManager
regist_handler h m =
    if has_handler h m.handler_list
    then m
    else record m { handler_list = insert_handler h m.handler_list }

unfoldable pub unregist_handler : ℕ → NetworkManager → NetworkManager
unregist_handler h m =
    if has_handler h m.handler_list
    then record m { handler_list = erase_handler h m.handler_list }
    else m

unfoldable pub set_single_thread_handle_mode : Bool → NetworkManager → NetworkManager
set_single_thread_handle_mode open_mode m = record m { single_thread_handle_mode = open_mode }

-- `GetFreeNetID`, while `max_net_id_` is less than INT_MAX: the next sum is no `int` in the source,
-- and a natural number here.
unfoldable pub get_free_net_id : NetworkManager → ℕ × NetworkManager
get_free_net_id m = elim m.free_net_id_list [
  | [] ↦ (m.max_net_id + 1, record m { max_net_id = m.max_net_id + 1 })
  | id ∷ ids ↦ (id, record m { free_net_id_list = ids })
]

-- `handle_task_queue_.push(task)`
unfoldable pub push_task : NetworkHandleTask → NetworkManager → NetworkManager
push_task t m = record m { handle_task_queue = m.handle_task_queue ++ t ∷ [] }

abbrev pub has_entry : {A : Type 0} → Option A → Bool
has_entry none = false
has_entry (some a) = true

-- `SocketAccept::CheckOnHandle`
unfoldable pub check_on_handle_accept : List ℕ → ℕ → SocketAccept → Bool
check_on_handle_accept ip port s = has_entry (
    find (record { remote_ip_addr = ip; remote_port = port; local_port = s.local_port })
      s.endpoint_sock_map)

-- `SocketConnect::CheckOnHandle`
unfoldable pub check_on_handle_connect : List ℕ → ℕ → SocketConnect → Bool
check_on_handle_connect ip port s = equal_bytes ip s.remote_ip_addr && (port == s.remote_port)

-- The assignments to the two maps between numbers and endpoints.
unfoldable pub add_endpoint : ℕ → Endpoint → NetworkManager → NetworkManager
add_endpoint id ep m = record m {
  net_id_to_endpoint = insert id ep m.net_id_to_endpoint;
  endpoint_to_net_id = insert ep id m.endpoint_to_net_id;
}

-- The loop of `OnAccept` over `accept_list_`.
unfoldable pub add_accepts : ℕ → Endpoint → Map ℕ SocketAccept → NetworkManager → NetworkManager
add_accepts id ep [] m = m
add_accepts id ep ((a, s) ∷ rest) m =
    if check_on_handle_accept ep.remote_ip_addr ep.remote_port s
    then add_accepts id ep rest
        (add_endpoint id ep (record m { net_id_to_accept = insert id a m.net_id_to_accept }))
    else add_accepts id ep rest m

-- The loop of `OnConnect` over `connect_list_`.
unfoldable pub add_connects : ℕ → Endpoint → Map ℕ SocketConnect → NetworkManager → NetworkManager
add_connects id ep [] m = m
add_connects id ep ((c, s) ∷ rest) m =
    if check_on_handle_connect ep.remote_ip_addr ep.remote_port s
    then add_connects id ep rest
        (add_endpoint id ep (record m { net_id_to_connect = insert id c m.net_id_to_connect }))
    else add_connects id ep rest m

-- What each callback ends with: a task in the queue or calls of the handlers, by the mode.
unfoldable pub notify : NetworkHandleTask → Call → NetworkManager → NetworkManager × Calls
notify t c m = if m.single_thread_handle_mode then (push_task t m, []) else (m, call_handlers c m)

unfoldable pub accept_task : TaskType → ℕ → Endpoint → NetworkHandleTask
accept_task type id ep = record new_task {
  task_type = type;
  net_id = id;
  remote_ip = ep.remote_ip_addr;
  remote_port = ep.remote_port;
  local_port = ep.local_port;
}

unfoldable pub on_accept : Endpoint → NetworkManager → NetworkManager × Calls
on_accept ep m =
    let (id, m1) = get_free_net_id m in
    notify (accept_task accepted id ep)
      (on_accept_call ep.remote_ip_addr ep.remote_port ep.local_port id)
      (add_accepts id ep m1.accept_list m1)

unfoldable pub on_connect : Endpoint → NetworkManager → NetworkManager × Calls
on_connect ep m =
    let (id, m1) = get_free_net_id m in
    notify (accept_task connected id ep)
      (on_connect_call ep.remote_ip_addr ep.remote_port ep.local_port true id)
      (add_connects id ep m1.connect_list m1)

-- The failure branch of `ListenThread`.
unfoldable pub listen_failed_at : ℕ → NetworkManager → NetworkManager × Calls
listen_failed_at port =
    notify (record new_task { task_type = listen_failed; local_port = port }) (on_listen_fail port)

-- The failure branch of `ConnectThread`.
unfoldable pub connect_failed_to : Endpoint → NetworkManager → NetworkManager × Calls
connect_failed_to ep =
    notify (accept_task connect_failed 0 ep)
      (on_connect_call ep.remote_ip_addr ep.remote_port ep.local_port false 0)

-- The part of `OnDisconnect` that forgets a connection.
unfoldable pub forget : ℕ → Endpoint → NetworkManager → NetworkManager
forget id ep m = record m {
  net_id_to_endpoint = erase id m.net_id_to_endpoint;
  endpoint_to_net_id = erase ep m.endpoint_to_net_id;
  net_id_to_accept = erase id m.net_id_to_accept;
  net_id_to_connect = erase id m.net_id_to_connect;
}

-- `free_net_id_list_.push(net_id)`
unfoldable pub free_net_id : ℕ → NetworkManager → NetworkManager
free_net_id id m = record m { free_net_id_list = id ∷ m.free_net_id_list }

unfoldable pub on_disconnect : Endpoint → NetworkManager → NetworkManager × Calls
on_disconnect ep m = elim (find ep m.endpoint_to_net_id) [
  | none ↦ (m, [])
  | some id ↦
      (let (m1, calls) =
          notify
            (record new_task { task_type = disconnected; net_id = id; local_port = ep.local_port })
            (on_disconnect_call id) (forget id ep m) in
        (free_net_id id m1, calls))
]

-- `OnRecvPackage`. The copy into a task must not leave its array.
unfoldable pub on_recv_package : ℕ → Package → NetworkManager → Run (NetworkManager × Calls)
on_recv_package id bytes m =
    if (id == 0)
    then done (m, [])
    else if length bytes == 0
    then done (m, [])
    else if m.single_thread_handle_mode && ltb max_socket_msg_buff_length (length bytes)
    then fault
    else done (
        notify (record new_task { task_type = received; net_id = id; data_bytes = bytes })
          (on_recv_call id bytes) m)

abbrev pub more_calls : Calls → Run (NetworkManager × Calls) → Run (NetworkManager × Calls)
more_calls out (done (m, more)) = done (m, out ++ more)
more_calls out fault = fault
more_calls out out_of_fuel = out_of_fuel

-- The packages that the packer hands on.
unfoldable pub on_recv_packages : ℕ → List Package → NetworkManager → Run (NetworkManager × Calls)
on_recv_packages id [] m = done (m, [])
on_recv_packages id (p ∷ ps) m = elim (on_recv_package id p m) [
  | done (m', calls) ↦ more_calls calls (on_recv_packages id ps m')
  | fault ↦ fault
  | out_of_fuel ↦ out_of_fuel
]

-- What `UnPack` does with the bytes of a connection, and with the packages in them.
unfoldable pub unpack_for : ℕ → List ℕ → NetworkManager → Run (NetworkManager × Calls)
unpack_for id bytes m = elim (unpack (unpack_fuel bytes) id bytes m.packager) [
  | done (p, packages) ↦ on_recv_packages id packages (record m { packager = p })
  | fault ↦ fault
  | out_of_fuel ↦ out_of_fuel
]

unfoldable pub on_recv : Endpoint → List ℕ → NetworkManager → Run (NetworkManager × Calls)
on_recv ep bytes m = elim (find ep m.endpoint_to_net_id) [
  | none ↦ done (m, [])
  | some id ↦ unpack_for id bytes m
]

-- The call that `HandleNetTask` makes of each handler.
unfoldable pub task_call : NetworkHandleTask → Call
task_call t = elim t.task_type [
  | connected ↦ on_connect_call t.remote_ip t.remote_port t.local_port true t.net_id
  | connect_failed ↦ on_connect_call t.remote_ip t.remote_port t.local_port false 0
  | listen_failed ↦ on_listen_fail t.local_port
  | received ↦ on_recv_call t.net_id t.data_bytes
  | accepted ↦ on_accept_call t.remote_ip t.remote_port t.local_port t.net_id
  | disconnected ↦ on_disconnect_call t.net_id
]

unfoldable pub handle_net_task : NetworkManager → NetworkManager × Calls
handle_net_task m = elim m.handle_task_queue [
  | [] ↦ (m, [])
  | t ∷ ts ↦ (record m { handle_task_queue = ts }, call_handlers (task_call t) m)
]
