-- ===== src/Tests/Managers.antt =====
-- The network manager and the memory pools at concrete inputs.
use elegance.Prelude.{none, ℕ, ◌≡◌, ◌≤◌, refl, arith, true, false, some, List, [], ◌∷◌}
use elegance.Prelude.Map.{find, insert, nat_key}
use elegance.Network.Endpoint.{
  Endpoint, endpoint_key, same_endpoint, below, find-insert_same_length,
}
use elegance.Packer.{Packer, Package, done}
use elegance.Network.Manager.{NetworkManager, SocketAccept, new_manager, get_free_net_id}
use elegance.Network.Manager.Raw.{IsAccepted, Writes, find_sock, send_all, send-frame}
use elegance.Network.Manager.Delivery.{on_recv_all, calls_for_each, on_recv_all-send_all}
use elegance.Network.Manager.Modes.{
  Callback, accept, connect, disconnect, listen_fail, callbacks, handle_tasks, as_single,
}
use elegance.Network.Manager.Modes.Order.{handle_tasks-callbacks}
use elegance.Network.Manager.Ids.{WellNumbered, IsFresh, new_manager-WellNumbered}
use elegance.Network.Manager.Ids.Callbacks.{get_free_net_id-callbacks}
use elegance.Network.Manager.Caches.{callbacks-packager}
use elegance.Prelude.Int.{int_max}
use elegance.MemPool.{MemoryPoolManager, fix_size, alloc, grow, new_pool, free}
use elegance.MemPool.Laws.{IsStocked, alloc-free}

abbrev pub peer : Endpoint
peer = record { remote_ip_addr = 49 ∷ 50 ∷ []; remote_port = 4000; local_port = 80 }

abbrev other_peer : Endpoint
other_peer = record { remote_ip_addr = 49 ∷ 51 ∷ []; remote_port = 4000; local_port = 80 }

abbrev pub listener : SocketAccept
listener = record {
  handler_set = true;
  listening = true;
  local_port = 80;
  endpoint_sock_map = (peer, 7) ∷ [];
  sock_endpoint_map = (7, peer) ∷ [];
}

abbrev pub server : NetworkManager
server = record {
  handler_list = 100 ∷ 200 ∷ [];
  accept_list = (3, listener) ∷ [];
  connect_list = [];
  free_net_id_list = [];
  max_net_id = 1;
  net_id_to_endpoint = (1, peer) ∷ [];
  endpoint_to_net_id = (peer, 1) ∷ [];
  net_id_to_accept = (1, 3) ∷ [];
  net_id_to_connect = [];
  packager = [];
  single_thread_handle_mode = false;
  handle_task_queue = [];
}

pub server-IsAccepted : IsAccepted server 1 7
unfolding find find_sock same_endpoint below
server-IsAccepted = record {
  endpoint = peer;
  listener = 3;
  accept = listener;
  has_endpoint = refl;
  has_listener = refl;
  has_accept = refl;
  has_sock = refl;
  no_connect = refl;
}

abbrev pub packages : List Package
packages = (5 ∷ 6 ∷ []) ∷ []

abbrev pub writes : Writes
writes = (7, 2 ∷ 0 ∷ 0 ∷ 0 ∷ 5 ∷ 6 ∷ []) ∷ []

abbrev pub pieces : List (List ℕ)
pieces = (2 ∷ 0 ∷ []) ∷ (0 ∷ 0 ∷ 5 ∷ 6 ∷ []) ∷ []

pub send_all_packages : send_all 1 packages server ≡ some writes
unfolding send_all
send_all_packages =
    rw (send_all, send-frame server 1 7 (5 ∷ 6 ∷ []) (omega arith) server-IsAccepted)

on_recv_all-send_all_example :
    (k : Packer) × (on_recv_all peer pieces server
      ≡ done (record server { packager = k }, calls_for_each 1 packages (100 ∷ 200 ∷ [])))
unfolding find same_endpoint below
on_recv_all-send_all_example =
    on_recv_all-send_all server server 1 1 7 peer packages pieces writes server-IsAccepted refl
      (omega arith) refl refl ((omega arith, omega arith), tt) send_all_packages
      (omega arith, (omega arith, tt)) refl

abbrev events : List Callback
events = accept peer ∷ listen_fail 81 ∷ disconnect peer ∷ connect other_peer ∷ []

handle_tasks-callbacks_example :
    (n : ℕ) × ((callbacks events (as_single [] server)).1 ≡ [])
    × (handle_tasks n (callbacks events (as_single [] server)).0
        ≡ (as_single [] (callbacks events server).0, (callbacks events server).1))
handle_tasks-callbacks_example = handle_tasks-callbacks events server refl

get_free_net_id-callbacks_example :
    WellNumbered (callbacks events new_manager).0
    × IsFresh
        (get_free_net_id (callbacks events new_manager).0).0
        (get_free_net_id (callbacks events new_manager).0).1
    × ((get_free_net_id (callbacks events new_manager).0).0 ≤ int_max)
unfolding new_manager
get_free_net_id-callbacks_example =
    get_free_net_id-callbacks events new_manager new_manager-WellNumbered (omega arith)

callbacks-packager_example : find 1 (callbacks events server).0.packager ≡ find 1 server.packager
callbacks-packager_example = callbacks-packager events server 1

find-insert_same_length_example : find {V = ℕ} other_peer (insert peer 5 []) ≡ some 5
find-insert_same_length_example = find-insert_same_length peer other_peer 5 [] refl refl refl

abbrev no_pools : MemoryPoolManager
no_pools = record { memory_to_size_map = []; memory_size_to_pool_map = []; next_address = 4096 }

no_pools-IsStocked : IsStocked no_pools
unfolding find
no_pools-IsStocked size p h = ground (arith, h)

alloc-free_example :
    (a : ℕ) × (m1 m2 m3 : MemoryPoolManager) × (alloc 20 no_pools ≡ some (a, m1))
    × (free a m1 ≡ (true, m2))
    × (alloc 23 m2 ≡ some (a, m3))
    × IsStocked m1
    × IsStocked m2
    × IsStocked m3
alloc-free_example =
    alloc-free no_pools 20 23 24 no_pools-IsStocked refl (omega arith) (omega arith) (omega arith)
      (omega arith) (omega arith)

-- A size that is a multiple of 8 gets 8 more, and a size near INT_MAX has a sum that is no `int`.
fix_size_test : fix_size 16 ≡ some 24
unfolding fix_size
fix_size_test = refl

fix_size_overflow_test : fix_size 2147483640 ≡ none
unfolding fix_size
fix_size_overflow_test = refl

grow_overflow_test : grow 8 (new_pool 214748368 10) ≡ none
unfolding grow new_pool
grow_overflow_test = refl
