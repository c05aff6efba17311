-- ===== src/Network/Manager/Ids.antt =====
-- The numbers of connections: `GetFreeNetID` and the maps between numbers and endpoints.
pub mod Fresh
pub mod Links
pub mod Growth
pub mod Callbacks
use elegance.Prelude.{
  ℕ, zero, suc, ◌+◌, ◌≤◌, ◌≡◌, ◌≢◌, ◌<◌, refl, arith, Bool, true, false, Option, none, some, List,
  [], ◌∷◌, ◌++◌, length, if◌then◌else◌, ap, ap₂, sym, subst, ◌∙◌, ◌⊎◌, inl, inr, ◌==◌, leb, ltb,
}
use elegance.Prelude.Map.{
  Map, Key, find, insert, erase, find-insert_cases, find-erase_cases, find-same, nat_key,
}
use elegance.Network.Endpoint.{
  Endpoint, endpoint_key, same_endpoint, same_endpoint_refl, same_endpoint_cong,
}
use elegance.Network.Manager.{
  NetworkManager, SocketAccept, SocketConnect, get_free_net_id, add_endpoint, add_accepts,
  add_connects, on_accept, on_connect, on_disconnect, forget, free_net_id, notify, push_task,
  check_on_handle_accept, check_on_handle_connect, new_manager,
}
use elegance.Prelude.Counts.{count}

-- A number that `GetFreeNetID` has given, and that has not come back.
abbrev pub Taken : ℕ → NetworkManager → Type 0
Taken id m = (0 < id) × (id ≤ m.max_net_id) × (count id m.free_net_id_list ≡ 0)

pub record WellNumbered (m : NetworkManager) : Type 0 where
  pub free_once : (id : ℕ) → count id m.free_net_id_list ≤ 1
  pub free_bounded : (id : ℕ) → 0 < count id m.free_net_id_list → (0 < id) × (id ≤ m.max_net_id)
  pub taken : (ep : Endpoint) (id : ℕ) → find ep m.endpoint_to_net_id ≡ some id → Taken id m
  pub known : (ep : Endpoint) (id : ℕ) → find id m.net_id_to_endpoint ≡ some ep → Taken id m
  pub one_each :
      (a b : Endpoint) (id : ℕ)
      → find a m.endpoint_to_net_id ≡ some id
      → find b m.endpoint_to_net_id ≡ some id
      → same_endpoint a b ≡ true

-- A number that no connection has.
pub record IsFresh (id : ℕ) (m : NetworkManager) : Type 0 where
  pub is_taken : Taken id m
  pub no_number : (ep : Endpoint) → find ep m.endpoint_to_net_id ≢ some id
  pub no_endpoint : find id m.net_id_to_endpoint ≡ none

pub new_manager-WellNumbered : WellNumbered new_manager
unfolding new_manager find
new_manager-WellNumbered = record {
  free_once = λ id. omega arith;
  free_bounded = λ id h. absurd (omega arith);
  taken = λ ep id h. ground (arith, h);
  known = λ ep id h. ground (arith, h);
  one_each = λ a b id h k. ground (arith, h);
}
