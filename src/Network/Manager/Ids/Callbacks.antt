-- ===== src/Network/Manager/Ids/Callbacks.antt =====
-- `OnAccept`, `OnConnect` and `OnDisconnect` keep the numbers of connections in order.
use elegance.Prelude.{
  length, ◌+◌, ℕ, ◌≤◌, ◌≡◌, ◌<◌, refl, arith, Bool, true, false, Option, none, some, List, [], ◌∷◌,
  if◌then◌else◌, ap, ◌∙◌, ◌==◌,
}
use elegance.Prelude.Int.{int_max}
use elegance.Prelude.Map.{find, find-erase_cases, nat_key}
use elegance.Network.Endpoint.{Endpoint, endpoint_key, same_endpoint}
use elegance.Network.Manager.{
  NetworkManager, NetworkHandleTask, Call, Calls, call_handlers, get_free_net_id, on_accept,
  on_connect, on_disconnect, listen_failed_at, connect_failed_to, forget, free_net_id, notify,
  push_task,
}
use elegance.Network.Manager.Ids.Fresh.{get_free_net_id-IsFresh}
use elegance.Network.Manager.Ids.Growth.{get_free_net_id-max, callbacks-max}
use elegance.Network.Manager.Modes.{
  Callback, accept, connect, listen_fail, connect_fail, disconnect, callback, callbacks,
}
use elegance.Prelude.Counts.{count}
use elegance.Network.Manager.Ids.{Taken, WellNumbered, IsFresh}
use elegance.Network.Manager.Ids.Links.{IsFresh-IsFor, add_accepts-Numbered, add_connects-Numbered}

notify-WellNumbered :
    (t : NetworkHandleTask) (c : Call) (m : NetworkManager)
    → WellNumbered m
    → WellNumbered (notify t c m).0
unfolding notify push_task
notify-WellNumbered t c m w = go m.single_thread_handle_mode
  where
    go :
        (b : Bool)
        → WellNumbered
            (if◌then◌else◌ {A = NetworkManager × Calls} b
              (push_task t m, [])
              (m, call_handlers c m)).0
    go true = record {
      free_once = w.free_once;
      free_bounded = w.free_bounded;
      taken = w.taken;
      known = w.known;
      one_each = w.one_each;
    }
    go false = w

-- A connection that goes.
removed-WellNumbered :
    (id : ℕ) (ep : Endpoint) (m : NetworkManager)
    → WellNumbered m
    → find ep m.endpoint_to_net_id ≡ some id
    → WellNumbered (free_net_id id (forget id ep m))
unfolding free_net_id forget
removed-WellNumbered id ep m w e = record {
  free_once = λ j. omega (arith, w.free_once j, here.2, once j);
  free_bounded = λ j h. bounded j (id == j) refl h;
  taken = λ a j h.
      let (t, g) = find-erase_cases a ep j m.endpoint_to_net_id h in
      back j (other a j t g) (w.taken a j g);
  known = λ a j h.
      let (t, g) = find-erase_cases j id a m.net_id_to_endpoint h in back j t (w.known a j g);
  one_each = λ a b j h g.
      w.one_each a b j (find-erase_cases a ep j m.endpoint_to_net_id h).1
        (find-erase_cases b ep j m.endpoint_to_net_id g).1;
}
  where
    here : Taken id m
    here = w.taken ep id e

    once : (j : ℕ) → count j (id ∷ m.free_net_id_list) ≤ 1
    once j = ground (arith, w.free_once j, here.2)

    bounded :
        (j : ℕ) (b : Bool)
        → (id == j) ≡ b
        → 0 < count j (id ∷ m.free_net_id_list)
        → (0 < j) × (j ≤ m.max_net_id)
    bounded j true t h = ground (arith, t, here.0, here.1)
    bounded j false t h = w.free_bounded j (ground (arith, t, h))

    back :
        (j : ℕ)
        → (id == j) ≡ false
        → Taken j m
        → (0 < j) × (j ≤ m.max_net_id) × (count j (id ∷ m.free_net_id_list) ≡ 0)
    back j t (a, b, c) = (a, b, ground (arith, t, c))

    other :
        (a : Endpoint) (j : ℕ)
        → same_endpoint ep a ≡ false
        → find a m.endpoint_to_net_id ≡ some j
        → (id == j) ≡ false
    other a j t g = split (id == j) refl
      where
        split : (b : Bool) → (id == j) ≡ b → (id == j) ≡ false
        split true k =
            absurd (ground (arith, t, w.one_each ep a id e (g ∙ ap some (ground (arith, k)))))
        split false k = k

notify-removed :
    (t : NetworkHandleTask) (c : Call) (id : ℕ) (m : NetworkManager)
    → WellNumbered (free_net_id id m)
    → WellNumbered (free_net_id id (notify t c m).0)
unfolding notify push_task free_net_id
notify-removed t c id m w = go m.single_thread_handle_mode
  where
    go :
        (b : Bool)
        → WellNumbered (
            free_net_id id
              (if◌then◌else◌ {A = NetworkManager × Calls} b
                (push_task t m, [])
                (m, call_handlers c m)).0)
    go true = record {
      free_once = w.free_once;
      free_bounded = w.free_bounded;
      taken = w.taken;
      known = w.known;
      one_each = w.one_each;
    }
    go false = w

on_disconnect-WellNumbered :
    (ep : Endpoint) (m : NetworkManager) → WellNumbered m → WellNumbered (on_disconnect ep m).0
unfolding on_disconnect
on_disconnect-WellNumbered ep m w = go (find ep m.endpoint_to_net_id) refl
  where
    go : (o : Option ℕ) → find ep m.endpoint_to_net_id ≡ o → WellNumbered (on_disconnect ep m).0
    go none e = rw (on_disconnect, e) w
    go (some id) e =
        rw (on_disconnect, e)
          (notify-removed _ _ id (forget id ep m) (removed-WellNumbered id ep m w e))

-- Accepts, connects, disconnects and failures keep the numbers of connections in order: the numbers
-- to be given again are distinct, no connection has one of them, and no two connections of endpoints
-- that the map tells apart have the same.
pub callback-WellNumbered :
    (c : Callback) (m : NetworkManager) → WellNumbered m → WellNumbered (callback c m).0
unfolding callback on_accept on_connect on_disconnect listen_failed_at connect_failed_to
callback-WellNumbered (accept ep) m w =
    let (id, m1) = get_free_net_id m in
    let (w1, fresh) = get_free_net_id-IsFresh m w in
    notify-WellNumbered _ _ _
      (add_accepts-Numbered id ep m1.accept_list m1 (w1, IsFresh-IsFor id ep m1 fresh)).0
callback-WellNumbered (connect ep) m w =
    let (id, m1) = get_free_net_id m in
    let (w1, fresh) = get_free_net_id-IsFresh m w in
    notify-WellNumbered _ _ _
      (add_connects-Numbered id ep m1.connect_list m1 (w1, IsFresh-IsFor id ep m1 fresh)).0
callback-WellNumbered (listen_fail port) m w = notify-WellNumbered _ _ m w
callback-WellNumbered (connect_fail ep) m w = notify-WellNumbered _ _ m w
callback-WellNumbered (disconnect ep) m w = on_disconnect-WellNumbered ep m w

callbacks-WellNumbered :
    (cs : List Callback) (m : NetworkManager) → WellNumbered m → WellNumbered (callbacks cs m).0
unfolding callbacks
callbacks-WellNumbered [] m w = w
callbacks-WellNumbered (c ∷ cs) m w =
    callbacks-WellNumbered cs (callback c m).0 (callback-WellNumbered c m w)

-- After accepts, connects, disconnects and failures in any order, in either mode, where there are
-- too few of them to take `max_net_id_` to INT_MAX: the numbers of connections are still in order,
-- and the one that `GetFreeNetID` gives next is above zero, at most INT_MAX and no connection's.
pub get_free_net_id-callbacks :
    (cs : List Callback) (m : NetworkManager)
    → WellNumbered m
    → m.max_net_id + length cs < int_max
    → WellNumbered (callbacks cs m).0
      × IsFresh (get_free_net_id (callbacks cs m).0).0 (get_free_net_id (callbacks cs m).0).1
      × ((get_free_net_id (callbacks cs m).0).0 ≤ int_max)
get_free_net_id-callbacks cs m h few =
    let w = callbacks-WellNumbered cs m h in
    let fresh = (get_free_net_id-IsFresh _ w).1 in
    (
      w,
      fresh,
      omega (
        arith,
        few,
        fresh.is_taken.1,
        get_free_net_id-max (callbacks cs m).0,
        callbacks-max cs m,
      ),
    )
