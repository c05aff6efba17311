-- ===== src/Network/Manager/Delivery.antt =====
-- From `Send` in one process to `OnRecv` of the handlers in another.
use elegance.Prelude.{
  ℕ, ◌≡◌, ◌<◌, refl, arith, false, none, some, List, [], ◌∷◌, ◌++◌, length, if◌then◌else◌, ap, sym,
  ◌∙◌, ◌==◌, ltb, if_map, map, flatten, append_assoc, ◌&&◌,
}
use elegance.Prelude.Map.{find, nat_key}
use elegance.Network.Endpoint.{Endpoint, endpoint_key}
use elegance.Packer.{
  Packer, Package, Run, done, fault, out_of_fuel, after, unpack, unpack_fuel, unpack_all,
}
use elegance.Packer.Delivery.{AllSendable, AllNonempty, pack_all, unpack_all-pack_all}
use elegance.Network.Manager.{
  NetworkManager, Calls, on_recv_call, call_handlers, on_recv_package, on_recv_packages, unpack_for,
  on_recv, more_calls, new_task, received, max_socket_msg_buff_length,
}
use elegance.Network.Manager.Modes.Steps.{notify-direct}
use elegance.Network.Manager.Raw.{Writes, payloads, send_all, IsAccepted, send_all-pack_all}

-- The pieces of a connection's bytes, one call of `OnRecv` each.
unfoldable pub on_recv_all :
    Endpoint → List (List ℕ) → NetworkManager → Run (NetworkManager × Calls)
on_recv_all ep [] m = done (m, [])
on_recv_all ep (piece ∷ pieces) m = elim (on_recv ep piece m) [
  | done (m1, calls) ↦ more_calls calls (on_recv_all ep pieces m1)
  | fault ↦ fault
  | out_of_fuel ↦ out_of_fuel
]

-- The calls of the handlers for packages, which are not made for an empty one.
abbrev pub calls_for : ℕ → List Package → List ℕ → Calls
calls_for id [] hs = []
calls_for id (p ∷ ps) hs =
    (if length p == 0 then [] else map (λ h. (h, on_recv_call id p)) hs) ++ calls_for id ps hs

calls_for-append :
    (id : ℕ) (ps qs : List Package) (hs : List ℕ)
    → calls_for id (ps ++ qs) hs ≡ calls_for id ps hs ++ calls_for id qs hs
calls_for-append id [] qs hs = refl
calls_for-append id (p ∷ ps) qs hs =
    rw (calls_for-append id ps qs hs)
      (sym (append_assoc _ (calls_for id ps hs) (calls_for id qs hs)))

-- What the manager makes of a run of its packer.
abbrev lift : ℕ → NetworkManager → Run (Packer × List Package) → Run (NetworkManager × Calls)
lift id m (done (k, ps)) = done (record m { packager = k }, calls_for id ps m.handler_list)
lift id m fault = fault
lift id m out_of_fuel = out_of_fuel

lift-after :
    (id : ℕ) (m : NetworkManager) (k : Packer) (out : List Package)
    (r : Run (Packer × List Package))
    → lift id m (after out r)
      ≡ more_calls (calls_for id out m.handler_list) (lift id (record m { packager = k }) r)
lift-after id m k out (done (j, ps)) = rw (calls_for-append id out ps m.handler_list)
lift-after id m k out fault = refl
lift-after id m k out out_of_fuel = refl

module _ (id : ℕ) (some_id : 0 < id) where
  on_recv_package-direct :
      (p : Package) (m : NetworkManager)
      → m.single_thread_handle_mode ≡ false
      → on_recv_package id p m
        ≡ done (m, if length p == 0 then [] else map (λ h. (h, on_recv_call id p)) m.handler_list)
  unfolding on_recv_package call_handlers
  on_recv_package-direct p m mode =
      let present : (id == 0) ≡ false = ground (arith, some_id) in
      let copied : (m.single_thread_handle_mode && ltb max_socket_msg_buff_length (length p))
          ≡ false =
        ground (arith, mode) in
      rw
        (
          on_recv_package,
          present,
          copied,
          notify-direct (record new_task { task_type = received; net_id = id; data_bytes = p })
              (on_recv_call id p) m mode,
        )
        (sym (if_map (length p == 0) result [] (map (λ h. (h, on_recv_call id p)) m.handler_list)))
    where
      result : Calls → Run (NetworkManager × Calls)
      result c = done (m, c)

  on_recv_packages-direct :
      (ps : List Package) (m : NetworkManager)
      → m.single_thread_handle_mode ≡ false
      → on_recv_packages id ps m ≡ done (m, calls_for id ps m.handler_list)
  unfolding on_recv_packages
  on_recv_packages-direct [] m mode = refl
  on_recv_packages-direct (p ∷ ps) m mode =
      rw (on_recv_packages, on_recv_package-direct p m mode, on_recv_packages-direct ps m mode)

  on_recv-unpack :
      (ep : Endpoint) (piece : List ℕ) (m : NetworkManager)
      → find ep m.endpoint_to_net_id ≡ some id
      → m.single_thread_handle_mode ≡ false
      → on_recv ep piece m ≡ lift id m (unpack (unpack_fuel piece) id piece m.packager)
  unfolding on_recv unpack_for
  on_recv-unpack ep piece m known mode =
      rw (on_recv, known) (go (unpack (unpack_fuel piece) id piece m.packager) refl)
    where
      go :
          (r : Run (Packer × List Package))
          → unpack (unpack_fuel piece) id piece m.packager ≡ r
          → unpack_for id piece m ≡ lift id m r
      go (done (k, ps)) e =
          rw (unpack_for, e) (on_recv_packages-direct ps (record m { packager = k }) mode)
      go fault e = rw (unpack_for, e)
      go out_of_fuel e = rw (unpack_for, e)

  -- What the packer makes of the pieces is what the handlers are called with.
  on_recv_all-unpack_all :
      (ep : Endpoint) (pieces : List (List ℕ)) (m : NetworkManager)
      → find ep m.endpoint_to_net_id ≡ some id
      → m.single_thread_handle_mode ≡ false
      → on_recv_all ep pieces m ≡ lift id m (unpack_all id pieces m.packager)
  unfolding on_recv_all unpack_all
  on_recv_all-unpack_all ep [] m known mode = refl
  on_recv_all-unpack_all ep (piece ∷ pieces) m known mode =
      go (unpack (unpack_fuel piece) id piece m.packager) refl
        (λ k. on_recv_all-unpack_all ep pieces (record m { packager = k }) known mode)
    where
      go :
          (r : Run (Packer × List Package))
          → unpack (unpack_fuel piece) id piece m.packager ≡ r
          → ((k : Packer)
              → on_recv_all ep pieces (record m { packager = k })
                ≡ lift id (record m { packager = k }) (unpack_all id pieces k))
          → on_recv_all ep (piece ∷ pieces) m
            ≡ lift id m (unpack_all id (piece ∷ pieces) m.packager)
      go (done (k, ps)) e rest =
          rw (on_recv_all, on_recv-unpack ep piece m known mode, unpack_all, e, rest k)
            (sym (lift-after id m k ps (unpack_all id pieces k)))
      go fault e rest = rw (on_recv_all, on_recv-unpack ep piece m known mode, unpack_all, e)
      go out_of_fuel e rest = rw (on_recv_all, on_recv-unpack ep piece m known mode, unpack_all, e)

-- The calls for packages of which none is empty.
abbrev pub calls_for_each : ℕ → List Package → List ℕ → Calls
calls_for_each id ps hs = flatten (map (λ p. map (λ h. (h, on_recv_call id p)) hs) ps)

calls_for-sendable :
    (id : ℕ) (ps : List Package) (hs : List ℕ)
    → AllSendable ps
    → calls_for id ps hs ≡ calls_for_each id ps hs
calls_for-sendable id [] hs h = refl
calls_for-sendable id (p ∷ ps) hs h =
    let present : (length p == 0) ≡ false = ground (arith, h.0.0) in
    rw (present, calls_for-sendable id ps hs h.1)

-- Packages of at least one byte and of sizes that are an `int` are sent one after another on an
-- accepted connection. In the receiving process, which knows the connection by the number `id2`
-- above zero, has read nothing of it yet and does not use single-thread mode, their bytes come in
-- any non-empty pieces. Then each handler is called with each package, whole and in the order of
-- sending, and nothing but the packer's state changes.
pub on_recv_all-send_all :
    (m1 m2 : NetworkManager) (id1 id2 sock : ℕ) (ep : Endpoint) (ps : List Package)
    (pieces : List (List ℕ)) (w : Writes)
    → IsAccepted m1 id1 sock
    → find ep m2.endpoint_to_net_id ≡ some id2
    → 0 < id2
    → find id2 m2.packager ≡ none
    → m2.single_thread_handle_mode ≡ false
    → AllSendable ps
    → send_all id1 ps m1 ≡ some w
    → AllNonempty pieces
    → flatten (payloads w) ≡ flatten pieces
    → (k : Packer) × (on_recv_all ep pieces m2
        ≡ done (record m2 { packager = k }, calls_for_each id2 ps m2.handler_list))
on_recv_all-send_all m1 m2 id1 id2 sock ep ps pieces w acc known positive fresh mode sendable sent
      nonempty same =
    let (v, sent', packed) = send_all-pack_all m1 id1 sock ps acc sendable in
    let stream : pack_all ps ≡ some (flatten pieces) = ground (arith, packed, sent, sent', same) in
    let (k, ran, idle, others) =
      unpack_all-pack_all id2 m2.packager ps pieces fresh sendable nonempty stream in
    (
      k,
      on_recv_all-unpack_all id2 positive ep pieces m2 known mode
          ∙ ap (lift id2 m2) ran
          ∙ ap (λ c. done (record m2 { packager = k }, c))
              (calls_for-sendable id2 ps m2.handler_list sendable),
    )
