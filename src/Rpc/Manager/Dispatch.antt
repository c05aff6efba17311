-- ===== src/Rpc/Manager/Dispatch.antt =====
-- elegance/rpc/rpc_manager.cpp: the names of sessions, and the messages that reach them through
-- their managers.
use elegance.Prelude.{
  ◌<◌, ℕ, ◌≡◌, refl, ap, ◌∙◌, false, Option, some, List, [], ◌∷◌, arith, ◌==◌, map,
}
use elegance.Prelude.Map.{find, insert, enter, find_or, nat_key, find_or-found, find-insert_same}
use elegance.Prelude.Strings.{
  string_key, decimal, Without, decimal_injective, decimal-Without, cut_injective,
}
use elegance.Rpc.Session.{
  RpcSession, sent, async_call, on_recv, message, type_request, type_response,
}
use elegance.Rpc.Session.Ids.{WellNumbered, HasRoom}
use elegance.Rpc.Session.Keeps.{IsSendable, async_call-waits}
use elegance.Rpc.Session.RoundTrip.{answered, responded}
use elegance.Rpc.Manager.{
  RpcManager, UncheckRpcInfo, new_info, send_to, request_called_back, request_deleted,
  calculate_rpc_session_key, activate, on_active_network, create_session, session_action,
  on_session_message, on_recv_package,
}
use elegance.Rpc.Manager.Links.{info_key}

-- Two sessions have the same name only if their ports and addresses are the same, where the
-- addresses have no underscore (the byte 95).
pub calculate_rpc_session_key_injective :
    (ip ip' : List ℕ) (local_port local_port' remote_port remote_port' : ℕ)
    → Without 95 ip
    → Without 95 ip'
    → calculate_rpc_session_key local_port ip remote_port
      ≡ calculate_rpc_session_key local_port' ip' remote_port'
    → (local_port ≡ local_port') × (ip ≡ ip') × (remote_port ≡ remote_port')
unfolding calculate_rpc_session_key
calculate_rpc_session_key_injective ip ip' local_port local_port' remote_port remote_port' h h' e =
    let (front, back) =
      cut_injective 95 (decimal local_port) (decimal local_port') _ _
        (decimal-Without local_port 95 (omega arith)) (decimal-Without local_port' 95 (omega arith))
        e in
    let (address, remote) = cut_injective 95 ip ip' _ _ h h' back in
    (
      decimal_injective local_port local_port' front,
      address,
      decimal_injective remote_port remote_port' remote,
    )

activate-keeps :
    (id : ℕ) (info : UncheckRpcInfo) (s : RpcSession) (m : RpcManager)
    → find id m.uncheck_rpc_info_map ≡ some info
    → find (info_key info) m.session_map ≡ some s
    → (find id (activate id m).0.network_id_to_session_id ≡ some (info_key info))
      × (find (info_key info) (activate id m).0.session_map ≡ some s)
unfolding activate on_active_network create_session
activate-keeps id info s m h there =
    let e = find_or-found id new_info info m.uncheck_rpc_info_map h in
    rw e (
      find-insert_same id (info_key info) m.network_id_to_session_id,
      rw (create_session, there) there,
    )

heard : ℕ → List ℕ → RpcSession → RpcManager → RpcManager
heard id sid s m = record m {
  network_id_to_session_id = enter id [] m.network_id_to_session_id;
  session_map = insert sid s m.session_map;
}

on_session_message-dispatched :
    (handle_call : ℕ → List ℕ → Option (List ℕ)) (id : ℕ) (bytes : List ℕ) (m : RpcManager)
    (s : RpcSession)
    → find (find_or id [] m.network_id_to_session_id) m.session_map ≡ some s
    → on_session_message handle_call id bytes m ≡ (
      heard id (find_or id [] m.network_id_to_session_id) (on_recv handle_call bytes s).0 m,
      map (session_action s) (on_recv handle_call bytes s).1,
    )
unfolding on_session_message heard
on_session_message-dispatched handle_call id bytes m s there = rw (on_session_message, there)

-- A message for a session, on a connection that has one.
on_recv_package-dispatched :
    (handle_call : ℕ → List ℕ → Option (List ℕ)) (type id : ℕ) (rest : List ℕ) (m : RpcManager)
    (sid : List ℕ) (s : RpcSession)
    → (type == 0) ≡ false
    → (type == 1) ≡ false
    → find id m.network_id_to_session_id ≡ some sid
    → find sid m.session_map ≡ some s
    → on_recv_package handle_call id (type ∷ rest) m
      ≡ some (
        heard id sid (on_recv handle_call (type ∷ rest) s).0 m,
        map (session_action s) (on_recv handle_call (type ∷ rest) s).1,
      )
unfolding on_recv_package
on_recv_package-dispatched handle_call type id rest m sid s not_key not_response linked there =
    rw (on_recv_package, not_key, not_response)
      (ap some (
        on_session_message-dispatched handle_call id (type ∷ rest) m s
          (ap (λ k. find k m.session_map) found ∙ there)))
    ∙ ap
        (λ k. some (
          heard id k (on_recv handle_call (type ∷ rest) s).0 m,
          map (session_action s) (on_recv handle_call (type ∷ rest) s).1,
        ))
        found
  where
    found : find_or id [] m.network_id_to_session_id ≡ sid
    found = find_or-found id [] sid m.network_id_to_session_id linked

-- A session outlives its connection, and `OnActiveNetwork` gives its data only to a new one. So a
-- session that comes back on a connection under some number, and whose one handler answers a request
-- with data that can be sent, hears that request on that connection, but its answer goes to the
-- number in the session's own data, which is that of its first connection. The request's id is below
-- SHRT_MAX, and its data can be sent.
pub on_recv_package-activate_stale :
    (handle_call : ℕ → List ℕ → Option (List ℕ)) (id h k reserve : ℕ) (bytes result : List ℕ)
    (info : UncheckRpcInfo) (s : RpcSession) (m : RpcManager)
    → find id m.uncheck_rpc_info_map ≡ some info
    → find (info_key info) m.session_map ≡ some s
    → s.handler_list ≡ h ∷ []
    → k < 32767
    → IsSendable bytes
    → handle_call h bytes ≡ some result
    → IsSendable result
    → (m' : RpcManager) × (on_recv_package handle_call id
          (message type_request reserve k bytes)
          (activate id m).0
        ≡ some (m', send_to s.network_id (message type_response s.reserve_ch k result) ∷ []))
unfolding message session_action
on_recv_package-activate_stale handle_call id h k reserve bytes result info s m known there only
      small sendable handled sendable' =
    let (linked, kept) = activate-keeps id info s m known there in
    (
      _,
      on_recv_package-dispatched handle_call 2 id _ (activate id m).0 (info_key info) s refl refl
            linked kept
          ∙ ap
              (λ r.
                some (heard id (info_key info) r.0 (activate id m).0, map (session_action s) r.1))
              (answered handle_call handle_call s s 0 h bytes result k reserve small sendable.0 only
                handled sendable'),
    )

module _ (handle_call handle_call' : ℕ → List ℕ → Option (List ℕ)) (client server : RpcManager)
    (id id' req h : ℕ) (sid sid' bytes result : List ℕ) (s s' : RpcSession) where
  -- A call through two managers, each of which has a session for its end of the connection; the
  -- one that is called has the connection's number in its data and one handler, which answers with
  -- data that can be sent. The session that calls has its ids in order, one to give without its
  -- counter going back to 0, and data that can be sent. Then the one message that it sends makes
  -- the other manager send one message to its end of the connection, and that makes the calling
  -- manager give the answer to the request that called, which is then deleted, and do nothing else.
  pub on_recv_package-async_call :
      find id client.network_id_to_session_id ≡ some sid
      → find id' server.network_id_to_session_id ≡ some sid'
      → find sid' server.session_map ≡ some s'
      → s'.network_id ≡ id'
      → s'.handler_list ≡ h ∷ []
      → WellNumbered s
      → HasRoom s
      → IsSendable bytes
      → handle_call' h bytes ≡ some result
      → IsSendable result
      → (request response : List ℕ) × ((async_call req bytes s).1 ≡ sent request ∷ [])
        × ((server' : RpcManager) × (on_recv_package handle_call' id' request server
              ≡ some (server', send_to id' response ∷ [])))
        × ((client' : RpcManager) × (on_recv_package handle_call id response (record client {
          session_map = insert sid (async_call req bytes s).0 client.session_map;
        })
              ≡ some (client', request_called_back req result ∷ request_deleted req ∷ [])))
  unfolding message session_action
  on_recv_package-async_call linked linked' there' numbered' only w room sendable handled
        sendable' =
      let (k, out, small, fresh, waits, reserve, numbered) =
        async_call-waits req bytes s w room sendable in
      let s1 : RpcSession = (async_call req bytes s).0 in
      let client1 : RpcManager = record client { session_map = insert sid s1 client.session_map } in
      (
        message type_request s.reserve_ch k bytes,
        message type_response s'.reserve_ch k result,
        out,
        (
          _,
          on_recv_package-dispatched handle_call' 2 id' _ server sid' s' refl refl linked' there'
              ∙ ap (λ r. some (heard id' sid' r.0 server, map (session_action s') r.1))
                  (answered handle_call' handle_call s s' req h bytes result k s.reserve_ch small
                    sendable.0 only handled sendable')
              ∙ ap
                  (λ n. some (
                    heard id' sid' s' server,
                    send_to n (message type_response s'.reserve_ch k result) ∷ [],
                  ))
                  numbered',
        ),
        (
          _,
          on_recv_package-dispatched handle_call 3 id _ client1 sid s1 refl refl linked
                (find-insert_same sid s1 client.session_map)
              ∙ ap
                  (λ e. some (
                    heard id sid
                        (on_recv handle_call (message type_response s'.reserve_ch k result) s1).0
                        client1,
                    map (session_action s1) e,
                  ))
                  (responded handle_call' handle_call s s' req h bytes result k s'.reserve_ch s1
                    small sendable'.0 (ground (arith, waits k))),
        ),
      )
