-- ===== src/Rpc/Manager/Handshake.antt =====
-- elegance/rpc/rpc_manager.cpp: the check of a key between the manager that connects and the one
-- that listens, and what gets past it.
use elegance.Prelude.{
  ℕ, ◌≡◌, ◌≢◌, ◌<◌, refl, ap, ap₂, sym, subst, ◌∙◌, inl, inr, true, Option, none, some, List, [],
  ◌∷◌, ◌++◌, arith, Bool-cases, length, ltb, drop,
}
use elegance.Prelude.Map.{
  find, insert, enter, find_or, nat_key, find-insert_same, find-enter_same, find_or-found,
  find_or-missing,
}
use elegance.Prelude.Strings.{
  equal_bytes, string_key, equal_bytes_refl, equal_bytes→eq, c_string_in, Without,
  c_string_in_ended,
}
use elegance.Rpc.Manager.{
  RpcManager, UncheckRpcInfo, new_info, Action, send_to, disconnect, tell, handled, session_active,
  calculate_rpc_session_key, activate, on_active_network, on_connect, on_accept, on_check_key,
  on_check_key_response, on_recv_package, check_key_message, before, max_key_string_length,
}
use elegance.Rpc.Manager.Links.{IsActive, info_key, activate-IsActive}

-- What `OnAccept` notes of a connection: its local port is left 0.
abbrev pub accepted_info : List ℕ → ℕ → ℕ → UncheckRpcInfo
accepted_info ip port id = record {
  network_id = id;
  remote_ip_addr = ip;
  remote_port = port;
  local_port = 0;
}

-- A callback that acts as `first`, then reports the session `sid`, which the connection `id` has
-- from then on.
abbrev pub Activated :
    Option (RpcManager × List Action) → List Action → RpcManager → ℕ → List ℕ → Type 0
Activated result first m id sid =
    (m' : RpcManager) × (result ≡ some (m', first ++ tell (session_active sid) m))
    × IsActive m' id sid
    × (find sid m'.session_id_to_network_id ≡ some id)

-- `activate` with the information that a connection has.
activate-Activated :
    (first : List Action) (id : ℕ) (info : UncheckRpcInfo) (m0 m : RpcManager)
    → m.handler ≡ m0.handler
    → find id m.uncheck_rpc_info_map ≡ some info
    → Activated (some (before first (activate id m))) first m0 id (info_key info)
unfolding activate on_active_network tell
activate-Activated first id info m0 m same h =
    let e : find_or id new_info m.uncheck_rpc_info_map ≡ info =
      find_or-found id new_info info m.uncheck_rpc_info_map h in
    let m' : RpcManager = (activate id m).0 in
    (
      m',
      ap₂
          (λ i o. some (
            m',
            first ++ (elim o [ none ↦ [] | some a ↦ handled a (session_active (info_key i)) ∷ [] ]),
          ))
          e same,
      subst (λ i. IsActive m' id (info_key i)) e (activate-IsActive id m),
      subst (λ i. find (info_key i) m'.session_id_to_network_id ≡ some id) e
          (find-insert_same _ id m.session_id_to_network_id),
    )

-- A key check with the key of the connection.
on_recv_package-right_key :
    (handle_call : ℕ → List ℕ → Option (List ℕ)) (id : ℕ) (key : List ℕ) (m : RpcManager)
    → find id m.network_id_to_key ≡ some key
    → Without 0 key
    → on_recv_package handle_call id (check_key_message key) m
      ≡ some (
          before
            (send_to id (1 ∷ 1 ∷ []) ∷ [])
            (activate id (record m { network_id_to_key = enter id [] m.network_id_to_key })))
unfolding on_recv_package check_key_message on_check_key
on_recv_package-right_key handle_call id key m h no_null =
    let same : equal_bytes key (find_or id [] m.network_id_to_key) ≡ true =
      ap (equal_bytes key) (find_or-found id [] key m.network_id_to_key h) ∙ equal_bytes_refl key in
    rw (c_string_in_ended key [] no_null, on_check_key, same)

-- A package that checks a key other than the one of its connection makes the manager disconnect
-- it, and do nothing else: the sessions and the tables that lead to them stay as they are.
pub on_recv_package-wrong_key :
    (handle_call : ℕ → List ℕ → Option (List ℕ)) (id : ℕ) (key key' bytes : List ℕ) (m : RpcManager)
    → find id m.network_id_to_key ≡ some key
    → c_string_in (drop 3 bytes) ≡ some key'
    → key' ≢ key
    → (m' : RpcManager) × (on_recv_package handle_call id (0 ∷ bytes) m
        ≡ some (m', disconnect id ∷ []))
      × (m'.session_map ≡ m.session_map)
      × (m'.network_id_to_session_id ≡ m.network_id_to_session_id)
      × (m'.session_id_to_network_id ≡ m.session_id_to_network_id)
unfolding on_recv_package on_check_key
on_recv_package-wrong_key handle_call id key key' bytes m h received other =
    elim (Bool-cases (equal_bytes key' (find_or id [] m.network_id_to_key))) [
      | inl t ↦
          absurd (other (equal_bytes→eq key' _ t ∙ find_or-found id [] key m.network_id_to_key h))
      | inr f ↦ (
        record m { network_id_to_key = enter id [] m.network_id_to_key },
        rw (received, on_check_key, f),
        refl,
        refl,
        refl,
      )
    ]

on_connect-sends :
    (ip key : List ℕ) (port local_port id : ℕ) (m : RpcManager)
    → find (calculate_rpc_session_key 0 ip port) m.uncheck_key_map ≡ some key
    → length key < 99
    → on_connect ip port local_port true id m ≡ (
      record m {
        uncheck_rpc_info_map =
            insert id
              (record {
                network_id = id;
                remote_ip_addr = ip;
                remote_port = port;
                local_port = local_port;
              })
              m.uncheck_rpc_info_map;
      },
      send_to id (check_key_message key) ∷ [],
    )
unfolding on_connect
on_connect-sends ip key port local_port id m h short =
    let t : ltb (length key) max_key_string_length ≡ true = ground arith in rw (on_connect, h, t)

-- What `OnAccept` leaves of a listener with a key.
on_accept-notes :
    (ip key : List ℕ) (port listen_port id : ℕ) (m : RpcManager)
    → find listen_port m.listen_port_to_key ≡ some key
    → (on_accept ip port listen_port id m).0 ≡ record m {
      network_id_to_key = insert id key m.network_id_to_key;
      uncheck_rpc_info_map = enter id (accepted_info ip port id) m.uncheck_rpc_info_map;
    }
unfolding on_accept
on_accept-notes ip key port listen_port id m h = rw (on_accept, h)

-- A key that is right, on a connection that was accepted.
right_key-accepted :
    (handle_call : ℕ → List ℕ → Option (List ℕ)) (ip key : List ℕ) (port listen_port id : ℕ)
    (m : RpcManager)
    → find listen_port m.listen_port_to_key ≡ some key
    → Without 0 key
    → Activated
        (on_recv_package handle_call id
          (check_key_message key)
          (on_accept ip port listen_port id m).0)
        (send_to id (1 ∷ 1 ∷ []) ∷ [])
        m
        id
        (info_key (find_or id (accepted_info ip port id) m.uncheck_rpc_info_map))
right_key-accepted handle_call ip key port listen_port id m h no_null =
    rw (on_accept-notes ip key port listen_port id m h) (
      let m1 : RpcManager = record m {
        network_id_to_key = insert id key m.network_id_to_key;
        uncheck_rpc_info_map = enter id (accepted_info ip port id) m.uncheck_rpc_info_map;
      } in
      let info = find_or id (accepted_info ip port id) m.uncheck_rpc_info_map in
      subst (λ r. Activated r (send_to id (1 ∷ 1 ∷ []) ∷ []) m id (info_key info))
        (sym (
          on_recv_package-right_key handle_call id key m1
            (find-insert_same id key m.network_id_to_key) no_null))
        (activate-Activated (send_to id (1 ∷ 1 ∷ []) ∷ []) id info m
          (record m1 { network_id_to_key = enter id [] m1.network_id_to_key }) refl
          (find-enter_same id (accepted_info ip port id) m.uncheck_rpc_info_map)))

-- A connection of a manager that connects with a key shorter than 99 and without a null byte, to
-- one that listens with the same key and knows nothing of the connection's number yet: the message
-- that `OnConnect` sends makes the listening manager answer and report a session, and the answer
-- makes the connecting one report a session. On each side the session is named by the peer's
-- address and port (and its own port, which is 0 on the side that listens), the tables lead from
-- the connection to the session and back, and the session is there.
pub on_recv_package-handshake :
    (handle_call handle_call' : ℕ → List ℕ → Option (List ℕ)) (client server : RpcManager)
    (ip ip' key : List ℕ) (port local_port port' listen_port id id' : ℕ)
    → find (calculate_rpc_session_key 0 ip port) client.uncheck_key_map ≡ some key
    → find listen_port server.listen_port_to_key ≡ some key
    → find id' server.uncheck_rpc_info_map ≡ none
    → length key < 99
    → Without 0 key
    → (request response : List ℕ) × ((on_connect ip port local_port true id client).1
        ≡ send_to id request ∷ [])
      × Activated
          (on_recv_package handle_call' id' request (on_accept ip' port' listen_port id' server).0)
          (send_to id' response ∷ [])
          server
          id'
          (calculate_rpc_session_key 0 ip' port')
      × Activated
          (on_recv_package handle_call id response (on_connect ip port local_port true id client).0)
          []
          client
          id
          (calculate_rpc_session_key local_port ip port)
unfolding on_recv_package on_check_key_response
on_recv_package-handshake handle_call handle_call' client server ip ip' key port local_port port'
      listen_port id id' asked keyed fresh short no_null =
    let sends = on_connect-sends ip key port local_port id client asked short in
    let new : find_or id' (accepted_info ip' port' id') server.uncheck_rpc_info_map
        ≡ accepted_info ip' port' id' =
      find_or-missing id' _ server.uncheck_rpc_info_map fresh in
    let info : UncheckRpcInfo = record {
      network_id = id;
      remote_ip_addr = ip;
      remote_port = port;
      local_port = local_port;
    } in
    (
      check_key_message key,
      1 ∷ 1 ∷ [],
      ap (λ r. r.1) sends,
      subst
          (λ i.
            Activated
              (on_recv_package handle_call' id' (check_key_message key)
                (on_accept ip' port' listen_port id' server).0)
              (send_to id' (1 ∷ 1 ∷ []) ∷ []) server id' (info_key i))
          new (right_key-accepted handle_call' ip' key port' listen_port id' server keyed no_null),
      rw sends (
          activate-Activated [] id info client
            (record client { uncheck_rpc_info_map = insert id info client.uncheck_rpc_info_map })
            refl (find-insert_same id info client.uncheck_rpc_info_map)),
    )

-- `OnAccept` keeps the information that an earlier connection of the same number left. So a peer
-- that is accepted under that number, and sends the listener's key, is given the session of the
-- earlier connection's address and port, whatever its own are.
pub on_recv_package-reused :
    (handle_call : ℕ → List ℕ → Option (List ℕ)) (ip key : List ℕ) (port listen_port id : ℕ)
    (old : UncheckRpcInfo) (m : RpcManager)
    → find listen_port m.listen_port_to_key ≡ some key
    → Without 0 key
    → find id m.uncheck_rpc_info_map ≡ some old
    → Activated
        (on_recv_package handle_call id
          (check_key_message key)
          (on_accept ip port listen_port id m).0)
        (send_to id (1 ∷ 1 ∷ []) ∷ [])
        m
        id
        (info_key old)
on_recv_package-reused handle_call ip key port listen_port id old m keyed no_null left_over =
    subst
      (λ i.
        Activated
          (on_recv_package handle_call id (check_key_message key)
            (on_accept ip port listen_port id m).0)
          (send_to id (1 ∷ 1 ∷ []) ∷ []) m id (info_key i))
      (find_or-found id (accepted_info ip port id) old m.uncheck_rpc_info_map left_over)
      (right_key-accepted handle_call ip key port listen_port id m keyed no_null)

-- The answer to a key is taken from any connection, also from one that was accepted and has a key
-- to send: a package that starts with the bytes 1 and 1 makes its session active with no key.
pub on_recv_package-bypass :
    (handle_call : ℕ → List ℕ → Option (List ℕ)) (ip key rest : List ℕ) (port listen_port id : ℕ)
    (m : RpcManager)
    → find listen_port m.listen_port_to_key ≡ some key
    → find id m.uncheck_rpc_info_map ≡ none
    → Activated
        (on_recv_package handle_call id (1 ∷ 1 ∷ rest) (on_accept ip port listen_port id m).0)
        []
        m
        id
        (calculate_rpc_session_key 0 ip port)
unfolding on_recv_package on_check_key_response
on_recv_package-bypass handle_call ip key rest port listen_port id m keyed fresh =
    rw (on_accept-notes ip key port listen_port id m keyed) (
      let new : find_or id (accepted_info ip port id) m.uncheck_rpc_info_map
          ≡ accepted_info ip port id =
        find_or-missing id _ m.uncheck_rpc_info_map fresh in
      activate-Activated [] id (accepted_info ip port id) m
        (record m {
          network_id_to_key = insert id key m.network_id_to_key;
          uncheck_rpc_info_map = enter id (accepted_info ip port id) m.uncheck_rpc_info_map;
        })
        refl (find-enter_same id (accepted_info ip port id) m.uncheck_rpc_info_map ∙ ap some new))
