-- ===== src/Rpc/Manager/Links.antt =====
-- elegance/rpc/rpc_manager.cpp: the tables of `RPCManager` between connections and sessions.
use elegance.Prelude.{
  ℕ, ◌≡◌, ap, sym, refl, subst₂, ◌∙◌, ◌⊎◌, inl, inr, Option, some, List, [], arith, ◌==◌,
  Bool-cases, Option-cases,
}
use elegance.Prelude.Map.{
  Map, find, find_or, nat_key, find-insert_cases, find-insert_same, find-insert_keeps,
  find-insert_present, find-enter_same, find-enter_keeps, find_or-found,
}
use elegance.Prelude.Strings.{equal_bytes→eq, string_key}
use elegance.Rpc.Session.{RpcSession}
use elegance.Rpc.Manager.{
  RpcManager, UncheckRpcInfo, new_info, new_manager, calculate_rpc_session_key, create_session,
  on_active_network, activate,
}

abbrev pub info_key : UncheckRpcInfo → List ℕ
info_key i = calculate_rpc_session_key i.local_port i.remote_ip_addr i.remote_port

-- The connection `id` has the session `sid`: the one of the ports and the address that its
-- unchecked information gives.
pub record IsActive (m : RpcManager) (id : ℕ) (sid : List ℕ) : Type 0 where
  pub has_id : find id m.network_id_to_session_id ≡ some sid
  pub info : UncheckRpcInfo
  pub has_info : find id m.uncheck_rpc_info_map ≡ some info
  pub named : info_key info ≡ sid
  pub session : RpcSession
  pub has_session : find sid m.session_map ≡ some session

-- A connection that a session leads to has that session; a connection that leads to a session has
-- it, unless it leads to the empty id, which `operator[]` enters for a connection without one.
pub record WellLinked (m : RpcManager) : Type 0 where
  pub back :
      (sid : List ℕ) (id : ℕ) → find sid m.session_id_to_network_id ≡ some id → IsActive m id sid
  pub known :
      (id : ℕ) (sid : List ℕ)
      → find id m.network_id_to_session_id ≡ some sid
      → ([] ≡ sid) ⊎ IsActive m id sid

pub new_manager-WellLinked : (h : Option ℕ) → WellLinked (new_manager h)
unfolding new_manager find
new_manager-WellLinked h = record {
  back = λ sid id e. absurd (ground (arith, e));
  known = λ id sid e. absurd (ground (arith, e));
}

-- Which tables a manager has to keep for what is active in it.
pub record Keeps (m m' : RpcManager) (id : ℕ) (sid : List ℕ) : Type 0 where
  pub link :
      find id m.network_id_to_session_id ≡ some sid → find id m'.network_id_to_session_id ≡ some sid
  pub infos :
      (i : UncheckRpcInfo)
      → find id m.uncheck_rpc_info_map ≡ some i
      → find id m'.uncheck_rpc_info_map ≡ some i
  pub sessions :
      (s : RpcSession)
      → find sid m.session_map ≡ some s
      → (t : RpcSession) × (find sid m'.session_map ≡ some t)

pub IsActive-kept :
    (m m' : RpcManager) (id : ℕ) (sid : List ℕ)
    → Keeps m m' id sid
    → IsActive m id sid
    → IsActive m' id sid
IsActive-kept m m' id sid k a =
    let (t, has) = k.sessions a.session a.has_session in
    record {
      has_id = k.link a.has_id;
      info = a.info;
      has_info = k.infos a.info a.has_info;
      named = a.named;
      session = t;
      has_session = has;
    }

-- Where the links stay as they are.
pub same_links-WellLinked :
    (m m' : RpcManager)
    → m'.session_id_to_network_id ≡ m.session_id_to_network_id
    → m'.network_id_to_session_id ≡ m.network_id_to_session_id
    → ((id : ℕ) (sid : List ℕ) → IsActive m id sid → Keeps m m' id sid)
    → WellLinked m
    → WellLinked m'
same_links-WellLinked m m' s2n n2s k w = record {
  back = λ sid id e.
      let a = w.back sid id (ap (find sid) (sym s2n) ∙ e) in
      IsActive-kept m m' id sid (k id sid a) a;
  known = λ id sid e. elim (w.known id sid (ap (find id) (sym n2s) ∙ e)) [
    | inl empty ↦ inl empty
    | inr a ↦ inr (IsActive-kept m m' id sid (k id sid a) a)
  ];
}

-- The session that becomes active is there.
create_session-has :
    (sid : List ℕ) (id port : ℕ) (ip : List ℕ) (remote : ℕ) (ss : Map (List ℕ) RpcSession)
    → (s : RpcSession) × (find sid (create_session sid id port ip remote ss) ≡ some s)
unfolding create_session
create_session-has sid id port ip remote ss = elim (Option-cases (find sid ss)) [
  | inl h ↦ rw (create_session, h) (_, find-insert_same sid _ ss)
  | inr (s, h) ↦ rw (create_session, h) (s, h)
]

create_session-keeps :
    (sid sid' : List ℕ) (id port : ℕ) (ip : List ℕ) (remote : ℕ) (ss : Map (List ℕ) RpcSession)
    (s : RpcSession)
    → find sid ss ≡ some s
    → (t : RpcSession) × (find sid (create_session sid' id port ip remote ss) ≡ some t)
unfolding create_session
create_session-keeps sid sid' id port ip remote ss s e = elim (Option-cases (find sid' ss)) [
  | inl h ↦ rw (create_session, h) (find-insert_present sid sid' _ s ss e)
  | inr (s', h) ↦ rw (create_session, h) (s, e)
]

-- `activate` makes its connection active.
pub activate-IsActive :
    (id : ℕ) (m : RpcManager)
    → IsActive (activate id m).0 id (info_key (find_or id new_info m.uncheck_rpc_info_map))
unfolding activate on_active_network
activate-IsActive id m =
    let info = find_or id new_info m.uncheck_rpc_info_map in
    let (s, has) =
      create_session-has (info_key info) id info.local_port info.remote_ip_addr info.remote_port
        m.session_map in
    record {
      has_id = find-insert_same id (info_key info) m.network_id_to_session_id;
      info = info;
      has_info = find-enter_same id new_info m.uncheck_rpc_info_map;
      named = refl;
      session = s;
      has_session = has;
    }

-- What was active still is.
activate-keeps :
    (id id' : ℕ) (sid : List ℕ) (m : RpcManager)
    → IsActive m id sid
    → IsActive (activate id' m).0 id sid
unfolding activate on_active_network
activate-keeps id id' sid m a = elim (Bool-cases (id' == id)) [
  | inl t ↦
      let same : id ≡ id' = ground (arith, t) in
      let found : find_or id' new_info m.uncheck_rpc_info_map ≡ a.info =
        find_or-found id' new_info a.info m.uncheck_rpc_info_map
          (ap (λ k. find k m.uncheck_rpc_info_map) (sym same) ∙ a.has_info) in
      subst₂ (λ k t. IsActive (activate id' m).0 k t) (sym same) (ap info_key found ∙ a.named)
        (activate-IsActive id' m)
  | inr f ↦
      let info = find_or id' new_info m.uncheck_rpc_info_map in
      IsActive-kept m (activate id' m).0 id sid
        (record {
          link = find-insert_keeps id id' (info_key info) sid m.network_id_to_session_id f;
          infos = λ i. find-enter_keeps id id' new_info i m.uncheck_rpc_info_map;
          sessions =
              create_session-keeps sid (info_key info) id' info.local_port info.remote_ip_addr
                info.remote_port m.session_map;
        })
        a
]

pub activate-WellLinked : (id : ℕ) (m : RpcManager) → WellLinked m → WellLinked (activate id m).0
unfolding activate on_active_network
activate-WellLinked id m w =
    let sid = info_key (find_or id new_info m.uncheck_rpc_info_map) in
    record {
      back = λ sid' id' e. elim (find-insert_cases sid' sid id id' m.session_id_to_network_id e) [
        | inl (t, v) ↦
            subst₂ (λ k s. IsActive (activate id m).0 k s) v (equal_bytes→eq sid sid' t)
              (activate-IsActive id m)
        | inr h ↦ activate-keeps id' id sid' m (w.back sid' id' h)
      ];
      known = λ id' sid' e. elim (find-insert_cases id' id sid sid' m.network_id_to_session_id e) [
        | inl (t, v) ↦ inr (
            subst₂ (λ k s. IsActive (activate id m).0 k s) (ground (arith, t)) v
              (activate-IsActive id m))
        | inr h ↦ (elim (w.known id' sid' h) [
          | inl empty ↦ inl empty
          | inr a ↦ inr (activate-keeps id' id sid' m a)
        ])
      ];
    }
