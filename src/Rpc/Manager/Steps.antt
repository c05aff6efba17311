-- ===== src/Rpc/Manager/Steps.antt =====
-- elegance/rpc/rpc_manager.cpp: the life of an `RPCManager`, as the calls that its user and its
-- network manager make of it, one after another. The network manager gives a connection a number
-- that no live connection has.
use elegance.Prelude.{
  ℕ, ◌≡◌, refl, ap, sym, subst, ◌∙◌, inl, inr, true, false, Option, none, some, List, [], ◌∷◌,
  arith, ◌==◌, Bool-cases, Option-cases, length, ltb, drop,
}
use elegance.Prelude.Map.{
  Map, find, insert, enter, find_or, nat_key, find-insert_keeps, find-insert_present,
  find-enter_keeps, find-enter_cases, find-erase_cases, find-erase_keeps, find_or-found,
}
use elegance.Prelude.Strings.{equal_bytes, string_key, equal_bytes_refl, c_string_in}
use elegance.Rpc.Session.{RpcSession, on_recv}
use elegance.Rpc.Manager.{
  RpcManager, new_manager, Action, calculate_rpc_session_key, async_connect, async_listen,
  on_connect, max_key_string_length, on_listen_fail, on_accept, on_check_key, on_check_key_response,
  on_session_message, on_recv_package, on_disconnect,
}
use elegance.Rpc.Manager.Links.{
  IsActive, WellLinked, Keeps, IsActive-kept, same_links-WellLinked, activate-WellLinked,
  new_manager-WellLinked,
}

-- One call of the manager, with what it does to the outside.
pub data Step (handle_call : ℕ → List ℕ → Option (List ℕ)) (m : RpcManager)
    : RpcManager → List Action → Type 0 where
  connects :
      (ip : List ℕ) (port : ℕ) (key : List ℕ)
      → Step handle_call m (async_connect ip port key m).0 (async_connect ip port key m).1
  listens :
      (port : ℕ) (key : List ℕ)
      → Step handle_call m (async_listen port key m).0 (async_listen port key m).1
  connected :
      (ip : List ℕ) (port local_port id : ℕ)
      → find id m.network_id_to_session_id ≡ none
      → Step handle_call m
          (on_connect ip port local_port true id m).0
          (on_connect ip port local_port true id m).1
  connect_failed :
      (ip : List ℕ) (port local_port id : ℕ)
      → Step handle_call m
          (on_connect ip port local_port false id m).0
          (on_connect ip port local_port false id m).1
  listen_failed :
      (port : ℕ) → Step handle_call m (on_listen_fail port m).0 (on_listen_fail port m).1
  accepted :
      (ip : List ℕ) (port local_port id : ℕ)
      → Step handle_call m
          (on_accept ip port local_port id m).0
          (on_accept ip port local_port id m).1
  received :
      (id : ℕ) (bytes : List ℕ) {m' : RpcManager} {out : List Action}
      → on_recv_package handle_call id bytes m ≡ some (m', out)
      → Step handle_call m m' out
  disconnected : (id : ℕ) → Step handle_call m (on_disconnect id m).0 (on_disconnect id m).1

-- What a manager comes to, with everything that it has done on the way.
pub data Reach (handle_call : ℕ → List ℕ → Option (List ℕ)) (h : Option ℕ)
    : RpcManager → Type 0 where
  start : Reach handle_call h (new_manager h)
  later :
      {m m' : RpcManager} {out : List Action}
      → Reach handle_call h m
      → Step handle_call m m' out
      → Reach handle_call h m'

on_connect-WellLinked :
    (ip : List ℕ) (port local_port id : ℕ) (m : RpcManager)
    → find id m.network_id_to_session_id ≡ none
    → WellLinked m
    → WellLinked (on_connect ip port local_port true id m).0
unfolding on_connect
on_connect-WellLinked ip port local_port id m fresh w =
    elim (Option-cases (find (calculate_rpc_session_key 0 ip port) m.uncheck_key_map)) [
      | inl h ↦ rw (on_connect, h) w
      | inr (key, h) ↦ (elim (Bool-cases (ltb (length key) max_key_string_length)) [
        | inl t ↦
            rw (on_connect, h, t)
              (same_links-WellLinked m _ refl refl
                (λ i sid a. record {
                  link = λ e. e;
                  infos =
                      λ info. find-insert_keeps i id _ info m.uncheck_rpc_info_map (other i sid a);
                  sessions = λ s e. (s, e);
                })
                w)
        | inr f ↦ rw (on_connect, h, f) w
      ])
    ]
  where
    other : (i : ℕ) (sid : List ℕ) → IsActive m i sid → (id == i) ≡ false
    other i sid a = elim (Bool-cases (id == i)) [
      | inl t ↦ absurd (
          let same : id ≡ i = ground (arith, t) in
          let e : none ≡ some sid =
            sym fresh ∙ ap (λ k. find k m.network_id_to_session_id) same ∙ a.has_id in
          ground (arith, e))
      | inr f ↦ f
    ]

on_accept-WellLinked :
    (ip : List ℕ) (port local_port id : ℕ) (m : RpcManager)
    → WellLinked m
    → WellLinked (on_accept ip port local_port id m).0
unfolding on_accept
on_accept-WellLinked ip port local_port id m w =
    elim (Option-cases (find local_port m.listen_port_to_key)) [
      | inl h ↦ rw (on_accept, h) w
      | inr (key, h) ↦
          rw (on_accept, h)
            (same_links-WellLinked m _ refl refl
              (λ i sid a. record {
                link = λ e. e;
                infos = λ info. find-enter_keeps i id _ info m.uncheck_rpc_info_map;
                sessions = λ s e. (s, e);
              })
              w)
    ]

on_session_message-WellLinked :
    (handle_call : ℕ → List ℕ → Option (List ℕ)) (id : ℕ) (bytes : List ℕ) (m : RpcManager)
    → WellLinked m
    → WellLinked (on_session_message handle_call id bytes m).0
unfolding on_session_message
on_session_message-WellLinked handle_call id bytes m w =
    let sid = find_or id [] m.network_id_to_session_id in
    elim (Option-cases (find sid m.session_map)) [
      | inl h ↦ rw (on_session_message, h) (with_sessions m.session_map (λ sid s e. (s, e)))
      | inr (s, h) ↦
          rw (on_session_message, h)
            (with_sessions (insert sid (on_recv handle_call bytes s).0 m.session_map)
              (λ sid' s' e. find-insert_present sid' sid _ s' m.session_map e))
    ]
  where
    heard : Map (List ℕ) RpcSession → RpcManager
    heard ss = record m {
      network_id_to_session_id = enter id [] m.network_id_to_session_id;
      session_map = ss;
    }

    Grown : Map (List ℕ) RpcSession → Type 0
    Grown ss =
        (sid : List ℕ) (s : RpcSession)
        → find sid m.session_map ≡ some s
        → (t : RpcSession) × (find sid ss ≡ some t)

    keeps :
        (ss : Map (List ℕ) RpcSession)
        → Grown ss
        → (id' : ℕ) (sid : List ℕ) → Keeps m (heard ss) id' sid
    keeps ss k id' sid = record {
      link = find-enter_keeps id' id [] sid m.network_id_to_session_id;
      infos = λ info e. e;
      sessions = k sid;
    }

    with_sessions : (ss : Map (List ℕ) RpcSession) → Grown ss → WellLinked (heard ss)
    with_sessions ss k = record {
      back = λ sid id' e.
          let a = w.back sid id' e in IsActive-kept m (heard ss) id' sid (keeps ss k id' sid) a;
      known = λ id' sid e. elim (find-enter_cases id' id [] sid m.network_id_to_session_id e) [
        | inl empty ↦ inl empty
        | inr h ↦ (elim (w.known id' sid h) [
          | inl empty ↦ inl empty
          | inr a ↦ inr (IsActive-kept m (heard ss) id' sid (keeps ss k id' sid) a)
        ])
      ];
    }

on_disconnect-WellLinked :
    (id : ℕ) (m : RpcManager) → WellLinked m → WellLinked (on_disconnect id m).0
unfolding on_disconnect
on_disconnect-WellLinked id m w =
    let sid = find_or id [] m.network_id_to_session_id in
    let keeps : (id' : ℕ) (sid' : List ℕ)
        → (id == id') ≡ false
        → IsActive m id' sid'
        → IsActive (on_disconnect id m).0 id' sid' =
      λ id' sid' f. IsActive-kept m (on_disconnect id m).0 id' sid' (record {
        link = find-erase_keeps id' id sid' m.network_id_to_session_id f;
        infos = λ i e. e;
        sessions = λ s e. (s, e);
      }) in
    record {
      back = λ sid' id' e.
          let (f, h) = find-erase_cases sid' sid id' m.session_id_to_network_id e in
          let a = w.back sid' id' h in
          elim (Bool-cases (id == id')) [
            | inl t ↦ absurd (
                let same : id ≡ id' = ground (arith, t) in
                let found : sid ≡ sid' =
                  find_or-found id [] sid' m.network_id_to_session_id
                    (ap (λ k. find k m.network_id_to_session_id) same ∙ a.has_id) in
                ground (arith, sym f ∙ ap (equal_bytes sid) (sym found) ∙ equal_bytes_refl sid))
            | inr n ↦ keeps id' sid' n a
          ];
      known = λ id' sid' e.
          let (f, h) = find-erase_cases id' id sid' m.network_id_to_session_id e in
          elim (w.known id' sid' h) [ inl empty ↦ inl empty | inr a ↦ inr (keeps id' sid' f a) ];
    }

on_check_key-WellLinked :
    (id : ℕ) (key : List ℕ) (m : RpcManager) → WellLinked m → WellLinked (on_check_key id key m).0
unfolding on_check_key
on_check_key-WellLinked id key m w =
    let m1 : RpcManager = record m { network_id_to_key = enter id [] m.network_id_to_key } in
    let w1 : WellLinked m1 =
      same_links-WellLinked m m1 refl refl
        (λ i sid a. record { link = λ e. e; infos = λ s e. e; sessions = λ s e. (s, e) }) w in
    elim (Bool-cases (equal_bytes key (find_or id [] m.network_id_to_key))) [
      | inl t ↦ rw (on_check_key, t) (activate-WellLinked id m1 w1)
      | inr f ↦ rw (on_check_key, f) w1
    ]

on_check_key_response-WellLinked :
    (id response : ℕ) (m : RpcManager)
    → WellLinked m
    → WellLinked (on_check_key_response id response m).0
unfolding on_check_key_response
on_check_key_response-WellLinked id response m w = elim (Bool-cases (response == 1)) [
  | inl t ↦ rw (on_check_key_response, t) (activate-WellLinked id m w)
  | inr f ↦ rw (on_check_key_response, f) w
]

abbrev Linked : Option (RpcManager × List Action) → Type 0
Linked none = Unit
Linked (some r) = WellLinked r.0

-- A package, whatever it is.
on_recv_package-Linked :
    (handle_call : ℕ → List ℕ → Option (List ℕ)) (id : ℕ) (bytes : List ℕ) (m : RpcManager)
    → WellLinked m
    → Linked (on_recv_package handle_call id bytes m)
unfolding on_recv_package
on_recv_package-Linked handle_call id [] m w = tt
on_recv_package-Linked handle_call id (type ∷ bytes) m w = elim (Bool-cases (type == 0)) [
  | inl t ↦ (elim (Option-cases (c_string_in (drop 3 bytes))) [
    | inl h ↦ rw (on_recv_package, t, h) tt
    | inr (key, h) ↦ rw (on_recv_package, t, h) (on_check_key-WellLinked id key m w)
  ])
  | inr f ↦ (elim (Bool-cases (type == 1)) [
    | inl t ↦ rw (on_recv_package, f, t) (answered bytes)
    | inr g ↦
        rw (on_recv_package, f, g) (on_session_message-WellLinked handle_call id (type ∷ bytes) m w)
  ])
]
  where
    answered :
        (bs : List ℕ)
        → Linked
            (elim bs [ [] ↦ none | response ∷ rest ↦ some (on_check_key_response id response m) ])
    answered [] = tt
    answered (response ∷ rest) = on_check_key_response-WellLinked id response m w

Step-WellLinked :
    {handle_call : ℕ → List ℕ → Option (List ℕ)}
    → {m m' : RpcManager} → {out : List Action} → Step handle_call m m' out
    → WellLinked m
    → WellLinked m'
unfolding async_connect async_listen on_connect on_listen_fail
Step-WellLinked {m = m} (connects ip port key) w =
    same_links-WellLinked m _ refl refl
      (λ i sid a. record { link = λ e. e; infos = λ s e. e; sessions = λ s e. (s, e) }) w
Step-WellLinked {m = m} (listens port key) w =
    same_links-WellLinked m _ refl refl
      (λ i sid a. record { link = λ e. e; infos = λ s e. e; sessions = λ s e. (s, e) }) w
Step-WellLinked {m = m} (connected ip port local_port id fresh) w =
    on_connect-WellLinked ip port local_port id m fresh w
Step-WellLinked (connect_failed ip port local_port id) w = w
Step-WellLinked (listen_failed port) w = w
Step-WellLinked {m = m} (accepted ip port local_port id) w =
    on_accept-WellLinked ip port local_port id m w
Step-WellLinked {handle_call = hc} {m = m} (received id bytes e) w =
    subst Linked e (on_recv_package-Linked hc id bytes m w)
Step-WellLinked {m = m} (disconnected id) w = on_disconnect-WellLinked id m w

-- Whatever calls the user and the network manager make of a new manager, with whatever packages,
-- as long as no connection of its own is made under a number that the table of ids has: a session
-- that leads to a connection is led back to by it, and a connection that leads to a session (and
-- not to the empty id that a look-up enters) has one in the table of sessions, named by the ports
-- and the address in the connection's unchecked information.
pub Reach-WellLinked :
    {handle_call : ℕ → List ℕ → Option (List ℕ)}
    → {h : Option ℕ} → {m : RpcManager} → Reach handle_call h m
    → WellLinked m
Reach-WellLinked {h = h} start = new_manager-WellLinked h
Reach-WellLinked (later r s) = Step-WellLinked s (Reach-WellLinked r)
