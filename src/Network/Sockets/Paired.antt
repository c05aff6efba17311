-- ===== src/Network/Sockets/Paired.antt =====
-- elegance/platform/network/socket_accept.cpp: the two maps of `SocketAccept`, and what an event
-- delivers.
use elegance.Prelude.{
  ℕ, ◌<◌, ◌≡◌, refl, ap, sym, subst, map, ◌∙◌, inl, inr, Bool, true, false, Option, none, some,
  List, [], ◌∷◌, ◌++◌, arith, ◌==◌, length, leb, Bool-cases, Option-cases,
}
use elegance.Prelude.Map.{
  find, insert, erase, nat_key, find-insert_cases, find-erase_cases, find-insert_same,
  find-insert_keeps, find-erase_keeps,
}
use elegance.Network.Endpoint.{Endpoint, endpoint_key, same_endpoint}
use elegance.Network.Manager.{SocketAccept}
use elegance.Network.Sockets.{
  recv_call, EpollEvent, wait_failed, incoming, refused, from, writable, readable, hung_up,
  SocketAction, calls_on_recv, recv_calls, accept_sock, close_sock, on_event,
}

-- Every socket that is found by an endpoint has an endpoint itself, which the map takes for the same.
pub Paired : SocketAccept → Type 0
Paired s =
    (ep : Endpoint) (sock : ℕ)
    → find ep s.endpoint_sock_map ≡ some sock
    → (ep' : Endpoint) × (find sock s.sock_endpoint_map ≡ some ep') × (same_endpoint ep' ep ≡ true)

accept_sock-Paired :
    (sock : ℕ) (ip : List ℕ) (port : ℕ) (s : SocketAccept)
    → find sock s.sock_endpoint_map ≡ none
    → Paired s
    → Paired (accept_sock sock ip port s).0
unfolding Paired accept_sock
accept_sock-Paired sock ip port s fresh w ep k e =
    let new : Endpoint = record {
      remote_ip_addr = ip;
      remote_port = port;
      local_port = s.local_port;
    } in
    elim (find-insert_cases ep new sock k s.endpoint_sock_map e) [
      | inl (t, v) ↦ (
        new,
        ap (λ i. find i (insert sock new s.sock_endpoint_map)) (sym v)
            ∙ find-insert_same sock new s.sock_endpoint_map,
        t,
      )
      | inr h ↦
          (let (ep', found, same) = w ep k h in
            (
              ep',
              find-insert_keeps k sock new ep' s.sock_endpoint_map (other k ep' found) found,
              same,
            ))
    ]
  where
    other : (k : ℕ) (ep' : Endpoint) → find k s.sock_endpoint_map ≡ some ep' → (sock == k) ≡ false
    other k ep' found = elim (Bool-cases (sock == k)) [
      | inl t ↦ absurd (
          let same : sock ≡ k = ground (arith, t) in
          let clash : none ≡ some ep' =
            sym fresh ∙ ap (λ i. find i s.sock_endpoint_map) same ∙ found in
          ground (arith, clash))
      | inr f ↦ f
    ]

close_sock-Paired : (sock : ℕ) (s : SocketAccept) → Paired s → Paired (close_sock sock s).0
unfolding Paired close_sock
close_sock-Paired sock s w = elim (Option-cases (find sock s.sock_endpoint_map)) [
  | inl h ↦ rw (close_sock, h) w
  | inr (gone, h) ↦ rw (close_sock, h) (erased gone h)
]
  where
    erased :
        (gone : Endpoint)
        → find sock s.sock_endpoint_map ≡ some gone
        → (ep : Endpoint) (k : ℕ) → find ep (erase gone s.endpoint_sock_map) ≡ some k
        → (ep' : Endpoint) × (find k (erase sock s.sock_endpoint_map) ≡ some ep')
          × (same_endpoint ep' ep ≡ true)
    erased gone h ep k e =
        let (differs, there) = find-erase_cases ep gone k s.endpoint_sock_map e in
        let (ep', found, same) = w ep k there in
        elim (Bool-cases (sock == k)) [
          | inl t ↦ absurd (
              let at : sock ≡ k = ground (arith, t) in
              let clash : some gone ≡ some ep' =
                sym h ∙ ap (λ i. find i s.sock_endpoint_map) at ∙ found in
              let equal : gone ≡ ep' = ground (arith, clash) in
              ground (arith, differs, ap (λ x. same_endpoint x ep) equal, same))
          | inr f ↦ (ep', find-erase_keeps k sock ep' s.sock_endpoint_map f found, same)
        ]

-- The system gives a connection that comes in a socket that is not in use.
abbrev pub Fresh : EpollEvent → SocketAccept → Type 0
Fresh (incoming (from sock ip port)) s = find sock s.sock_endpoint_map ≡ none
Fresh _ s = Unit

-- What a listener comes to, from `s`, with the events that come, and its actions.
pub data Listens (s : SocketAccept) : SocketAccept → List SocketAction → Type 0 where
  begins : Listens s s []
  turns :
      {t u : SocketAccept} {b : Bool} {done more : List SocketAction}
      → Listens s t done
      → (e : EpollEvent) → Fresh e t
      → on_event e t ≡ some (b, u, more)
      → Listens s u (done ++ more)

abbrev PairedBy : Option (Bool × SocketAccept × List SocketAction) → Type 0
PairedBy none = Unit
PairedBy (some (b, s, calls)) = Paired s

on_event-Paired :
    (e : EpollEvent) (s : SocketAccept) → Fresh e s → Paired s → PairedBy (on_event e s)
unfolding on_event
on_event-Paired wait_failed s fresh w = w
on_event-Paired (incoming refused) s fresh w = w
on_event-Paired (incoming (from sock ip port)) s fresh w = accept_sock-Paired sock ip port s fresh w
on_event-Paired (writable sock) s fresh w = w
on_event-Paired (readable sock [] closed) s fresh w = close_sock-Paired sock s w
on_event-Paired (readable sock (bytes ∷ reads) closed) s fresh w =
    by_calls (recv_calls s.handler_set (find sock s.sock_endpoint_map) (bytes ∷ reads))
  where
    by_calls :
        (o : Option (List SocketAction))
        → PairedBy (elim o [ none ↦ none | some calls ↦ some (true, s, calls) ])
    by_calls none = tt
    by_calls (some calls) = w
on_event-Paired (hung_up sock) s fresh w = close_sock-Paired sock s w

-- Whatever events a listener without connections has, where the system gives a connection that comes
-- in a socket that is not in the listener's table: every socket that `Write` and `Disconnect` can
-- find by an endpoint is in the table of sockets, with an endpoint that the order of endpoints does
-- not tell from that one. So they never use a socket that the loop has closed.
pub Listens-Paired :
    {s t : SocketAccept}
    → {out : List SocketAction} → Listens s t out
    → s.endpoint_sock_map ≡ []
    → (ep : Endpoint) (sock : ℕ) → find ep t.endpoint_sock_map ≡ some sock
    → (ep' : Endpoint) × (find sock t.sock_endpoint_map ≡ some ep') × (same_endpoint ep' ep ≡ true)
unfolding Paired find
Listens-Paired begins empty ep sock e = absurd (ground (arith, sym (ap (find ep) empty) ∙ e))
Listens-Paired (turns {t = t} r e fresh h) empty ep sock there =
    subst PairedBy h (on_event-Paired e t fresh (Listens-Paired r empty)) ep sock there

-- Pieces that leave room for the null byte.
abbrev pub AllShort : List (List ℕ) → Type 0
AllShort [] = Unit
AllShort (r ∷ reads) = (length r < 4096) × AllShort reads

recv_calls-all :
    (ep : Endpoint) (reads : List (List ℕ))
    → AllShort reads
    → recv_calls true (some ep) reads ≡ some (map (calls_on_recv ep) reads)
unfolding recv_calls recv_call
recv_calls-all ep [] h = refl
recv_calls-all ep (r ∷ reads) h =
    let short : leb 4096 (length r) ≡ false = ground (arith, h.0) in
    rw (short, recv_calls-all ep reads h.1)

-- The handler is called with each piece, whatever comes behind the last.
pub on_event-delivers :
    (sock : ℕ) (ep : Endpoint) (bytes : List ℕ) (reads : List (List ℕ)) (closed : Bool)
    (s : SocketAccept)
    → s.handler_set ≡ true
    → find sock s.sock_endpoint_map ≡ some ep
    → AllShort (bytes ∷ reads)
    → on_event (readable sock (bytes ∷ reads) closed) s
      ≡ some (true, s, map (calls_on_recv ep) (bytes ∷ reads))
unfolding on_event
on_event-delivers sock ep bytes reads closed s handled there short =
    let calls : recv_calls s.handler_set (find sock s.sock_endpoint_map) (bytes ∷ reads)
        ≡ some (map (calls_on_recv ep) (bytes ∷ reads)) =
      ap (λ b. recv_calls b (find sock s.sock_endpoint_map) (bytes ∷ reads)) handled
      ∙ ap (λ o. recv_calls true o (bytes ∷ reads)) there
      ∙ recv_calls-all ep (bytes ∷ reads) short in
    ap
      (λ o. elim o as (λ x. Option (Bool × SocketAccept × List SocketAction)) [
        | none ↦ none
        | some calls ↦ some (true, s, calls)
      ])
      calls
