-- ===== src/Network/Sockets/Missed.antt =====
-- elegance/platform/network/socket_accept.cpp: a connection whose end `Listen` does not see.
use elegance.Prelude.{
  ℕ, ◌≡◌, refl, map, Bool, true, false, Option, none, some, List, [], ◌∷◌, ◌++◌, arith, ◌==◌, leb,
  length, Option-cases, inl, inr, if◌then◌else◌,
}
use elegance.Prelude.Map.{find, erase, nat_key, find-insert_keeps, find-erase_keeps}
use elegance.Network.Endpoint.{Endpoint, endpoint_key}
use elegance.Network.Manager.{SocketAccept}
use elegance.Network.Sockets.{
  recv_call, EpollEvent, wait_failed, incoming, refused, from, writable, readable, hung_up,
  SocketAction, calls_on_recv, calls_on_accept, calls_on_disconnect, closes, recv_calls,
  accept_sock, close_sock, go_on, on_event, listen_loop,
}
use elegance.Network.Sockets.Paired.{AllShort, on_event-delivers}

-- The event is about another socket, and its pieces leave room for the null byte.
abbrev pub IsElsewhere : ℕ → EpollEvent → Type 0
IsElsewhere sock (incoming (from k ip port)) = (k == sock) ≡ false
IsElsewhere sock (readable k reads closed) = ((k == sock) ≡ false) × AllShort reads
IsElsewhere sock (hung_up k) = (k == sock) ≡ false
IsElsewhere sock _ = Unit

abbrev pub AllElsewhere : ℕ → List EpollEvent → Type 0
AllElsewhere sock [] = Unit
AllElsewhere sock (e ∷ es) = IsElsewhere sock e × AllElsewhere sock es

abbrev pub is_close_of : ℕ → SocketAction → Bool
is_close_of sock (closes k) = k == sock
is_close_of sock _ = false

-- No action closes the socket.
abbrev pub NotClosed : ℕ → List SocketAction → Type 0
NotClosed sock [] = Unit
NotClosed sock (x ∷ xs) = (is_close_of sock x ≡ false) × NotClosed sock xs

NotClosed-append :
    (sock : ℕ) (xs ys : List SocketAction)
    → NotClosed sock xs
    → NotClosed sock ys
    → NotClosed sock (xs ++ ys)
NotClosed-append sock [] ys h g = g
NotClosed-append sock (x ∷ xs) ys h g = (h.0, NotClosed-append sock xs ys h.1 g)

recv_call-NotClosed :
    (sock : ℕ) (handled : Bool) (o : Option Endpoint) (bytes : List ℕ)
    → NotClosed sock (recv_call handled o bytes)
unfolding recv_call
recv_call-NotClosed sock true (some ep) bytes = (refl, tt)
recv_call-NotClosed sock true none bytes = tt
recv_call-NotClosed sock false o bytes = tt

recv_calls-NotClosed :
    (sock : ℕ) (handled : Bool) (o : Option Endpoint) (reads : List (List ℕ))
    → AllShort reads
    → (calls : List SocketAction) × (recv_calls handled o reads ≡ some calls) × NotClosed sock calls
unfolding recv_calls
recv_calls-NotClosed sock handled o [] h = ([], refl, tt)
recv_calls-NotClosed sock handled o (bytes ∷ reads) h =
    let (calls, e, quiet) = recv_calls-NotClosed sock handled o reads h.1 in
    let short : leb 4096 (length bytes) ≡ false = ground (arith, h.0) in
    (
      recv_call handled o bytes ++ calls,
      rw (short, e),
      NotClosed-append sock (recv_call handled o bytes) calls
          (recv_call-NotClosed sock handled o bytes) quiet,
    )

-- What a turn or more of the loop leave: the socket keeps its endpoint, and is not closed.
abbrev Stays : ℕ → Endpoint → Option (Bool × SocketAccept × List SocketAction) → Type 0
Stays sock ep o =
    (b : Bool) × (t : SocketAccept) × (out : List SocketAction) × (o ≡ some (b, t, out))
    × (find sock t.sock_endpoint_map ≡ some ep)
    × NotClosed sock out

accept_sock-Stays :
    (sock k port : ℕ) (ip : List ℕ) (ep : Endpoint) (s : SocketAccept)
    → (k == sock) ≡ false
    → find sock s.sock_endpoint_map ≡ some ep
    → Stays sock ep (go_on (accept_sock k ip port s))
unfolding accept_sock
accept_sock-Stays sock k port ip ep s other there = (
  true,
  _,
  _,
  refl,
  find-insert_keeps sock k _ ep s.sock_endpoint_map other there,
  quiet s.handler_set _,
)
  where
    quiet : (b : Bool) (e : Endpoint) → NotClosed sock (if b then calls_on_accept e ∷ [] else [])
    quiet true e = (refl, tt)
    quiet false e = tt

close_sock-Stays :
    (sock k : ℕ) (ep : Endpoint) (s : SocketAccept)
    → (k == sock) ≡ false
    → find sock s.sock_endpoint_map ≡ some ep
    → Stays sock ep (go_on (close_sock k s))
unfolding close_sock
close_sock-Stays sock k ep s other there = elim (Option-cases (find k s.sock_endpoint_map)) [
  | inl h ↦ (true, s, closes k ∷ [], rw (close_sock, h), there, (other, tt))
  | inr (gone, h) ↦ (
    true,
    record s {
      endpoint_sock_map = erase gone s.endpoint_sock_map;
      sock_endpoint_map = erase k s.sock_endpoint_map;
    },
    closes k ∷ (if s.handler_set then calls_on_disconnect gone ∷ [] else []),
    rw (close_sock, h),
    find-erase_keeps sock k ep s.sock_endpoint_map other there,
    (other, quiet s.handler_set gone),
  )
]
  where
    quiet :
        (b : Bool) (e : Endpoint) → NotClosed sock (if b then calls_on_disconnect e ∷ [] else [])
    quiet true e = (refl, tt)
    quiet false e = tt

on_event-Stays :
    (sock : ℕ) (ep : Endpoint) (e : EpollEvent) (s : SocketAccept)
    → IsElsewhere sock e
    → find sock s.sock_endpoint_map ≡ some ep
    → Stays sock ep (on_event e s)
unfolding on_event
on_event-Stays sock ep wait_failed s h there = (false, s, [], refl, there, tt)
on_event-Stays sock ep (incoming refused) s h there = (false, s, [], refl, there, tt)
on_event-Stays sock ep (incoming (from k ip port)) s h there =
    accept_sock-Stays sock k port ip ep s h there
on_event-Stays sock ep (writable k) s h there = (true, s, [], refl, there, tt)
on_event-Stays sock ep (readable k [] closed) s h there = close_sock-Stays sock k ep s h.0 there
on_event-Stays sock ep (readable k (bytes ∷ reads) closed) s h there =
    let (calls, e, quiet) =
      recv_calls-NotClosed sock s.handler_set (find k s.sock_endpoint_map) (bytes ∷ reads) h.1 in
    (true, s, calls, rw (on_event, e), there, quiet)
on_event-Stays sock ep (hung_up k) s h there = close_sock-Stays sock k ep s h there

listen_loop-Stays :
    (sock : ℕ) (ep : Endpoint) (es : List EpollEvent) (s : SocketAccept)
    → AllElsewhere sock es
    → find sock s.sock_endpoint_map ≡ some ep
    → Stays sock ep (listen_loop es s)
unfolding listen_loop
listen_loop-Stays sock ep [] s h there = (true, s, [], refl, there, tt)
listen_loop-Stays sock ep (e ∷ es) s h there =
    go (on_event-Stays sock ep e s h.0 there) (λ t. listen_loop-Stays sock ep es t h.1)
  where
    go :
        Stays sock ep (on_event e s)
        → ((t : SocketAccept)
            → find sock t.sock_endpoint_map ≡ some ep
            → Stays sock ep (listen_loop es t))
        → Stays sock ep (listen_loop (e ∷ es) s)
    go (false, t, out, ran, kept, quiet) rest = (false, t, out, rw (listen_loop, ran), kept, quiet)
    go (true, t, out, ran, kept, quiet) rest =
        let (b, u, more, ran', kept', quiet') = rest t kept in
        (
          b,
          u,
          out ++ more,
          rw (listen_loop, ran, ran'),
          kept',
          NotClosed-append sock out more quiet quiet',
        )

-- `Listen` looks at what the first `read` of an event gives, and not at the end of what the others
-- give. So where a peer's last bytes come with the end of its connection in one event, and all later
-- events are about other sockets: the handler is called with the bytes, the connection's socket is
-- never closed, and it stays in the table, however many events come.
pub listen_loop-missed_end :
    (sock : ℕ) (ep : Endpoint) (bytes : List ℕ) (reads : List (List ℕ)) (es : List EpollEvent)
    (s : SocketAccept)
    → s.handler_set ≡ true
    → find sock s.sock_endpoint_map ≡ some ep
    → AllShort (bytes ∷ reads)
    → AllElsewhere sock es
    → (b : Bool) × (t : SocketAccept) × (more : List SocketAction) × (listen_loop
          (readable sock (bytes ∷ reads) true ∷ es)
          s
        ≡ some (b, t, map (calls_on_recv ep) (bytes ∷ reads) ++ more))
      × (find sock t.sock_endpoint_map ≡ some ep)
      × NotClosed sock more
unfolding listen_loop
listen_loop-missed_end sock ep bytes reads es s handled there short elsewhere =
    let (b, t, more, ran, kept, quiet) = listen_loop-Stays sock ep es s elsewhere there in
    (
      b,
      t,
      more,
      rw (listen_loop, on_event-delivers sock ep bytes reads true s handled there short, ran),
      kept,
      quiet,
    )
