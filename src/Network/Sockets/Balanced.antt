-- ===== src/Network/Sockets/Balanced.antt =====
-- elegance/platform/network/socket_accept.cpp: what the handler hears of connections.
use elegance.Prelude.{
  ℕ, suc, ◌+◌, ◌≡◌, refl, inl, inr, ap, sym, subst, ◌∙◌, Bool, true, false, Option, none, some,
  List, [], ◌∷◌, ◌++◌, arith, length, leb, if◌then◌else◌, Option-cases,
}
use elegance.Prelude.Map.{find, nat_key}
use elegance.Prelude.Sizes.{Distinct, insert-Distinct, erase-Distinct, length-insert, length-erase}
use elegance.Network.Endpoint.{Endpoint, endpoint_key}
use elegance.Network.Manager.{SocketAccept}
use elegance.Network.Sockets.{
  EpollEvent, wait_failed, incoming, refused, from, writable, readable, hung_up, SocketAction,
  calls_on_accept, calls_on_connect, calls_on_recv, calls_on_disconnect, closes, recv_calls,
  recv_call, accept_sock, close_sock, on_event,
}
use elegance.Network.Sockets.Paired.{Fresh, Listens, begins, turns}

-- How many connections the handler is told of, and of how many it is told that they are over.
pub opened : List SocketAction → ℕ
opened [] = 0
opened (calls_on_accept ep ∷ xs) = suc (opened xs)
opened (calls_on_connect ep ∷ xs) = opened xs
opened (calls_on_recv ep bytes ∷ xs) = opened xs
opened (calls_on_disconnect ep ∷ xs) = opened xs
opened (closes sock ∷ xs) = opened xs

pub over : List SocketAction → ℕ
over [] = 0
over (calls_on_accept ep ∷ xs) = over xs
over (calls_on_connect ep ∷ xs) = over xs
over (calls_on_recv ep bytes ∷ xs) = over xs
over (calls_on_disconnect ep ∷ xs) = suc (over xs)
over (closes sock ∷ xs) = over xs

opened-append : (xs ys : List SocketAction) → opened (xs ++ ys) ≡ opened xs + opened ys
unfolding opened
opened-append [] ys = omega arith
opened-append (calls_on_accept ep ∷ xs) ys = omega (arith, opened-append xs ys)
opened-append (calls_on_connect ep ∷ xs) ys = opened-append xs ys
opened-append (calls_on_recv ep bytes ∷ xs) ys = opened-append xs ys
opened-append (calls_on_disconnect ep ∷ xs) ys = opened-append xs ys
opened-append (closes sock ∷ xs) ys = opened-append xs ys

over-append : (xs ys : List SocketAction) → over (xs ++ ys) ≡ over xs + over ys
unfolding over
over-append [] ys = omega arith
over-append (calls_on_accept ep ∷ xs) ys = over-append xs ys
over-append (calls_on_connect ep ∷ xs) ys = over-append xs ys
over-append (calls_on_recv ep bytes ∷ xs) ys = over-append xs ys
over-append (calls_on_disconnect ep ∷ xs) ys = omega (arith, over-append xs ys)
over-append (closes sock ∷ xs) ys = over-append xs ys

-- What an event does to the table of sockets and tells the handler.
record Told (s t : SocketAccept) (out : List SocketAction) : Type 0 where
  handled : t.handler_set ≡ true
  distinct : Distinct t.sock_endpoint_map
  balance : opened out + length s.sock_endpoint_map ≡ over out + length t.sock_endpoint_map

accept_sock-Told :
    (sock : ℕ) (ip : List ℕ) (port : ℕ) (s : SocketAccept)
    → s.handler_set ≡ true
    → Distinct s.sock_endpoint_map
    → find sock s.sock_endpoint_map ≡ none
    → Told s (accept_sock sock ip port s).0 (accept_sock sock ip port s).1
unfolding accept_sock opened over
accept_sock-Told sock ip port s h d fresh =
    let ep : Endpoint = record {
      remote_ip_addr = ip;
      remote_port = port;
      local_port = s.local_port;
    } in
    record {
      handled = h;
      distinct = insert-Distinct sock ep s.sock_endpoint_map d;
      balance = ground (arith, h, length-insert sock ep s.sock_endpoint_map fresh);
    }

close_sock-Told :
    (sock : ℕ) (s : SocketAccept)
    → s.handler_set ≡ true
    → Distinct s.sock_endpoint_map
    → Told s (close_sock sock s).0 (close_sock sock s).1
unfolding close_sock opened over
close_sock-Told sock s h d = elim (Option-cases (find sock s.sock_endpoint_map)) [
  | inl e ↦ rw (close_sock, e) (record { handled = h; distinct = d; balance = refl })
  | inr (ep, e) ↦
      rw (close_sock, e)
        (record {
          handled = h;
          distinct = erase-Distinct sock s.sock_endpoint_map d;
          balance = ground (arith, h, length-erase sock ep s.sock_endpoint_map d e);
        })
]

-- The pieces that are read are no news of connections.
recv_call-quiet :
    (b : Bool) (o : Option Endpoint) (bytes : List ℕ) (xs : List SocketAction)
    → (opened (recv_call b o bytes ++ xs) ≡ opened xs)
      × (over (recv_call b o bytes ++ xs) ≡ over xs)
unfolding recv_call opened over
recv_call-quiet true (some ep) bytes xs = (refl, refl)
recv_call-quiet true none bytes xs = (refl, refl)
recv_call-quiet false o bytes xs = (refl, refl)

abbrev Quiet : Option (List SocketAction) → Type 0
Quiet none = Unit
Quiet (some xs) = (opened xs ≡ 0) × (over xs ≡ 0)

recv_calls-Quiet :
    (b : Bool) (o : Option Endpoint) (reads : List (List ℕ)) → Quiet (recv_calls b o reads)
unfolding recv_calls opened over
recv_calls-Quiet b o [] = (refl, refl)
recv_calls-Quiet b o (bytes ∷ reads) =
    by_size (leb 4096 (length bytes)) (recv_calls b o reads) (recv_calls-Quiet b o reads)
  where
    by_size :
        (c : Bool) (r : Option (List SocketAction))
        → Quiet r
        → Quiet (
            if c
            then none
            else (elim r [ none ↦ none | some calls ↦ some (recv_call b o bytes ++ calls) ]))
    by_size true r q = tt
    by_size false none q = tt
    by_size false (some xs) q = let (e, f) = recv_call-quiet b o bytes xs in (e ∙ q.0, f ∙ q.1)

abbrev ToldBy : SocketAccept → Option (Bool × SocketAccept × List SocketAction) → Type 0
ToldBy s none = Unit
ToldBy s (some (b, t, out)) = Told s t out

on_event-ToldBy :
    (e : EpollEvent) (s : SocketAccept)
    → Fresh e s
    → s.handler_set ≡ true
    → Distinct s.sock_endpoint_map
    → ToldBy s (on_event e s)
unfolding on_event opened over
on_event-ToldBy wait_failed s fresh h d = record { handled = h; distinct = d; balance = refl }
on_event-ToldBy (incoming refused) s fresh h d = record {
  handled = h;
  distinct = d;
  balance = refl;
}
on_event-ToldBy (incoming (from sock ip port)) s fresh h d =
    accept_sock-Told sock ip port s h d fresh
on_event-ToldBy (writable sock) s fresh h d = record { handled = h; distinct = d; balance = refl }
on_event-ToldBy (readable sock [] closed) s fresh h d = close_sock-Told sock s h d
on_event-ToldBy (readable sock (bytes ∷ reads) closed) s fresh h d =
    by_calls (recv_calls s.handler_set (find sock s.sock_endpoint_map) (bytes ∷ reads))
      (recv_calls-Quiet s.handler_set (find sock s.sock_endpoint_map) (bytes ∷ reads))
  where
    by_calls :
        (o : Option (List SocketAction))
        → Quiet o
        → ToldBy s (elim o [ none ↦ none | some calls ↦ some (true, s, calls) ])
    by_calls none q = tt
    by_calls (some calls) q = record {
      handled = h;
      distinct = d;
      balance = omega (arith, q.0, q.1);
    }
on_event-ToldBy (hung_up sock) s fresh h d = close_sock-Told sock s h d

Listens-Told :
    {s t : SocketAccept}
    → {out : List SocketAction} → Listens s t out
    → s.handler_set ≡ true
    → Distinct s.sock_endpoint_map
    → Told s t out
unfolding opened over
Listens-Told begins h d = record { handled = h; distinct = d; balance = refl }
Listens-Told (turns {t = t} {done = done} {more = more} r e fresh turn) h d =
    let w = Listens-Told r h d in
    let step = subst (ToldBy t) turn (on_event-ToldBy e t fresh w.handled w.distinct) in
    record {
      handled = step.handled;
      distinct = step.distinct;
      balance =
          omega (arith, w.balance, step.balance, opened-append done more, over-append done more);
    }

-- Whatever events a listener with a handler and no connections has, where the system gives a
-- connection that comes in a socket that is not in the listener's table: the handler is told of the
-- ends of as many connections as it has been told of, less those that are still in the table.
pub Listens-balanced :
    {s t : SocketAccept}
    → {out : List SocketAction} → Listens s t out
    → s.handler_set ≡ true
    → s.sock_endpoint_map ≡ []
    → opened out ≡ over out + length t.sock_endpoint_map
Listens-balanced {s = s} r h empty =
    let distinct : Distinct s.sock_endpoint_map = subst Distinct (sym empty) tt in
    let no_entry : length s.sock_endpoint_map ≡ 0 = ap length empty in
    omega (arith, no_entry, (Listens-Told r h distinct).balance)
