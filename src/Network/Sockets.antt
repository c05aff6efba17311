-- ===== src/Network/Sockets.antt =====
-- elegance/platform/network/socket_accept.cpp and socket_connect.cpp, on Linux: the loops over the
-- events of epoll. What the system's calls give is part of an event. A call of the handler and the
-- closing of a socket are actions, in order. `none` is a write behind the buffer: `Listen` and
-- `Connect` put a null byte behind what they have read, also where that is the whole buffer. The
-- debug output is left out.
pub mod Paired
pub mod Missed
pub mod Numbered
pub mod Balanced
pub mod Threads
use elegance.Prelude.{
  ℕ, Bool, true, false, Option, none, some, List, [], ◌∷◌, ◌++◌, length, leb, if◌then◌else◌,
}
use elegance.Prelude.Map.{Map, find, insert, erase, nat_key}
use elegance.Network.Endpoint.{Endpoint, endpoint_key}
use elegance.Network.Manager.{SocketAccept, SocketConnect, max_socket_msg_buff_length}

-- What `accept`, `fcntl` and `epoll_ctl` make of a connection that comes in: one of them fails, or
-- it has a socket and a peer.
pub data Incoming : Type 0 where
  refused : Incoming
  from : ℕ → List ℕ → ℕ → Incoming

-- An event of `epoll_wait`, or its failure. That of a readable socket has what each `read` gives
-- that gives bytes, and whether the one behind them says that the peer has closed.
pub data EpollEvent : Type 0 where
  wait_failed : EpollEvent
  incoming : Incoming → EpollEvent
  writable : ℕ → EpollEvent
  readable : ℕ → List (List ℕ) → Bool → EpollEvent
  hung_up : ℕ → EpollEvent

pub data SocketAction : Type 0 where
  calls_on_accept : Endpoint → SocketAction
  calls_on_connect : Endpoint → SocketAction
  calls_on_recv : Endpoint → List ℕ → SocketAction
  calls_on_disconnect : Endpoint → SocketAction
  closes : ℕ → SocketAction

unfoldable pub recv_call : Bool → Option Endpoint → List ℕ → List SocketAction
recv_call true (some ep) bytes = calls_on_recv ep bytes ∷ []
recv_call true none bytes = []
recv_call false o bytes = []

-- The loop over what is read: the handler is called with each piece, if there is one and the
-- socket has an endpoint.
unfoldable pub recv_calls : Bool → Option Endpoint → List (List ℕ) → Option (List SocketAction)
recv_calls handled o [] = some []
recv_calls handled o (bytes ∷ reads) =
    let rest = recv_calls handled o reads in
    if leb max_socket_msg_buff_length (length bytes)
    then none
    else (elim rest [ none ↦ none | some calls ↦ some (recv_call handled o bytes ++ calls) ])

-- The two assignments for a new connection, and the call of the handler.
unfoldable pub accept_sock : ℕ → List ℕ → ℕ → SocketAccept → SocketAccept × List SocketAction
accept_sock cur_sock ip port s =
    let cur_endpoint : Endpoint = record {
      remote_ip_addr = ip;
      remote_port = port;
      local_port = s.local_port;
    } in
    (
      record s {
        sock_endpoint_map = insert cur_sock cur_endpoint s.sock_endpoint_map;
        endpoint_sock_map = insert cur_endpoint cur_sock s.endpoint_sock_map;
      },
      if s.handler_set then calls_on_accept cur_endpoint ∷ [] else [],
    )

-- What becomes of a connection that is over.
unfoldable pub close_sock : ℕ → SocketAccept → SocketAccept × List SocketAction
close_sock sock s = elim (find sock s.sock_endpoint_map) [
  | none ↦ (s, closes sock ∷ [])
  | some ep ↦ (
    record s {
      endpoint_sock_map = erase ep s.endpoint_sock_map;
      sock_endpoint_map = erase sock s.sock_endpoint_map;
    },
    closes sock ∷ (if s.handler_set then calls_on_disconnect ep ∷ [] else []),
  )
]

-- The loop goes on.
abbrev pub go_on :
    SocketAccept × List SocketAction → Option (Bool × SocketAccept × List SocketAction)
go_on (s, calls) = some (true, s, calls)

-- One turn of the loop of `Listen`. The result is `false` where `Listen` returns.
unfoldable pub on_event :
    EpollEvent → SocketAccept → Option (Bool × SocketAccept × List SocketAction)
on_event wait_failed s = some (false, s, [])
on_event (incoming refused) s = some (false, s, [])
on_event (incoming (from sock ip port)) s = go_on (accept_sock sock ip port s)
on_event (writable sock) s = some (true, s, [])
on_event (readable sock [] closed) s = go_on (close_sock sock s)
on_event (readable sock (bytes ∷ reads) closed) s =
    elim (recv_calls s.handler_set (find sock s.sock_endpoint_map) (bytes ∷ reads)) [
      | none ↦ none
      | some calls ↦ some (true, s, calls)
    ]
on_event (hung_up sock) s = go_on (close_sock sock s)

-- The loop, over the events that come: it goes on as long as there are some, or returns.
unfoldable pub listen_loop :
    List EpollEvent → SocketAccept → Option (Bool × SocketAccept × List SocketAction)
listen_loop [] s = some (true, s, [])
listen_loop (e ∷ es) s = elim (on_event e s) [
  | none ↦ none
  | some (false, t, calls) ↦ some (false, t, calls)
  | some (true, t, calls) ↦ (elim (listen_loop es t) [
    | none ↦ none
    | some (b, u, more) ↦ some (b, u, calls ++ more)
  ])
]

-- `Listen`: `ready` is whether the calls in front of the loop succeed.
unfoldable pub listen :
    Bool → ℕ → List EpollEvent → SocketAccept → Option (Bool × SocketAccept × List SocketAction)
listen ready port es s =
    if s.listening
    then some (false, s, [])
    else if ready
    then listen_loop es (record s { local_port = port; listening = true })
    else some (false, s, [])

abbrev pub connect_endpoint : SocketConnect → Endpoint
connect_endpoint s = record {
  remote_ip_addr = s.remote_ip_addr;
  remote_port = s.remote_port;
  local_port = s.local_port;
}

-- What `Connect` does with a connection that is over.
unfoldable pub connect_over : ℕ → SocketConnect → List SocketAction
connect_over sock s =
    closes sock ∷ (if s.handler_set then calls_on_disconnect (connect_endpoint s) ∷ [] else [])

-- The events of one `epoll_wait` of `Connect`, with the value that they leave in `socket_error`.
-- Its one socket never has a connection coming in.
unfoldable pub connect_event : EpollEvent → SocketConnect → Option (Bool × List SocketAction)
connect_event wait_failed s = some (false, [])
connect_event (incoming i) s = some (false, [])
connect_event (writable sock) s = some (false, [])
connect_event (readable sock [] closed) s = some (true, connect_over sock s)
connect_event (readable sock (bytes ∷ reads) closed) s =
    elim (recv_calls s.handler_set (some (connect_endpoint s)) (bytes ∷ reads)) [
      | none ↦ none
      | some calls ↦ some (false, calls)
    ]
connect_event (hung_up sock) s = some (true, connect_over sock s)

unfoldable pub connect_events :
    List EpollEvent → Bool → SocketConnect → Option (Bool × List SocketAction)
connect_events [] socket_error s = some (socket_error, [])
connect_events (e ∷ es) socket_error s = elim (connect_event e s) [
  | none ↦ none
  | some (over, calls) ↦ (elim (connect_events es (if over then true else socket_error) s) [
    | none ↦ none
    | some (b, more) ↦ some (b, calls ++ more)
  ])
]

-- A turn of the loop: whether `Disconnect` has been called when it starts, and the events of
-- `epoll_wait`, if that does not fail.
pub record Turn : Type 0 where
  pub stopped : Bool
  pub waited : Option (List EpollEvent)

-- Where the loop is behind some turns: it still runs, or `Connect` has returned.
pub data Ending : Type 0 where
  still_running : Ending
  returns : Bool → Ending

abbrev pub more_turns :
    Bool
    → List SocketAction
    → Option (Ending × List SocketAction)
    → Option (Ending × List SocketAction)
more_turns true calls rest = some (returns true, calls)
more_turns false calls none = none
more_turns false calls (some (e, more)) = some (e, calls ++ more)

unfoldable pub connect_loop : List Turn → SocketConnect → Option (Ending × List SocketAction)
connect_loop [] s = some (still_running, [])
connect_loop (turn ∷ turns) s =
    let rest = connect_loop turns s in
    if turn.stopped then some (returns true, []) else (elim turn.waited [
      | none ↦ some (returns false, [])
      | some es ↦ (elim (connect_events es false s) [
        | none ↦ none
        | some (over, calls) ↦ more_turns over calls rest
      ])
    ])

-- `Connect` behind the calls in front of `OnConnect`, which succeed, give the socket its local port
-- and store the peer; `added` is whether `epoll_ctl` succeeds.
unfoldable pub connect_socket :
    Bool → List Turn → SocketConnect → Option (Ending × List SocketAction)
connect_socket added turns s =
    let first = if s.handler_set then calls_on_connect (connect_endpoint s) ∷ [] else [] in
    if added then more_turns false first (connect_loop turns s) else some (returns false, first)
