-- ===== src/Network/Manager/Raw.antt =====
-- elegance/network/network_manager.cpp: `Send`, `SendRaw` and `Disconnect`, down to the sockets.
-- A write is a socket with the bytes that `send` is given. `none` is undefined behaviour: a call of
-- a socket object that has been deleted, or a fault of the packer.
use elegance.Prelude.{
  ◌^◌, ◌-◌, ◌<◌, ℕ, ◌≡◌, refl, arith, false, Option, none, some, List, [], ◌∷◌, ◌++◌, length, ◌==◌,
  if◌then◌else◌, flatten, map,
}
use elegance.Prelude.Map.{Map, find, insert, nat_key}
use elegance.Network.Endpoint.{Endpoint, endpoint_key}
use elegance.Packer.{Package, pack, ◌>>=◌}
use elegance.Packer.Delivery.{frame, pack_all, pack-frame, AllSendable}
use elegance.Network.Manager.{NetworkManager, SocketAccept, SocketConnect}

abbrev pub Writes : Type 0
Writes = List (ℕ × List ℕ)

-- `SocketAccept::Write` and its like look the socket up with the local port of the listener.
unfoldable pub find_sock : List ℕ → ℕ → SocketAccept → Option ℕ
find_sock ip port s =
    find (record { remote_ip_addr = ip; remote_port = port; local_port = s.local_port })
      s.endpoint_sock_map

-- `SocketAccept::Write`
unfoldable pub write_accept : List ℕ → ℕ → List ℕ → SocketAccept → Writes
write_accept ip port bytes s =
    if length bytes == 0
    then []
    else (elim (find_sock ip port s) [ none ↦ [] | some sock ↦ (sock, bytes) ∷ [] ])

-- `SocketConnect::Write`
unfoldable pub write_connect : List ℕ → SocketConnect → Writes
write_connect bytes s = (s.local_sock, bytes) ∷ []

-- The object behind a pointer in `net_id_to_accept_` or `net_id_to_connect_`, if there is one.
unfoldable pub linked : {S : Type 0} → ℕ → Map ℕ ℕ → Map ℕ S → Option (Option S)
linked id links objects = elim (find id links) [
  | none ↦ some none
  | some a ↦ (elim (find a objects) [ none ↦ none | some s ↦ some (some s) ])
]

unfoldable pub raw_writes : Endpoint → List ℕ → Option SocketAccept → Option SocketConnect → Writes
raw_writes ep bytes a c =
    (elim a [ none ↦ [] | some s ↦ write_accept ep.remote_ip_addr ep.remote_port bytes s ])
    ++ (elim c [ none ↦ [] | some s ↦ write_connect bytes s ])

unfoldable pub send_raw : ℕ → List ℕ → NetworkManager → Option Writes
send_raw id bytes m = elim (find id m.net_id_to_endpoint) [
  | none ↦ some []
  | some ep ↦ (do
    a ← linked id m.net_id_to_accept m.accept_list
    c ← linked id m.net_id_to_connect m.connect_list
    some (raw_writes ep bytes a c))
]

unfoldable pub send : ℕ → List ℕ → NetworkManager → Option Writes
send id bytes m = elim (find id m.net_id_to_endpoint) [
  | none ↦ some []
  | some ep ↦ do whole ← pack bytes; send_raw id whole m
]

-- `Disconnect`: the socket that a listener closes, and the connecting object that is told to stop.
unfoldable pub closed_socks : Endpoint → Option SocketAccept → List ℕ
closed_socks ep none = []
closed_socks ep (some s) = elim (find_sock ep.remote_ip_addr ep.remote_port s) [
  | none ↦ []
  | some sock ↦ sock ∷ []
]

unfoldable pub stop_connect : ℕ → NetworkManager → Option SocketConnect → NetworkManager
stop_connect id m none = m
stop_connect id m (some s) = elim (find id m.net_id_to_connect) [
  | none ↦ m
  | some c ↦ record m { connect_list = insert c (record s { running = false }) m.connect_list }
]

unfoldable pub disconnect : ℕ → NetworkManager → Option (NetworkManager × List ℕ)
disconnect id m = elim (find id m.net_id_to_endpoint) [
  | none ↦ some (m, [])
  | some ep ↦ (do
    a ← linked id m.net_id_to_accept m.accept_list
    c ← linked id m.net_id_to_connect m.connect_list
    some (stop_connect id m c, closed_socks ep a))
]

-- A connection that was accepted: its listener has a socket for its endpoint.
pub record IsAccepted (m : NetworkManager) (id sock : ℕ) : Type 0 where
  pub endpoint : Endpoint
  pub listener : ℕ
  pub accept : SocketAccept
  pub has_endpoint : find id m.net_id_to_endpoint ≡ some endpoint
  pub has_listener : find id m.net_id_to_accept ≡ some listener
  pub has_accept : find listener m.accept_list ≡ some accept
  pub has_sock : find_sock endpoint.remote_ip_addr endpoint.remote_port accept ≡ some sock
  pub no_connect : find id m.net_id_to_connect ≡ none

-- `Send` of fewer than 2 ^ 31 - 4 bytes on an accepted connection writes one frame, to that
-- connection's socket.
pub send-frame :
    (m : NetworkManager) (id sock : ℕ) (bytes : List ℕ)
    → length bytes < 2 ^ 31 - 4
    → IsAccepted m id sock
    → send id bytes m ≡ some ((sock, frame bytes) ∷ [])
unfolding send send_raw linked raw_writes write_accept
send-frame m id sock bytes small h = rw (
  send,
  h.has_endpoint,
  pack-frame bytes small,
  send_raw,
  h.has_endpoint,
  linked,
  h.has_listener,
  h.has_accept,
  h.no_connect,
  h.has_sock,
  some_length,
)
  where
    some_length : (length (frame bytes) == 0) ≡ false
    some_length = ground arith

-- Packages sent one after another on a connection.
unfoldable pub send_all : ℕ → List Package → NetworkManager → Option Writes
send_all id [] m = some []
send_all id (p ∷ ps) m = do w ← send id p m; more ← send_all id ps m; some (w ++ more)

abbrev pub payloads : Writes → List (List ℕ)
payloads = map (λ w. w.1)

-- What a socket carries for them is what the packer makes of them.
pub send_all-pack_all :
    (m : NetworkManager) (id sock : ℕ) (ps : List Package)
    → IsAccepted m id sock
    → AllSendable ps
    → (w : Writes) × (send_all id ps m ≡ some w) × (pack_all ps ≡ some (flatten (payloads w)))
unfolding send_all pack_all
send_all-pack_all m id sock [] h all = ([], refl, refl)
send_all-pack_all m id sock (p ∷ ps) h all =
    let (w, sent, packed) = send_all-pack_all m id sock ps h all.1 in
    (
      (sock, frame p) ∷ w,
      rw (send-frame m id sock p all.0.1 h, sent),
      rw (pack-frame p all.0.1, packed),
    )
