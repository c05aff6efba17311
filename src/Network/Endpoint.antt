-- ===== src/Network/Endpoint.antt =====
-- elegance/platform/network/socket_def.hpp: `Endpoint` and its order, the keys of the maps of
-- connections. An address is its bytes.
use elegance.Prelude.{
  ℕ, ◌≡◌, ap, ◌∙◌, Bool, true, false, List, length, arith, ltb, ◌==◌, if◌then◌else◌, not, ◌&&◌,
  some,
}
use elegance.Prelude.Map.{Key, Map, find, insert, find-insert}

pub record Endpoint : Type 0 where
  pub remote_ip_addr : List ℕ
  pub remote_port : ℕ
  pub local_port : ℕ

-- `operator <`
unfoldable pub below : Endpoint → Endpoint → Bool
below a b =
    if ltb (length a.remote_ip_addr) (length b.remote_ip_addr)
    then true
    else if ltb (length b.remote_ip_addr) (length a.remote_ip_addr)
    then false
    else if ltb a.remote_port b.remote_port
    then true
    else if ltb b.remote_port a.remote_port
    then false
    else ltb a.local_port b.local_port

-- `std::map` takes two keys for the same if neither is below the other.
unfoldable pub same_endpoint : Endpoint → Endpoint → Bool
same_endpoint a b = not (below a b) && not (below b a)

pub same_endpoint-parts :
    (a b : Endpoint)
    → same_endpoint a b
      ≡ (length a.remote_ip_addr == length b.remote_ip_addr)
        && ((a.remote_port == b.remote_port) && (a.local_port == b.local_port))
unfolding same_endpoint below
same_endpoint-parts a b = ground arith

pub same_endpoint_refl : (a : Endpoint) → same_endpoint a a ≡ true
same_endpoint_refl a = ground (arith, same_endpoint-parts a a)

pub same_endpoint_sym : (a b : Endpoint) → same_endpoint a b ≡ same_endpoint b a
same_endpoint_sym a b = ground (arith, same_endpoint-parts a b, same_endpoint-parts b a)

pub same_endpoint_cong :
    (a b c : Endpoint) → same_endpoint a b ≡ true → same_endpoint a c ≡ same_endpoint b c
same_endpoint_cong a b c h =
    ground (arith, same_endpoint-parts a b, same_endpoint-parts a c, same_endpoint-parts b c)

instance abbrev pub endpoint_key : Key Endpoint
endpoint_key = record {
  same = same_endpoint;
  same_refl = same_endpoint_refl;
  same_sym = same_endpoint_sym;
  same_cong = same_endpoint_cong;
}

-- The order of endpoints looks at the length of an address alone. So an entry for an endpoint is
-- also found, and replaced, by every endpoint of the same ports with an address of the same length.
pub find-insert_same_length :
    (a b : Endpoint) (id : ℕ) (m : Map Endpoint ℕ)
    → length a.remote_ip_addr ≡ length b.remote_ip_addr
    → a.remote_port ≡ b.remote_port
    → a.local_port ≡ b.local_port
    → find b (insert a id m) ≡ some id
find-insert_same_length a b id m h k l =
    find-insert b a id m ∙ ap (λ t. if t then some id else find b m) same
  where
    same : same_endpoint a b ≡ true
    same = ground (arith, same_endpoint-parts a b, h, k, l)
