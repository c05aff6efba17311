-- ===== src/Packer.antt =====
-- elegance/network/network_packer/network_packer_fixhead.hpp and .cpp: packages behind a header of
-- 4 bytes, the length as a little-endian `int`. A connection's bytes come in pieces of any size;
-- `unpack` collects them in a buffer for each connection, and hands on each package that is
-- complete, in the order of the source's calls of `ManagerRecv`.
pub mod Stream
pub mod Cache
pub mod Step
pub mod Header
pub mod Body
pub mod Refine
pub mod Delivery
use elegance.Prelude.{
  ℕ, zero, suc, ◌+◌, ◌-◌, ◌^◌, Bool, true, false, Option, none, some, List, [], ◌∷◌, ◌++◌, length,
  take, drop, ltb, leb, ◌==◌, if◌then◌else◌, ◌*◌,
}
use elegance.Prelude.Int.{ℤ, pos, negsuc, sub_ℕ, signed}
use elegance.Prelude.Bytes.{little_bytes, from_little}
use elegance.Prelude.Map.{Map, find, insert, nat_key}
use elegance.Buffer.{
  Pointer, null, live, freed, FlexibleBuffer, new_buffer, write_at, change_buffer_size,
  zero_all_bytes,
}

-- NET_PACKER_FIXHEAD_HEADER_LENGTH, the size of `NetPackerFixHeadMsgHeader`.
abbrev pub header_length : ℕ
header_length = 4

-- `NetPackerFixHeadMsgCacheBuffer`
pub record CacheBuffer : Type 0 where
  pub buffer : FlexibleBuffer
  pub cur_read_size : ℕ

-- The state of `NetworkPackagerFixHead`: `net_id_to_buffer_map_`.
abbrev pub Packer : Type 0
Packer = Map ℕ CacheBuffer

-- A package that goes to `ManagerRecv`.
abbrev pub Package : Type 0
Package = List ℕ

infixl 5 ◌>>=◌
abbrev pub ◌>>=◌ : {A B : Type 0} → Option A → (A → Option B) → Option B
none >>= f = none
some a >>= f = f a

-- `header->package_length`, read through the pointer to the buffer.
unfoldable pub package_length : FlexibleBuffer → Option ℤ
package_length b = elim b.buffer [
  | null ↦ none
  | live bytes ↦
      if ltb (length bytes) header_length
      then none
      else some (signed (2 ^ 31) (from_little (take header_length bytes)))
  | freed ↦ none
]

-- `NET_PACKER_FIXHEAD_HEADER_LENGTH + header->package_length`. A sum above the `int`s is undefined.
unfoldable pub package_end : ℤ → Option ℤ
package_end (pos n) =
    if ltb (header_length + n) (2 ^ 31) then some (pos (header_length + n)) else none
package_end (negsuc n) = some (sub_ℕ header_length (suc n))

-- An `int` less a count.
abbrev pub minus : ℤ → ℕ → ℤ
minus (pos n) k = sub_ℕ n k
minus (negsuc n) k = negsuc (n + k)

-- The number of bytes to copy, for `left_bytes` to come and `available` bytes at hand. `memcpy`
-- takes a negative number for a huge one.
unfoldable pub copy_bytes : ℤ → ℕ → Option ℕ
copy_bytes (pos left) available = some (if leb left available then left else available)
copy_bytes (negsuc n) available = none

abbrev pub is_end : ℤ → ℕ → Bool
is_end (pos n) k = n == k
is_end (negsuc n) k = false

-- The bytes that `ManagerRecv` is given, which must lie in the buffer.
unfoldable pub payload : ℤ → FlexibleBuffer → Option Package
payload (pos n) b = elim b.buffer [
  | null ↦ none
  | live bytes ↦
      if ltb (length bytes) (header_length + n)
      then none
      else some (take n (drop header_length bytes))
  | freed ↦ none
]
payload (negsuc n) b = none

-- What a call of `UnPack` does before it calls itself: the cache, the number of bytes that it has
-- used, and the packages that it has handed on.
abbrev pub Progress : Type 0
Progress = CacheBuffer × ℕ × List Package

-- `read package complete`
unfoldable pub finish_body : ℤ → ℤ → ℕ → CacheBuffer → Option Progress
finish_body len stop n c =
    if is_end stop c.cur_read_size
    then (do
      p ← payload len c.buffer
      (done, b) ← zero_all_bytes c.buffer
      some (record { buffer = b; cur_read_size = 0 }, n, p ∷ []))
    else some (c, n, [])

-- The branch `read body`.
unfoldable pub read_body : List ℕ → CacheBuffer → Option Progress
read_body bytes c = do
  len ← package_length c.buffer
  stop ← package_end len
  n ← copy_bytes (minus stop c.cur_read_size) (length bytes)
  b ← write_at c.cur_read_size (take n bytes) c.buffer
  finish_body len stop n (record { buffer = b; cur_read_size = c.cur_read_size + n })

-- `buffer_size < all_pack_size`
unfoldable pub ensure_size : ℤ → FlexibleBuffer → Option FlexibleBuffer
ensure_size (pos size) b = if ltb b.buffer_size size then change_buffer_size size b else some b
ensure_size (negsuc n) b = some b

-- `header read complete`
unfoldable pub finish_header : ℕ → CacheBuffer → Option Progress
finish_header n c =
    if leb header_length c.cur_read_size
    then (do
      len ← package_length c.buffer
      stop ← package_end len
      b ← ensure_size stop c.buffer
      some (record c { buffer = b }, n, []))
    else some (c, n, [])

-- The branch `read header`, with fewer than 4 bytes read.
unfoldable pub read_header : List ℕ → CacheBuffer → Option Progress
read_header bytes c = do
  n ← copy_bytes (sub_ℕ header_length c.cur_read_size) (length bytes)
  b ← write_at c.cur_read_size (take n bytes) c.buffer
  finish_header n (record { buffer = b; cur_read_size = c.cur_read_size + n })

-- `first read, create buffer`
unfoldable pub create_cache : Option CacheBuffer
create_cache = do
  b ← change_buffer_size header_length new_buffer
  some (record { buffer = b; cur_read_size = 0 })

unfoldable pub unpack_step : List ℕ → Option CacheBuffer → Option Progress
unpack_step bytes none = do c ← create_cache; read_header bytes c
unpack_step bytes (some c) =
    if leb header_length c.cur_read_size then read_body bytes c else read_header bytes c

-- The end of a run: `fault` is undefined behaviour.
pub data Run (A : Type 0) : Type 0 where
  done : A → Run A
  fault : Run A
  out_of_fuel : Run A

abbrev pub after : List Package → Run (Packer × List Package) → Run (Packer × List Package)
after out (done (m, more)) = done (m, out ++ more)
after out fault = fault
after out out_of_fuel = out_of_fuel

-- `UnPack`, which calls itself on the bytes that are left.
unfoldable pub unpack : ℕ → ℕ → List ℕ → Packer → Run (Packer × List Package)
unpack zero net_id bytes m = out_of_fuel
unpack (suc fuel) net_id bytes m = elim (unpack_step bytes (find net_id m)) [
  | none ↦ fault
  | some (c, n, out) ↦
      (let rest = unpack fuel net_id (drop n bytes) (insert net_id c m) in
        if ltb n (length bytes) then after out rest else done (insert net_id c m, out))
]

-- Enough calls for the bytes of a piece.
abbrev pub unpack_fuel : List ℕ → ℕ
unpack_fuel bytes = 2 * length bytes + 1

-- The pieces that a connection's bytes come in, one call of `UnPack` each.
unfoldable pub unpack_all : ℕ → List (List ℕ) → Packer → Run (Packer × List Package)
unpack_all net_id [] m = done (m, [])
unpack_all net_id (piece ∷ pieces) m = elim (unpack (unpack_fuel piece) net_id piece m) [
  | done (m', out) ↦ after out (unpack_all net_id pieces m')
  | fault ↦ fault
  | out_of_fuel ↦ out_of_fuel
]

-- `PackAndSend`: what goes to `ManagerSend`. `none` is undefined behaviour, also that of a sum of
-- the length and the header's that is no `int`.
unfoldable pub pack : List ℕ → Option (List ℕ)
pack bytes =
    if ltb (header_length + length bytes) (2 ^ 31)
    then (do
      empty ← change_buffer_size (header_length + length bytes) new_buffer
      b ← write_at 0 (little_bytes 4 (length bytes)) empty
      b' ← write_at header_length bytes b
      (elim b'.buffer [ null ↦ none | live whole ↦ some whole | freed ↦ none ]))
    else none
