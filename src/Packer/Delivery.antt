-- ===== src/Packer/Delivery.antt =====
-- A stream of packages, in pieces of any size, from `PackAndSend` to `ManagerRecv`.
use elegance.Prelude.{
  true, ltb, ℕ, zero, suc, ◌+◌, ◌-◌, ◌^◌, ◌≤◌, ◌<◌, ◌≡◌, refl, ap, sym, subst, subst₂, ◌∙◌, inl,
  inr, false, Option, none, some, List, [], ◌∷◌, ◌++◌, arith, length, drop, replicate, flatten,
  ◌==◌, append_assoc, append-nil, length-append, length-replicate, drop_all,
}
use elegance.Prelude.Map.{find, nat_key}
use elegance.Prelude.Bytes.{little_bytes, from_little, from_little-little_bytes_4}
use elegance.Buffer.Laws.{change_buffer_size-new, write_at-behind}
use elegance.Packer.{
  Packer, Package, Run, done, fault, after, unpack, unpack_fuel, unpack_all, pack, ◌>>=◌,
}
use elegance.Packer.Stream.{
  Pending, head, body, Received, with_packages, and_then, start_body, receive_all,
  receive_all-append, receive_all-header, receive_all-package, receive_all-negative,
  with_packages-nil,
}
use elegance.Packer.Cache.{Holds}
use elegance.Packer.Step.{work}
use elegance.Packer.Header.{start_body-small, start_body-negative}
use elegance.Packer.Refine.{Goes, InStep, unpack-InStep}

-- A read from a socket brings at least one byte.
abbrev pub AllNonempty : List (List ℕ) → Type 0
AllNonempty [] = Unit {0}
AllNonempty (piece ∷ pieces) = (0 < length piece) × AllNonempty pieces

work-fuel : (p : Pending) (bytes : List ℕ) → work p bytes ≤ unpack_fuel bytes
work-fuel (head hs) bytes = omega arith
work-fuel (body zero rs) bytes = omega arith
work-fuel (body (suc w) rs) bytes = omega arith

module _ (net_id : ℕ) (m : Packer) (run : Run (Packer × List Package)) (r : Received)
    (f : Pending → Received) where
  -- What follows a call that went well, from its state on.
  then-InStep :
      (g : Goes net_id m run r) (rest : Run (Packer × List Package))
      → InStep net_id g.state rest (f g.pending)
      → InStep net_id m (after g.packages rest) (and_then r f)
  then-InStep g rest (inl (faults, fails)) = inl (rw faults, rw (g.reads, fails))
  then-InStep g rest (inr next) = inr (record {
    state = next.state;
    packages = g.packages ++ next.packages;
    pending = next.pending;
    ran = rw next.ran;
    reads = rw (g.reads, next.reads);
    holds = next.holds;
    others = λ j h. next.others j h ∙ g.others j h;
  })

-- Calls of `UnPack` for the pieces of a connection's bytes, none of them empty, either meet
-- undefined behaviour exactly where the byte-wise reading of all the bytes fails, or hand on exactly
-- its packages. So they depend on the bytes alone, and not on how they are cut into pieces; and the
-- fuel of each call is enough.
pub unpack_all-InStep :
    (net_id : ℕ) (pieces : List (List ℕ)) (m : Packer) (p : Pending)
    → Holds (find net_id m) p
    → AllNonempty pieces
    → InStep net_id m (unpack_all net_id pieces m) (receive_all p (flatten pieces))
unfolding unpack_all receive_all
unpack_all-InStep net_id [] m p h all = inr (record {
  state = m;
  packages = [];
  pending = p;
  ran = refl;
  reads = refl;
  holds = h;
  others = λ j k. refl;
})
unpack_all-InStep net_id (piece ∷ pieces) m p h all =
    let split = receive_all-append p piece (flatten pieces) in
    elim (unpack-InStep (unpack_fuel piece) net_id piece m p h all.0 (work-fuel p piece)) [
      | inl (faults, fails) ↦ inl (rw (faults, unpack_all), split ∙ rw fails)
      | inr g ↦ subst₂ (InStep net_id m) (sym (opened g)) (sym split) (
          then-InStep net_id m _ _ _ g (unpack_all net_id pieces g.state)
            (unpack_all-InStep net_id pieces g.state g.pending g.holds all.1))
    ]
  where
    opened :
        (g : Goes net_id m (unpack (unpack_fuel piece) net_id piece m) (receive_all p piece))
        → unpack_all net_id (piece ∷ pieces) m ≡ after g.packages (unpack_all net_id pieces g.state)
    opened g = rw (g.ran, unpack_all)

-- A package on the wire.
abbrev pub frame : Package → List ℕ
frame bytes = little_bytes 4 (length bytes) ++ bytes

-- The packages that can be sent and received: not empty, and of a size that is an `int`.
abbrev pub IsSendable : Package → Type 0
IsSendable bytes = (0 < length bytes) × (length bytes < 2 ^ 31 - 4)

abbrev pub AllSendable : List Package → Type 0
AllSendable [] = Unit {0}
AllSendable (p ∷ ps) = IsSendable p × AllSendable ps

receive_all-frame :
    (bytes rest : List ℕ)
    → IsSendable bytes
    → receive_all (head []) (frame bytes ++ rest)
      ≡ with_packages (bytes ∷ []) (receive_all (head []) rest)
receive_all-frame bytes rest h =
    let hd = little_bytes 4 (length bytes) in
    ap (receive_all (head [])) {x = frame bytes ++ rest} (append_assoc hd bytes rest)
    ∙ receive_all-append (head []) hd (bytes ++ rest)
    ∙ ap (λ r. and_then r (λ q. receive_all q (bytes ++ rest))) header
    ∙ with_packages-nil (receive_all (body (length bytes) []) (bytes ++ rest))
    ∙ receive_all-append (body (length bytes) []) bytes rest
    ∙ ap (λ r. and_then r (λ q. receive_all q rest))
        (receive_all-package (length bytes) [] bytes (omega (arith, h.1)) h.0 (omega arith))
  where
    header :
        receive_all (head []) (little_bytes 4 (length bytes)) ≡ some (body (length bytes) [], [])
    header =
        receive_all-header [] (little_bytes 4 (length bytes)) (omega arith) refl
        ∙ ap start_body (from_little-little_bytes_4 (length bytes) (omega (arith, h.1)))
        ∙ start_body-small (length bytes) h.1

-- What `PackAndSend` sends for packages one after another.
unfoldable pub pack_all : List Package → Option (List ℕ)
pack_all [] = some []
pack_all (p ∷ ps) = do bytes ← pack p; more ← pack_all ps; some (bytes ++ more)

-- What `PackAndSend` sends of fewer than 2 ^ 31 - 4 bytes is their length as 4 bytes, lowest first,
-- and the bytes, and no copy leaves its buffer.
pub pack-frame : (bytes : List ℕ) → length bytes < 2 ^ 31 - 4 → pack bytes ≡ some (frame bytes)
unfolding pack
pack-frame bytes small =
    let fits : ltb (4 + length bytes) (2 ^ 31) ≡ true = ground (arith, small) in
    let hd = little_bytes 4 (length bytes) in
    let zeros = replicate {A = ℕ} (4 + length bytes) 0 in
    rw (fits, change_buffer_size-new (4 + length bytes) (omega arith))
      (rw
        (write_at-behind [] hd zeros (omega (arith, length-replicate {A = ℕ} (4 + length bytes) 0)))
        (rw
          (
            zeros_left (length bytes),
            write_at-behind hd bytes (replicate (length bytes) 0) (omega (arith, filled)),
            none_left,
          )
          (rw append-nil)))
  where
    filled : length (replicate {A = ℕ} (length bytes) 0) ≡ length bytes
    filled = length-replicate {A = ℕ} (length bytes) 0

    none_left : drop (length bytes) (replicate {A = ℕ} (length bytes) 0) ≡ []
    none_left =
        ap (λ k. drop k (replicate {A = ℕ} (length bytes) 0)) (sym filled)
        ∙ drop_all (replicate {A = ℕ} (length bytes) 0)

    zeros_left : (n : ℕ) → drop 4 (replicate {A = ℕ} (4 + n) 0) ≡ replicate n 0
    zeros_left n = let e : 4 + n ≡ suc (suc (suc (suc n))) = omega arith in rw e

abbrev pub frames : List Package → List ℕ
frames [] = []
frames (p ∷ ps) = frame p ++ frames ps

pub pack_all-frames : (ps : List Package) → AllSendable ps → pack_all ps ≡ some (frames ps)
unfolding pack_all
pack_all-frames [] h = refl
pack_all-frames (p ∷ ps) h = rw (pack-frame p h.0.1, pack_all-frames ps h.1)

receive_all-frames :
    (ps : List Package) → AllSendable ps → receive_all (head []) (frames ps) ≡ some (head [], ps)
unfolding receive_all
receive_all-frames [] h = refl
receive_all-frames (p ∷ ps) h =
    receive_all-frame p (frames ps) h.0 ∙ ap (with_packages (p ∷ [])) (receive_all-frames ps h.1)

Goes-done :
    (net_id : ℕ) (m : Packer) (run : Run (Packer × List Package)) (p : Pending) (out : List Package)
    → InStep net_id m run (some (p, out))
    → (m' : Packer) × (run ≡ done (m', out))
      × Holds (find net_id m') p
      × ((j : ℕ) → (net_id == j) ≡ false → find j m' ≡ find j m)
Goes-done net_id m run p out (inl (faults, fails)) = cc
Goes-done net_id m run p out (inr g) =
    let same_out : g.packages ≡ out = ground (arith, g.reads) in
    let same_p : g.pending ≡ p = ground (arith, g.reads) in
    (
      g.state,
      g.ran ∙ ap (λ o. done (g.state, o)) same_out,
      subst (Holds (find net_id g.state)) same_p g.holds,
      g.others,
    )

-- Packages of at least one byte, each with its header of a size that is an `int`, that `PackAndSend`
-- sends one after another arrive at a connection of which nothing has come yet, in whatever
-- non-empty pieces, as exactly those packages in that order. No access leaves a buffer, the fuel is
-- enough, the connection is left between two packages, and no other connection's cache changes.
pub unpack_all-pack_all :
    (net_id : ℕ) (m : Packer) (ps : List Package) (pieces : List (List ℕ))
    → find net_id m ≡ none
    → AllSendable ps
    → AllNonempty pieces
    → pack_all ps ≡ some (flatten pieces)
    → (m' : Packer) × (unpack_all net_id pieces m ≡ done (m', ps))
      × Holds (find net_id m') (head [])
      × ((j : ℕ) → (net_id == j) ≡ false → find j m' ≡ find j m)
unpack_all-pack_all net_id m ps pieces fresh sendable nonempty sent =
    let stream : flatten pieces ≡ frames ps = ground (arith, pack_all-frames ps sendable, sent) in
    Goes-done net_id m (unpack_all net_id pieces m) (head []) ps (
      subst (InStep net_id m (unpack_all net_id pieces m))
        (ap (receive_all (head [])) stream ∙ receive_all-frames ps sendable)
        (unpack_all-InStep net_id pieces m (head []) (inl (fresh, refl)) nonempty))

-- On a connection of which nothing has come yet, a piece that is exactly a header with a negative
-- length, and any non-empty piece behind it, make `UnPack` copy a negative number of bytes.
pub unpack_all-negative :
    (net_id : ℕ) (m : Packer) (hd rest : List ℕ)
    → find net_id m ≡ none
    → length hd ≡ 4
    → 2 ^ 31 ≤ from_little hd
    → 0 < length rest
    → unpack_all net_id (hd ∷ rest ∷ []) m ≡ fault
unpack_all-negative net_id m hd rest fresh size negative more =
    elim (unpack_all-InStep net_id (hd ∷ rest ∷ []) m (head []) (inl (fresh, refl))
      (omega (arith, size), (more, tt))) [
        | inl (faults, fails) ↦ faults
        | inr g ↦ ground (arith, g.reads, nothing)
      ]
  where
    nothing : receive_all (head []) (flatten (hd ∷ rest ∷ [])) ≡ none
    nothing =
        receive_all-append (head []) hd (rest ++ [])
        ∙ ap (λ r. and_then r (λ q. receive_all q (rest ++ [])))
            (receive_all-header [] hd (omega arith) (omega (arith, size))
              ∙ start_body-negative (from_little hd) negative)
        ∙ with_packages-nil _
        ∙ receive_all-negative (from_little hd) [] (rest ++ []) negative
            (omega (arith, length-append rest []))
