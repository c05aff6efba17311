-- ===== src/Packer/Stream.antt =====
-- What `UnPack` has to do, byte by byte and with no buffer.
use elegance.Prelude.{
  ℕ, suc, ◌+◌, ◌-◌, ◌^◌, ◌≤◌, ◌<◌, ◌≡◌, refl, ap, sym, fun_ext, ◌∙◌, true, false, Option, none,
  some, List, [], ◌∷◌, ◌++◌, arith, length, ltb, leb, ◌==◌, if◌then◌else◌, ◌&&◌, append_assoc,
  append-nil, length-append,
}
use elegance.Prelude.Bytes.{from_little}
use elegance.Packer.{Package}

-- The part of a package that has come: of its header, or its length as the header gives it and the
-- part of its body.
pub data Pending : Type 0 where
  head : List ℕ → Pending
  body : ℕ → List ℕ → Pending

abbrev pub Received : Type 0
Received = Option (Pending × List Package)

-- Packages that came before.
abbrev pub with_packages : List Package → Received → Received
with_packages out none = none
with_packages out (some (p, more)) = some (p, out ++ more)

-- A complete header. A length for which the size of the package is no `int` cannot be taken.
unfoldable pub start_body : ℕ → Received
start_body w = if leb (2 ^ 31 - 4) w && ltb w (2 ^ 31) then none else some (body w [], [])

unfoldable pub receive_head : List ℕ → ℕ → Received
receive_head hs b =
    if ltb (length hs) 3
    then some (head (hs ++ b ∷ []), [])
    else start_body (from_little (hs ++ b ∷ []))

-- A byte behind a header. A header with a negative length cannot be followed by anything; one with
-- the length 0 is complete, and noticed with the next byte.
unfoldable pub receive_body : ℕ → List ℕ → ℕ → Received
receive_body w rs b =
    if leb (2 ^ 31) w
    then none
    else if w == 0
    then with_packages ([] ∷ []) (receive_head [] b)
    else if w == suc (length rs)
    then some (head [], (rs ++ b ∷ []) ∷ [])
    else some (body w (rs ++ b ∷ []), [])

unfoldable pub receive : Pending → ℕ → Received
receive (head hs) b = receive_head hs b
receive (body w rs) b = receive_body w rs b

abbrev pub and_then : Received → (Pending → Received) → Received
and_then none f = none
and_then (some (p, out)) f = with_packages out (f p)

unfoldable pub receive_all : Pending → List ℕ → Received
receive_all p [] = some (p, [])
receive_all p (b ∷ bs) = and_then (receive p b) (λ q. receive_all q bs)

pub with_packages-append :
    (out more : List Package) (r : Received)
    → with_packages out (with_packages more r) ≡ with_packages (out ++ more) r
with_packages-append out more none = refl
with_packages-append out more (some (p, rest)) = rw append_assoc

with_packages-and_then :
    (out : List Package) (r : Received) (g : Pending → Received)
    → and_then (with_packages out r) g ≡ with_packages out (and_then r g)
with_packages-and_then out none g = refl
with_packages-and_then out (some (p, more)) g = sym (with_packages-append out more (g p))

pub with_packages-nil : (r : Received) → with_packages [] r ≡ r
with_packages-nil none = refl
with_packages-nil (some (p, out)) = refl

and_then_assoc :
    (r : Received) (f g : Pending → Received)
    → and_then r (λ q. and_then (f q) g) ≡ and_then (and_then r f) g
and_then_assoc none f g = refl
and_then_assoc (some (p, out)) f g = sym (with_packages-and_then out (f p) g)

pub receive_all-append :
    (p : Pending) (bs cs : List ℕ)
    → receive_all p (bs ++ cs) ≡ and_then (receive_all p bs) (λ q. receive_all q cs)
unfolding receive_all
receive_all-append p [] cs = sym (with_packages-nil (receive_all p cs))
receive_all-append p (b ∷ bs) cs =
    ap (and_then (receive p b)) (fun_ext λ q. receive_all-append q bs cs)
    ∙ and_then_assoc (receive p b) (λ q. receive_all q bs) (λ q. receive_all q cs)

-- Bytes that do not complete the header.
pub receive_all-head :
    (hs bs : List ℕ)
    → length hs + length bs < 4
    → receive_all (head hs) bs ≡ some (head (hs ++ bs), [])
unfolding receive_all receive receive_head
receive_all-head hs [] h = rw append-nil
receive_all-head hs (b ∷ bs) h =
    let grown = length-append hs (b ∷ []) in
    let test : ltb (length hs) 3 ≡ true = ground arith in
    rw test (
      ap (with_packages []) (receive_all-head (hs ++ b ∷ []) bs (omega (arith, grown)))
      ∙ rw (append_assoc hs (b ∷ []) bs))

and_then-return : (r : Received) → and_then r (λ q. some (q, [])) ≡ r
and_then-return none = refl
and_then-return (some (p, out)) = rw append-nil

-- Bytes that complete the header.
pub receive_all-header :
    (hs bs : List ℕ)
    → length hs < 4
    → length hs + length bs ≡ 4
    → receive_all (head hs) bs ≡ start_body (from_little (hs ++ bs))
unfolding receive_all receive receive_head
receive_all-header hs [] h e = absurd (omega arith)
receive_all-header hs (b ∷ []) h e =
    let test : ltb (length hs) 3 ≡ false = ground (arith, e) in
    rw test (and_then-return (start_body (from_little (hs ++ b ∷ []))))
receive_all-header hs (b ∷ (c ∷ bs)) h e =
    let grown = length-append hs (b ∷ []) in
    let test : ltb (length hs) 3 ≡ true = ground (arith, e) in
    rw test (
      ap (with_packages [])
        (receive_all-header (hs ++ b ∷ []) (c ∷ bs) (omega (arith, grown)) (omega (arith, grown)))
      ∙ with_packages-nil _
      ∙ rw (append_assoc hs (b ∷ []) (c ∷ bs)))

-- Bytes that do not complete the body.
pub receive_all-body :
    (w : ℕ) (rs bs : List ℕ)
    → w < 2 ^ 31
    → length rs + length bs < w
    → receive_all (body w rs) bs ≡ some (body w (rs ++ bs), [])
unfolding receive_all receive receive_body
receive_all-body w rs [] small h = rw append-nil
receive_all-body w rs (b ∷ bs) small h =
    let grown = length-append rs (b ∷ []) in
    let sign : leb (2 ^ 31) w ≡ false = ground (arith, small) in
    let not_zero : (w == 0) ≡ false = ground (arith, h) in
    let not_end : (w == suc (length rs)) ≡ false = ground (arith, h) in
    rw (sign, not_zero, not_end)
      (ap (with_packages []) (receive_all-body w (rs ++ b ∷ []) bs small (omega (arith, grown)))
        ∙ rw (append_assoc rs (b ∷ []) bs))

-- Bytes that complete the body.
pub receive_all-package :
    (w : ℕ) (rs bs : List ℕ)
    → w < 2 ^ 31
    → length rs < w
    → length rs + length bs ≡ w
    → receive_all (body w rs) bs ≡ some (head [], (rs ++ bs) ∷ [])
unfolding receive_all receive receive_body
receive_all-package w rs [] small h e = absurd (omega arith)
receive_all-package w rs (b ∷ []) small h e =
    let sign : leb (2 ^ 31) w ≡ false = ground (arith, small) in
    let not_zero : (w == 0) ≡ false = ground (arith, h) in
    let at_end : (w == suc (length rs)) ≡ true = ground (arith, e) in rw (sign, not_zero, at_end)
receive_all-package w rs (b ∷ (c ∷ bs)) small h e =
    let grown = length-append rs (b ∷ []) in
    let sign : leb (2 ^ 31) w ≡ false = ground (arith, small) in
    let not_zero : (w == 0) ≡ false = ground (arith, h) in
    let not_end : (w == suc (length rs)) ≡ false = ground (arith, e) in
    rw (sign, not_zero, not_end)
      (ap (with_packages []) (
          receive_all-package w (rs ++ b ∷ []) (c ∷ bs) small (omega (arith, grown))
            (omega (arith, grown)))
        ∙ rw (append_assoc rs (b ∷ []) (c ∷ bs)))

-- A header with the length 0: its package is noticed with the next byte.
pub receive_all-zero :
    (rs bs : List ℕ)
    → 0 < length bs
    → receive_all (body 0 rs) bs ≡ with_packages ([] ∷ []) (receive_all (head []) bs)
unfolding receive_all receive receive_body
receive_all-zero rs [] h = absurd (omega arith)
receive_all-zero rs (b ∷ bs) h =
    with_packages-and_then ([] ∷ []) (receive_head [] b) (λ q. receive_all q bs)

-- Nothing can follow a header with a negative length.
pub receive_all-negative :
    (w : ℕ) (rs bs : List ℕ) → 2 ^ 31 ≤ w → 0 < length bs → receive_all (body w rs) bs ≡ none
unfolding receive_all receive receive_body
receive_all-negative w rs [] negative h = absurd (omega arith)
receive_all-negative w rs (b ∷ bs) negative h =
    let sign : leb (2 ^ 31) w ≡ true = ground arith in rw sign
