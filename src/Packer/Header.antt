-- ===== src/Packer/Header.antt =====
-- The branch `read header` of `UnPack`.
use elegance.Prelude.{
  ℕ, zero, suc, ◌+◌, ◌-◌, ◌*◌, ◌^◌, ◌≤◌, ◌<◌, ◌≡◌, refl, ap, sym, ◌∙◌, ◌⊎◌, inl, inr, false, Option,
  none, some, List, [], ◌++◌, arith, length, take, drop, leb, if◌then◌else◌, length-append,
  length-take, length-drop, append_assoc, take-append-drop, take_all, drop_all,
}
use native.Mathlib.Decide.{dec_lt}
use elegance.Prelude.Int.{ℤ, pos, sub_ℕ, signed}
use elegance.Prelude.Bytes.{from_little}
use elegance.Buffer.{FlexibleBuffer}
use elegance.Buffer.Laws.{holding}
use elegance.Packer.{
  CacheBuffer, Progress, ◌>>=◌, package_end, copy_bytes, ensure_size, finish_header, read_header,
}
use elegance.Packer.Stream.{
  head, body, and_then, start_body, receive_all, receive_all-append, receive_all-head,
  receive_all-header,
}
use elegance.Packer.Cache.{cache, BodyFits, package_length-holding, ensure_size-holding}
use elegance.Packer.Step.{work, Advances, Matches, drop_self, copied}

pub start_body-small : (w : ℕ) → w < 2 ^ 31 - 4 → start_body w ≡ some (body w [], [])
unfolding start_body
start_body-small w h = ground arith

start_body-overflow : (w : ℕ) → 2 ^ 31 - 4 ≤ w → w < 2 ^ 31 → start_body w ≡ none
unfolding start_body
start_body-overflow w h k = ground arith

pub start_body-negative : (w : ℕ) → 2 ^ 31 ≤ w → start_body w ≡ some (body w [], [])
unfolding start_body
start_body-negative w h = ground arith

pub package_end-small :
    (w : ℕ) → w < 2 ^ 31 - 4 → package_end (signed (2 ^ 31) w) ≡ some (pos (4 + w))
unfolding package_end
package_end-small w h = ground arith

pub package_end-overflow :
    (w : ℕ) → 2 ^ 31 - 4 ≤ w → w < 2 ^ 31 → package_end (signed (2 ^ 31) w) ≡ none
unfolding package_end
package_end-overflow w h k = ground arith

pub package_end-negative :
    (w : ℕ) → 2 ^ 31 ≤ w → package_end (signed (2 ^ 31) w) ≡ some (sub_ℕ 4 (suc (2 ^ 32 - w - 1)))
unfolding package_end
package_end-negative w h = ground arith

ensure_size-kept :
    (k : ℕ) (b : FlexibleBuffer) → 4 ≤ b.buffer_size → ensure_size (sub_ℕ 4 (suc k)) b ≡ some b
unfolding ensure_size
ensure_size-kept k b h = ground arith

module _ (hs tail bytes : List ℕ) (short : length hs < 4) (room : 4 ≤ length hs + length tail) where
  -- The state behind the copy of `n` bytes.
  abbrev copied_header : ℕ → CacheBuffer
  copied_header n = cache (hs ++ (take n bytes ++ drop n tail)) (length hs + n)

  read_header-copied :
      (n : ℕ)
      → n ≡ (if leb (4 - length hs) (length bytes) then 4 - length hs else length bytes)
      → read_header bytes (cache (hs ++ tail) (length hs)) ≡ finish_header n (copied_header n)
  unfolding read_header copy_bytes
  read_header-copied n e =
      let left : sub_ℕ 4 (length hs) ≡ pos (4 - length hs) = ground (arith, short) in
      rw (left, ← e, copied hs tail bytes n (ground (arith, e)) (ground (arith, e, room)))

  header_part :
      length bytes < 4 - length hs
      → 0 < length bytes
      → Advances bytes (head hs) (read_header bytes (cache (hs ++ tail) (length hs)))
  unfolding finish_header receive_all
  header_part part some_bytes = record {
    result = copied_header (length bytes);
    used = length bytes;
    packages = [];
    pending = head (hs ++ bytes);
    steps =
        read_header-copied (length bytes) (ground (arith, part))
        ∙ (let more : leb 4 (length hs + length bytes) ≡ false = ground (arith, part) in rw more);
    holds = inr (
      drop (length bytes) tail,
      same,
      omega (arith, size),
      omega (arith, size, length-drop (length bytes) tail),
    );
    within = omega arith;
    agrees = receive_all-head hs bytes (omega arith) ∙ rw (drop_all bytes);
    less = omega (arith, drop_self bytes);
  }
    where
      size : length (hs ++ bytes) ≡ length hs + length bytes
      size = length-append hs bytes

      same :
          ◌≡◌ {A = Option CacheBuffer}
            (some (copied_header (length bytes)))
            (some (cache ((hs ++ bytes) ++ drop (length bytes) tail) (length (hs ++ bytes))))
      same = rw (take_all bytes, size, append_assoc hs bytes (drop (length bytes) tail))

  module _ (whole : 4 - length hs ≤ length bytes) where
    abbrev n : ℕ
    n = 4 - length hs

    abbrev full : List ℕ
    full = hs ++ take n bytes

    abbrev word : ℕ
    word = from_little full

    full-size : length full ≡ 4
    full-size = omega (arith, length-append hs (take n bytes), length-take n bytes)

    header_lem :
        receive_all (head hs) bytes ≡ and_then (start_body word) (λ q. receive_all q (drop n bytes))
    header_lem =
        ap (receive_all (head hs)) (sym (take-append-drop n bytes))
        ∙ receive_all-append (head hs) (take n bytes) (drop n bytes)
        ∙ ap (λ r. and_then r (λ q. receive_all q (drop n bytes)))
            (receive_all-header hs (take n bytes) short (omega (arith, length-take n bytes)))

    -- What is left of `UnPack` behind the header.
    abbrev sized : ℤ → Option Progress
    sized stop = do
      b ← ensure_size stop (holding (full ++ drop n tail))
      some (record { buffer = b; cur_read_size = 4 }, n, [])

    header-code :
        read_header bytes (cache (hs ++ tail) (length hs))
        ≡ ◌>>=◌ {B = Progress} (package_end (signed (2 ^ 31) word)) sized
    unfolding finish_header
    header-code =
        let end : length hs + n ≡ 4 = omega arith in
        read_header-copied n (ground (arith, whole))
        ∙ rw (
          end,
          ← append_assoc hs (take n bytes) (drop n tail),
          package_length-holding full (drop n tail) full-size,
        )

    header-Advances :
        (more : List ℕ)
        → ◌>>=◌ {B = Progress} (package_end (signed (2 ^ 31) word)) sized
          ≡ some (cache (full ++ more) 4, n, [])
        → start_body word ≡ some (body word [], [])
        → BodyFits word [] more
        → Advances bytes (head hs) (read_header bytes (cache (hs ++ tail) (length hs)))
    header-Advances more code spec fits = record {
      result = cache (full ++ more) 4;
      used = n;
      packages = [];
      pending = body word [];
      steps = header-code ∙ code;
      holds = (full, more, refl, full-size, refl, fits);
      within = whole;
      agrees = header_lem ∙ rw spec;
      less = work-less word;
    }
      where
        work-less : (w : ℕ) → work (body w []) (drop n bytes) < 2 * length bytes
        work-less zero = omega (arith, length-drop n bytes)
        work-less (suc w) = omega (arith, length-drop n bytes)

    taken :
        word < 2 ^ 31 - 4
        → Advances bytes (head hs) (read_header bytes (cache (hs ++ tail) (length hs)))
    taken small =
        let (more, p, size) = ensure_size-holding (4 + word) full (drop n tail) in
        header-Advances more (code more p) (start_body-small word small)
          (inr (small, omega (arith, size, full-size), positive word))
      where
        code :
            (more : List ℕ)
            → ensure_size (pos (4 + word)) (holding (full ++ drop n tail))
              ≡ some (holding (full ++ more))
            → ◌>>=◌ {B = Progress} (package_end (signed (2 ^ 31) word)) sized
              ≡ some (cache (full ++ more) 4, n, [])
        code more p = rw (package_end-small word small, p)

        positive : (w : ℕ) → (0 < w) ⊎ ((w ≡ 0) × (◌≡◌ {A = List ℕ} [] []))
        positive zero = inr (refl, refl)
        positive (suc w) = inl (omega arith)

    refused :
        2 ^ 31 - 4 ≤ word
        → word < 2 ^ 31
        → Matches bytes (head hs) (read_header bytes (cache (hs ++ tail) (length hs)))
    refused large small = inl (
      header-code ∙ rw (package_end-overflow word large small),
      header_lem ∙ rw (start_body-overflow word large small),
    )

    negative :
        2 ^ 31 ≤ word
        → Advances bytes (head hs) (read_header bytes (cache (hs ++ tail) (length hs)))
    negative h =
        header-Advances (drop n tail)
          (rw (
            package_end-negative word h,
            ensure_size-kept (2 ^ 32 - word - 1) (holding (full ++ drop n tail))
                (omega (arith, length-append full (drop n tail), full-size)),
          ))
          (start_body-negative word h) (inl h)

    header_whole : Matches bytes (head hs) (read_header bytes (cache (hs ++ tail) (length hs)))
    header_whole = elim (dec_lt word (2 ^ 31 - 4)) [
      | yes small ↦ inr (taken small)
      | no large ↦ (elim (dec_lt word (2 ^ 31)) [
        | yes below ↦ refused (omega (arith, large)) below
        | no above ↦ inr (negative (omega (arith, above)))
      ])
    ]

  pub header_step :
      0 < length bytes
      → Matches bytes (head hs) (read_header bytes (cache (hs ++ tail) (length hs)))
  header_step some_bytes = elim (dec_lt (length bytes) (4 - length hs)) [
    | yes part ↦ inr (header_part part some_bytes)
    | no whole ↦ header_whole (omega (arith, whole))
  ]
