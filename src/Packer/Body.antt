-- ===== src/Packer/Body.antt =====
-- The branch `read body` of `UnPack`.
use elegance.Prelude.{
  ℕ, zero, suc, ◌+◌, ◌-◌, ◌*◌, ◌^◌, ◌≤◌, ◌<◌, ◌≡◌, refl, ap, ap₂, sym, subst, ◌∙◌, ◌⊎◌, inl, inr,
  true, false, Option, none, some, List, [], ◌∷◌, ◌++◌, arith, length, take, drop, replicate, leb,
  ◌==◌, if◌then◌else◌, length-append, length-take, length-drop, append_assoc, append-nil,
  length-replicate, take-append-drop, take_all, drop_all,
}
use native.Mathlib.Decide.{dec_lt}
use elegance.Prelude.Int.{pos, sub_ℕ, signed}
use elegance.Prelude.Bytes.{from_little}
use elegance.Buffer.{write_at}
use elegance.Buffer.Laws.{holding, zero_all_bytes-holding}
use elegance.Packer.{CacheBuffer, package_end, minus, copy_bytes, payload, finish_body, read_body}
use elegance.Packer.Stream.{
  head, body, and_then, receive_all, receive_all-append, receive_all-body, receive_all-package,
  receive_all-zero, receive_all-negative,
}
use elegance.Packer.Cache.{cache, BodyFits, Holds, package_length-holding, payload-holding}
use elegance.Packer.Step.{work, Advances, Matches, drop_self, copied}
use elegance.Packer.Header.{package_end-small, package_end-negative}

module _ (hd rs tail bytes : List ℕ) (size : length hd ≡ 4) where
  abbrev word : ℕ
  word = from_little hd

  -- The cache with the part `rs` of the body.
  abbrev before : CacheBuffer
  before = cache (hd ++ (rs ++ tail)) (4 + length rs)

  abbrev copied_body : ℕ → CacheBuffer
  copied_body n = cache (hd ++ (rs ++ (take n bytes ++ drop n tail))) (4 + length rs + n)

  body_copied :
      (n : ℕ)
      → n ≤ length bytes
      → n ≤ length tail
      → write_at (4 + length rs) (take n bytes) (holding (hd ++ (rs ++ tail)))
        ≡ some (holding (hd ++ (rs ++ (take n bytes ++ drop n tail))))
  body_copied n h k =
      let at : length (hd ++ rs) ≡ 4 + length rs = omega (arith, length-append hd rs, size) in
      ap₂ (λ i bs. write_at i (take n bytes) (holding bs)) (sym at) (sym (append_assoc hd rs tail))
      ∙ copied (hd ++ rs) tail bytes n h k
      ∙ ap (λ bs. some (holding bs)) (append_assoc hd rs (take n bytes ++ drop n tail))

  module _ (small : word < 2 ^ 31 - 4) (ordered : length rs ≤ word)
      (room : word ≤ length rs + length tail) where
    body-code :
        (n : ℕ)
        → n ≡ (if leb (word - length rs) (length bytes) then word - length rs else length bytes)
        → read_body bytes before ≡ finish_body (pos word) (pos (4 + word)) n (copied_body n)
    unfolding read_body copy_bytes
    body-code n e =
        let sign : signed (2 ^ 31) word ≡ pos word = ground (arith, small) in
        let stop : package_end (pos word) ≡ some (pos (4 + word)) =
          ap package_end (sym sign) ∙ package_end-small word small in
        let left : minus (pos (4 + word)) (4 + length rs) ≡ pos (word - length rs) =
          ground (arith, ordered) in
        rw (
          package_length-holding hd (rs ++ tail) size,
          sign,
          stop,
          left,
          ← e,
          body_copied n (ground (arith, e)) (ground (arith, e, room, ordered)),
        )

    -- Bytes that do not complete the body.
    body_part :
        length rs + length bytes < word
        → 0 < length bytes
        → Advances bytes (body word rs) (read_body bytes before)
    unfolding finish_body receive_all
    body_part part some_bytes = record {
      result = copied_body (length bytes);
      used = length bytes;
      packages = [];
      pending = body word (rs ++ bytes);
      steps =
          body-code (length bytes) (ground (arith, part))
          ∙ (let more : (4 + word == 4 + length rs + length bytes) ≡ false = ground (arith, part) in
              rw more);
      holds = (
        hd,
        drop (length bytes) tail,
        same,
        size,
        refl,
        inr (
          small,
          omega (arith, grown, length-drop (length bytes) tail, room),
          inl (omega (arith, grown, part)),
        ),
      );
      within = omega arith;
      agrees = receive_all-body word rs bytes (omega (arith, small)) part ∙ rw (drop_all bytes);
      less = work-less word;
    }
      where
        grown : length (rs ++ bytes) ≡ length rs + length bytes
        grown = length-append rs bytes

        same : ◌≡◌ {A = Option CacheBuffer} (some (copied_body (length bytes))) (
            some (
              cache (hd ++ ((rs ++ bytes) ++ drop (length bytes) tail)) (4 + length (rs ++ bytes))))
        same =
            let end : 4 + length rs + length bytes ≡ 4 + (length rs + length bytes) = omega arith in
            rw (take_all bytes, grown, append_assoc rs bytes (drop (length bytes) tail), end)

        work-less :
            (w : ℕ)
            → work (body w (rs ++ bytes)) (drop (length bytes) bytes) < work (body w rs) bytes
        work-less zero = omega (arith, drop_self bytes)
        work-less (suc w) = omega (arith, drop_self bytes)

    -- A complete body, of `n` more bytes.
    abbrev completed : ℕ → CacheBuffer
    completed n = cache (replicate (length (hd ++ (rs ++ (take n bytes ++ drop n tail)))) 0) 0

    body_end-code :
        (n : ℕ)
        → n ≤ length bytes
        → n ≤ length tail
        → length rs + n ≡ word
        → finish_body (pos word) (pos (4 + word)) n (copied_body n)
          ≡ some (completed n, n, (rs ++ take n bytes) ∷ [])
    unfolding finish_body
    body_end-code n h k e =
        let bs = rs ++ take n bytes in
        let whole : length bs ≡ word =
          omega (arith, length-append rs (take n bytes), length-take n bytes) in
        let end : (4 + word == 4 + length rs + n) ≡ true = ground (arith, e) in
        let found : payload (pos word) (holding (hd ++ (rs ++ (take n bytes ++ drop n tail))))
            ≡ some bs =
          ap₂ (λ i l. payload (pos i) (holding (hd ++ l))) (sym whole)
            (sym (append_assoc rs (take n bytes) (drop n tail)))
          ∙ payload-holding hd bs (drop n tail) size in
        rw (
          end,
          found,
          zero_all_bytes-holding (hd ++ (rs ++ (take n bytes ++ drop n tail)))
              (omega (arith, length-append hd (rs ++ (take n bytes ++ drop n tail)), size)),
        )

    completed-Holds : (n : ℕ) → Holds (some (completed n)) (head [])
    completed-Holds n =
        let whole = hd ++ (rs ++ (take n bytes ++ drop n tail)) in
        inr (
          replicate (length whole) 0,
          refl,
          omega arith,
          omega (
            arith,
            length-replicate {A = ℕ} (length whole) 0,
            length-append hd (rs ++ (take n bytes ++ drop n tail)),
            size,
          ),
        )

    -- Bytes that complete the body.
    body_whole :
        length rs < word
        → word ≤ length rs + length bytes
        → Advances bytes (body word rs) (read_body bytes before)
    body_whole open_body whole = record {
      result = completed n;
      used = n;
      packages = (rs ++ take n bytes) ∷ [];
      pending = head [];
      steps =
          body-code n (ground (arith, whole, open_body))
          ∙ body_end-code n (omega (arith, whole)) (omega (arith, room)) (omega (arith, open_body));
      holds = completed-Holds n;
      within = omega (arith, whole);
      agrees =
          ap (receive_all (body word rs)) (sym (take-append-drop n bytes))
          ∙ receive_all-append (body word rs) (take n bytes) (drop n bytes)
          ∙ ap (λ r. and_then r (λ q. receive_all q (drop n bytes)))
              (receive_all-package word rs (take n bytes) (omega (arith, small)) open_body
                (omega (arith, length-take n bytes, whole, open_body)));
      less = work-less word;
    }
      where
        n : ℕ
        n = word - length rs

        work-less : (w : ℕ) → 2 * length (drop n bytes) < work (body w rs) bytes
        work-less zero = omega (arith, length-drop n bytes, open_body, whole)
        work-less (suc w) = omega (arith, length-drop n bytes, open_body, whole)

    -- A body of no byte is complete before its first byte comes.
    body_zero :
        word ≡ 0
        → rs ≡ []
        → 0 < length bytes
        → Advances bytes (body word rs) (read_body bytes before)
    body_zero zero_word none_read some_bytes = record {
      result = completed 0;
      used = 0;
      packages = [] ∷ [];
      pending = head [];
      steps =
          body-code 0 (ground (arith, zero_word))
          ∙ body_end-code 0 (omega arith) (omega arith)
              (omega (arith, zero_word, ap length none_read))
          ∙ ap (λ l. some (completed 0, 0, l ∷ [])) (append-nil rs ∙ none_read);
      holds = completed-Holds 0;
      within = omega arith;
      agrees =
          ap (λ w. receive_all (body w rs) bytes) zero_word ∙ receive_all-zero rs bytes some_bytes;
      less = subst (λ w. 2 * length bytes < work (body w rs) bytes) (sym zero_word) (omega arith);
    }

    body_taken :
        (length rs < word) ⊎ ((word ≡ 0) × (rs ≡ []))
        → 0 < length bytes
        → Advances bytes (body word rs) (read_body bytes before)
    body_taken (inr (zero_word, none_read)) some_bytes = body_zero zero_word none_read some_bytes
    body_taken (inl open_body) some_bytes = elim (dec_lt (length rs + length bytes) word) [
      | yes part ↦ body_part part some_bytes
      | no whole ↦ body_whole open_body (omega (arith, whole))
    ]

  body_negative :
      2 ^ 31 ≤ word
      → 0 < length bytes
      → (read_body bytes before ≡ none) × (receive_all (body word rs) bytes ≡ none)
  unfolding read_body copy_bytes
  body_negative negative some_bytes = (
    let gone : copy_bytes (minus (sub_ℕ 4 (suc (2 ^ 32 - word - 1))) (4 + length rs)) (length bytes)
            ≡ none =
          ground arith in
        rw (package_length-holding hd (rs ++ tail) size, package_end-negative word negative, gone),
    receive_all-negative word rs bytes negative some_bytes,
  )

  pub body_step :
      BodyFits word rs tail
      → 0 < length bytes
      → Matches bytes (body word rs) (read_body bytes before)
  body_step (inl negative) some_bytes = inl (body_negative negative some_bytes)
  body_step (inr (small, room, state)) some_bytes =
      inr (body_taken small (ordered state) room state some_bytes)
    where
      ordered : (length rs < word) ⊎ ((word ≡ 0) × (rs ≡ [])) → length rs ≤ word
      ordered (inl open_body) = omega arith
      ordered (inr (zero_word, none_read)) = omega (arith, ap length none_read)
