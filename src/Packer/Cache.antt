-- ===== src/Packer/Cache.antt =====
-- What a cache holds of a package, and the parts of `UnPack` that read and write it.
use elegance.Prelude.{
  ℕ, ◌+◌, ◌-◌, ◌^◌, ◌≤◌, ◌<◌, ◌≡◌, ap, sym, ◌∙◌, ◌⊎◌, false, Option, none, some, List, [], ◌++◌,
  arith, length, take, drop, replicate, ltb, length-append, append_assoc, take_prefix, drop_prefix,
  length-replicate, lt→ltb,
}
use native.Mathlib.Decide.{dec_lt}
use elegance.Prelude.Int.{pos, signed}
use elegance.Prelude.Bytes.{from_little}
use elegance.Buffer.Laws.{
  holding, change_buffer_size-new, change_buffer_size-resized, resized, take_more,
}
use elegance.Packer.{CacheBuffer, package_length, payload, create_cache, ensure_size}
use elegance.Packer.Stream.{Pending, head, body}

abbrev pub cache : List ℕ → ℕ → CacheBuffer
cache bytes size = record { buffer = holding bytes; cur_read_size = size }

-- A length that can be taken has room in the buffer and is not reached; a negative one is kept.
abbrev pub BodyFits : ℕ → List ℕ → List ℕ → Type 0
BodyFits w rs tail =
    (2 ^ 31 ≤ w)
    ⊎ ((w < 2 ^ 31 - 4) × (w ≤ length rs + length tail) × ((length rs < w) ⊎ ((w ≡ 0) × (rs ≡ []))))

-- The cache of a connection against the part of a package that has come.
abbrev pub Holds : Option CacheBuffer → Pending → Type 0
Holds o (head hs) =
    ((o ≡ none) × (hs ≡ []))
    ⊎ ((tail : List ℕ) × (o ≡ some (cache (hs ++ tail) (length hs)))
        × (length hs < 4)
        × (4 ≤ length hs + length tail))
Holds o (body w rs) =
    (hd : List ℕ) × (tail : List ℕ) × (o ≡ some (cache (hd ++ (rs ++ tail)) (4 + length rs)))
    × (length hd ≡ 4)
    × (from_little hd ≡ w)
    × BodyFits w rs tail

take_exact : (n : ℕ) (xs ys : List ℕ) → length xs ≡ n → take n (xs ++ ys) ≡ xs
take_exact n xs ys e = ap (λ k. take k (xs ++ ys)) (sym e) ∙ take_prefix xs ys

drop_exact : (n : ℕ) (xs ys : List ℕ) → length xs ≡ n → drop n (xs ++ ys) ≡ ys
drop_exact n xs ys e = ap (λ k. drop k (xs ++ ys)) (sym e) ∙ drop_prefix xs ys

pub package_length-holding :
    (hd rest : List ℕ)
    → length hd ≡ 4
    → package_length (holding (hd ++ rest)) ≡ some (signed (2 ^ 31) (from_little hd))
unfolding package_length
package_length-holding hd rest e = rw (take_exact 4 hd rest e) (
    let long : ltb (length (hd ++ rest)) 4 ≡ false = ground (arith, length-append hd rest, e) in
    rw long)

pub payload-holding :
    (hd bs tail : List ℕ)
    → length hd ≡ 4
    → payload (pos (length bs)) (holding (hd ++ (bs ++ tail))) ≡ some bs
unfolding payload
payload-holding hd bs tail e =
    rw (drop_exact 4 hd (bs ++ tail) e, take_prefix bs tail)
      (let long : ltb (length (hd ++ (bs ++ tail))) (4 + length bs) ≡ false =
          ground (arith, length-append hd (bs ++ tail), length-append bs tail, e) in
        rw long)

pub create_cache-zeros : create_cache ≡ some (cache (replicate 4 0) 0)
unfolding create_cache
create_cache-zeros = rw (change_buffer_size-new 4 (omega arith))

-- `ChangeBufferSize` behind a complete header keeps what there is and makes room.
pub ensure_size-holding :
    (size : ℕ) (pre tail : List ℕ)
    → (more : List ℕ) × (ensure_size (pos size) (holding (pre ++ tail))
        ≡ some (holding (pre ++ more)))
      × (size ≤ length pre + length more)
unfolding ensure_size
ensure_size-holding size pre tail = elim (dec_lt (length whole) size) [
  | yes small ↦ (
    tail ++ fill,
    rw (lt→ltb _ _ small) (
        change_buffer_size-resized whole size (omega (arith, small))
        ∙ ap (λ bs. some (holding bs)) (grown small)),
    omega (
      arith,
      length-append tail fill,
      length-append pre tail,
      length-replicate {A = ℕ} (size - length whole) 0,
    ),
  )
  | no large ↦ (tail, ground (arith, large), omega (arith, length-append pre tail))
]
  where
    whole : List ℕ
    whole = pre ++ tail

    fill : List ℕ
    fill = replicate (size - length whole) 0

    grown : length whole < size → resized size whole ≡ pre ++ (tail ++ fill)
    grown small =
        ap (λ bs. bs ++ fill) (take_more size whole (omega (arith, small)))
        ∙ append_assoc pre tail fill
