-- ===== src/ByteArray/Static/Safety.antt =====
-- What the bytes between the two positions are, and that no access leaves the buffer.
use elegance.Prelude.{
  ℕ, ◌+◌, ◌-◌, ◌≤◌, ◌≡◌, refl, ap, ap₂, sym, ◌∙◌, none, some, List, ◌++◌, arith, length, take,
  length-append, ltb, if◌then◌else◌, take_prefix, drop_prefix, drop,
}
use elegance.Prelude.Memory.{
  Memory, store, load, length-load, load-store, load-store_below, load-add,
}
use elegance.ByteArray.Static.{StaticByteArray, Faulty, max_msg_length, put_bytes, get_bytes}

pub record IsValid (s : StaticByteArray) : Type 0 where
  pub ordered : s.has_read_length ≤ s.has_write_length
  pub bounded : s.has_write_length ≤ max_msg_length

-- The bytes that are written and not yet read.
abbrev pub contents : StaticByteArray → List ℕ
contents s = load s.buffer_cache s.has_read_length (s.has_write_length - s.has_read_length)

pub length-contents :
    (s : StaticByteArray) → length (contents s) ≡ s.has_write_length - s.has_read_length
length-contents s = length-load s.buffer_cache s.has_read_length _

-- The array after bytes are appended.
pub record Appends (s : StaticByteArray) (bs : List ℕ) (r : StaticByteArray) : Type 0 where
  pub valid : IsValid r
  pub appended : contents r ≡ contents s ++ bs
  pub grown : r.has_write_length ≡ s.has_write_length + length bs

load-store_split :
    (m : Memory) (i n : ℕ) (bs : List ℕ)
    → load (store m (i + n) bs) i (n + length bs) ≡ load m i n ++ bs
load-store_split m i n bs =
    load-add (store m (i + n) bs) i n (length bs)
    ∙ ap₂ ◌++◌ (load-store_below m (i + n) bs i n (omega arith)) (load-store m (i + n) bs)

pub put_bytes-Appends :
    (s : StaticByteArray) (bs : List ℕ)
    → IsValid s
    → s.has_write_length + length bs ≤ max_msg_length
    → (r : StaticByteArray) × (put_bytes bs s ≡ some r) × Appends s bs r
unfolding put_bytes
put_bytes-Appends s bs v h = (
  record s {
    buffer_cache = store s.buffer_cache s.has_write_length bs;
    has_write_length = s.has_write_length + length bs;
  },
  ground arith,
  record { valid = omega arith; appended = split; grown = refl },
)
  where
    open s use {buffer_cache, has_read_length as hr, has_write_length as hw}

    at : hr + (hw - hr) ≡ hw
    at = omega (arith, v.ordered)

    size : hw + length bs - hr ≡ hw - hr + length bs
    size = omega (arith, v.ordered)

    split :
        load (store buffer_cache hw bs) hr (hw + length bs - hr)
        ≡ load buffer_cache hr (hw - hr) ++ bs
    split =
        ap₂ (λ k l. load (store buffer_cache k bs) hr l) (sym at) size
        ∙ load-store_split buffer_cache hr (hw - hr) bs

-- The array after bytes are read off the front.
pub record Consumes (s : StaticByteArray) (rest : List ℕ) (r : StaticByteArray) : Type 0 where
  pub valid : IsValid r
  pub left : contents r ≡ rest
  pub kept : r.has_write_length ≡ s.has_write_length

pub get_bytes-Consumes :
    (s : StaticByteArray) (bs rest : List ℕ)
    → IsValid s
    → contents s ≡ bs ++ rest
    → (r : StaticByteArray) × (get_bytes (length bs) s ≡ some (bs, r)) × Consumes s rest r
unfolding get_bytes
get_bytes-Consumes s bs rest v e = (
  record s { has_read_length = hr + length bs },
  got,
  record { valid = omega (arith, sizes); left = remaining; kept = refl },
)
  where
    open s use {buffer_cache, has_read_length as hr, has_write_length as hw}

    sizes : hw - hr ≡ length bs + length rest
    sizes = sym (length-contents s) ∙ ap length e ∙ length-append bs rest

    more : hr + length bs ≤ hw
    more = omega (arith, sizes, v.ordered)

    both :
        load buffer_cache hr (length bs) ++ load buffer_cache (hr + length bs) (length rest)
        ≡ bs ++ rest
    both =
        sym (load-add buffer_cache hr (length bs) (length rest))
        ∙ ap (load buffer_cache hr) (sym sizes)
        ∙ e

    front : load buffer_cache hr (length bs) ≡ bs
    front =
        sym (take_prefix (load buffer_cache hr (length bs)) _)
        ∙ ap₂ take (length-load buffer_cache hr (length bs)) both
        ∙ take_prefix bs rest

    back : load buffer_cache (hr + length bs) (length rest) ≡ rest
    back =
        sym (drop_prefix (load buffer_cache hr (length bs)) _)
        ∙ ap₂ drop (length-load buffer_cache hr (length bs)) both
        ∙ drop_prefix bs rest

    remaining : load buffer_cache (hr + length bs) (hw - (hr + length bs)) ≡ rest
    remaining = ap (load buffer_cache (hr + length bs)) (omega (arith, sizes)) ∙ back

    got :
        ◌≡◌ {A = Faulty (List ℕ × StaticByteArray)}
          (if ltb max_msg_length (hr + length bs)
            then none
            else some
                (load buffer_cache hr (length bs), record s { has_read_length = hr + length bs }))
          (some (bs, record s { has_read_length = hr + length bs }))
    got = rw front (ground (arith, more, v.bounded))
