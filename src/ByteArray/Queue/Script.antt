-- ===== src/ByteArray/Queue/Script.antt =====
-- Everything that a `QueueByteArray` can hold, written and read back one after another.
use elegance.Prelude.{
  ℕ, suc, ◌+◌, ◌*◌, ◌%◌, ◌^◌, ◌≤◌, ◌<◌, ◌≡◌, refl, ap, ap₂, subst, sym, ◌∙◌, List, [], ◌∷◌, ◌++◌,
  arith, append_assoc, append-nil, length, take, drop, length-append, take_all, take_prefix,
  drop_prefix,
}
use elegance.Prelude.Int.{
  ℤ, signed, unsigned, InRange, signed-unsigned_8, signed-unsigned_16, signed-unsigned_32,
  signed-unsigned_64,
}
use elegance.ByteArray.{Endian, big_endian, little_endian, ushrt_max}
use elegance.ByteArray.Items.{
  Item, int8, int16, int32, int64, uint8, uint16, uint32, uint64, float, double, string, IsFit,
  AllFit, item_bytes, items_bytes, word_bytes, unsigned-lt,
}
use elegance.ByteArray.Queue.{
  QueueByteArray, read_uint8, read_int8, read_uint16, read_int16, read_uint32, read_int32,
  read_float, read_uint64, read_int64, read_double, read_string, write_uint8, write_int8,
  write_uint16, write_int16, write_uint32, write_int32, write_float, write_uint64, write_int64,
  write_double, write_string, join,
}
use elegance.ByteArray.Queue.Words.{
  on, write_uint16-word_bytes, write_uint32-word_bytes, write_uint64-word_bytes,
  read_uint16-word_bytes, read_uint32-word_bytes, read_uint64-word_bytes,
}

-- `beyond` is the memory that the `long` casts of `ReadInt32` and `WriteFloat` look at.
pub write_item : ℕ → Item → QueueByteArray → QueueByteArray
write_item beyond (int8 z) q = write_int8 z q
write_item beyond (int16 z) q = write_int16 z q
write_item beyond (int32 z) q = write_int32 z q
write_item beyond (int64 z) q = write_int64 z q
write_item beyond (uint8 n) q = write_uint8 n q
write_item beyond (uint16 n) q = write_uint16 n q
write_item beyond (uint32 n) q = write_uint32 n q
write_item beyond (uint64 n) q = write_uint64 n q
write_item beyond (float n) q = write_float beyond n q
write_item beyond (double n) q = write_double n q
write_item beyond (string s) q = write_string s q

-- Reads a value of the kind of the given one.
pub read_like : ℕ → Item → QueueByteArray → Item × QueueByteArray
read_like beyond (int8 z) q = let (v, r) = read_int8 q in (int8 v, r)
read_like beyond (int16 z) q = let (v, r) = read_int16 q in (int16 v, r)
read_like beyond (int32 z) q = let (v, r) = read_int32 beyond q in (int32 v, r)
read_like beyond (int64 z) q = let (v, r) = read_int64 q in (int64 v, r)
read_like beyond (uint8 n) q = let (v, r) = read_uint8 q in (uint8 v, r)
read_like beyond (uint16 n) q = let (v, r) = read_uint16 q in (uint16 v, r)
read_like beyond (uint32 n) q = let (v, r) = read_uint32 q in (uint32 v, r)
read_like beyond (uint64 n) q = let (v, r) = read_uint64 q in (uint64 v, r)
read_like beyond (float n) q = let (v, r) = read_float q in (float v, r)
read_like beyond (double n) q = let (v, r) = read_double q in (double v, r)
read_like beyond (string s) q = let (v, r) = read_string q in (string v, r)

pub write_items : ℕ → List Item → QueueByteArray → QueueByteArray
write_items beyond [] q = q
write_items beyond (i ∷ is) q = write_items beyond is (write_item beyond i q)

pub read_items : ℕ → List Item → QueueByteArray → List Item × QueueByteArray
read_items beyond [] q = ([], q)
read_items beyond (i ∷ is) q =
    let (v, r) = read_like beyond i q in let (vs, r') = read_items beyond is r in (v ∷ vs, r')

drop_two : (n a b : ℕ) (l : List ℕ) → drop (2 + n) (a ∷ b ∷ l) ≡ drop n l
drop_two n a b l = let e : 2 + n ≡ suc (suc n) = omega arith in rw e

-- `ReadString` where the length is there and fits.
read_string_enough :
    (e : Endian) (a b n : ℕ) (body : List ℕ)
    → join 0x100 e a b ≡ n
    → n ≤ length body
    → read_string (on e (a ∷ b ∷ body)) ≡ (take n body, on e (drop n body))
unfolding read_string
read_string_enough e a b n body p h = rw (p, drop_two n a b body) (ground arith)

-- `ReadString` where the string is cut off.
pub read_string_short :
    (e : Endian) (a b : ℕ) (body : List ℕ)
    → length body < join 0x100 e a b
    → read_string (on e (a ∷ b ∷ body)) ≡ ([], on e (a ∷ b ∷ body))
unfolding read_string
read_string_short e a b body h = ground arith

pub write_string-bytes :
    (e : Endian) (s bs : List ℕ)
    → length s ≤ ushrt_max
    → write_string s (on e bs) ≡ on e (bs ++ item_bytes e (string s))
unfolding write_string
write_string-bytes e s bs h =
    let n : length s % 2 ^ 16 ≡ length s = omega arith in
    rw n (
      ground (
        arith,
        write_uint16-word_bytes e (length s) bs,
        append_assoc bs (word_bytes e 2 (length s)) s,
        take_all s,
      ))

read_string-bytes :
    (e : Endian) (s rest : List ℕ)
    → length s ≤ ushrt_max
    → read_string (on e (item_bytes e (string s) ++ rest)) ≡ (s, on e rest)
read_string-bytes big_endian s rest h =
    read_string_enough big_endian _ _ (length s) (s ++ rest) (omega arith)
      (omega (arith, length-append s rest))
    ∙ ap₂ (λ a b. (a, on big_endian b)) (take_prefix s rest) (drop_prefix s rest)
read_string-bytes little_endian s rest h =
    read_string_enough little_endian _ _ (length s) (s ++ rest) (omega arith)
      (omega (arith, length-append s rest))
    ∙ ap₂ (λ a b. (a, on little_endian b)) (take_prefix s rest) (drop_prefix s rest)

abbrev low_signed : ℕ → ℕ → ℤ
low_signed beyond w = signed 0x8000_0000 ((w + beyond * 2 ^ 32) % 2 ^ 32)

low_signed-unsigned :
    (beyond : ℕ) (z : ℤ) → InRange 0x8000_0000 z → low_signed beyond (unsigned 0x8000_0000 z) ≡ z
low_signed-unsigned beyond z h =
    ap (signed 0x8000_0000) (omega (arith, unsigned-lt 0x8000_0000 z (omega arith)))
    ∙ signed-unsigned_32 z h

-- One item is appended as its bytes.
write_item-bytes :
    (beyond : ℕ) (e : Endian) (i : Item) (bs : List ℕ)
    → IsFit i
    → write_item beyond i (on e bs) ≡ on e (bs ++ item_bytes e i)
unfolding write_item write_uint8 write_int8 write_int16 write_int32 write_int64 write_float
    write_double
write_item-bytes beyond e (int8 z) bs h = refl
write_item-bytes beyond e (int16 z) bs h =
    write_uint16-word_bytes e _ bs (unsigned-lt 0x8000 z (omega arith))
write_item-bytes beyond e (int32 z) bs h =
    write_uint32-word_bytes e _ bs (unsigned-lt 0x8000_0000 z (omega arith))
write_item-bytes beyond e (int64 z) bs h =
    write_uint64-word_bytes e _ bs (unsigned-lt (2 ^ 63) z (omega arith))
write_item-bytes beyond e (uint8 n) bs h = refl
write_item-bytes beyond e (uint16 n) bs h = write_uint16-word_bytes e n bs h
write_item-bytes beyond e (uint32 n) bs h = write_uint32-word_bytes e n bs h
write_item-bytes beyond e (uint64 n) bs h = write_uint64-word_bytes e n bs h
write_item-bytes beyond e (float n) bs h =
    ap (λ v. write_uint32 v (on e bs)) (omega arith) ∙ write_uint32-word_bytes e n bs h
write_item-bytes beyond e (double n) bs h = write_uint64-word_bytes e n bs h
write_item-bytes beyond e (string s) bs h = write_string-bytes e s bs h

-- The bytes of an item read as the item, and what follows stays.
read_like-bytes :
    (beyond : ℕ) (e : Endian) (i : Item) (rest : List ℕ)
    → IsFit i
    → read_like beyond i (on e (item_bytes e i ++ rest)) ≡ (i, on e rest)
unfolding read_like read_uint8 read_int8 read_int16 read_int32 read_int64 read_float read_double
read_like-bytes beyond e (int8 z) rest h = rw (signed-unsigned_8 z h)
read_like-bytes beyond e (int16 z) rest h =
    ap (λ p. (int16 (signed 0x8000 p.0), p.1))
      (read_uint16-word_bytes e _ rest (unsigned-lt 0x8000 z (omega arith)))
    ∙ rw (signed-unsigned_16 z h)
read_like-bytes beyond e (int32 z) rest h =
    ap (λ p. (int32 (low_signed beyond p.0), p.1))
      (read_uint32-word_bytes e _ rest (unsigned-lt 0x8000_0000 z (omega arith)))
    ∙ rw (low_signed-unsigned beyond z h)
read_like-bytes beyond e (int64 z) rest h =
    ap (λ p. (int64 (signed 0x8000_0000_0000_0000 p.0), p.1))
      (read_uint64-word_bytes e _ rest (unsigned-lt 0x8000_0000_0000_0000 z (omega arith)))
    ∙ rw (signed-unsigned_64 z h)
read_like-bytes beyond e (uint8 n) rest h = refl
read_like-bytes beyond e (uint16 n) rest h =
    ap (λ p. (uint16 p.0, p.1)) (read_uint16-word_bytes e n rest h)
read_like-bytes beyond e (uint32 n) rest h =
    ap (λ p. (uint32 p.0, p.1)) (read_uint32-word_bytes e n rest h)
read_like-bytes beyond e (uint64 n) rest h =
    ap (λ p. (uint64 p.0, p.1)) (read_uint64-word_bytes e n rest h)
read_like-bytes beyond e (float n) rest h =
    ap (λ p. (float (p.0 % 2 ^ 32), p.1)) (read_uint32-word_bytes e n rest h)
    ∙ ap (λ v. (float v, on e rest)) (omega arith)
read_like-bytes beyond e (double n) rest h =
    ap (λ p. (double p.0, p.1)) (read_uint64-word_bytes e n rest h)
read_like-bytes beyond e (string s) rest h =
    ap (λ p. (string p.0, p.1)) (read_string-bytes e s rest h)

write_items-bytes :
    (beyond : ℕ) (e : Endian) (is : List Item) (bs : List ℕ)
    → AllFit is
    → write_items beyond is (on e bs) ≡ on e (bs ++ items_bytes e is)
unfolding write_items
write_items-bytes beyond e [] bs h = rw append-nil
write_items-bytes beyond e (i ∷ is) bs h =
    rw (write_item-bytes beyond e i bs h.0, ← append_assoc)
      (write_items-bytes beyond e is (bs ++ item_bytes e i) h.1)

pub read_items-bytes :
    (beyond : ℕ) (e : Endian) (is : List Item) (rest : List ℕ)
    → AllFit is
    → read_items beyond is (on e (items_bytes e is ++ rest)) ≡ (is, on e rest)
unfolding read_items
read_items-bytes beyond e [] rest h = refl
read_items-bytes beyond e (i ∷ is) rest h = rw (
  append_assoc,
  read_like-bytes beyond e i (items_bytes e is ++ rest) h.0,
  read_items-bytes beyond e is rest h.1,
)

-- Round trip: values of any kinds, each in the range of its type and each string of at most 65535
-- bytes, that are written to an array which holds nothing are read back in the order of writing,
-- by the readers of the same kinds, in both byte orders, and leave the array empty. The memory
-- beyond the variables that `ReadInt32` and `WriteFloat` read through a `long` does not matter.
pub read_items-write_items :
    (before after : ℕ) (q : QueueByteArray) (is : List Item)
    → q.bytes_queue ≡ []
    → AllFit is
    → read_items after is (write_items before is q) ≡ (is, q)
read_items-write_items before after q is empty h =
    subst
      (λ bs.
        read_items after is (write_items before is (on q.cur_endian bs)) ≡ (is, on q.cur_endian bs))
      (sym empty) (from_empty q.cur_endian)
  where
    from_empty :
        (e : Endian) → read_items after is (write_items before is (on e [])) ≡ (is, on e [])
    from_empty e =
        rw (write_items-bytes before e is [] h, ← append-nil (items_bytes e is))
          (read_items-bytes after e is [] h)
