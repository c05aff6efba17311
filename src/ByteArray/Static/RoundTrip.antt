-- ===== src/ByteArray/Static/RoundTrip.antt =====
-- Values written to a `StaticByteArray`, and what reads them back.
use elegance.Prelude.{
  ℕ, ◌+◌, ◌%◌, ◌≤◌, ◌<◌, ◌≡◌, refl, ap, subst, sym, ◌∙◌, some, List, [], ◌∷◌, ◌++◌, arith, length,
  length-append, append_assoc, append-nil,
}
use elegance.Prelude.Int.{
  ℤ, signed, unsigned, signed-unsigned_8, signed-unsigned_16, signed-unsigned_32,
  signed-unsigned_64,
}
use elegance.Prelude.Bytes.{
  little_bytes, from_little-little_bytes_2, from_little-little_bytes_4, from_little-little_bytes_8,
}
use elegance.ByteArray.{little_endian}
use elegance.ByteArray.Items.{
  Item, int8, int16, int32, int64, uint8, uint16, uint32, uint64, float, double, string, IsFit,
  AllFit, item_bytes, items_bytes, unsigned-lt,
}
use elegance.ByteArray.Static.{
  StaticByteArray, ◌>>=◌, max_msg_length, read_num, write_num, read_signed, write_signed,
  read_string, write_string, c_string,
}
use elegance.ByteArray.Static.Safety.{IsValid, contents}
use elegance.ByteArray.Static.Script.{
  write_item, read_like, write_items, read_items, ItemNoNull, StringsNoNull,
}
use elegance.ByteArray.Static.Access.{
  Writes, Reads, c_string-NoNull, write_num-Writes, write_string-Writes, read_num-Reads,
  read_string-Reads,
}

small_byte : (n : ℕ) → n < 256 → n % 256 ≡ n
small_byte n h = omega arith

write_byte-Writes :
    (w : ℕ) (s : StaticByteArray)
    → IsValid s
    → w < 256
    → s.has_write_length + 1 ≤ max_msg_length
    → Writes (write_num 1 w s) s (w ∷ [])
write_byte-Writes w s v f h =
    subst (λ b. Writes (write_num 1 w s) s (b ∷ [])) (small_byte w f)
      (write_num-Writes 1 w s v refl h)

-- Each writer of an item appends the item's little-endian bytes, if there is room.
write_item-Writes :
    (i : Item) (s : StaticByteArray)
    → IsValid s
    → IsFit i
    → s.has_write_length + length (item_bytes little_endian i) ≤ max_msg_length
    → Writes (write_item i s) s (item_bytes little_endian i)
unfolding write_item write_signed
write_item-Writes (int8 z) s v f h = write_byte-Writes _ s v (unsigned-lt 0x80 z (omega arith)) h
write_item-Writes (int16 z) s v f h = write_num-Writes 2 (unsigned 0x8000 z) s v refl h
write_item-Writes (int32 z) s v f h = write_num-Writes 4 (unsigned 0x8000_0000 z) s v refl h
write_item-Writes (int64 z) s v f h =
    write_num-Writes 8 (unsigned 0x8000_0000_0000_0000 z) s v refl h
write_item-Writes (uint8 n) s v f h = write_byte-Writes n s v f h
write_item-Writes (uint16 n) s v f h = write_num-Writes 2 n s v refl h
write_item-Writes (uint32 n) s v f h = write_num-Writes 4 n s v refl h
write_item-Writes (uint64 n) s v f h = write_num-Writes 8 n s v refl h
write_item-Writes (float n) s v f h = write_num-Writes 4 n s v refl h
write_item-Writes (double n) s v f h = write_num-Writes 8 n s v refl h
write_item-Writes (string str) s v f h =
    subst (λ k. Writes (write_string str s) s (little_bytes 2 k ++ str)) (omega arith)
      (write_string-Writes str s v (omega arith))

module _ (s : StaticByteArray) (rest : List ℕ) (v : IsValid s) where
  read_byte-Reads : (w : ℕ) → w < 256 → contents s ≡ w ∷ rest → Reads (read_num 1 s) w s rest
  read_byte-Reads w f e =
      read_num-Reads 1 w s rest v refl (omega arith) (e ∙ ap (λ b. b ∷ rest) (sym (small_byte w f)))

  read_word-Reads :
      (mk : ℕ → Item) (n w : ℕ)
      → Reads (read_num n s) w s rest
      → Reads (read_num n s >>= λ (a, r). some (mk a, r)) (mk w) s rest
  read_word-Reads mk n w (r, p, c) = (r, rw p, c)

  read_integer-Reads :
      (mk : ℤ → Item) (n half : ℕ) (z : ℤ)
      → signed half (unsigned half z) ≡ z
      → Reads (read_num n s) (unsigned half z) s rest
      → Reads (read_signed n half s >>= λ (a, r). some (mk a, r)) (mk z) s rest
  unfolding read_signed
  read_integer-Reads mk n half z q (r, p, c) = (r, rw p (ap (λ x. some (mk x, r)) q), c)

  read_text-Reads :
      (str : List ℕ)
      → c_string str ≡ str
      → Reads (read_string s) (c_string str) s rest
      → Reads (read_string s >>= λ (a, r). some (string a, r)) (string str) s rest
  read_text-Reads str q (r, p, c) = (r, rw p (ap (λ x. some (string x, r)) q), c)

-- Each reader of an item takes the item's bytes off.
read_like-Reads :
    (i : Item) (s : StaticByteArray) (rest : List ℕ)
    → IsValid s
    → IsFit i
    → ItemNoNull i
    → contents s ≡ item_bytes little_endian i ++ rest
    → Reads (read_like i s) i s rest
unfolding read_like
read_like-Reads (int8 z) s rest v f ok e =
    read_integer-Reads s rest v int8 1 0x80 z (signed-unsigned_8 z f)
      (read_byte-Reads s rest v _ (unsigned-lt 0x80 z (omega arith)) e)
read_like-Reads (int16 z) s rest v f ok e =
    read_integer-Reads s rest v int16 2 0x8000 z (signed-unsigned_16 z f) (
      read_num-Reads 2 _ s rest v refl
        (from_little-little_bytes_2 _ (unsigned-lt 0x8000 z (omega arith))) e)
read_like-Reads (int32 z) s rest v f ok e =
    read_integer-Reads s rest v int32 4 0x8000_0000 z (signed-unsigned_32 z f) (
      read_num-Reads 4 _ s rest v refl
        (from_little-little_bytes_4 _ (unsigned-lt 0x8000_0000 z (omega arith))) e)
read_like-Reads (int64 z) s rest v f ok e =
    read_integer-Reads s rest v int64 8 0x8000_0000_0000_0000 z (signed-unsigned_64 z f) (
      read_num-Reads 8 _ s rest v refl
        (from_little-little_bytes_8 _ (unsigned-lt 0x8000_0000_0000_0000 z (omega arith))) e)
read_like-Reads (uint8 n) s rest v f ok e =
    read_word-Reads s rest v uint8 1 n (read_byte-Reads s rest v n f e)
read_like-Reads (uint16 n) s rest v f ok e =
    read_word-Reads s rest v uint16 2 n
      (read_num-Reads 2 n s rest v refl (from_little-little_bytes_2 n f) e)
read_like-Reads (uint32 n) s rest v f ok e =
    read_word-Reads s rest v uint32 4 n
      (read_num-Reads 4 n s rest v refl (from_little-little_bytes_4 n f) e)
read_like-Reads (uint64 n) s rest v f ok e =
    read_word-Reads s rest v uint64 8 n
      (read_num-Reads 8 n s rest v refl (from_little-little_bytes_8 n f) e)
read_like-Reads (float n) s rest v f ok e =
    read_word-Reads s rest v float 4 n
      (read_num-Reads 4 n s rest v refl (from_little-little_bytes_4 n f) e)
read_like-Reads (double n) s rest v f ok e =
    read_word-Reads s rest v double 8 n
      (read_num-Reads 8 n s rest v refl (from_little-little_bytes_8 n f) e)
read_like-Reads (string str) s rest v f ok e =
    read_text-Reads s rest v str (c_string-NoNull str ok)
      (read_string-Reads str s rest v (omega arith) e)

pub write_items-Writes :
    (is : List Item) (s : StaticByteArray)
    → IsValid s
    → AllFit is
    → s.has_write_length + length (items_bytes little_endian is) ≤ max_msg_length
    → Writes (write_items is s) s (items_bytes little_endian is)
unfolding write_items
write_items-Writes [] s v f h =
    (s, refl, record { valid = v; appended = sym (append-nil (contents s)); grown = omega arith })
write_items-Writes (i ∷ is) s v f h =
    let bs = item_bytes little_endian i in
    let cs = items_bytes little_endian is in
    let size = length-append bs cs in
    let (r, p, a) = write_item-Writes i s v f.0 (omega (arith, size)) in
    let (r', p', a') = write_items-Writes is r a.valid f.1 (omega (arith, size, a.grown)) in
    (
      r',
      rw p p',
      record {
        valid = a'.valid;
        appended = a'.appended ∙ ap (λ c. c ++ cs) a.appended ∙ append_assoc (contents s) bs cs;
        grown = omega (arith, size, a.grown, a'.grown);
      },
    )

pub read_items-Reads :
    (is : List Item) (s : StaticByteArray) (rest : List ℕ)
    → IsValid s
    → AllFit is
    → StringsNoNull is
    → contents s ≡ items_bytes little_endian is ++ rest
    → Reads (read_items is s) is s rest
unfolding read_items
read_items-Reads [] s rest v f ok e = (s, refl, record { valid = v; left = e; kept = refl })
read_items-Reads (i ∷ is) s rest v f ok e =
    let bs = item_bytes little_endian i in
    let cs = items_bytes little_endian is in
    let (r, p, c) = read_like-Reads i s (cs ++ rest) v f.0 ok.0 (e ∙ append_assoc bs cs rest) in
    let (r', p', c') = read_items-Reads is r rest c.valid f.1 ok.1 c.left in
    (r', rw (p, p'), record { valid = c'.valid; left = c'.left; kept = c'.kept ∙ c.kept })

-- Round trip: values of any kinds, in the ranges of their types, whose strings have at most 65535
-- bytes and no null byte, are written to a valid array that holds nothing unread and has room for
-- them, and read back by the readers of the same kinds. No access leaves the buffer, the values
-- come back in order, the array in between holds their little-endian bytes, and at the end the
-- array is valid and holds nothing unread.
pub read_items-write_items_static :
    (is : List Item) (s : StaticByteArray)
    → IsValid s
    → contents s ≡ []
    → AllFit is
    → StringsNoNull is
    → s.has_write_length + length (items_bytes little_endian is) ≤ max_msg_length
    → (written final : StaticByteArray) × (write_items is s ≡ some written)
      × (contents written ≡ items_bytes little_endian is)
      × (read_items is written ≡ some (is, final))
      × (contents final ≡ [])
      × IsValid final
read_items-write_items_static is s v none_unread f ok room =
    let (r, p, a) = write_items-Writes is s v f room in
    let held : contents r ≡ items_bytes little_endian is =
      a.appended ∙ ap (λ c. c ++ items_bytes little_endian is) none_unread in
    let (r', p', c) = read_items-Reads is r [] a.valid f ok (held ∙ sym (append-nil _)) in
    (r, r', p, held, p', c.left, c.valid)
