-- ===== src/ByteArray/Queue/Words.antt =====
-- The word readers and writers of `QueueByteArray` against the byte order that they implement.
use elegance.Prelude.{ℕ, ◌/◌, ◌%◌, ◌^◌, ◌<◌, ◌≡◌, List, [], ◌∷◌, ◌++◌, arith, append_assoc}
use elegance.ByteArray.{Endian, big_endian, little_endian}
use elegance.ByteArray.Items.{word_bytes}
use elegance.ByteArray.Queue.{
  QueueByteArray, read_uint8, read_uint16, read_uint32, read_uint64, write_uint8, write_uint16,
  write_uint32, write_uint64,
}

abbrev pub on : Endian → List ℕ → QueueByteArray
on e bs = record { cur_endian = e; bytes_queue = bs }

pub write_uint16-word_bytes :
    (e : Endian) (w : ℕ) (bs : List ℕ)
    → w < 2 ^ 16
    → write_uint16 w (on e bs) ≡ on e (bs ++ word_bytes e 2 w)
unfolding write_uint16 write_uint8
write_uint16-word_bytes big_endian w bs h =
    ground (arith, append_assoc bs (w / 2 ^ 8 % 2 ^ 8 ∷ []) (w % 256 ∷ []))
write_uint16-word_bytes little_endian w bs h =
    ground (arith, append_assoc bs (w % 256 ∷ []) (w / 2 ^ 8 % 2 ^ 8 ∷ []))

pub write_uint32-word_bytes :
    (e : Endian) (w : ℕ) (bs : List ℕ)
    → w < 2 ^ 32
    → write_uint32 w (on e bs) ≡ on e (bs ++ word_bytes e 4 w)
unfolding write_uint32 write_uint16 write_uint8
write_uint32-word_bytes big_endian w bs h = simp append_assoc (ground arith)
write_uint32-word_bytes little_endian w bs h = simp append_assoc (ground arith)

pub write_uint64-word_bytes :
    (e : Endian) (w : ℕ) (bs : List ℕ)
    → w < 2 ^ 64
    → write_uint64 w (on e bs) ≡ on e (bs ++ word_bytes e 8 w)
unfolding write_uint64 write_uint32 write_uint16 write_uint8
write_uint64-word_bytes big_endian w bs h = simp append_assoc (ground arith)
write_uint64-word_bytes little_endian w bs h = simp append_assoc (ground arith)

pub read_uint16-word_bytes :
    (e : Endian) (w : ℕ) (rest : List ℕ)
    → w < 2 ^ 16
    → read_uint16 (on e (word_bytes e 2 w ++ rest)) ≡ (w, on e rest)
unfolding read_uint16 read_uint8
read_uint16-word_bytes big_endian w rest h = ground arith
read_uint16-word_bytes little_endian w rest h = ground arith

pub read_uint32-word_bytes :
    (e : Endian) (w : ℕ) (rest : List ℕ)
    → w < 2 ^ 32
    → read_uint32 (on e (word_bytes e 4 w ++ rest)) ≡ (w, on e rest)
unfolding read_uint32 read_uint16 read_uint8
read_uint32-word_bytes big_endian w rest h = ground arith
read_uint32-word_bytes little_endian w rest h = ground arith

pub read_uint64-word_bytes :
    (e : Endian) (w : ℕ) (rest : List ℕ)
    → w < 2 ^ 64
    → read_uint64 (on e (word_bytes e 8 w ++ rest)) ≡ (w, on e rest)
unfolding read_uint64 read_uint32 read_uint16 read_uint8
read_uint64-word_bytes big_endian w rest h = ground arith
read_uint64-word_bytes little_endian w rest h = ground arith
