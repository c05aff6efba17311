-- ===== src/Buffer/Laws.antt =====
-- The representation of a `FlexibleBuffer`, and what each operation keeps of the bytes.
use elegance.Prelude.{
  ℕ, zero, suc, ◌+◌, ◌-◌, ◌≤◌, ◌<◌, ◌≡◌, refl, ap, sym, ◌∙◌, true, none, some, List, [], ◌∷◌, ◌++◌,
  arith, length, take, drop, replicate, length-append, length-take, length-drop, length-replicate,
  take_all, drop_all, take_prefix, append-nil,
}
use elegance.Buffer.{
  live, freed, FlexibleBuffer, new_buffer, copy_into, write_at, reallocate, change_buffer_size,
  set_buffer, zero_pointer, zero_all_bytes,
}

-- The buffer whose array holds the given bytes, and no others.
abbrev pub holding : List ℕ → FlexibleBuffer
holding bytes = record { buffer = live bytes; buffer_size = length bytes }

-- The bytes of an array that is reallocated: the first ones stay, and zeros fill up.
abbrev pub resized : ℕ → List ℕ → List ℕ
resized size bytes = take size bytes ++ replicate (size - length bytes) 0

length-resized : (size : ℕ) (bytes : List ℕ) → length (resized size bytes) ≡ size
length-resized size bytes = omega (
  arith,
  length-append (take size bytes) (replicate (size - length bytes) 0),
  length-take size bytes,
  length-replicate {A = ℕ} (size - length bytes) 0,
)

pub take_more : (size : ℕ) (bytes : List ℕ) → length bytes ≤ size → take size bytes ≡ bytes
take_more zero [] h = refl
take_more (suc size) [] h = refl
take_more zero (x ∷ bytes) h = absurd (omega arith)
take_more (suc size) (x ∷ bytes) h = ap (◌∷◌ x) (take_more size bytes (omega arith))

no_fill :
    (size : ℕ) (bytes : List ℕ)
    → size ≤ length bytes
    → replicate {A = ℕ} (size - length bytes) 0 ≡ []
no_fill size bytes h = let e : size - length bytes ≡ 0 = omega arith in rw e

-- `ChangeBufferSize` of an array to a positive size leaves an array of that size that starts with
-- the old bytes, as many as fit, and has zeros behind them.
pub change_buffer_size-resized :
    (bytes : List ℕ) (size : ℕ)
    → 0 < size
    → change_buffer_size size (holding bytes) ≡ some (holding (resized size bytes))
unfolding change_buffer_size reallocate
change_buffer_size-resized bytes size h = ground (
  arith,
  length-resized size bytes,
  take_more size bytes,
  take_all bytes,
  no_fill size bytes,
  append-nil (take size bytes),
)

-- The first allocation of a buffer is all zeros.
pub change_buffer_size-new :
    (size : ℕ) → 0 < size → change_buffer_size size new_buffer ≡ some (holding (replicate size 0))
unfolding change_buffer_size reallocate new_buffer
change_buffer_size-new size h = ground (arith, length-replicate {A = ℕ} size 0)

-- Bytes that fit at their place are copied there, and the others stay.
pub write_at-holding :
    (bytes src : List ℕ) (at : ℕ)
    → at + length src ≤ length bytes
    → write_at at src (holding bytes)
      ≡ some (holding (take at bytes ++ (src ++ drop (at + length src) bytes)))
unfolding write_at copy_into
write_at-holding bytes src at h =
    let new = take at bytes ++ (src ++ drop (at + length src) bytes) in
    let same : length new ≡ length bytes = omega (
      arith,
      length-append (take at bytes) (src ++ drop (at + length src) bytes),
      length-append src (drop (at + length src) bytes),
      length-take at bytes,
      length-drop (at + length src) bytes,
    ) in
    ground (arith, same)

drop_prefix_more : (pre rest : List ℕ) (k : ℕ) → drop (length pre + k) (pre ++ rest) ≡ drop k rest
drop_prefix_more [] rest k = ap (λ n. drop n rest) (omega arith)
drop_prefix_more (x ∷ pre) rest k =
    ap (λ n. drop n (x ∷ pre ++ rest)) {y = suc (length pre + k)} (omega arith)
    ∙ drop_prefix_more pre rest k

-- Bytes copied behind a prefix of the array replace as many bytes there.
pub write_at-behind :
    (pre src tail : List ℕ)
    → length src ≤ length tail
    → write_at (length pre) src (holding (pre ++ tail))
      ≡ some (holding (pre ++ (src ++ drop (length src) tail)))
write_at-behind pre src tail h =
    write_at-holding (pre ++ tail) src (length pre) (omega (arith, length-append pre tail))
    ∙ rw (take_prefix pre tail, drop_prefix_more pre tail (length src))

-- `ZeroAllBytes` of an array that is not empty.
pub zero_all_bytes-holding :
    (bytes : List ℕ)
    → 0 < length bytes
    → zero_all_bytes (holding bytes) ≡ some (true, holding (replicate (length bytes) 0))
unfolding zero_all_bytes zero_pointer
zero_all_bytes-holding bytes h = ground (
  arith,
  drop_all bytes,
  append-nil (replicate {A = ℕ} (length bytes) 0),
  length-replicate {A = ℕ} (length bytes) 0,
)

-- `SetBuffer` of at least one byte leaves an array of exactly those bytes.
pub set_buffer-holding :
    (buff bytes : List ℕ)
    → 0 < length buff
    → set_buffer buff (holding bytes) ≡ some (true, holding buff)
unfolding set_buffer
set_buffer-holding buff bytes h =
    let all : drop (length buff) (resized (length buff) bytes) ≡ [] =
      ap (λ k. drop k (resized (length buff) bytes)) (sym (length-resized (length buff) bytes))
      ∙ drop_all (resized (length buff) bytes) in
    ground (
      arith,
      change_buffer_size-resized bytes (length buff),
      write_at-holding (resized (length buff) bytes) buff 0,
      length-resized (length buff) bytes,
      all,
      append-nil buff,
    )

-- `ChangeBufferSize(0)` of an array deletes it and keeps its address: any later change to another
-- size deletes it once more.
pub change_buffer_size-twice :
    (bytes : List ℕ) (size : ℕ)
    → 0 < length bytes
    → 0 < size
    → (b : FlexibleBuffer) × (change_buffer_size 0 (holding bytes) ≡ some b)
      × (change_buffer_size size b ≡ none)
unfolding change_buffer_size reallocate
change_buffer_size-twice bytes size h k =
    (record { buffer = freed; buffer_size = 0 }, ground arith, ground arith)
