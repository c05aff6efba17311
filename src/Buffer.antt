-- ===== src/Buffer.antt =====
-- elegance/memory/flexible_buffer.hpp: a buffer that is allocated anew when its size changes.
-- `none` is undefined behaviour. A size is a number: the source's sizes are `int`s, and what
-- passes a negative one is not modelled.
pub mod Laws
use elegance.Prelude.{
  ℕ, zero, suc, ◌+◌, ◌-◌, Bool, true, false, Option, none, some, List, [], ◌∷◌, ◌++◌, length, take,
  drop, replicate, ltb, leb, ◌==◌, if◌then◌else◌, min, ◌||◌,
}

-- The pointer `buffer`: null, to an allocated array, or to one that has been deleted.
pub data Pointer : Type 0 where
  null : Pointer
  live : List ℕ → Pointer
  freed : Pointer

pub record FlexibleBuffer : Type 0 where
  pub buffer : Pointer
  pub buffer_size : ℕ

-- The constructor.
unfoldable pub new_buffer : FlexibleBuffer
new_buffer = record { buffer = null; buffer_size = 0 }

-- `memcpy` into an array.
unfoldable pub copy_into : List ℕ → ℕ → List ℕ → Option (List ℕ)
copy_into bytes at src =
    if ltb (length bytes) (at + length src)
    then none
    else some (take at bytes ++ (src ++ drop (at + length src) bytes))

-- `memcpy(buffer + at, src, length src)`: no byte may be copied through a null or deleted pointer.
unfoldable pub write_at : ℕ → List ℕ → FlexibleBuffer → Option FlexibleBuffer
write_at at src b = elim b.buffer [
  | null ↦ if length src == 0 then some b else none
  | live bytes ↦ (elim (copy_into bytes at src) [
    | none ↦ none
    | some new ↦ some (record b { buffer = live new })
  ])
  | freed ↦ none
]

-- The new array of `ChangeBufferSize`, behind the copy of `kept` bytes of the old one and its
-- deletion. Deleting a deleted array is undefined.
unfoldable pub reallocate : ℕ → ℕ → Pointer → Option Pointer
reallocate size kept null = some (if size == 0 then null else live (replicate size 0))
reallocate size kept (live bytes) =
    if ltb (length bytes) kept
    then none
    else some (if size == 0 then freed else live (take kept bytes ++ replicate (size - kept) 0))
reallocate size kept freed = none

unfoldable pub change_buffer_size : ℕ → FlexibleBuffer → Option FlexibleBuffer
change_buffer_size size b =
    if b.buffer_size == size
    then some b
    else (elim (reallocate size (if ltb size b.buffer_size then size else b.buffer_size) b.buffer) [
      | none ↦ none
      | some p ↦ some (record { buffer = p; buffer_size = size })
    ])

unfoldable pub set_buffer : List ℕ → FlexibleBuffer → Option (Bool × FlexibleBuffer)
set_buffer buff b =
    if length buff == 0 then some (false, b) else (elim (change_buffer_size (length buff) b) [
      | none ↦ none
      | some c ↦ (elim (write_at 0 buff c) [ none ↦ none | some d ↦ some (true, d) ])
    ])

unfoldable pub zero_pointer : ℕ → Pointer → Option (Bool × Pointer)
zero_pointer size null = some (false, null)
zero_pointer size (live bytes) =
    if size == 0
    then some (false, live bytes)
    else if ltb (length bytes) size
    then none
    else some (true, live (replicate size 0 ++ drop size bytes))
zero_pointer size freed = if size == 0 then some (false, freed) else none

unfoldable pub zero_all_bytes : FlexibleBuffer → Option (Bool × FlexibleBuffer)
zero_all_bytes b = elim (zero_pointer b.buffer_size b.buffer) [
  | none ↦ none
  | some (done, p) ↦ some (done, record b { buffer = p })
]
