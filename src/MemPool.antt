-- ===== src/MemPool.antt =====
-- elegance/memory/mempool.hpp and .cpp: `MemoryPool`, which cuts blocks of memory into items, and
-- `MemoryPoolManager`, with one pool for each size. An address is a number. Where `new` puts a
-- block, and whether it is free, is the allocator's: a new block lies behind all blocks so far,
-- at `next_address`, an address that is not null. Sizes are not negative. `none` is undefined
-- behaviour: the top of an empty stack, or a size that is no `int`. The mutexes are left out.
pub mod Laws
use elegance.Prelude.{
  ℕ, zero, suc, ◌+◌, ◌-◌, ◌*◌, ◌%◌, ◌≤◌, ◌<◌, ltb, if◌then◌else◌, Bool, true, false, Option, none,
  some, List, [], ◌∷◌, ◌++◌, length,
}
use elegance.Prelude.Int.{int_max}
use elegance.Prelude.Map.{Map, find, insert, nat_key}

pub record MemoryPool : Type 0 where
  pub item_len : ℕ
  pub increase_num : ℕ
  pub free_buffers : List ℕ
  pub real_buffer_ptrs : List ℕ

-- MEMORY_POOL_DEFAULT_INCREASE_ALLOC_NUM
abbrev pub default_increase_alloc_num : ℕ
default_increase_alloc_num = 10

-- The constructor.
unfoldable pub new_pool : ℕ → ℕ → MemoryPool
new_pool item_len increase_num = record {
  item_len = item_len;
  increase_num = increase_num;
  free_buffers = [];
  real_buffer_ptrs = [];
}

-- The loop of `Alloc`: `n` items, from the `i`-th on, pushed one after another.
unfoldable pub push_items : ℕ → ℕ → ℕ → ℕ → List ℕ → List ℕ
push_items zero i buff len stack = stack
push_items (suc n) i buff len stack = push_items n (i + 1) buff len ((buff + i * len) ∷ stack)

-- A new block at `buff`, whose length is a product of two `int`.
unfoldable pub grow : ℕ → MemoryPool → Option MemoryPool
grow buff p =
    if ltb int_max (p.increase_num * p.item_len)
    then none
    else some (record p {
      real_buffer_ptrs = p.real_buffer_ptrs ++ buff ∷ [];
      free_buffers = push_items p.increase_num 0 buff p.item_len p.free_buffers;
    })

unfoldable pub is_empty : List ℕ → Bool
is_empty [] = true
is_empty (x ∷ xs) = false

-- `top` and `pop`, which an empty stack does not have.
unfoldable pub pop_free : MemoryPool → Option (ℕ × MemoryPool)
pop_free p = elim p.free_buffers [
  | [] ↦ none
  | a ∷ rest ↦ some (a, record p { free_buffers = rest })
]

-- `Alloc`, with the address where a new block would be and the one behind it: the item, the pool
-- and where the next block would be.
unfoldable pub pool_alloc : ℕ → MemoryPool → Option (ℕ × MemoryPool × ℕ)
pool_alloc next p = elim (is_empty p.free_buffers) [
  | true ↦ (elim (grow next p) [
    | none ↦ none
    | some grown ↦ (elim (pop_free grown) [
      | none ↦ none
      | some (a, q) ↦ some (a, q, next + p.increase_num * p.item_len)
    ])
  ])
  | false ↦ (elim (pop_free p) [ none ↦ none | some (a, q) ↦ some (a, q, next) ])
]

-- `Free`, which does not check what it is given.
unfoldable pub pool_free : ℕ → MemoryPool → MemoryPool
pool_free a p = record p { free_buffers = a ∷ p.free_buffers }

pub record MemoryPoolManager : Type 0 where
  pub memory_to_size_map : Map ℕ ℕ
  pub memory_size_to_pool_map : Map ℕ MemoryPool
  pub next_address : ℕ

-- The size of an item for `size` bytes: `size + align - size % align`, with `sizeof(long)` = 8.
unfoldable pub fix_size : ℕ → Option ℕ
fix_size size = if ltb int_max (size + 8) then none else some (size + 8 - size % 8)

unfoldable pub pool_for : ℕ → MemoryPoolManager → MemoryPool
pool_for size m = elim (find size m.memory_size_to_pool_map) [
  | none ↦ new_pool size default_increase_alloc_num
  | some p ↦ p
]

-- `Alloc` behind the sum that gives the size of an item.
unfoldable pub alloc_fixed : ℕ → MemoryPoolManager → Option (ℕ × MemoryPoolManager)
alloc_fixed fixed m = elim (pool_alloc m.next_address (pool_for fixed m)) [
  | none ↦ none
  | some (a, p, next) ↦ some (
    a,
    record {
      memory_to_size_map = insert a fixed m.memory_to_size_map;
      memory_size_to_pool_map = insert fixed p m.memory_size_to_pool_map;
      next_address = next;
    },
  )
]

unfoldable pub alloc : ℕ → MemoryPoolManager → Option (ℕ × MemoryPoolManager)
alloc size m = elim (fix_size size) [ none ↦ none | some fixed ↦ alloc_fixed fixed m ]

unfoldable pub free : ℕ → MemoryPoolManager → Bool × MemoryPoolManager
free a m = elim (find a m.memory_to_size_map) [
  | none ↦ (false, m)
  | some size ↦ (elim (find size m.memory_size_to_pool_map) [
    | none ↦ (false, m)
    | some p ↦ (
      true,
      record m { memory_size_to_pool_map = insert size (pool_free a p) m.memory_size_to_pool_map },
    )
  ])
]
