-- ===== src/MemPool/Laws.antt =====
-- What the memory pools promise.
use elegance.Prelude.{
  ℕ, zero, suc, ◌+◌, ◌*◌, ◌%◌, ◌≤◌, ◌<◌, ◌≡◌, refl, arith, ap, sym, inl, inr, ◌∙◌, true, false,
  Option, none, some, List, [], ◌∷◌, ◌++◌, ltb,
}
use elegance.Prelude.Int.{int_max}
use elegance.Prelude.Map.{find, insert, find-insert, find-insert_cases, nat_key}
use elegance.MemPool.{
  MemoryPool, MemoryPoolManager, new_pool, push_items, grow, pop_free, pool_alloc, pool_free,
  fix_size, pool_for, alloc, alloc_fixed, free, is_empty, default_increase_alloc_num,
}

-- The size of an item is the multiple of 8 that is above the size that was asked for by 1 to 8.
fix_size-near :
    (size fixed : ℕ)
    → fixed % 8 ≡ 0
    → size < fixed
    → fixed ≤ size + 8
    → 10 * fixed ≤ int_max
    → fix_size size ≡ some fixed
unfolding fix_size
fix_size-near size fixed whole above near small =
    let fits : ltb int_max (size + 8) ≡ false = ground (arith, small, above) in
    rw fits (ap some (omega (arith, whole, above, near)))

push_items-more :
    (n i buff len x : ℕ) (xs : List ℕ)
    → (a : ℕ) × (rest : List ℕ) × (push_items n i buff len (x ∷ xs) ≡ a ∷ rest)
unfolding push_items
push_items-more zero i buff len x xs = (x, xs, refl)
push_items-more (suc n) i buff len x xs =
    push_items-more n (i + 1) buff len (buff + i * len) (x ∷ xs)

push_items-some :
    (n i buff len : ℕ) (xs : List ℕ)
    → 0 < n
    → (a : ℕ) × (rest : List ℕ) × (push_items n i buff len xs ≡ a ∷ rest)
unfolding push_items
push_items-some zero i buff len xs h = absurd (omega arith)
push_items-some (suc n) i buff len xs h = push_items-more n (i + 1) buff len (buff + i * len) xs

-- A pool of the manager for items of a size.
abbrev pub MakesItems : ℕ → MemoryPool → Type 0
MakesItems size p = (p.increase_num ≡ default_increase_alloc_num) × (p.item_len ≡ size)

-- What `Alloc` of a pool gives.
record Given (next size : ℕ) (p : MemoryPool) : Type 0 where
  item : ℕ
  pool : MemoryPool
  behind : ℕ
  given : pool_alloc next p ≡ some (item, pool, behind)
  makes : MakesItems size pool

pool_alloc-Given :
    (next size : ℕ) (p : MemoryPool) → MakesItems size p → 10 * size ≤ int_max → Given next size p
unfolding pool_alloc pop_free grow is_empty
pool_alloc-Given next size p h small = split p.free_buffers refl
  where
    fits : ltb int_max (p.increase_num * p.item_len) ≡ false
    fits = rw (h.0, h.1) (ground (arith, small))

    split : (l : List ℕ) → p.free_buffers ≡ l → Given next size p
    split [] e =
        let (a, rest, pushed) =
          push_items-some p.increase_num 0 next p.item_len p.free_buffers (omega (arith, h.0)) in
        record {
          item = a;
          pool = record p {
            real_buffer_ptrs = p.real_buffer_ptrs ++ next ∷ [];
            free_buffers = rest;
          };
          behind = next + p.increase_num * p.item_len;
          given =
              let none_left : is_empty p.free_buffers ≡ true = ap is_empty e in
              rw (pool_alloc, none_left, grow, fits, pop_free, pushed);
          makes = h;
        }
    split (a ∷ rest) e = record {
      item = a;
      pool = record p { free_buffers = rest };
      behind = next;
      given =
          let some_left : is_empty p.free_buffers ≡ false = ap is_empty e in
          rw (pool_alloc, some_left, pop_free, e);
      makes = h;
    }

-- Every pool of the manager has items of the size that it stands under, and makes ten at a time.
abbrev pub IsStocked : MemoryPoolManager → Type 0
IsStocked m =
    (size : ℕ) (p : MemoryPool) → find size m.memory_size_to_pool_map ≡ some p → MakesItems size p

pool_for-stocked :
    (size : ℕ) (m : MemoryPoolManager) → IsStocked m → MakesItems size (pool_for size m)
unfolding pool_for new_pool
pool_for-stocked size m h = split (find size m.memory_size_to_pool_map) refl
  where
    split :
        (o : Option MemoryPool)
        → find size m.memory_size_to_pool_map ≡ o
        → MakesItems size (pool_for size m)
    split none e = rw (pool_for, e) (refl, refl)
    split (some p) e = rw (pool_for, e) (h size p e)

IsStocked-insert :
    (m n : MemoryPoolManager) (size : ℕ) (p : MemoryPool)
    → IsStocked m
    → MakesItems size p
    → n.memory_size_to_pool_map ≡ insert size p m.memory_size_to_pool_map
    → IsStocked n
IsStocked-insert m n size p h makes e j q found =
    elim (find-insert_cases j size p q m.memory_size_to_pool_map (ap (find j) (sym e) ∙ found)) [
      | inl (t, same) ↦
          (let here : size ≡ j = ground (arith, t) in
            (
              ap MemoryPool.increase_num (sym same) ∙ makes.0,
              ap MemoryPool.item_len (sym same) ∙ makes.1 ∙ here,
            ))
      | inr old ↦ h j q old
    ]

pool_alloc-pool_free :
    (next a : ℕ) (p : MemoryPool) → pool_alloc next (pool_free a p) ≡ some (a, p, next)
unfolding pool_alloc pool_free is_empty pop_free
pool_alloc-pool_free next a p = refl

pool_for-found :
    (size : ℕ) (p : MemoryPool) (m : MemoryPoolManager)
    → find size m.memory_size_to_pool_map ≡ some p
    → pool_for size m ≡ p
unfolding pool_for
pool_for-found size p m e = rw (pool_for, e)

alloc-from :
    (size fixed a next : ℕ) (p q : MemoryPool) (m : MemoryPoolManager)
    → fix_size size ≡ some fixed
    → pool_for fixed m ≡ p
    → pool_alloc m.next_address p ≡ some (a, q, next)
    → alloc size m
      ≡ some (
        a,
        record {
          memory_to_size_map = insert a fixed m.memory_to_size_map;
          memory_size_to_pool_map = insert fixed q m.memory_size_to_pool_map;
          next_address = next;
        },
      )
unfolding alloc alloc_fixed
alloc-from size fixed a next p q m e f g =
    rw (alloc, e, alloc_fixed, ap (pool_alloc m.next_address) f ∙ g)

-- Where every pool has items of the size it stands under and makes ten at a time, an allocation of
-- `size` bytes succeeds if ten items of the size that the pools use for it, which is above `size` by
-- 1 to 8 and a multiple of 8, are no more than INT_MAX bytes. The memory can be freed, and the next
-- allocation that an item of the same size serves then gives it again. The pools stay as they have
-- to be.
pub alloc-free :
    (m : MemoryPoolManager) (size size' fixed : ℕ)
    → IsStocked m
    → fixed % 8 ≡ 0
    → size < fixed
    → fixed ≤ size + 8
    → size' < fixed
    → fixed ≤ size' + 8
    → 10 * fixed ≤ int_max
    → (a : ℕ) × (m1 m2 m3 : MemoryPoolManager) × (alloc size m ≡ some (a, m1))
      × (free a m1 ≡ (true, m2))
      × (alloc size' m2 ≡ some (a, m3))
      × IsStocked m1
      × IsStocked m2
      × IsStocked m3
unfolding free pool_free
alloc-free m size size' fixed stocked whole above near above' near' small =
    let fixes : fix_size size ≡ some fixed = fix_size-near size fixed whole above near small in
    let fixes' : fix_size size' ≡ some fixed = fix_size-near size' fixed whole above' near' small in
    let g =
      pool_alloc-Given m.next_address fixed (pool_for fixed m) (pool_for-stocked fixed m stocked)
        small in
    let m1 : MemoryPoolManager = record {
      memory_to_size_map = insert g.item fixed m.memory_to_size_map;
      memory_size_to_pool_map = insert fixed g.pool m.memory_size_to_pool_map;
      next_address = g.behind;
    } in
    let sized : find g.item m1.memory_to_size_map ≡ some fixed =
      ground (arith, find-insert g.item g.item fixed m.memory_to_size_map) in
    let pooled : find fixed m1.memory_size_to_pool_map ≡ some g.pool =
      ground (arith, find-insert fixed fixed g.pool m.memory_size_to_pool_map) in
    let m2 : MemoryPoolManager = record m1 {
      memory_size_to_pool_map = insert fixed (pool_free g.item g.pool) m1.memory_size_to_pool_map;
    } in
    let again : find fixed m2.memory_size_to_pool_map ≡ some (pool_free g.item g.pool) =
      ground
        (arith, find-insert fixed fixed (pool_free g.item g.pool) m1.memory_size_to_pool_map) in
    let m3 : MemoryPoolManager = record m2 {
      memory_to_size_map = insert g.item fixed m2.memory_to_size_map;
      memory_size_to_pool_map = insert fixed g.pool m2.memory_size_to_pool_map;
    } in
    let stocked1 : IsStocked m1 = IsStocked-insert m m1 fixed g.pool stocked g.makes refl in
    let stocked2 : IsStocked m2 =
      IsStocked-insert m1 m2 fixed (pool_free g.item g.pool) stocked1 g.makes refl in
    (
      g.item,
      m1,
      m2,
      m3,
      alloc-from size fixed g.item g.behind _ g.pool m fixes refl g.given,
      rw (free, sized, pooled),
      alloc-from size' fixed g.item g.behind (pool_free g.item g.pool) g.pool m2 fixes'
          (pool_for-found fixed _ m2 again) (pool_alloc-pool_free g.behind g.item g.pool),
      stocked1,
      stocked2,
      IsStocked-insert m2 m3 fixed g.pool stocked2 g.makes refl,
    )

-- Memory that no allocation has given is not freed, and nothing changes.
pub free-unknown :
    (m : MemoryPoolManager) (a : ℕ) → find a m.memory_to_size_map ≡ none → free a m ≡ (false, m)
unfolding free
free-unknown m a h = rw (free, h)
