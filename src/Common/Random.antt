-- ===== src/Common/Random.antt =====
-- elegance/common/random.cpp: `Random`. `RAND_MAX` and what `rand` gives are arguments, and the seed is
-- left out, since only `rand` reads it. A result that is no `int` is `none`, as is a division by 0.
use elegance.Prelude.{
  ℕ, ◌+◌, ◌-◌, ◌*◌, ◌%◌, ◌<◌, ◌≤◌, ◌≡◌, true, false, Option, none, some, arith, ltb, leb, ◌==◌,
  if◌then◌else◌,
}
use native.Mathlib.Nat.{mod-lt}
use elegance.Prelude.Int.{ℤ, int_max, pos, pos_part, neg_part, sub_ℕ, ltb_ℤ}

-- `max_num - min_num`, where it is not negative.
abbrev pub interval : ℤ → ℤ → ℕ
interval lo hi = (pos_part hi + neg_part lo) - (pos_part lo + neg_part hi)

-- `min_num + int(rand_num % interval_num)`.
unfoldable pub offset : ℤ → ℕ → ℕ → Option ℤ
offset lo width r =
    if width == 0 then none else some (sub_ℕ (pos_part lo + r % width) (neg_part lo))

-- `RandomNum(min_num, max_num)` behind the exchange; `r` and `s` are what the calls of `rand` give.
unfoldable pub random_between : ℕ → ℕ → ℕ → ℤ → ℤ → Option ℤ
random_between rand_max r s lo hi =
    let width = interval lo hi in
    if leb width int_max
    then (if ltb width rand_max
        then offset lo width r
        else (if leb (r * 65536 + s) int_max then offset lo width (r * 65536 + s) else none))
    else none

unfoldable pub random_num : ℕ → ℕ → ℕ → ℤ → ℤ → Option ℤ
random_num rand_max r s min_num max_num =
    if ltb_ℤ max_num min_num
    then random_between rand_max r s max_num min_num
    else random_between rand_max r s min_num max_num

-- `RandomNum(max_num)`.
unfoldable pub random_below : ℕ → ℕ → ℕ → ℤ → Option ℤ
random_below rand_max r s max_num = random_num rand_max r s (pos 0) max_num

-- The parts of an integer that is the difference of two numbers.
sub-parts : (a n : ℕ) → pos_part (sub_ℕ a n) + n ≡ neg_part (sub_ℕ a n) + a
sub-parts a n = ground arith

-- What lies between two bounds.
offset-within :
    (lo hi : ℤ) (r : ℕ)
    → ltb_ℤ lo hi ≡ true
    → (z : ℤ) × (offset lo (interval lo hi) r ≡ some z) × (ltb_ℤ z lo ≡ false) × (ltb_ℤ z hi ≡ true)
unfolding offset
offset-within lo hi r less =
    let wide : (interval lo hi == 0) ≡ false = ground (arith, less) in
    let z = sub_ℕ (pos_part lo + r % interval lo hi) (neg_part lo) in
    let parts = sub-parts (pos_part lo + r % interval lo hi) (neg_part lo) in
    let below : r % interval lo hi < interval lo hi = mod-lt r (ground (arith, less)) in
    (z, rw wide, ground (arith, parts), ground (arith, parts, below, less))

-- For two bounds whose difference is an `int` less than `RAND_MAX`, and whatever `rand` gives: the
-- number is the same in either order of the bounds, it is at least the lower one and less than the
-- higher one.
pub random_num-within :
    (rand_max r s : ℕ) (lo hi : ℤ)
    → ltb_ℤ lo hi ≡ true
    → interval lo hi ≤ int_max
    → interval lo hi < rand_max
    → (z : ℤ) × (random_num rand_max r s lo hi ≡ some z)
      × (random_num rand_max r s hi lo ≡ some z)
      × (ltb_ℤ z lo ≡ false)
      × (ltb_ℤ z hi ≡ true)
unfolding random_num random_between
random_num-within rand_max r s lo hi less fits small =
    let (z, e, above, below) = offset-within lo hi r less in
    let back : ltb_ℤ hi lo ≡ false = ground (arith, less) in
    let a : leb (interval lo hi) int_max ≡ true = ground (arith, fits) in
    let b : ltb (interval lo hi) rand_max ≡ true = ground (arith, small) in
    (z, rw (back, a, b, e), rw (less, a, b, e), above, below)

-- Between two equal bounds there is nothing to take: the width is 0, and `rand` is divided by it.
pub random_num-equal :
    (rand_max r s : ℕ) (m : ℤ) → 0 < rand_max → random_num rand_max r s m m ≡ none
unfolding random_num random_between offset
random_num-equal rand_max r s m some_max =
    let self : ltb_ℤ m m ≡ false = ground arith in
    let zero_width : interval m m ≡ 0 = omega arith in
    let b : ltb 0 rand_max ≡ true = ground (arith, some_max) in rw (self, zero_width, b)
