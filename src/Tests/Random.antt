-- ===== src/Tests/Random.antt =====
-- Random numbers at concrete inputs.
use elegance.Prelude.{◌≡◌, refl, arith, true, false, some, none}
use elegance.Prelude.Int.{ℤ, pos, negsuc, ltb_ℤ}
use elegance.Common.Random.{
  random_num, random_between, random_below, offset, random_num-within, random_num-equal,
}

-- From -3 to 4, 23 is 2 behind the lower bound.
random_num_test : random_num 2147483647 23 0 (pos 4) (negsuc 2) ≡ some (negsuc 0)
unfolding random_num random_between offset
random_num_test = refl

-- The widest interval: what `rand` gives twice is put together, if that is an `int`.
random_num_wide_test : random_num 2147483647 3 5 (pos 0) (pos 2147483647) ≡ some (pos 196613)
unfolding random_num random_between offset
random_num_wide_test = refl

random_num_too_wide_test : random_num 2147483647 3 5 (negsuc 0) (pos 2147483647) ≡ none
unfolding random_num random_between
random_num_too_wide_test = refl

random_below_test : random_below 2147483647 23 0 (pos 10) ≡ some (pos 3)
unfolding random_below random_num random_between offset
random_below_test = refl

random_below_zero_test : random_below 2147483647 23 0 (pos 0) ≡ none
unfolding random_below
random_below_zero_test = random_num-equal 2147483647 23 0 (pos 0) (omega arith)

random_num-within_example :
    (z : ℤ) × (random_num 2147483647 23 0 (negsuc 2) (pos 4) ≡ some z)
    × (random_num 2147483647 23 0 (pos 4) (negsuc 2) ≡ some z)
    × (ltb_ℤ z (negsuc 2) ≡ false)
    × (ltb_ℤ z (pos 4) ≡ true)
random_num-within_example =
    random_num-within 2147483647 23 0 (negsuc 2) (pos 4) refl (omega arith) (omega arith)
