-- ===== src/Prelude/Strings.antt =====
-- `std::string` as its bytes: equality, the keys of maps, C strings and decimal numbers.
use elegance.Prelude.{
  ℕ, zero, suc, ◌+◌, ◌-◌, ◌*◌, ◌/◌, ◌%◌, ◌<◌, ◌≡◌, refl, ap, ap₂, ◌∙◌, sym, ◌≢◌, Bool, true, false,
  Option, none, some, List, [], ◌∷◌, ◌++◌, arith, ◌==◌, ltb, if◌then◌else◌, ◌&&◌,
}
use elegance.Prelude.Map.{Key, ℕ-same_refl}

unfoldable pub equal_bytes : List ℕ → List ℕ → Bool
equal_bytes [] [] = true
equal_bytes [] (b ∷ bs) = false
equal_bytes (a ∷ as') [] = false
equal_bytes (a ∷ as') (b ∷ bs) = (a == b) && equal_bytes as' bs

pub equal_bytes_refl : (a : List ℕ) → equal_bytes a a ≡ true
unfolding equal_bytes
equal_bytes_refl [] = refl
equal_bytes_refl (x ∷ a) = rw (ℕ-same_refl x, equal_bytes_refl a)

pub equal_bytes→eq : (a b : List ℕ) → equal_bytes a b ≡ true → a ≡ b
unfolding equal_bytes
equal_bytes→eq [] [] h = refl
equal_bytes→eq [] (y ∷ b) h = absurd (ground arith)
equal_bytes→eq (x ∷ a) [] h = absurd (ground arith)
equal_bytes→eq (x ∷ a) (y ∷ b) h = ap₂ ◌∷◌ (ground arith) (equal_bytes→eq a b (ground arith))

pub equal_bytes_sym : (a b : List ℕ) → equal_bytes a b ≡ equal_bytes b a
unfolding equal_bytes
equal_bytes_sym [] [] = refl
equal_bytes_sym [] (y ∷ b) = refl
equal_bytes_sym (x ∷ a) [] = refl
equal_bytes_sym (x ∷ a) (y ∷ b) = ground (arith, equal_bytes_sym a b)

pub equal_bytes_cong : (a b c : List ℕ) → equal_bytes a b ≡ true → equal_bytes a c ≡ equal_bytes b c
equal_bytes_cong a b c h = ap (λ s. equal_bytes s c) (equal_bytes→eq a b h)

instance abbrev pub string_key : Key (List ℕ)
string_key = record {
  same = equal_bytes;
  same_refl = equal_bytes_refl;
  same_sym = equal_bytes_sym;
  same_cong = equal_bytes_cong;
}

-- The string at an address, up to its null byte: `none` if there is none in the memory at hand.
unfoldable pub c_string_in : List ℕ → Option (List ℕ)
c_string_in [] = none
c_string_in (b ∷ bs) =
    let rest = c_string_in bs in
    if b == 0 then some [] else (elim rest [ none ↦ none | some s ↦ some (b ∷ s) ])

-- `Without c s`: no byte of `s` is `c`.
abbrev pub Without : ℕ → List ℕ → Type 0
Without c [] = Unit
Without c (b ∷ bs) = (b ≢ c) × Without c bs

pub c_string_in_ended : (s rest : List ℕ) → Without 0 s → c_string_in (s ++ 0 ∷ rest) ≡ some s
unfolding c_string_in
c_string_in_ended [] rest h = refl
c_string_in_ended (b ∷ s) rest h =
    let other : (b == 0) ≡ false = ground (arith, h.0) in rw (other, c_string_in_ended s rest h.1)

-- `ss << n`: the decimal digits, on fuel.
unfoldable pub digits : ℕ → ℕ → List ℕ
digits zero n = []
digits (suc fuel) n =
    let front = digits fuel (n / 10) in
    if ltb n 10 then (48 + n) ∷ [] else front ++ (48 + n % 10) ∷ []

unfoldable pub decimal : ℕ → List ℕ
decimal n = digits (suc n) n

value : ℕ → List ℕ → ℕ
value acc [] = acc
value acc (d ∷ ds) = value (acc * 10 + (d - 48)) ds

value-append : (acc d : ℕ) (ds : List ℕ) → value acc (ds ++ d ∷ []) ≡ value acc ds * 10 + (d - 48)
unfolding value
value-append acc d [] = refl
value-append acc d (x ∷ ds) = value-append (acc * 10 + (x - 48)) d ds

value-digits : (fuel n : ℕ) → n < fuel → value 0 (digits fuel n) ≡ n
unfolding digits value
value-digits zero n h = absurd (omega arith)
value-digits (suc fuel) n h =
    ground (arith, value-append 0 (48 + n % 10) (digits fuel (n / 10)), value-digits fuel (n / 10))

-- Two numbers of the same digits are the same.
pub decimal_injective : (m n : ℕ) → decimal m ≡ decimal n → m ≡ n
unfolding decimal
decimal_injective m n h =
    sym (value-digits (suc m) m (omega arith))
    ∙ ap (value 0) h
    ∙ value-digits (suc n) n (omega arith)

Without-append : (c : ℕ) (s t : List ℕ) → Without c s → Without c t → Without c (s ++ t)
Without-append c [] t h k = k
Without-append c (b ∷ s) t h k = (h.0, Without-append c s t h.1 k)

digits-Without : (fuel n c : ℕ) → 57 < c → Without c (digits fuel n)
unfolding digits
digits-Without zero n c h = tt
digits-Without (suc fuel) n c h = split (ltb n 10) refl (digits-Without fuel (n / 10) c h)
  where
    split :
        (b : Bool)
        → ltb n 10 ≡ b
        → Without c (digits fuel (n / 10))
        → Without c (if b then (48 + n) ∷ [] else digits fuel (n / 10) ++ (48 + n % 10) ∷ [])
    split true t rest = (λ e. absurd (ground arith), tt)
    split false t rest =
        Without-append c (digits fuel (n / 10)) _ rest (λ e. absurd (ground arith), tt)

pub decimal-Without : (n c : ℕ) → 57 < c → Without c (decimal n)
unfolding decimal
decimal-Without n c h = digits-Without (suc n) n c h

-- What is in front of the first `c`, and what is behind it.
pub cut_injective :
    (c : ℕ) (a b s t : List ℕ)
    → Without c a
    → Without c b
    → a ++ c ∷ s ≡ b ++ c ∷ t
    → (a ≡ b) × (s ≡ t)
cut_injective c [] [] s t h k e = (refl, ground (arith, e))
cut_injective c [] (y ∷ b) s t h k e = absurd (k.0 (ground (arith, e)))
cut_injective c (x ∷ a) [] s t h k e = absurd (h.0 (ground (arith, e)))
cut_injective c (x ∷ a) (y ∷ b) s t h k e =
    let (u, v) = cut_injective c a b s t h.1 k.1 (ground (arith, e)) in
    (ap₂ ◌∷◌ (ground (arith, e)) u, v)
