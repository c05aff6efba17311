-- ===== src/Network/Manager/Ids/Fresh.antt =====
-- `GetFreeNetID` gives a number that no connection has.
use elegance.Prelude.{
  ℕ, ◌+◌, ◌≤◌, ◌≡◌, ◌<◌, refl, arith, Option, none, some, List, [], ◌∷◌, ap, sym, subst, ◌⊎◌, inl,
  inr,
}
use elegance.Prelude.Map.{nat_key}
use elegance.Network.Endpoint.{endpoint_key}
use elegance.Network.Manager.{NetworkManager, get_free_net_id}
use elegance.Prelude.Counts.{count, count-head, count-tail}
use elegance.Network.Manager.Ids.{WellNumbered, IsFresh}

get_free_net_id-same :
    (m : NetworkManager)
    → ((get_free_net_id m).1.endpoint_to_net_id ≡ m.endpoint_to_net_id)
      × ((get_free_net_id m).1.net_id_to_endpoint ≡ m.net_id_to_endpoint)
unfolding get_free_net_id
get_free_net_id-same m = ground arith

none-unless : {A : Type 0} → (o : Option A) → ((a : A) → o ≡ some a → ⊥) → o ≡ none
none-unless none h = refl
none-unless (some a) h = absurd (h a refl)

abbrev Numbered : ℕ × NetworkManager → Type 0
Numbered r = WellNumbered r.1 × IsFresh r.0 r.1

new_id-Numbered :
    (m : NetworkManager)
    → WellNumbered m
    → m.free_net_id_list ≡ []
    → Numbered (m.max_net_id + 1, record m { max_net_id = m.max_net_id + 1 })
new_id-Numbered m w e = (
  record {
    free_once = w.free_once;
    free_bounded = λ id h. let (a, b) = w.free_bounded id h in (a, omega (arith, b));
    taken = λ ep id h. let (a, b, c) = w.taken ep id h in (a, omega (arith, b), c);
    known = λ ep id h. let (a, b, c) = w.known ep id h in (a, omega (arith, b), c);
    one_each = w.one_each;
  },
  record {
    is_taken = (omega arith, omega arith, rw e);
    no_number = λ ep h. absurd (omega (arith, (w.taken ep (m.max_net_id + 1) h).1));
    no_endpoint = none-unless _ (λ ep h. omega (arith, (w.known ep (m.max_net_id + 1) h).1));
  },
)

top_id-Numbered :
    (m : NetworkManager) (id : ℕ) (ids : List ℕ)
    → WellNumbered m
    → m.free_net_id_list ≡ id ∷ ids
    → Numbered (id, record m { free_net_id_list = ids })
top_id-Numbered m id ids w e = (
  record {
    free_once = λ j. omega (arith, was j, w.free_once j, count-tail j id ids);
    free_bounded = λ j h. w.free_bounded j (omega (arith, was j, count-tail j id ids));
    taken = λ ep j h.
        let (a, b, c) = w.taken ep j h in (a, b, omega (arith, c, was j, count-tail j id ids));
    known = λ ep j h.
        let (a, b, c) = w.known ep j h in (a, b, omega (arith, c, was j, count-tail j id ids));
    one_each = w.one_each;
  },
  record {
    is_taken = (in_free.0, in_free.1, omega (arith, was id, w.free_once id, count-head id ids));
    no_number = λ ep h. absurd (omega (arith, (w.taken ep id h).2, was id, count-head id ids));
    no_endpoint =
        none-unless _ (λ ep h. omega (arith, (w.known ep id h).2, was id, count-head id ids));
  },
)
  where
    was : (j : ℕ) → count j m.free_net_id_list ≡ count j (id ∷ ids)
    was j = ap (count j) e

    in_free : (0 < id) × (id ≤ m.max_net_id)
    in_free = w.free_bounded id (omega (arith, was id, count-head id ids))

cases : (l : List ℕ) → (l ≡ []) ⊎ ((k : ℕ) × (ks : List ℕ) × (l ≡ k ∷ ks))
cases [] = inl refl
cases (k ∷ ks) = inr (k, ks, refl)

get_free_net_id-empty :
    (m : NetworkManager)
    → m.free_net_id_list ≡ []
    → get_free_net_id m ≡ (m.max_net_id + 1, record m { max_net_id = m.max_net_id + 1 })
unfolding get_free_net_id
get_free_net_id-empty m h = ground (arith, h)

get_free_net_id-top :
    (m : NetworkManager) (k : ℕ) (ks : List ℕ)
    → m.free_net_id_list ≡ k ∷ ks
    → get_free_net_id m ≡ (k, record m { free_net_id_list = ks })
unfolding get_free_net_id
get_free_net_id-top m k ks h = ground (arith, h)

-- The number that `GetFreeNetID` gives is above zero and no connection's, and the numbers stay in
-- order.
pub get_free_net_id-IsFresh :
    (m : NetworkManager)
    → WellNumbered m
    → WellNumbered (get_free_net_id m).1 × IsFresh (get_free_net_id m).0 (get_free_net_id m).1
get_free_net_id-IsFresh m w = elim (cases m.free_net_id_list) [
  | inl e ↦ subst Numbered (sym (get_free_net_id-empty m e)) (new_id-Numbered m w e)
  | inr (k, ks, e) ↦
      subst Numbered (sym (get_free_net_id-top m k ks e)) (top_id-Numbered m k ks w e)
]
