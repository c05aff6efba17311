-- ===== src/Rpc/Session/Ids.antt =====
-- The ids of the requests of a session.
use elegance.Prelude.{
  ℕ, ◌+◌, ◌%◌, ◌≡◌, ◌<◌, refl, arith, Option, none, some, List, [], ◌∷◌, if◌then◌else◌, sym, subst,
  ◌⊎◌, inl, inr, ltb,
}
use elegance.Prelude.Map.{find, insert, nat_key}
use elegance.Prelude.Counts.{count, count-head, present, present-insert}
use elegance.Rpc.Session.{RpcSession, get_request_id}

-- The ids below `next_request_id_` are those of the requests that wait for a response and those
-- to be given again, and no id is both.
pub record WellNumbered (s : RpcSession) : Type 0 where
  pub partition :
      (id : ℕ)
      → count id s.free_request_id_stack + present (find id s.request_list)
        ≡ (if ltb id s.next_request_id then 1 else 0)
  pub bounded : s.next_request_id < 32767

-- An id can be given without the counter going back to 0.
abbrev pub Room : List ℕ → ℕ → Type 0
Room [] next = next < 32766
Room (id ∷ ids) next = Unit {0}

abbrev pub HasRoom : RpcSession → Type 0
HasRoom s = Room s.free_request_id_stack s.next_request_id

pub get_request_id-empty :
    (s : RpcSession)
    → s.free_request_id_stack ≡ []
    → get_request_id s
      ≡ (s.next_request_id, record s { next_request_id = (s.next_request_id + 1) % 32767 })
unfolding get_request_id
get_request_id-empty s h = ground (arith, h)

get_request_id-top :
    (s : RpcSession) (k : ℕ) (ks : List ℕ)
    → s.free_request_id_stack ≡ k ∷ ks
    → get_request_id s ≡ (k, record s { free_request_id_stack = ks })
unfolding get_request_id
get_request_id-top s k ks h = ground (arith, h)

present-none : {A : Type 0} → (o : Option A) → present o ≡ 0 → o ≡ none
present-none none h = refl
present-none (some a) h = absurd (omega arith)

-- The id is new, and the ids stay in order once a request waits under it.
abbrev pub Gives : RpcSession → ℕ → ℕ × RpcSession → Type 0
Gives s req r =
    (find r.0 s.request_list ≡ none)
    × (r.0 < 32767)
    × (r.1.request_list ≡ s.request_list)
    × (r.1.reserve_ch ≡ s.reserve_ch)
    × WellNumbered (record r.1 { request_list = insert r.0 req r.1.request_list })

Gives-empty :
    (s : RpcSession) (req : ℕ)
    → WellNumbered s
    → s.free_request_id_stack ≡ []
    → s.next_request_id < 32766
    → Gives s req
        (s.next_request_id, record s { next_request_id = (s.next_request_id + 1) % 32767 })
Gives-empty s req w e room = (
  present-none _ (ground (arith, w.partition s.next_request_id)),
  w.bounded,
  refl,
  refl,
  record {
    partition = λ id. ground (
      arith,
      room,
      w.partition id,
      w.partition s.next_request_id,
      present-insert id s.next_request_id req s.request_list,
    );
    bounded = omega (arith, room);
  },
)

Gives-top :
    (s : RpcSession) (req k : ℕ) (ks : List ℕ)
    → WellNumbered s
    → s.free_request_id_stack ≡ k ∷ ks
    → Gives s req (k, record s { free_request_id_stack = ks })
Gives-top s req k ks w e = (
  present-none _ (ground (arith, part k, count-head k ks)),
  ground (arith, part k, count-head k ks, w.bounded),
  refl,
  refl,
  record {
    partition = λ id.
        ground (arith, part id, part k, count-head k ks, present-insert id k req s.request_list);
    bounded = w.bounded;
  },
)
  where
    part :
        (id : ℕ)
        → count id (k ∷ ks) + present (find id s.request_list)
          ≡ (if ltb id s.next_request_id then 1 else 0)
    part id =
        subst
          (λ l.
            count id l + present (find id s.request_list)
            ≡ (if ltb id s.next_request_id then 1 else 0))
          e (w.partition id)

cases : (l : List ℕ) → (l ≡ []) ⊎ ((k : ℕ) × (ks : List ℕ) × (l ≡ k ∷ ks))
cases [] = inl refl
cases (k ∷ ks) = inr (k, ks, refl)

pub get_request_id-Gives :
    (s : RpcSession) (req : ℕ) → WellNumbered s → HasRoom s → Gives s req (get_request_id s)
get_request_id-Gives s req w room = elim (cases s.free_request_id_stack) [
  | inl e ↦
      subst (Gives s req) (sym (get_request_id-empty s e))
        (Gives-empty s req w e (subst (λ l. Room l s.next_request_id) e room))
  | inr (k, ks, e) ↦
      subst (Gives s req) (sym (get_request_id-top s k ks e)) (Gives-top s req k ks w e)
]
