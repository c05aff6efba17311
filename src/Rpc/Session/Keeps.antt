-- ===== src/Rpc/Session/Keeps.antt =====
-- `AsyncCall` and `OnRecv` keep the ids of the requests in order.
use elegance.Prelude.{
  ℕ, ◌+◌, ◌-◌, ◌%◌, ◌≡◌, ◌<◌, refl, arith, Bool, true, false, Option, none, some, List, [], ◌∷◌,
  length, if◌then◌else◌, ap, sym, subst, ◌∙◌, ◌⊎◌, inl, inr, ◌==◌, leb, ltb, ◌^◌,
}
use elegance.Prelude.Int.{pos, negsuc, signed}
use elegance.Prelude.Bytes.{from_little}
use elegance.Prelude.Map.{find, insert, erase, find-insert, nat_key}
use elegance.Prelude.Counts.{present, present-erase}
use elegance.Rpc.Session.{
  RpcSession, sent, get_request_id, message, type_request, type_response, async_call, find_request,
  on_response, on_message, on_recv, on_request,
}
use elegance.Rpc.Session.Ids.{WellNumbered, HasRoom, get_request_id-Gives, get_request_id-empty}

-- Data that `AsyncCall` sends, or that a handler may answer with.
abbrev pub IsSendable : List ℕ → Type 0
IsSendable bytes = (0 < length bytes) × (length bytes + 4 < 10240)

pub async_call-sent :
    (req : ℕ) (bytes : List ℕ) (s : RpcSession)
    → IsSendable bytes
    → async_call req bytes s ≡ (
      record (get_request_id s).1 {
        request_list = insert (get_request_id s).0 req (get_request_id s).1.request_list;
      },
      sent (message type_request (get_request_id s).1.reserve_ch (get_request_id s).0 bytes) ∷ [],
    )
unfolding async_call
async_call-sent req bytes s h =
    let some_bytes : (length bytes == 0) ≡ false = ground (arith, h.0) in
    let short : leb 10240 (length bytes + 4) ≡ false = ground (arith, h.1) in
    rw (async_call, some_bytes, short)

-- A call with data that can be sent, of a session that has an id to give without its counter going
-- back to 0: the message carries an id under which no request waited, the request waits under it,
-- the others wait as before, and the ids stay in order.
pub async_call-waits :
    (req : ℕ) (bytes : List ℕ) (s : RpcSession)
    → WellNumbered s
    → HasRoom s
    → IsSendable bytes
    → (id : ℕ) × ((async_call req bytes s).1
        ≡ sent (message type_request s.reserve_ch id bytes) ∷ [])
      × (id < 32767)
      × (find id s.request_list ≡ none)
      × ((j : ℕ)
          → find j (async_call req bytes s).0.request_list
            ≡ (if id == j then some req else find j s.request_list))
      × ((async_call req bytes s).0.reserve_ch ≡ s.reserve_ch)
      × WellNumbered (async_call req bytes s).0
async_call-waits req bytes s w room h =
    let (fresh, small, same, reserve, numbered) = get_request_id-Gives s req w room in
    let (id, s1) = get_request_id s in
    (
      id,
      ap (λ r. r.1) (async_call-sent req bytes s h)
          ∙ ap (λ r. sent (message type_request r id bytes) ∷ []) reserve,
      small,
      fresh,
      (λ j.
          ap (λ r. find j r.0.request_list) (async_call-sent req bytes s h)
          ∙ find-insert j id req s1.request_list
          ∙ ap (λ l. if id == j then some req else find j l) same),
      ap (λ r. r.0.reserve_ch) (async_call-sent req bytes s h) ∙ reserve,
      subst (λ r. WellNumbered r.0) (sym (async_call-sent req bytes s h)) numbered,
    )

removed-WellNumbered :
    (id req : ℕ) (s : RpcSession)
    → WellNumbered s
    → find id s.request_list ≡ some req
    → WellNumbered (record s {
      request_list = erase id s.request_list;
      free_request_id_stack = id ∷ s.free_request_id_stack;
    })
removed-WellNumbered id req s w e = record {
  partition = λ j.
      ground
        (arith, w.partition j, w.partition id, ap present e, present-erase j id s.request_list);
  bounded = w.bounded;
}

cases : (o : Option ℕ) → (o ≡ none) ⊎ ((req : ℕ) × (o ≡ some req))
cases none = inl refl
cases (some req) = inr (req, refl)

pub find_request-signed :
    (id : ℕ) (s : RpcSession)
    → find_request (signed (2 ^ 15) id) s
      ≡ (if ltb id (2 ^ 15) then find id s.request_list else none)
unfolding find_request
find_request-signed id s = split (ltb id (2 ^ 15))
  where
    split :
        (b : Bool)
        → find_request (if b then pos id else negsuc (2 ^ 16 - id - 1)) s
          ≡ (if b then find id s.request_list else none)
    split true = refl
    split false = refl

on_response-WellNumbered :
    (id : ℕ) (bytes : List ℕ) (s : RpcSession)
    → WellNumbered s
    → WellNumbered (on_response id bytes s).0
unfolding on_response
on_response-WellNumbered id bytes s w = elim (cases (find_request (signed (2 ^ 15) id) s)) [
  | inl e ↦ rw (on_response, e) w
  | inr (req, e) ↦
      rw (on_response, e)
        (removed-WellNumbered id req s w (ground (arith, e, find_request-signed id s)))
]

on_message-WellNumbered :
    (handle_call : ℕ → List ℕ → Option (List ℕ)) (type id : ℕ) (bytes : List ℕ) (s : RpcSession)
    → WellNumbered s
    → WellNumbered (on_message handle_call type id bytes s).0
unfolding on_message
on_message-WellNumbered handle_call type id bytes s w =
    split (type == type_response) (type == type_request)
  where
    split :
        (a b : Bool)
        → WellNumbered
            (if a
              then on_response id bytes s
              else if b
              then (s, on_request handle_call s.handler_list id bytes s)
              else (s, [])).0
    split true b = on_response-WellNumbered id bytes s w
    split false true = w
    split false false = w

-- Whatever a session receives, the ids of its requests stay in order.
pub on_recv-WellNumbered :
    (handle_call : ℕ → List ℕ → Option (List ℕ)) (data_bytes : List ℕ) (s : RpcSession)
    → WellNumbered s
    → WellNumbered (on_recv handle_call data_bytes s).0
unfolding on_recv
on_recv-WellNumbered handle_call (type ∷ reserve ∷ lo ∷ hi ∷ b ∷ bytes) s w =
    on_message-WellNumbered handle_call type (from_little (lo ∷ hi ∷ [])) (b ∷ bytes) s w
on_recv-WellNumbered handle_call [] s w = w
on_recv-WellNumbered handle_call (a ∷ []) s w = w
on_recv-WellNumbered handle_call (a ∷ b ∷ []) s w = w
on_recv-WellNumbered handle_call (a ∷ b ∷ c ∷ []) s w = w
on_recv-WellNumbered handle_call (a ∷ b ∷ c ∷ d ∷ []) s w = w

async_call-empty :
    (s : RpcSession) (req : ℕ) (bytes : List ℕ)
    → s.free_request_id_stack ≡ []
    → IsSendable bytes
    → (async_call req bytes s).0 ≡ record s {
      next_request_id = (s.next_request_id + 1) % 32767;
      request_list = insert s.next_request_id req s.request_list;
    }
async_call-empty s req bytes empty h =
    ap (λ r. r.0) (async_call-sent req bytes s h)
    ∙ ap (λ r. record r.1 { request_list = insert r.0 req r.1.request_list })
        (get_request_id-empty s empty)

-- A session with no id to be given again, whose counter has reached 32766: two calls take the
-- counter back to 0, so the second request waits under the id 0, whatever request waited there.
pub async_call-wraps :
    (s : RpcSession) (req1 req2 : ℕ) (bytes : List ℕ)
    → s.free_request_id_stack ≡ []
    → s.next_request_id ≡ 32766
    → IsSendable bytes
    → find 0 (async_call req2 bytes (async_call req1 bytes s).0).0.request_list ≡ some req2
async_call-wraps s req1 req2 bytes empty full h =
    let s1 = (async_call req1 bytes s).0 in
    let first = async_call-empty s req1 bytes empty h in
    let empty1 : s1.free_request_id_stack ≡ [] = ap (λ r. r.free_request_id_stack) first ∙ empty in
    let zero1 : s1.next_request_id ≡ 0 =
      ap (λ r. r.next_request_id) first ∙ ap (λ n. (n + 1) % 32767) full in
    ap (λ r. find 0 r.request_list) (async_call-empty s1 req2 bytes empty1 h)
    ∙ find-insert 0 s1.next_request_id req2 s1.request_list
    ∙ rw zero1
