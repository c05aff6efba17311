-- ===== src/Tests/Calls.antt =====
-- Remote procedure calls at concrete inputs.
use elegance.Prelude.{ℕ, ◌≡◌, refl, arith, Option, some, List, [], ◌∷◌}
use elegance.Prelude.Map.{find, nat_key}
use elegance.Rpc.Session.{RpcSession, new_session, sent, deleted, called_back, async_call, on_recv}
use elegance.Rpc.Session.Ids.{WellNumbered}
use elegance.Rpc.Session.Keeps.{on_recv-WellNumbered, async_call-wraps}
use elegance.Rpc.Session.RoundTrip.{on_recv-async_call}

abbrev client : RpcSession
client = new_session

client-WellNumbered : WellNumbered client
unfolding find
client-WellNumbered = record { partition = λ id. ground arith; bounded = omega arith }

abbrev server : RpcSession
server = record client { handler_list = 5 ∷ []; reserve_ch = 1 }

-- A handler that answers with what it is sent.
abbrev echo : ℕ → List ℕ → Option (List ℕ)
echo h bytes = some bytes

on_recv-async_call_example :
    (request response : List ℕ) × ((async_call 42 (8 ∷ 9 ∷ []) client).1 ≡ sent request ∷ [])
    × (on_recv echo request server ≡ (server, sent response ∷ []))
    × ((on_recv echo response (async_call 42 (8 ∷ 9 ∷ []) client).0).1
        ≡ called_back 42 (8 ∷ 9 ∷ []) ∷ deleted 42 ∷ [])
    × WellNumbered (on_recv echo response (async_call 42 (8 ∷ 9 ∷ []) client).0).0
on_recv-async_call_example =
    on_recv-async_call echo echo client server 42 5 (8 ∷ 9 ∷ []) (8 ∷ 9 ∷ []) client-WellNumbered
      (omega arith) (omega arith, omega arith) refl refl (omega arith, omega arith)

on_recv-WellNumbered_example : WellNumbered (on_recv echo (3 ∷ 0 ∷ 0 ∷ 0 ∷ 9 ∷ []) client).0
on_recv-WellNumbered_example =
    on_recv-WellNumbered echo (3 ∷ 0 ∷ 0 ∷ 0 ∷ 9 ∷ []) client client-WellNumbered

-- The ids up to 32766 wait; the entry for 0 is the one that matters.
abbrev busy : RpcSession
busy = record client { next_request_id = 32766; request_list = (0, 41) ∷ [] }

async_call-wraps_example :
    find 0 (async_call 43 (8 ∷ []) (async_call 42 (8 ∷ []) busy).0).0.request_list ≡ some 43
async_call-wraps_example = async_call-wraps busy 42 43 (8 ∷ []) refl refl (omega arith, omega arith)
