-- ===== src/Rpc/Session/RoundTrip.antt =====
-- A request and its response, from `AsyncCall` to `OnCallBack`.
use elegance.Prelude.{
  ℕ, ◌+◌, ◌≡◌, ◌<◌, arith, false, Option, some, List, [], ◌∷◌, length, ap, ◌∙◌, ◌==◌, leb, ◌^◌,
}
use elegance.Prelude.Int.{signed}
use elegance.Prelude.Bytes.{from_little-little_bytes_2}
use elegance.Prelude.Map.{find, nat_key}
use elegance.Rpc.Session.{
  RpcSession, sent, deleted, called_back, message, type_request, type_response, async_call,
  find_request, on_response, on_message, on_recv, on_request, answer,
}
use elegance.Rpc.Session.Ids.{WellNumbered, HasRoom}
use elegance.Rpc.Session.Keeps.{
  IsSendable, find_request-signed, async_call-waits, on_recv-WellNumbered,
}

on_recv-message :
    (handle_call : ℕ → List ℕ → Option (List ℕ)) (type reserve id : ℕ) (bytes : List ℕ)
    (s : RpcSession)
    → id < 32767
    → 0 < length bytes
    → on_recv handle_call (message type reserve id bytes) s ≡ on_message handle_call type id bytes s
unfolding on_recv message
on_recv-message handle_call type reserve id [] s small h = absurd (omega arith)
on_recv-message handle_call type reserve id (b ∷ bytes) s small h =
    ap (λ k. on_message handle_call type k (b ∷ bytes) s)
      (from_little-little_bytes_2 id (omega arith))

module _ (handle_call handle_call' : ℕ → List ℕ → Option (List ℕ)) (client server : RpcSession)
    (req h : ℕ) (bytes result : List ℕ) where
  -- What the server's one handler answers.
  pub answered :
      (id reserve : ℕ)
      → id < 32767
      → 0 < length bytes
      → server.handler_list ≡ h ∷ []
      → handle_call h bytes ≡ some result
      → IsSendable result
      → on_recv handle_call (message type_request reserve id bytes) server
        ≡ (server, sent (message type_response server.reserve_ch id result) ∷ [])
  unfolding on_message on_request answer
  answered id reserve small some_bytes only handled sendable =
      let some_result : (length result == 0) ≡ false = ground (arith, sendable.0) in
      let short : leb 10240 (length result + 4) ≡ false = ground (arith, sendable.1) in
      on_recv-message handle_call type_request reserve id bytes server small some_bytes
      ∙ ap (λ l. (server, on_request handle_call l id bytes server)) only
      ∙ rw (on_request, answer, handled, some_result, short)

  -- What the client makes of a response.
  pub responded :
      (id reserve : ℕ) (s : RpcSession)
      → id < 32767
      → 0 < length result
      → find id s.request_list ≡ some req
      → (on_recv handle_call' (message type_response reserve id result) s).1
        ≡ called_back req result ∷ deleted req ∷ []
  unfolding on_message on_response
  responded id reserve s small some_result waits =
      let found : find_request (signed (2 ^ 15) id) s ≡ some req =
        ground (arith, waits, small, find_request-signed id s) in
      ap (λ r. r.1)
        (on_recv-message handle_call' type_response reserve id result s small some_result)
      ∙ rw (on_message, on_response, found)

  -- A call with data that can be sent, of a session whose ids are in order and that has one to give
  -- without its counter going back to 0, to a session with one handler, which answers with data
  -- that can be sent: the message that the client sends makes the server send one message, and that
  -- makes the client give the answer to the request that called, which is then deleted. The ids stay
  -- in order.
  pub on_recv-async_call :
      WellNumbered client
      → HasRoom client
      → IsSendable bytes
      → server.handler_list ≡ h ∷ []
      → handle_call h bytes ≡ some result
      → IsSendable result
      → (request response : List ℕ) × ((async_call req bytes client).1 ≡ sent request ∷ [])
        × (on_recv handle_call request server ≡ (server, sent response ∷ []))
        × ((on_recv handle_call' response (async_call req bytes client).0).1
            ≡ called_back req result ∷ deleted req ∷ [])
        × WellNumbered (on_recv handle_call' response (async_call req bytes client).0).0
  on_recv-async_call w room sendable only handled sendable' =
      let (id, out, small, fresh, waits, reserve, numbered) =
        async_call-waits req bytes client w room sendable in
      (
        message type_request client.reserve_ch id bytes,
        message type_response server.reserve_ch id result,
        out,
        answered id client.reserve_ch small sendable.0 only handled sendable',
        responded id server.reserve_ch (async_call req bytes client).0 small sendable'.0
            (ground (arith, waits id)),
        on_recv-WellNumbered handle_call' _ (async_call req bytes client).0 numbered,
      )
