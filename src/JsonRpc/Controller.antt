-- ===== src/JsonRpc/Controller.antt =====
-- Controller of pkg/jsonrpc/handler.go: the method and body of a request, and the batches.
use mathlib.Core.List.{append_assoc, append-nil}
use aiops_bundler.Base.{ℕ, String, Bool, true, not, List, [], ◌∷◌, ◌++◌, Option, ◌≡◌, sym, ap, ◌∙◌}
use aiops_bundler.Base.Tests.{if◌then◌else◌}
use aiops_bundler.JsonRpc.{
  Json, null, Fields, Kind, Method, ErrorResponse, says, parse_error, Outcome, failed, success,
  panicked, handle_request,
}

-- The body of a request: none, one that cannot be read, or what json.Unmarshal makes of it, first as
-- an object and then as an array of objects.
pub data Body : Type 0 where
  no_body unreadable invalid : Body
  single : Fields → Body
  batch : List Fields → Body

pub record HttpRequest : Type 0 where
  pub is_post : Bool
  pub body : Body

-- What is written. After a panic of the handler nothing is.
pub data Reply : Type 0 where
  error_reply : ErrorResponse → Reply
  result_reply : Json → Json → Reply
  batch_reply : List (Json × Json) → Reply
  crashed : Reply

abbrev parse_failure : String → ErrorResponse
parse_failure message = record {
  code = parse_error;
  message = "Parse error";
  detail = says message;
  id = null;
}

module _ {ℓ} {S : Type ℓ} (to_int : Kind → ℕ → ℕ) (title : String → String)
    (api : String → Option (Method S)) where
  -- The loop over a batch, with the results so far.
  unfoldable pub batch_loop : List Fields → List (Json × Json) → S → S × Reply
  batch_loop [] result s = (s, batch_reply result)
  batch_loop (fields ∷ rest) result s =
      let (s', out) = handle_request to_int title api fields s in
      elim out [
        | failed e ↦ (s', error_reply e)
        | panicked ↦ (s', crashed)
        | success id res ↦ batch_loop rest (result ++ (id, res) ∷ []) s'
      ]

  abbrev pub single_reply : S × Outcome → S × Reply
  single_reply (s, failed e) = (s, error_reply e)
  single_reply (s, panicked) = (s, crashed)
  single_reply (s, success id res) = (s, result_reply id res)

  abbrev pub reply_to : Body → S → S × Reply
  reply_to no_body s = (s, error_reply (parse_failure "No POST data"))
  reply_to unreadable s = (s, error_reply (parse_failure "Error while reading request body"))
  reply_to invalid s = (s, error_reply (parse_failure "Error parsing json request"))
  reply_to (single fields) s = single_reply (handle_request to_int title api fields s)
  reply_to (batch requests) s = batch_loop requests [] s

  unfoldable pub controller : HttpRequest → S → S × Reply
  unfolding batch_loop
  controller request s =
      if not request.is_post
      then (s, error_reply (parse_failure "POST method excepted"))
      else reply_to request.body s

  -- Requests that all succeed, one after the other, with their results and the last state.
  pub data Succeed : List Fields → S → List (Json × Json) → S → Type ℓ where
    none_left : (s : S) → Succeed [] s [] s
    one_more :
        {fields : Fields} {rest : List Fields} {s t u : S} {id res : Json}
        {results : List (Json × Json)}
        → handle_request to_int title api fields s ≡ (t, success id res)
        → Succeed rest t results u
        → Succeed (fields ∷ rest) s ((id, res) ∷ results) u

  batch_loop-success :
      (fields : Fields) (rest : List Fields) (before : List (Json × Json)) (s t : S) (id res : Json)
      → handle_request to_int title api fields s ≡ (t, success id res)
      → batch_loop (fields ∷ rest) before s ≡ batch_loop rest (before ++ (id, res) ∷ []) t
  unfolding batch_loop
  batch_loop-success fields rest before s t id res h =
      rw (batch_loop, h) (ap (λ v. batch_loop rest (before ++ (id, res) ∷ []) v.0) h)

  batch_loop-failed :
      (fields : Fields) (rest : List Fields) (before : List (Json × Json)) (s t : S)
      (e : ErrorResponse)
      → handle_request to_int title api fields s ≡ (t, failed e)
      → batch_loop (fields ∷ rest) before s ≡ (t, error_reply e)
  unfolding batch_loop
  batch_loop-failed fields rest before s t e h =
      rw (batch_loop, h) (ap (λ v. (v.0, error_reply e)) h)

  batch_loop-Succeed :
      {requests : List Fields} {s t : S} {results : List (Json × Json)} (after : List Fields)
      (before : List (Json × Json))
      → Succeed requests s results t
      → batch_loop (requests ++ after) before s ≡ batch_loop after (before ++ results) t
  batch_loop-Succeed after before (none_left s) =
      ap (λ r. batch_loop after r s) (sym (append-nil before))
  batch_loop-Succeed after before
        (one_more {fields} {rest} {s} {t} {u} {id} {res} {results} h more) =
      batch_loop-success fields (rest ++ after) before s t id res h
      ∙ (batch_loop-Succeed after (before ++ (id, res) ∷ []) more
          ∙ ap (λ r. batch_loop after r u) (append_assoc before ((id, res) ∷ []) results))

  -- A posted batch of requests that all succeed, each in the state that the last one left, is
  -- answered with their results in order.
  controller-Succeed :
      (requests : List Fields) (s t : S) (results : List (Json × Json))
      → Succeed requests s results t
      → controller (record { is_post = true; body = batch requests }) s ≡ (t, batch_reply results)
  unfolding controller
  controller-Succeed requests s t results h =
      ap (λ l. batch_loop l [] s) (sym (append-nil requests)) ∙ batch_loop-Succeed [] [] h

  -- In a posted batch the first request that fails ends it: its error is the whole reply, the
  -- results of the requests before it are lost though the state keeps what they did, and the
  -- requests after it are never made.
  pub controller-first_failure :
      (requests after : List Fields) (bad : Fields) (s t u : S) (results : List (Json × Json))
      (e : ErrorResponse)
      → Succeed requests s results t
      → handle_request to_int title api bad t ≡ (u, failed e)
      → controller (record { is_post = true; body = batch (requests ++ bad ∷ after) }) s
        ≡ (u, error_reply e)
  unfolding controller
  controller-first_failure requests after bad s t u results e h f =
      batch_loop-Succeed (bad ∷ after) [] h ∙ batch_loop-failed bad after results t u e f
