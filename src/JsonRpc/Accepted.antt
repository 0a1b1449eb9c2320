-- ===== src/JsonRpc/Accepted.antt =====
-- The requests that prepare lets through, said without its checks.
use aiops_bundler.Base.{
  ℕ, ◌+◌, String, true, false, List, [], ◌∷◌, ◌++◌, Option, some, ◌≡◌, refl, sym, ◌∙◌, ◌⊎◌, inl,
  inr, ◌↔◌, subst, arith,
}
use aiops_bundler.Base.Tests.{◌==◌, if-true, if-false, Bool-cases}
use aiops_bundler.Base.Lists.{length, length-append}
use aiops_bundler.Base.Result.{ok, Result-cases}
use aiops_bundler.JsonRpc.{
  Json, str, array, object, Items, Fields, end, get, list_of, Kind, ParamType, Arg, Method,
  has_optional_input, is_optional_param_undefined, has_valid_param_length, completed, is_string,
  prepare, ErrorResponse, failed, handle_request,
}
use aiops_bundler.JsonRpc.Requests.{Converts, prepare_lem}
use aiops_bundler.JsonRpc.Converted.{ConvertsAll, Converts-ConvertsAll, ConvertsAll-Converts}
use aiops_bundler.JsonRpc.Parts.{
  LastIsOptional, has_optional_input-LastIsOptional, LastIsOptional-has_optional_input, IsId,
  parse_request_id-IsId, method_name_lem, params_of_lem,
}

module _ {ℓ} {S : Type ℓ} (to_int : Kind → ℕ → ℕ) (title : String → String)
    (api : String → Option (Method S)) where
  -- The parameters convert one by one, or do so with the empty map for an optional last one.
  abbrev pub IsApplied : List ParamType → List Json → List Arg → Type 0
  IsApplied inputs params args =
      ConvertsAll to_int inputs params args
      ⊎ (LastIsOptional inputs × ConvertsAll to_int inputs (params ++ object end ∷ []) args)

  has_valid_param_length-IsApplied :
      (inputs : List ParamType) (params : List Json) (args : List Arg)
      → ((has_valid_param_length (length params) (length inputs) (has_optional_input inputs) ≡ true)
          × Converts to_int inputs (completed to_int title api inputs params) args)
        ↔ IsApplied inputs params args
  unfolding has_valid_param_length is_optional_param_undefined
  has_valid_param_length-IsApplied inputs params args = (there, back)
    where
      longer : length (params ++ object end ∷ []) ≡ length params + 1
      longer = length-append params (object end ∷ [])

      there :
          (has_valid_param_length (length params) (length inputs) (has_optional_input inputs)
              ≡ true)
            × Converts to_int inputs (completed to_int title api inputs params) args
          → IsApplied inputs params args
      there (h, c) = elim (Bool-cases (length params == length inputs)) [
        | inl same ↦
            let whole : length params ≡ length inputs = ground arith in
            let exact : is_optional_param_undefined (length params) (length inputs)
                  (has_optional_input inputs)
                ≡ false =
              ground arith in
            inl (
              Converts-ConvertsAll to_int inputs params args whole
                (subst (λ l. Converts to_int inputs l args) (if-false _ _ params exact) c))
        | inr differ ↦
            let short : is_optional_param_undefined (length params) (length inputs)
                  (has_optional_input inputs)
                ≡ true =
              ground arith in
            let one_more : length params + 1 ≡ length inputs = ground arith in
            let optional : has_optional_input inputs ≡ true = ground arith in
            inr (
              has_optional_input-LastIsOptional inputs optional,
              Converts-ConvertsAll to_int inputs (params ++ object end ∷ []) args
                  (longer ∙ one_more)
                  (subst (λ l. Converts to_int inputs l args)
                    (if-true _ (params ++ object end ∷ []) _ short) c),
            )
      ]

      back :
          IsApplied inputs params args
          → (has_valid_param_length (length params) (length inputs) (has_optional_input inputs)
              ≡ true)
            × Converts to_int inputs (completed to_int title api inputs params) args
      back (inl c) =
          let (whole, all) = ConvertsAll-Converts to_int inputs params args c in
          let exact : is_optional_param_undefined (length params) (length inputs)
                (has_optional_input inputs)
              ≡ false =
            ground arith in
          (
            ground arith,
            subst (λ l. Converts to_int inputs l args) (sym (if-false _ _ params exact)) all,
          )
      back (inr (o, c)) =
          let (whole, all) =
            ConvertsAll-Converts to_int inputs (params ++ object end ∷ []) args c in
          let optional = LastIsOptional-has_optional_input inputs o in
          let one_more : length params + 1 ≡ length inputs = sym longer ∙ whole in
          let short : is_optional_param_undefined (length params) (length inputs)
                (has_optional_input inputs)
              ≡ true =
            ground arith in
          (
            ground arith,
            subst (λ l. Converts to_int inputs l args)
                (sym (if-true _ (params ++ object end ∷ []) _ short)) all,
          )

  -- A request for a method with its arguments.
  abbrev pub IsRequest : Fields → Json → Method S → List Arg → Type ℓ
  IsRequest fields id m args =
      (get "id" fields ≡ some id)
      × IsId id
      × (is_string "2.0" (get "jsonrpc" fields) ≡ true)
      × ((name : String) × (items : Items) × (get "method" fields ≡ some (str name))
          × (get "params" fields ≡ some (array items))
          × (api (title name) ≡ some m)
          × IsApplied m.inputs (list_of items) args)

  prepare-IsRequest :
      (fields : Fields) (id : Json) (m : Method S) (args : List Arg)
      → (prepare to_int title api fields ≡ ok (id, m, args)) ↔ IsRequest fields id m args
  prepare-IsRequest fields id m args =
      let checks = prepare_lem to_int title api fields id m args in
      let ids = parse_request_id-IsId fields id in
      (
        λ h.
            let (e1, e2, (name, items, e3, e4, e5, e6, c)) = checks.0 h in
            let (i, allowed) = ids.0 e1 in
            (
              i,
              allowed,
              e2,
              (
                name,
                items,
                (method_name_lem (get "method" fields) name).0 e3,
                (params_of_lem (get "params" fields) items).0 e4,
                e5,
                (has_valid_param_length-IsApplied m.inputs (list_of items) args).0 (e6, c),
              ),
            ),
        λ (i, allowed, e2, (name, items, e3, e4, e5, a)).
            let (e6, c) = (has_valid_param_length-IsApplied m.inputs (list_of items) args).1 a in
            checks.1 (
              ids.1 (i, allowed),
              e2,
              (
                name,
                items,
                (method_name_lem (get "method" fields) name).1 e3,
                (params_of_lem (get "params" fields) items).1 e4,
                e5,
                e6,
                c,
              ),
            ),
      )

  -- A request passes the checks before the call, with an id, a method and arguments, exactly if the id
  -- is its own and null, a number or a text, the version is 2.0, the method is that of its name, and
  -- each of its parameters is of the kind of the input at its place and gives the argument there; the
  -- list may lack the last one where that input is an optional map, which is then empty. Every request
  -- either does so for some id, method and arguments, or is answered with an error and no call.
  pub handle_request-IsRequest :
      (fields : Fields) (s : S) (id : Json) (m : Method S) (args : List Arg)
      → ((prepare to_int title api fields ≡ ok (id, m, args)) ↔ IsRequest fields id m args)
        × (((id' : Json) × (m' : Method S) × (args' : List Arg) × IsRequest fields id' m' args')
            ⊎ ((e : ErrorResponse) × (handle_request to_int title api fields s ≡ (s, failed e))))
  unfolding handle_request
  handle_request-IsRequest fields s id m args = (
    prepare-IsRequest fields id m args,
    elim (Result-cases (prepare to_int title api fields)) [
      | inl ((id', m', args'), h) ↦
          inl (id', m', args', (prepare-IsRequest fields id' m' args').0 h)
      | inr (e, h) ↦ inr (e, rw (handle_request, h) refl)
    ],
  )
