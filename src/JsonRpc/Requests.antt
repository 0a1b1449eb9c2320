-- ===== src/JsonRpc/Requests.antt =====
-- The requests that reach a method.
use aiops_bundler.Base.{
  ℕ, suc, String, true, List, [], ◌∷◌, Option, some, ◌≡◌, refl, subst, ap, ◌∙◌, ◌↔◌, arith,
}
use aiops_bundler.Base.Lists.{length}
use aiops_bundler.Base.Result.{
  Result, ok, >>=-eq-ok, or_error, or_error-eq-ok, or_error_iff, guard_iff, call_iff,
}
use aiops_bundler.JsonRpc.{
  Json, Items, Fields, get, list_of, Kind, ParamType, Arg, Method, ErrorResponse, failure,
  invalid_params, conversion_error, parse_request_id, has_optional_input, has_valid_param_length,
  convert, convert_all, is_string, method_name, params_of, completed, prepare,
}

module _ (to_int : Kind → ℕ → ℕ) where
  -- Every parameter is converted to the argument at its place.
  abbrev pub Converts : List ParamType → List Json → List Arg → Type 0
  Converts [] params args = args ≡ []
  Converts (p ∷ inputs) [] args = args ≡ []
  Converts (p ∷ inputs) (arg ∷ params) [] = ⊥
  Converts (p ∷ inputs) (arg ∷ params) (a ∷ args) =
      (convert to_int p.kind arg ≡ some a) × Converts inputs params args

  convert_all_lem :
      (id : Json) (i : ℕ) (inputs : List ParamType) (params : List Json) (args : List Arg)
      → (convert_all to_int id i inputs params ≡ ok args) ↔ Converts inputs params args
  unfolding convert_all
  convert_all_lem id i [] params args = (λ h. cc, λ h. cc)
  convert_all_lem id i (p ∷ inputs) [] args = (λ h. cc, λ h. cc)
  convert_all_lem id i (p ∷ inputs) (arg ∷ params) [] = (
    λ h.
        let (a, e, rest) = >>=-eq-ok (or_error (convert to_int p.kind arg) _) _ h in
        let (found, f, last) = >>=-eq-ok (convert_all to_int id (suc i) inputs params) _ rest in cc,
    λ h. absurd h,
  )
  convert_all_lem id i (p ∷ inputs) (arg ∷ params) (b ∷ args) =
      let failing = failure invalid_params "Invalid params" (conversion_error i p.name) id in
      (
        λ h.
            let (a, e, rest) = >>=-eq-ok (or_error (convert to_int p.kind arg) failing) _ h in
            let (found, f, last) = >>=-eq-ok (convert_all to_int id (suc i) inputs params) _ rest in
            let whole : (a ≡ b) × (found ≡ args) = ground arith in
            (
              (or_error-eq-ok (convert to_int p.kind arg) failing b).0 (e ∙ ap ok whole.0),
              (convert_all_lem id (suc i) inputs params args).0 (f ∙ ap ok whole.1),
            ),
        λ h. rw (h.0, (convert_all_lem id (suc i) inputs params args).1 h.1) refl,
      )

module _ {ℓ} {S : Type ℓ} (to_int : Kind → ℕ → ℕ) (title : String → String)
    (api : String → Option (Method S)) where
  -- A request with an id, the version, a known method and a list of parameters that has its length
  -- and converts to its arguments.
  abbrev pub Valid : Fields → Json → Method S → List Arg → Type ℓ
  Valid fields id m args =
      (parse_request_id fields ≡ some id)
      × (is_string "2.0" (get "jsonrpc" fields) ≡ true)
      × ((name : String) × (items : Items) × (method_name (get "method" fields) ≡ some name)
          × (params_of (get "params" fields) ≡ some items)
          × (api (title name) ≡ some m)
          × (has_valid_param_length (length (list_of items)) (length m.inputs)
                (has_optional_input m.inputs)
              ≡ true)
          × Converts to_int m.inputs (completed to_int title api m.inputs (list_of items)) args)

  -- The checks of prepare in their order, with what each finds.
  abbrev Found : Fields → Json × Method S × List Arg → Type ℓ
  Found fields last =
      (id : Json) × (parse_request_id fields ≡ some id)
      × ((is_string "2.0" (get "jsonrpc" fields) ≡ true)
          × ((name : String) × (method_name (get "method" fields) ≡ some name)
              × ((items : Items) × (params_of (get "params" fields) ≡ some items)
                  × ((m : Method S) × (api (title name) ≡ some m)
                      × ((has_valid_param_length (length (list_of items)) (length m.inputs)
                              (has_optional_input m.inputs)
                            ≡ true)
                          × ((args : List Arg) × (convert_all to_int id 0 m.inputs
                                  (completed to_int title api m.inputs (list_of items))
                                ≡ ok args)
                              × ((id, m, args) ≡ last)))))))

  ok_iff {κ} : {A : Type κ} (a b : A) → ◌≡◌ {A = Result ErrorResponse A} (ok a) (ok b) ↔ (a ≡ b)
  ok_iff a b = (λ h. cc, λ h. cc)

  prepare-Found :
      (fields : Fields) (last : Json × Method S × List Arg)
      → (prepare to_int title api fields ≡ ok last) ↔ Found fields last
  unfolding prepare
  prepare-Found fields last = or_error_iff (parse_request_id fields) _ _ last _ λ id.
      guard_iff (is_string "2.0" (get "jsonrpc" fields)) _ _ last _ (
        or_error_iff (method_name (get "method" fields)) _ _ last _ λ name.
          or_error_iff (params_of (get "params" fields)) _ _ last _ λ items.
            or_error_iff (api (title name)) _ _ last _ λ m.
              guard_iff
                (has_valid_param_length (length (list_of items)) (length m.inputs)
                  (has_optional_input m.inputs))
                _ _ last _
                (call_iff
                  (convert_all to_int id 0 m.inputs
                    (completed to_int title api m.inputs (list_of items)))
                  _ last _ λ args. ok_iff (id, m, args) last))

  Found-Valid :
      (fields : Fields) (id : Json) (m : Method S) (args : List Arg)
      → Found fields (id, m, args) ↔ Valid fields id m args
  Found-Valid fields id m args = (there id m args, back)
    where
      there :
          (id : Json) (m : Method S) (args : List Arg)
          → Found fields (id, m, args)
          → Valid fields id m args
      there id m args (i, e1, (e2, (name, e3, (items, e4, (n, e5, (e6, (as', e7, same))))))) =
          subst (λ t. Valid fields t.0 t.1 t.2) same
            (
              e1,
              e2,
              (
                name,
                items,
                e3,
                e4,
                e5,
                e6,
                (convert_all_lem to_int i 0 n.inputs
                      (completed to_int title api n.inputs (list_of items)) as').0
                    e7,
              ),
            )

      back : Valid fields id m args → Found fields (id, m, args)
      back (e1, e2, (name, items, e3, e4, e5, e6, c)) = (
        id,
        e1,
        (
          e2,
          (
            name,
            e3,
            (
              items,
              e4,
              (
                m,
                e5,
                (
                  e6,
                  (
                    args,
                    (convert_all_lem to_int id 0 m.inputs
                          (completed to_int title api m.inputs (list_of items)) args).1
                        c,
                    refl,
                  ),
                ),
              ),
            ),
          ),
        ),
      )

  -- The checks of prepare, as one condition.
  pub prepare_lem :
      (fields : Fields) (id : Json) (m : Method S) (args : List Arg)
      → (prepare to_int title api fields ≡ ok (id, m, args)) ↔ Valid fields id m args
  prepare_lem fields id m args =
      let found = prepare-Found fields (id, m, args) in
      let valid = Found-Valid fields id m args in
      (λ h. valid.0 (found.0 h), λ h. found.1 (valid.1 h))
