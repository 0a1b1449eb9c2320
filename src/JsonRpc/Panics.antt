-- ===== src/JsonRpc/Panics.antt =====
-- Methods with an input of a kind that the handler does not know.
use aiops_bundler.Base.{
  ℕ, String, Bool, true, false, ◌||◌, List, [], ◌∷◌, Option, some, ◌≡◌, refl, sym, ap, inl, inr,
  arith,
}
use aiops_bundler.Base.Tests.{Bool-cases}
use aiops_bundler.Base.Lists.{length, length-append}
use aiops_bundler.Base.Result.{ok}
use aiops_bundler.JsonRpc.{
  Json, object, end, Fields, Kind, unsupported, ParamType, Arg, zero_value, Method,
  has_optional_input, is_optional_param_undefined, has_valid_param_length, convert, is_zero_value,
  any_zero, panicked, completed, prepare, handle_request, list_of,
}
use aiops_bundler.JsonRpc.Requests.{Converts, prepare_lem}

abbrev pub is_unsupported : Kind → Bool
is_unsupported unsupported = true
is_unsupported _ = false

abbrev pub any_unsupported : List ParamType → Bool
any_unsupported [] = false
any_unsupported (p ∷ inputs) = is_unsupported p.kind || any_unsupported inputs

module _ (to_int : Kind → ℕ → ℕ) where
  convert-unsupported :
      (kind : Kind) (arg : Json) (a : Arg)
      → is_unsupported kind ≡ true
      → convert to_int kind arg ≡ some a
      → is_zero_value a ≡ true
  unfolding convert
  convert-unsupported unsupported arg a h e =
      let same : zero_value ≡ a = cc in ap is_zero_value (sym same)
  convert-unsupported _ arg a h e = cc

  Converts-unsupported :
      (inputs : List ParamType) (params : List Json) (args : List Arg)
      → length params ≡ length inputs
      → any_unsupported inputs ≡ true
      → Converts to_int inputs params args
      → any_zero args ≡ true
  Converts-unsupported [] params args n u c = cc
  Converts-unsupported (p ∷ inputs) [] args n u c = absurd (omega arith)
  Converts-unsupported (p ∷ inputs) (arg ∷ params) [] n u c = absurd c
  Converts-unsupported (p ∷ inputs) (arg ∷ params) (a ∷ args) n u c =
      elim (Bool-cases (is_unsupported p.kind)) [
        | inl here ↦ let z = convert-unsupported p.kind arg a here c.0 in ground arith
        | inr other ↦
            let z = Converts-unsupported inputs params args (omega arith) (ground arith) c.1 in
            ground arith
      ]

module _ {ℓ} {S : Type ℓ} (to_int : Kind → ℕ → ℕ) (title : String → String)
    (api : String → Option (Method S)) where
  completed-length :
      (inputs : List ParamType) (params : List Json)
      → has_valid_param_length (length params) (length inputs) (has_optional_input inputs) ≡ true
      → length (completed to_int title api inputs params) ≡ length inputs
  unfolding has_valid_param_length is_optional_param_undefined
  completed-length inputs params h =
      let longer = length-append params (object end ∷ []) in ground arith

  -- A request that passes every check of a method with an input of a kind such as bool panics: the
  -- test that should report an invalid method definition is never false.
  pub handle_request-unsupported :
      (fields : Fields) (s : S) (id : Json) (m : Method S) (args : List Arg)
      → prepare to_int title api fields ≡ ok (id, m, args)
      → any_unsupported m.inputs ≡ true
      → handle_request to_int title api fields s ≡ (s, panicked)
  unfolding handle_request
  handle_request-unsupported fields s id m args h u =
      let (e1, e2, (name, items, e3, e4, e5, e6, c)) =
        (prepare_lem to_int title api fields id m args).0 h in
      let z =
        Converts-unsupported to_int m.inputs (completed to_int title api m.inputs (list_of items))
          args (completed-length m.inputs (list_of items) e6) u c in
      rw (handle_request, h, z) refl
