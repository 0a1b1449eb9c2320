-- ===== src/JsonRpc.antt =====
-- pkg/jsonrpc/handler.go: the requests that reach the API and the replies. Reading the body, its
-- decoding by encoding/json, golang.org/x/text and the methods of the API are parameters. A method is
-- called with reflect, which panics when an argument is the zero Value.
pub mod Requests
pub mod Converted
pub mod Parts
pub mod Accepted
pub mod Controller
pub mod Panics
pub mod Examples
use text.Mathlib.Text.{◌==◌ as str_eq, starts_with}
use Prim.Native.String.{slice, len}
use aiops_bundler.Base.{
  ℕ, suc, ◌+◌, String, Bool, true, false, not, ◌&&◌, ◌||◌, List, [], ◌∷◌, ◌++◌, Option, none, some,
}
use aiops_bundler.Base.Tests.{◌==◌, if◌then◌else◌}
use aiops_bundler.Base.Int.{ℤ, pos, negsuc}
use aiops_bundler.Base.Lists.{length}
use aiops_bundler.Base.Result.{Result, ok, err, ◌>>=◌, or_error, guard}

-- The values that encoding/json decodes into `any`. A float64 is its bit pattern.
mutual
  pub data Json : Type 0 where
    null : Json
    boolean : Bool → Json
    number : ℕ → Json
    str : String → Json
    array : Items → Json
    object : Fields → Json

  pub data Items : Type 0 where
    nil : Items
    item : Json → Items → Items

  pub data Fields : Type 0 where
    end : Fields
    field : String → Json → Fields → Fields

-- A read of a map: `none` is a missing key.
unfoldable pub get : String → Fields → Option Json
get key end = none
get key (field k value fields) = if str_eq k key then some value else get key fields

abbrev pub list_of : Items → List Json
list_of nil = []
list_of (item value items) = value ∷ list_of items

-- The kinds of reflect that the handler tells apart.
pub data Kind : Type 0 where
  float32 float64 : Kind
  int int8 int16 int32 int64 : Kind
  uint uint8 uint16 uint32 uint64 : Kind
  interface map slice_kind string : Kind
  unsupported : Kind

pub record ParamType : Type 0 where
  pub name : String
  pub kind : Kind

-- An argument of the call. An integer is the conversion of a float64 to its kind.
pub data Arg : Type 0 where
  float : ℕ → Arg
  integer : Kind → ℕ → Arg
  any : Json → Arg
  map_of : Fields → Arg
  slice_of : Items → Arg
  text_of : String → Arg
  zero_value : Arg

-- The error of a method: an RPCError, or any other with its text.
pub data Failure : Type 0 where
  rpc_error : ℤ → String → Json → Failure
  other_error : String → Failure

-- What a method returns: no value, or its first value and the error that is the last, if it is one.
pub data Returned : Type 0 where
  nothing : Returned
  returned : Json → Option Failure → Returned

pub record Method {ℓ} (S : Type ℓ) : Type ℓ where
  pub inputs : List ParamType
  pub call : List Arg → S → S × Returned

-- The data of an error: a text, the conversion of the parameter at an index to a type, or a value.
pub data Detail : Type 0 where
  says : String → Detail
  conversion : ℕ → String → Detail
  carries : Json → Detail

pub record ErrorResponse : Type 0 where
  pub code : ℤ
  pub message : String
  pub detail : Detail
  pub id : Json

abbrev pub invalid_request : ℤ
invalid_request = negsuc 32599

abbrev pub method_not_found : ℤ
method_not_found = negsuc 32600

abbrev pub invalid_params : ℤ
invalid_params = negsuc 32601

abbrev pub parse_error : ℤ
parse_error = negsuc 32699

abbrev pub failure : ℤ → String → Detail → Json → ErrorResponse
failure code message detail id = record { code = code; message = message; detail = detail; id = id }

abbrev pub optional_type_prefix : String
optional_type_prefix = "optional_"

abbrev pub cut_prefix : String → String → String
cut_prefix s prefix = if starts_with s prefix then slice s (len prefix) (len s) else s

abbrev pub conversion_error : ℕ → String → Detail
conversion_error i name = conversion i (cut_prefix name optional_type_prefix)

unfoldable pub parse_request_id : Fields → Option Json
parse_request_id fields = elim (get "id" fields) [
  | none ↦ none
  | some null ↦ some null
  | some (number f) ↦ some (number f)
  | some (str s) ↦ some (str s)
  | some _ ↦ none
]

abbrev pub is_map : Kind → Bool
is_map map = true
is_map _ = false

-- The test on the last input.
unfoldable pub has_optional_input : List ParamType → Bool
has_optional_input [] = false
has_optional_input (p ∷ []) = starts_with p.name optional_type_prefix && is_map p.kind
has_optional_input (p ∷ q ∷ ps) = has_optional_input (q ∷ ps)

-- `num_params == num_in - 1`, where there are inputs.
unfoldable pub is_optional_param_undefined : ℕ → ℕ → Bool → Bool
is_optional_param_undefined num_params num_in has_optional =
    has_optional && (num_params + 1 == num_in)

unfoldable pub has_valid_param_length : ℕ → ℕ → Bool → Bool
has_valid_param_length num_params num_in has_optional =
    (num_params == num_in) || (has_optional && (num_params + 1 == num_in))

-- The cases of the integer kinds, which differ in their conversion of a float64 alone. No value that
-- encoding/json decodes is of such a kind itself.
abbrev pub convert_int : (Kind → ℕ → ℕ) → Kind → Json → Option Arg
convert_int to_int kind (number f) = some (integer kind (to_int kind f))
convert_int to_int kind _ = none

-- The switch on the kind of an input: `none` is a failed conversion. Nothing that encoding/json
-- decodes is a float32. The test of the default case is on a variable that is true there, so that
-- its error is never returned and the argument stays the zero Value, as does a nil interface.
unfoldable pub convert : (Kind → ℕ → ℕ) → Kind → Json → Option Arg
convert to_int float32 arg = none
convert to_int float64 (number f) = some (float f)
convert to_int float64 _ = none
convert to_int interface null = some zero_value
convert to_int interface arg = some (any arg)
convert to_int map (object fields) = some (map_of fields)
convert to_int map _ = none
convert to_int slice_kind (array items) = some (slice_of items)
convert to_int slice_kind _ = none
convert to_int string (str s) = some (text_of s)
convert to_int string _ = none
convert to_int unsupported arg = some zero_value
convert to_int kind arg = convert_int to_int kind arg

-- The loop over the parameters.
unfoldable pub convert_all :
    (Kind → ℕ → ℕ) → Json → ℕ → List ParamType → List Json → Result ErrorResponse (List Arg)
convert_all to_int id i [] params = ok []
convert_all to_int id i (p ∷ inputs) [] = ok []
convert_all to_int id i (p ∷ inputs) (arg ∷ params) =
    or_error (convert to_int p.kind arg)
      (failure invalid_params "Invalid params" (conversion_error i p.name) id)
    >>= λ a. convert_all to_int id (suc i) inputs params >>= λ args. ok (a ∷ args)

abbrev pub is_zero_value : Arg → Bool
is_zero_value zero_value = true
is_zero_value _ = false

abbrev pub any_zero : List Arg → Bool
any_zero [] = false
any_zero (a ∷ args) = is_zero_value a || any_zero args

pub data Outcome : Type 0 where
  failed : ErrorResponse → Outcome
  success : Json → Json → Outcome
  panicked : Outcome

-- What is made of the returned values. The last of no values is out of range.
unfoldable pub outcome_of : Json → Returned → Outcome
outcome_of id nothing = panicked
outcome_of id (returned result none) = success id result
outcome_of id (returned result (some (rpc_error code message body))) =
    failed (record { code = code; message = message; detail = carries body; id = id })
outcome_of id (returned result (some (other_error message))) =
    failed (record { code = method_not_found; message = message; detail = says message; id = id })

abbrev pub is_string : String → Option Json → Bool
is_string s (some (str t)) = str_eq t s
is_string s _ = false

abbrev pub method_name : Option Json → Option String
method_name (some (str s)) = some s
method_name _ = none

abbrev pub params_of : Option Json → Option Items
params_of (some (array items)) = some items
params_of _ = none

-- `title` is the conversion of a method's name to title case, and `api` the lookup by name.
module _ {ℓ} {S : Type ℓ} (to_int : Kind → ℕ → ℕ) (title : String → String)
    (api : String → Option (Method S)) where
  -- An optional input that the request leaves out is the empty map.
  abbrev pub completed : List ParamType → List Json → List Json
  completed inputs params =
      if is_optional_param_undefined (length params) (length inputs) (has_optional_input inputs)
      then params ++ object end ∷ []
      else params

  -- The part of handleRequest before the call.
  unfoldable pub prepare : Fields → Result ErrorResponse (Json × Method S × List Arg)
  prepare fields =
      or_error (parse_request_id fields)
        (failure invalid_request "Invalid Request" (says "No or invalid 'id' in request") null)
      >>= λ id.
          guard (is_string "2.0" (get "jsonrpc" fields))
            (failure invalid_request "Invalid Request" (says "Version of jsonrpc is not 2.0") id)
          >>= λ u.
              or_error (method_name (get "method" fields)) (
                failure invalid_request "Invalid Request" (says "No or invalid 'method' in request")
                  id)
              >>= λ name.
                  or_error (params_of (get "params" fields)) (
                    failure invalid_params "Invalid params"
                      (says "No or invalid 'params' in request") id)
                  >>= λ items.
                      or_error (api (title name))
                        (failure method_not_found "Method not found" (says "Method not found") id)
                      >>= λ m.
                          guard
                            (has_valid_param_length (length (list_of items)) (length m.inputs)
                              (has_optional_input m.inputs))
                            (failure invalid_params "Invalid params"
                              (says "Invalid number of params") id)
                          >>= λ w.
                              convert_all to_int id 0 m.inputs (completed m.inputs (list_of items))
                              >>= λ args. ok (id, m, args)

  unfoldable pub handle_request : Fields → S → S × Outcome
  unfolding prepare outcome_of
  handle_request fields s = elim (prepare fields) [
    | err e ↦ (s, failed e)
    | ok (id, m, args) ↦
        if any_zero args
        then (s, panicked)
        else (let (s', r) = m.call args s in (s', outcome_of id r))
  ]
