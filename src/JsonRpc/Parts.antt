-- ===== src/JsonRpc/Parts.antt =====
-- The parts of a request: its id, its method's name, its parameters and an optional last input.
use text.Mathlib.Text.{starts_with}
use aiops_bundler.Base.{
  String, true, List, [], ◌∷◌, ◌++◌, Option, none, some, ◌≡◌, refl, ap, ◌∙◌, ◌↔◌, subst, arith,
}
use aiops_bundler.JsonRpc.{
  Json, null, boolean, number, str, array, object, Items, Fields, get, Kind, int, int8, int16,
  int32, int64, uint, uint8, uint16, uint32, uint64, float32, float64, interface, map, slice_kind,
  string, unsupported, ParamType, optional_type_prefix, is_map, has_optional_input,
  parse_request_id, method_name, params_of,
}

-- The last input is a map whose name says that it is optional.
abbrev pub LastIsOptional : List ParamType → Type 0
LastIsOptional inputs =
    (front : List ParamType) × (last : ParamType) × (inputs ≡ front ++ last ∷ [])
    × (starts_with last.name optional_type_prefix ≡ true)
    × (last.kind ≡ map)

is_map-map : (k : Kind) → is_map k ≡ true → k ≡ map
is_map-map float32 h = absurd (ground arith)
is_map-map float64 h = absurd (ground arith)
is_map-map int h = absurd (ground arith)
is_map-map int8 h = absurd (ground arith)
is_map-map int16 h = absurd (ground arith)
is_map-map int32 h = absurd (ground arith)
is_map-map int64 h = absurd (ground arith)
is_map-map uint h = absurd (ground arith)
is_map-map uint8 h = absurd (ground arith)
is_map-map uint16 h = absurd (ground arith)
is_map-map uint32 h = absurd (ground arith)
is_map-map uint64 h = absurd (ground arith)
is_map-map interface h = absurd (ground arith)
is_map-map map h = refl
is_map-map slice_kind h = absurd (ground arith)
is_map-map string h = absurd (ground arith)
is_map-map unsupported h = absurd (ground arith)

pub has_optional_input-LastIsOptional :
    (inputs : List ParamType) → has_optional_input inputs ≡ true → LastIsOptional inputs
unfolding has_optional_input
has_optional_input-LastIsOptional [] h = absurd (ground arith)
has_optional_input-LastIsOptional (p ∷ []) h =
    let both : (starts_with p.name optional_type_prefix ≡ true) × (is_map p.kind ≡ true) =
      ground arith in
    ([], p, refl, both.0, is_map-map p.kind both.1)
has_optional_input-LastIsOptional (p ∷ q ∷ ps) h =
    let (front, last, e, named, k) = has_optional_input-LastIsOptional (q ∷ ps) h in
    (p ∷ front, last, ap (λ l. p ∷ l) e, named, k)

has_optional_input-append :
    (front : List ParamType) (last : ParamType)
    → starts_with last.name optional_type_prefix ≡ true
    → last.kind ≡ map
    → has_optional_input (front ++ last ∷ []) ≡ true
unfolding has_optional_input
has_optional_input-append [] last named k = rw (named, k) refl
has_optional_input-append (p ∷ []) last named k = rw (named, k) refl
has_optional_input-append (p ∷ q ∷ front) last named k =
    has_optional_input-append (q ∷ front) last named k

pub LastIsOptional-has_optional_input :
    (inputs : List ParamType) → LastIsOptional inputs → has_optional_input inputs ≡ true
LastIsOptional-has_optional_input inputs (front, last, e, named, k) =
    ap has_optional_input e ∙ has_optional_input-append front last named k

-- An id that JSON-RPC allows.
abbrev pub IsId : Json → Type 0
IsId null = Unit
IsId (number f) = Unit
IsId (str s) = Unit
IsId _ = ⊥

abbrev allowed_id : Option Json → Option Json
allowed_id o = elim o [
  | none ↦ none
  | some null ↦ some null
  | some (number f) ↦ some (number f)
  | some (str s) ↦ some (str s)
  | some _ ↦ none
]

some-IsId : (j id : Json) → IsId j → some j ≡ some id → IsId id
some-IsId j id allowed e = let same : j ≡ id = cc in subst IsId same allowed

no_id : (j id : Json) → (IsId j → ⊥) → (some j ≡ some id) × IsId id → ⊥
no_id j id refused (e, allowed) = let same : id ≡ j = cc in refused (subst IsId same allowed)

allowed_id-IsId :
    (o : Option Json) (id : Json) → (allowed_id o ≡ some id) ↔ ((o ≡ some id) × IsId id)
allowed_id-IsId none id = (λ e. absurd (ground arith), λ k. k.0)
allowed_id-IsId (some null) id = (λ e. (e, some-IsId null id tt e), λ k. k.0)
allowed_id-IsId (some (boolean b)) id =
    (λ e. absurd (ground arith), λ k. absurd (no_id (boolean b) id (λ h. h) k))
allowed_id-IsId (some (number f)) id = (λ e. (e, some-IsId (number f) id tt e), λ k. k.0)
allowed_id-IsId (some (str s)) id = (λ e. (e, some-IsId (str s) id tt e), λ k. k.0)
allowed_id-IsId (some (array items)) id =
    (λ e. absurd (ground arith), λ k. absurd (no_id (array items) id (λ h. h) k))
allowed_id-IsId (some (object fields)) id =
    (λ e. absurd (ground arith), λ k. absurd (no_id (object fields) id (λ h. h) k))

pub parse_request_id-IsId :
    (fields : Fields) (id : Json)
    → (parse_request_id fields ≡ some id) ↔ ((get "id" fields ≡ some id) × IsId id)
unfolding parse_request_id
parse_request_id-IsId fields id = allowed_id-IsId (get "id" fields) id

pub method_name_lem :
    (o : Option Json) (name : String) → (method_name o ≡ some name) ↔ (o ≡ some (str name))
method_name_lem none name = (λ e. absurd (ground arith), λ e. absurd (ground arith))
method_name_lem (some null) name = (λ e. absurd (ground arith), λ e. absurd (ground arith))
method_name_lem (some (boolean b)) name = (λ e. absurd (ground arith), λ e. absurd (ground arith))
method_name_lem (some (number f)) name = (λ e. absurd (ground arith), λ e. absurd (ground arith))
method_name_lem (some (str s)) name = (λ e. cc, λ e. cc)
method_name_lem (some (array items)) name = (λ e. absurd (ground arith), λ e. absurd (ground arith))
method_name_lem (some (object fields)) name =
    (λ e. absurd (ground arith), λ e. absurd (ground arith))

pub params_of_lem :
    (o : Option Json) (items : Items) → (params_of o ≡ some items) ↔ (o ≡ some (array items))
params_of_lem none items = (λ e. absurd (ground arith), λ e. absurd (ground arith))
params_of_lem (some null) items = (λ e. absurd (ground arith), λ e. absurd (ground arith))
params_of_lem (some (boolean b)) items = (λ e. absurd (ground arith), λ e. absurd (ground arith))
params_of_lem (some (number f)) items = (λ e. absurd (ground arith), λ e. absurd (ground arith))
params_of_lem (some (str s)) items = (λ e. absurd (ground arith), λ e. absurd (ground arith))
params_of_lem (some (array js)) items = (λ e. cc, λ e. cc)
params_of_lem (some (object fields)) items =
    (λ e. absurd (ground arith), λ e. absurd (ground arith))
