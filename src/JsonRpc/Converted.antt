-- ===== src/JsonRpc/Converted.antt =====
-- The values that an input of each kind takes.
use aiops_bundler.Base.{
  ℕ, suc, String, Bool, true, false, List, [], ◌∷◌, some, ◌≡◌, ◌≢◌, refl, ap, subst, arith,
}
use aiops_bundler.Base.Lists.{length}
use aiops_bundler.JsonRpc.{
  Json, null, boolean, number, str, array, object, Items, Fields, Kind, int, int8, int16, int32,
  int64, uint, uint8, uint16, uint32, uint64, float32, float64, interface, map, slice_kind, string,
  unsupported, ParamType, Arg, float, integer, any, map_of, slice_of, text_of, zero_value, convert,
  convert_int,
}
use aiops_bundler.JsonRpc.Requests.{Converts}

abbrev pub is_integer : Kind → Bool
is_integer int = true
is_integer int8 = true
is_integer int16 = true
is_integer int32 = true
is_integer int64 = true
is_integer uint = true
is_integer uint8 = true
is_integer uint16 = true
is_integer uint32 = true
is_integer uint64 = true
is_integer _ = false

-- The values that an input of a kind takes, with their arguments.
pub data IsConverted (to_int : Kind → ℕ → ℕ) : Kind → Json → Arg → Type 0 where
  as_float : (f : ℕ) → IsConverted to_int float64 (number f) (float f)
  as_integer :
      (k : Kind) (f : ℕ)
      → is_integer k ≡ true
      → IsConverted to_int k (number f) (integer k (to_int k f))
  as_any : (j : Json) → j ≢ null → IsConverted to_int interface j (any j)
  as_nil : IsConverted to_int interface null zero_value
  as_map : (fs : Fields) → IsConverted to_int map (object fs) (map_of fs)
  as_slice : (js : Items) → IsConverted to_int slice_kind (array js) (slice_of js)
  as_text : (s : String) → IsConverted to_int string (str s) (text_of s)
  as_zero : (j : Json) → IsConverted to_int unsupported j zero_value

module _ (to_int : Kind → ℕ → ℕ) where
  same_arg :
      (k : Kind) (j : Json) (a b : Arg)
      → some a ≡ some b
      → IsConverted to_int k j a
      → IsConverted to_int k j b
  same_arg k j a b e c = let same : a ≡ b = cc in subst (IsConverted to_int k j) same c

  int-IsConverted :
      (k : Kind) (j : Json) (a : Arg)
      → is_integer k ≡ true
      → convert_int to_int k j ≡ some a
      → IsConverted to_int k j a
  int-IsConverted k null a h e = absurd (ground arith)
  int-IsConverted k (boolean b) a h e = absurd (ground arith)
  int-IsConverted k (number f) a h e = same_arg k (number f) _ a e (as_integer k f h)
  int-IsConverted k (str s) a h e = absurd (ground arith)
  int-IsConverted k (array items) a h e = absurd (ground arith)
  int-IsConverted k (object fields) a h e = absurd (ground arith)

  convert-IsConverted :
      (k : Kind) (j : Json) (a : Arg) → convert to_int k j ≡ some a → IsConverted to_int k j a
  unfolding convert
  convert-IsConverted float32 j a e = absurd (ground arith)
  convert-IsConverted float64 null a e = absurd (ground arith)
  convert-IsConverted float64 (boolean b) a e = absurd (ground arith)
  convert-IsConverted float64 (number f) a e = same_arg float64 (number f) _ a e (as_float f)
  convert-IsConverted float64 (str s) a e = absurd (ground arith)
  convert-IsConverted float64 (array items) a e = absurd (ground arith)
  convert-IsConverted float64 (object fields) a e = absurd (ground arith)
  convert-IsConverted int j a e = int-IsConverted int j a refl e
  convert-IsConverted int8 j a e = int-IsConverted int8 j a refl e
  convert-IsConverted int16 j a e = int-IsConverted int16 j a refl e
  convert-IsConverted int32 j a e = int-IsConverted int32 j a refl e
  convert-IsConverted int64 j a e = int-IsConverted int64 j a refl e
  convert-IsConverted uint j a e = int-IsConverted uint j a refl e
  convert-IsConverted uint8 j a e = int-IsConverted uint8 j a refl e
  convert-IsConverted uint16 j a e = int-IsConverted uint16 j a refl e
  convert-IsConverted uint32 j a e = int-IsConverted uint32 j a refl e
  convert-IsConverted uint64 j a e = int-IsConverted uint64 j a refl e
  convert-IsConverted interface null a e = same_arg interface null _ a e as_nil
  convert-IsConverted interface (boolean b) a e =
      same_arg interface (boolean b) _ a e (as_any (boolean b) (λ h. ground arith))
  convert-IsConverted interface (number f) a e =
      same_arg interface (number f) _ a e (as_any (number f) (λ h. ground arith))
  convert-IsConverted interface (str s) a e =
      same_arg interface (str s) _ a e (as_any (str s) (λ h. ground arith))
  convert-IsConverted interface (array items) a e =
      same_arg interface (array items) _ a e (as_any (array items) (λ h. ground arith))
  convert-IsConverted interface (object fields) a e =
      same_arg interface (object fields) _ a e (as_any (object fields) (λ h. ground arith))
  convert-IsConverted map null a e = absurd (ground arith)
  convert-IsConverted map (boolean b) a e = absurd (ground arith)
  convert-IsConverted map (number f) a e = absurd (ground arith)
  convert-IsConverted map (str s) a e = absurd (ground arith)
  convert-IsConverted map (array items) a e = absurd (ground arith)
  convert-IsConverted map (object fields) a e = same_arg map (object fields) _ a e (as_map fields)
  convert-IsConverted slice_kind null a e = absurd (ground arith)
  convert-IsConverted slice_kind (boolean b) a e = absurd (ground arith)
  convert-IsConverted slice_kind (number f) a e = absurd (ground arith)
  convert-IsConverted slice_kind (str s) a e = absurd (ground arith)
  convert-IsConverted slice_kind (array items) a e =
      same_arg slice_kind (array items) _ a e (as_slice items)
  convert-IsConverted slice_kind (object fields) a e = absurd (ground arith)
  convert-IsConverted string null a e = absurd (ground arith)
  convert-IsConverted string (boolean b) a e = absurd (ground arith)
  convert-IsConverted string (number f) a e = absurd (ground arith)
  convert-IsConverted string (str s) a e = same_arg string (str s) _ a e (as_text s)
  convert-IsConverted string (array items) a e = absurd (ground arith)
  convert-IsConverted string (object fields) a e = absurd (ground arith)
  convert-IsConverted unsupported j a e = same_arg unsupported j _ a e (as_zero j)

  convert_integer :
      (k : Kind) (f : ℕ)
      → is_integer k ≡ true
      → convert to_int k (number f) ≡ some (integer k (to_int k f))
  unfolding convert
  convert_integer int f h = refl
  convert_integer int8 f h = refl
  convert_integer int16 f h = refl
  convert_integer int32 f h = refl
  convert_integer int64 f h = refl
  convert_integer uint f h = refl
  convert_integer uint8 f h = refl
  convert_integer uint16 f h = refl
  convert_integer uint32 f h = refl
  convert_integer uint64 f h = refl
  convert_integer float32 f h = absurd (ground arith)
  convert_integer float64 f h = absurd (ground arith)
  convert_integer interface f h = absurd (ground arith)
  convert_integer map f h = absurd (ground arith)
  convert_integer slice_kind f h = absurd (ground arith)
  convert_integer string f h = absurd (ground arith)
  convert_integer unsupported f h = absurd (ground arith)

  convert_any : (j : Json) → j ≢ null → convert to_int interface j ≡ some (any j)
  unfolding convert
  convert_any null h = absurd (h refl)
  convert_any (boolean b) h = refl
  convert_any (number f) h = refl
  convert_any (str s) h = refl
  convert_any (array items) h = refl
  convert_any (object fields) h = refl

  IsConverted-convert :
      {k : Kind} {j : Json} {a : Arg} → IsConverted to_int k j a → convert to_int k j ≡ some a
  unfolding convert
  IsConverted-convert (as_float f) = refl
  IsConverted-convert (as_integer k f h) = convert_integer k f h
  IsConverted-convert (as_any j h) = convert_any j h
  IsConverted-convert as_nil = refl
  IsConverted-convert (as_map fs) = refl
  IsConverted-convert (as_slice js) = refl
  IsConverted-convert (as_text s) = refl
  IsConverted-convert (as_zero j) = refl

  -- Every parameter is converted to the argument at its place.
  abbrev pub ConvertsAll : List ParamType → List Json → List Arg → Type 0
  ConvertsAll [] [] args = args ≡ []
  ConvertsAll [] (arg ∷ params) args = ⊥
  ConvertsAll (p ∷ inputs) [] args = ⊥
  ConvertsAll (p ∷ inputs) (arg ∷ params) [] = ⊥
  ConvertsAll (p ∷ inputs) (arg ∷ params) (a ∷ args) =
      IsConverted to_int p.kind arg a × ConvertsAll inputs params args

  pub Converts-ConvertsAll :
      (inputs : List ParamType) (params : List Json) (args : List Arg)
      → length params ≡ length inputs
      → Converts to_int inputs params args
      → ConvertsAll inputs params args
  Converts-ConvertsAll [] [] args h c = c
  Converts-ConvertsAll [] (arg ∷ params) args h c = absurd (omega arith)
  Converts-ConvertsAll (p ∷ inputs) [] args h c = absurd (omega arith)
  Converts-ConvertsAll (p ∷ inputs) (arg ∷ params) [] h c = absurd c
  Converts-ConvertsAll (p ∷ inputs) (arg ∷ params) (a ∷ args) h c = (
    convert-IsConverted p.kind arg a c.0,
    Converts-ConvertsAll inputs params args (omega arith) c.1,
  )

  pub ConvertsAll-Converts :
      (inputs : List ParamType) (params : List Json) (args : List Arg)
      → ConvertsAll inputs params args
      → (length params ≡ length inputs) × Converts to_int inputs params args
  ConvertsAll-Converts [] [] args c = (refl, c)
  ConvertsAll-Converts [] (arg ∷ params) args c = absurd c
  ConvertsAll-Converts (p ∷ inputs) [] args c = absurd c
  ConvertsAll-Converts (p ∷ inputs) (arg ∷ params) [] c = absurd c
  ConvertsAll-Converts (p ∷ inputs) (arg ∷ params) (a ∷ args) c =
      let rest = ConvertsAll-Converts inputs params args c.1 in
      (ap suc rest.0, (IsConverted-convert c.0, rest.1))
