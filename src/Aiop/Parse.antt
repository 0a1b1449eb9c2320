-- ===== src/Aiop/Parse.antt =====
-- pkg/aiop/parse.go, and MarshalJSON and ToMap of pkg/aiop/object.go.
-- A text is the list of its bytes. The decoder of mapstructure and the number and address formats of
-- go-ethereum and math/big are parameters; the hook that the decoder calls on each field, the
-- validation of the fields and the layout of the map are the program's.
pub mod Roundtrip
use aiops_bundler.Base.{
  ℕ, ◌+◌, ◌-◌, ◌*◌, ◌≡◌, refl, Bool, true, false, ◌&&◌, ◌||◌, List, [], ◌∷◌, ◌++◌, Option, none,
  some, arith,
}
use aiops_bundler.Base.Tests.{ltb, leb, ◌==◌, if◌then◌else◌}
use aiops_bundler.Base.Int.{ℤ, pos, negsuc}
use aiops_bundler.Base.Result.{Result, ok, err, ◌>>=◌}
use aiops_bundler.Aiop.{Address, Bytes, AiOperation, zero_address, get_factory, get_factory_data}

abbrev pub Text : Type 0
Text = List ℕ

-- A value of a decoded JSON map. A number is given by its value as an int64.
pub data Value : Type 0 where
  text : Text → Value
  float : ℤ → Value
  other : Value

-- The map that New is given: `none` is a missing key. Keys of no field are ignored.
pub record RawOp : Type 0 where
  pub sender : Option Value
  pub nonce : Option Value
  pub init_code : Option Value
  pub call_data : Option Value
  pub call_gas_limit : Option Value
  pub verification_gas_limit : Option Value
  pub pre_verification_gas : Option Value
  pub max_fee_per_gas : Option Value
  pub max_priority_fee_per_gas : Option Value
  pub paymaster_and_data : Option Value
  pub signature : Option Value

-- `bad_data` wraps ErrBadAiOperationData, `invalid` is a failed validation.
pub data ParseError : Type 0 where
  bad_data invalid : ParseError

-- The third-party formats: HexToAddress and the checksummed address, big.Int's SetString and
-- hexutil's EncodeBig and Encode, Bytes2Hex, and what mapstructure makes of a value that the hook
-- returns unchanged.
pub record Codec : Type 0 where
  pub hex_to_address : Text → Address
  pub address_text : Address → Text
  pub set_string : Text → Option ℤ
  pub encode_big : ℕ → Text
  pub encode : Bytes → Text
  pub bytes_to_hex : Bytes → Text
  pub own_address : Value → Option Address
  pub own_big : Value → Option ℤ
  pub own_bytes : Value → Option Bytes

-- encoding/hex.
unfoldable pub hex_digit : ℕ → Option ℕ
hex_digit c =
    if leb b'0' c && leb c b'9'
    then some (c - 48)
    else if leb b'a' c && leb c b'f'
    then some (c - 87)
    else if leb b'A' c && leb c b'F'
    then some (c - 55)
    else none

unfoldable pub decode_hex : Text → Option Bytes
unfolding hex_digit
decode_hex [] = some []
decode_hex (c ∷ []) = none
decode_hex (c ∷ d ∷ cs) =
    let rest = decode_hex cs in
    elim (hex_digit c) [
      | none ↦ none
      | some hi ↦ elim (hex_digit d) [
        | none ↦ none
        | some lo ↦ elim rest [ none ↦ none | some bs ↦ some ((hi * 16 + lo) ∷ bs) ]
      ]
    ]

-- decodeOpTypes at a field of type []byte.
unfoldable pub byte_string : Text → Option Bytes
unfolding decode_hex
byte_string [] = none
byte_string (c ∷ []) = none
byte_string (c ∷ d ∷ cs) = if c == b'0' && d == b'x' then decode_hex cs else none

module _ (codec : Codec) where
  -- decodeOpTypes and the decoder by the type of the field.
  unfoldable pub decode_address : Option Value → Option Address
  decode_address none = none
  decode_address (some (text t)) = some (codec.hex_to_address t)
  decode_address (some (float n)) = codec.own_address (float n)
  decode_address (some other) = codec.own_address other

  unfoldable pub decode_big : Option Value → Option ℤ
  decode_big none = none
  decode_big (some (text t)) = codec.set_string t
  decode_big (some (float n)) = some n
  decode_big (some other) = codec.own_big other

  unfoldable pub decode_bytes : Option Value → Option Bytes
  unfolding byte_string
  decode_bytes none = none
  decode_bytes (some (text t)) = byte_string t
  decode_bytes (some (float n)) = codec.own_bytes (float n)
  decode_bytes (some other) = codec.own_bytes other

-- A decoded field, or the decoding error.
abbrev field {ℓ} : {A : Type ℓ} → Option A → Result ParseError A
field none = err bad_data
field (some a) = ok a

-- validateAddressType and validateBigIntType under the tag `required`.
abbrev valid_address : Address → Result ParseError Address
valid_address a = if a == zero_address then err invalid else ok a

abbrev valid_big : ℤ → Result ParseError ℕ
valid_big (pos n) = ok n
valid_big (negsuc n) = err invalid

module _ (codec : Codec) where
  -- New: every field is decoded before any is validated.
  unfoldable pub new : RawOp → Result ParseError AiOperation
  unfolding decode_address decode_big decode_bytes
  new raw = do
    sender ← field (decode_address codec raw.sender)
    nonce ← field (decode_big codec raw.nonce)
    init_code ← field (decode_bytes codec raw.init_code)
    call_data ← field (decode_bytes codec raw.call_data)
    call_gas_limit ← field (decode_big codec raw.call_gas_limit)
    verification_gas_limit ← field (decode_big codec raw.verification_gas_limit)
    pre_verification_gas ← field (decode_big codec raw.pre_verification_gas)
    max_fee_per_gas ← field (decode_big codec raw.max_fee_per_gas)
    max_priority_fee_per_gas ← field (decode_big codec raw.max_priority_fee_per_gas)
    paymaster_and_data ← field (decode_bytes codec raw.paymaster_and_data)
    signature ← field (decode_bytes codec raw.signature)
    sender' ← valid_address sender
    nonce' ← valid_big nonce
    call_gas_limit' ← valid_big call_gas_limit
    verification_gas_limit' ← valid_big verification_gas_limit
    pre_verification_gas' ← valid_big pre_verification_gas
    max_fee_per_gas' ← valid_big max_fee_per_gas
    max_priority_fee_per_gas' ← valid_big max_priority_fee_per_gas
    ok (record {
      sender = sender';
      nonce = nonce';
      init_code = init_code;
      call_data = call_data;
      call_gas_limit = call_gas_limit';
      verification_gas_limit = verification_gas_limit';
      pre_verification_gas = pre_verification_gas';
      max_fee_per_gas = max_fee_per_gas';
      max_priority_fee_per_gas = max_priority_fee_per_gas';
      paymaster_and_data = paymaster_and_data;
      signature = signature;
    })

  -- MarshalJSON and ToMap: the initCode is written only if it names a factory.
  unfoldable pub to_map : AiOperation → RawOp
  to_map op =
      let ic : Text =
        if get_factory op == zero_address
        then b'0' ∷ b'x' ∷ []
        else codec.address_text (get_factory op) ++ codec.bytes_to_hex (get_factory_data op) in
      record {
        sender = some (text (codec.address_text op.sender));
        nonce = some (text (codec.encode_big op.nonce));
        init_code = some (text ic);
        call_data = some (text (codec.encode op.call_data));
        call_gas_limit = some (text (codec.encode_big op.call_gas_limit));
        verification_gas_limit = some (text (codec.encode_big op.verification_gas_limit));
        pre_verification_gas = some (text (codec.encode_big op.pre_verification_gas));
        max_fee_per_gas = some (text (codec.encode_big op.max_fee_per_gas));
        max_priority_fee_per_gas = some (text (codec.encode_big op.max_priority_fee_per_gas));
        paymaster_and_data = some (text (codec.encode op.paymaster_and_data));
        signature = some (text (codec.encode op.signature));
      }
