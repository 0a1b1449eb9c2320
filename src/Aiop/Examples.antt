-- ===== src/Aiop/Examples.antt =====
-- Tests of the operation's derived values.
use aiops_bundler.Base.{ℕ, ◌+◌, ◌/◌, ◌%◌, ◌≡◌, refl, ◌++◌, [], ◌∷◌, none, some, arith}
use aiops_bundler.Base.Tests.{ltb, if◌then◌else◌}
use aiops_bundler.Base.Lists.{replicate, length}
use aiops_bundler.Base.Int.{pos}
use aiops_bundler.Base.Result.{ok}
use aiops_bundler.Aiop.Hash.{Crypto}
use aiops_bundler.Aiop.Parse.{Text, Codec, hex_digit, decode_hex, byte_string, new, to_map}
use aiops_bundler.Aiop.Parse.Roundtrip.{ReadsBack, kept_init_code, new-to_map}
use aiops_bundler.Aiop.{
  Bytes, AiOperation, get_paymaster, get_factory, get_max_gas_available, get_max_prefund,
  get_dynamic_gas_price,
}

-- An operation of sender 7 with paymaster 2 and no initCode.
abbrev pub sample_op : AiOperation
sample_op = record {
  sender = 7;
  nonce = 1;
  init_code = [];
  call_data = 1 ∷ 2 ∷ [];
  call_gas_limit = 100;
  verification_gas_limit = 50;
  pre_verification_gas = 20;
  max_fee_per_gas = 10;
  max_priority_fee_per_gas = 3;
  paymaster_and_data = replicate 19 0 ++ 2 ∷ 9 ∷ [];
  signature = 5 ∷ [];
}

sample_paymaster : get_paymaster sample_op ≡ 2
unfolding get_paymaster
sample_paymaster = refl

sample_factory : get_factory sample_op ≡ 0
unfolding get_factory
sample_factory = refl

sample_prefund : get_max_prefund sample_op ≡ 2700
unfolding get_max_prefund get_max_gas_available get_paymaster
sample_prefund = refl

sample_price : get_dynamic_gas_price sample_op (some 4) ≡ 7
unfolding get_dynamic_gas_price
sample_price = refl

-- A format with one code per number, and the hexadecimal text of bytes.
abbrev pub first_code : Text → ℕ
first_code [] = 0
first_code (c ∷ cs) = c

abbrev pub hex_code : ℕ → ℕ
hex_code n = if ltb n 10 then 48 + n else 87 + n

abbrev pub hex_text : Bytes → Text
hex_text [] = []
hex_text (b ∷ bs) = hex_code (b / 16) ∷ hex_code (b % 16) ∷ hex_text bs

abbrev pub sample_codec : Codec
sample_codec = record {
  hex_to_address = first_code;
  address_text = λ a. a ∷ [];
  set_string = λ t. some (pos (first_code t));
  encode_big = λ n. n ∷ [];
  encode = λ bs. b'0' ∷ b'x' ∷ hex_text bs;
  bytes_to_hex = hex_text;
  own_address = λ v. none;
  own_big = λ v. none;
  own_bytes = λ v. none;
}

pub sample_op-ReadsBack : ReadsBack sample_codec sample_op
unfolding byte_string decode_hex hex_digit get_factory
sample_op-ReadsBack = record {
  sender = refl;
  nonce = refl;
  call_gas_limit = refl;
  verification_gas_limit = refl;
  pre_verification_gas = refl;
  max_fee_per_gas = refl;
  max_priority_fee_per_gas = refl;
  factory = λ h. absurd (h refl);
  call_data = refl;
  paymaster_and_data = refl;
  signature = refl;
}

new-to_map_example :
    new sample_codec (to_map sample_codec sample_op)
    ≡ ok (record sample_op { init_code = kept_init_code sample_op })
new-to_map_example = new-to_map sample_codec sample_op sample_op-ReadsBack (λ h. ground arith)

-- A hash by length and first byte.
abbrev pub sample_crypto : Crypto
sample_crypto = record {
  keccak256 = λ bs. length bs ∷ [];
  keccak256_hash = λ bs. length bs;
  pack = λ vs. length vs ∷ [];
  left_pad_32 = λ n. n ∷ [];
}
