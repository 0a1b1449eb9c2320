-- ===== src/Simulation/Calls.antt =====
-- pkg/aimiddleware/simulation/callstack.go, over the stack of internal/utils/stack.go: the finished
-- calls of a trace, with what they returned. The text of a value is read by big.Int's SetString,
-- which is a parameter.
pub mod Nested
use aiops_bundler.Base.{ℕ, String, Bool, true, false, List, [], ◌∷◌, ◌++◌, Option, none, some}
use aiops_bundler.Aiop.{Address}

-- The opcode of a traced step. `create` is any text that contains CREATE.
pub data CallType : Type 0 where
  revert return create : CallType
  call : String → CallType

-- The fields of a CallInfo that the call stack reads. D is the type of a return's data.
pub record CallInfo {ℓ} (D : Type ℓ) : Type ℓ where
  pub type : CallType
  pub from : Address
  pub to : Address
  pub method : ℕ
  pub value : String
  pub payload : D

pub record CallEntry {ℓ} (D : Type ℓ) : Type ℓ where
  pub from : Address
  pub to : Address
  pub value : ℕ
  pub type : CallType
  pub method : ℕ
  pub returned : D

-- A Stack, with its top at the head.
unfoldable pub push {ℓ} : {T : Type ℓ} → List T → T → List T
push keys key = key ∷ keys

-- Pop of an empty stack gives the zero value.
unfoldable pub pop {ℓ} : {T : Type ℓ} → T → List T → T × List T
pop zero_value [] = (zero_value, [])
pop zero_value (top ∷ keys) = (top, keys)

module _ {ℓ} {D : Type ℓ} (set_string : String → Option ℕ) (nil : D) where
  -- The zero value of CallInfo; its type is the empty text.
  abbrev pub no_call : CallInfo D
  no_call = record { type = call ""; from = 0; to = 0; method = 0; value = ""; payload = nil }

  abbrev pub value_of : String → ℕ
  value_of s = elim (set_string s) [ none ↦ 0 | some v ↦ v ]

  abbrev pub entry_of : CallInfo D → D → CallEntry D
  entry_of top payload = record {
    from = top.from;
    to = top.to;
    value = value_of top.value;
    type = top.type;
    method = top.method;
    returned = payload;
  }

  -- What a return or a revert appends for the call on top of the stack.
  abbrev pub close : CallType → CallInfo D → D → List (CallEntry D)
  close exit top payload = elim top.type [
    | create ↦ []
    | _ ↦ elim exit [ revert ↦ [] | _ ↦ entry_of top payload ∷ [] ]
  ]

  unfoldable pub call_loop :
      List (CallInfo D) → List (CallInfo D) → List (CallEntry D) → List (CallEntry D)
  unfolding push pop
  call_loop [] stack out = out
  call_loop (c ∷ calls) stack out =
      let exit =
        let (top, keys) = pop no_call stack in
        call_loop calls keys (out ++ close c.type top c.payload) in
      let enter = call_loop calls (push stack c) out in
      elim c.type [ revert ↦ exit | return ↦ exit | _ ↦ enter ]

  unfoldable pub new_call_stack : List (CallInfo D) → List (CallEntry D)
  unfolding call_loop
  new_call_stack calls = call_loop calls [] []
