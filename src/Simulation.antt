-- ===== src/Simulation.antt =====
-- pkg/aimiddleware/simulation: what a traced simulation of an operation is checked against, over the
-- types of pkg/tracer/types.go. The trace itself is a call of the node and a parameter.
-- A Go map is a list of its entries, in the order in which the code ranges over it. The text of a
-- storage slot is written as the number that it spells.
pub mod Slots
pub mod Calls
pub mod Trace
pub mod Examples
use aiops_bundler.Base.{ℕ, String, Bool, true, false, ◌&&◌, List, [], ◌∷◌, Option, none, some}
use aiops_bundler.Base.Tests.{◌==◌, if◌then◌else◌}
use aiops_bundler.Base.Dict.{Dict, lookup}
use aiops_bundler.Aiop.{Address, AiOperation, get_paymaster, get_factory}
use aiops_bundler.Modules.{DepositInfo}

abbrev pub Slot : Type 0
Slot = ℕ

-- The slots that were read, and those that were written; their counts and values are not used.
pub record AccessInfo : Type 0 where
  pub reads : List Slot
  pub writes : List Slot

pub record ContractSizeInfo : Type 0 where
  pub contract_size : ℕ
  pub opcode : String

-- The opcodes with how often each was used. The selector of the called method is the number that
-- its four bytes spell.
pub record CallFromAiMiddlewareInfo : Type 0 where
  pub top_level_method_sig : ℕ
  pub top_level_target_address : Address
  pub opcodes : List (String × ℕ)
  pub access : Dict AccessInfo
  pub contract_size : Dict ContractSizeInfo
  pub ext_code_access_info : Dict String
  pub oog : Bool

abbrev pub no_info : CallFromAiMiddlewareInfo
no_info = record {
  top_level_method_sig = 0;
  top_level_target_address = 0;
  opcodes = [];
  access = [];
  contract_size = [];
  ext_code_access_info = [];
  oog = false;
}

-- The stakes of the addresses that an operation names; a nil pointer is `none`.
abbrev pub EntityStakes : Type 0
EntityStakes = Dict (Option DepositInfo)

-- The keys of the known entities.
pub data Title : Type 0 where
  account factory paymaster : Title

abbrev pub same_title : Title → Title → Bool
same_title account account = true
same_title factory factory = true
same_title paymaster paymaster = true
same_title _ _ = false

pub record Entity : Type 0 where
  pub address : Address
  pub info : CallFromAiMiddlewareInfo
  pub is_staked : Bool

pub record KnownEntity : Type 0 where
  pub account_entity : Entity
  pub factory_entity : Entity
  pub paymaster_entity : Entity

abbrev pub entity_of : KnownEntity → Title → Entity
entity_of known account = known.account_entity
entity_of known factory = known.factory_entity
entity_of known paymaster = known.paymaster_entity

unfoldable pub stake_of : EntityStakes → Address → Bool
stake_of stakes addr = elim (lookup addr stakes) [
  | some (some d) ↦ d.staked
  | some none ↦ false
  | none ↦ false
]

-- The infos of the account, the factory and the paymaster, by the loop over the calls. `selector`
-- is that of createSender.
unfoldable pub sort_calls :
    ℕ
    → AiOperation
    → List CallFromAiMiddlewareInfo
    → CallFromAiMiddlewareInfo
    → CallFromAiMiddlewareInfo
    → CallFromAiMiddlewareInfo
    → CallFromAiMiddlewareInfo × CallFromAiMiddlewareInfo × CallFromAiMiddlewareInfo
sort_calls selector op [] si fi pi = (si, fi, pi)
sort_calls selector op (c ∷ calls) si fi pi =
    let to_sender = c.top_level_target_address == op.sender in
    let to_paymaster = c.top_level_target_address == get_paymaster op in
    let creates = c.top_level_method_sig == selector in
    sort_calls selector op calls (if to_sender then c else si)
      (if to_sender then fi else if to_paymaster then fi else if creates then c else fi)
      (if to_sender then pi else if to_paymaster then c else pi)

unfoldable pub new_known_entity :
    ℕ → AiOperation → List CallFromAiMiddlewareInfo → EntityStakes → KnownEntity
unfolding sort_calls stake_of
new_known_entity selector op calls stakes =
    let (si, fi, pi) = sort_calls selector op calls no_info no_info no_info in
    record {
      account_entity = record {
        address = op.sender;
        info = si;
        is_staked = stake_of stakes op.sender;
      };
      factory_entity = record {
        address = get_factory op;
        info = fi;
        is_staked = stake_of stakes (get_factory op);
      };
      paymaster_entity = record {
        address = get_paymaster op;
        info = pi;
        is_staked = stake_of stakes (get_paymaster op);
      };
    }

-- What addr2KnownEntity returns: a title, or the text of the address.
pub data Named : Type 0 where
  titled : Title → Named
  address_text : Address → Named

unfoldable pub addr2_known_entity : AiOperation → Address → Named
addr2_known_entity op addr =
    if addr == get_factory op
    then titled factory
    else if addr == op.sender
    then titled account
    else if addr == get_paymaster op
    then titled paymaster
    else address_text addr
