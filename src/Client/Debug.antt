-- ===== src/Client/Debug.antt =====
-- pkg/client/debug.go and pkg/client/rpc.go: the debug methods, and the adapter that refuses them where
-- debugging is not enabled. The bundler, the reputation, encoding/json and the commit of the database
-- are parameters. The adapter's other methods only call those of the client.
pub mod Dumped
use text.Mathlib.Text.{◌==◌ as str_eq}
use aiops_bundler.Base.{ℕ, String, List, [], ◌∷◌, Option, none, some, map}
use aiops_bundler.Base.Tests.{if◌then◌else◌}
use aiops_bundler.Base.Result.{Result, ok, err, ◌>>=◌}
use aiops_bundler.Aiop.{Address, AiOperation}
use aiops_bundler.Aiop.Parse.{Codec, RawOp, Text, to_map}
use aiops_bundler.Modules.{BatchHandlerCtx}
use aiops_bundler.Mempool.{SortedSet, all_ops}
use aiops_bundler.Mempool.Pool.{Mempool, clear}
use aiops_bundler.Entities.{ReputationOverride}

pub data DebugError {ℓ} (E : Type ℓ) : Type ℓ where
  upstream : E → DebugError E
  no_txn_hash : DebugError E
  unrecognized_mode : String → DebugError E
  not_enabled : DebugError E

-- What the methods return: "ok", the empty text, the hash of a transaction, or operations.
pub data Answer : Type 0 where
  done nothing_sent : Answer
  sent : ℕ → Answer
  dumped : List RawOp → Answer

-- The state `T` of the bundler, with the calls on it. `J` is a decoded JSON value.
pub record Debug {ℓ κ μ} (E : Type ℓ) (T : Type κ) (J : Type μ) : Type (ℓ ⊔ κ ⊔ μ) where
  pub commit : Option E
  pub process : Address → T → T × Result E (Option BatchHandlerCtx)
  pub stop : T → T
  pub run : T → Result E T
  pub override : List ReputationOverride → T → Result E T
  pub decode_entry : J → Result E ReputationOverride
  pub ai_middleware : Address

-- The methods of the adapter that go to Debug.
pub data Call {ℓ} (J : Type ℓ) : Type ℓ where
  bundler_clear_state bundler_send_bundle_now : Call J
  bundler_dump_mempool : Text → Call J
  bundler_set_bundling_mode : String → Call J
  bundler_set_reputation : List J → Text → Call J
  bundler_dump_reputation : Text → Call J

-- The last entry of a key.
abbrev pub entry : String → List (String × ℕ) → Option ℕ → Option ℕ
entry key [] found = found
entry key ((k, value) ∷ rest) found = entry key rest (if str_eq k key then some value else found)

-- The mempool and the state of the bundler, and what a method leaves and returns.
abbrev pub State {κ ν} : SortedSet → Type ν → Type κ → Type (κ ⊔ ν)
State S V T = Mempool S V × T

abbrev pub Reply {ℓ κ ν} : SortedSet → Type ν → Type κ → Type ℓ → Type (ℓ ⊔ κ ⊔ ν)
Reply S V T E = State S V T × Result (DebugError E) Answer

module _ {ν} (S : SortedSet) (V : Type ν) (codec : Codec) where
  -- Each operation as MarshalJSON and Unmarshal make a map of it.
  unfoldable pub dump_mempool : Text → Mempool S V → List RawOp
  dump_mempool ep m = map (to_map codec) (all_ops S (codec.hex_to_address ep) m.queue).0

module _ {ℓ} {E : Type ℓ} where
  abbrev pub hash_of : Result E (Option BatchHandlerCtx) → Result (DebugError E) Answer
  hash_of (err e) = err (upstream e)
  hash_of (ok none) = ok nothing_sent
  hash_of (ok (some ctx)) = elim (entry "txn_hash" ctx.entries none) [
    | none ↦ err no_txn_hash
    | some hash ↦ ok (sent hash)
  ]

module _ {ℓ κ ν} {E : Type ℓ} {T : Type κ} {S : SortedSet} {V : Type ν} where
  abbrev pub kept : State S V T → Result E T → Reply S V T E
  kept s (err e) = (s, err (upstream e))
  kept s (ok t) = ((s.0, t), ok done)

module _ {ℓ κ μ ν} {E : Type ℓ} {T : Type κ} {J : Type μ} (S : SortedSet) (V : Type ν)
    (codec : Codec) where
  unfoldable pub clear_state : Debug E T J → State S V T → Reply S V T E
  clear_state d (m, t) = elim (clear S V d.commit m) [
    | err e ↦ ((m, t), err (upstream e))
    | ok m' ↦ ((m', t), ok done)
  ]

  unfoldable pub send_bundle_now : Debug E T J → State S V T → Reply S V T E
  send_bundle_now d (m, t) = let (t', r) = d.process d.ai_middleware t in ((m, t'), hash_of r)

  unfoldable pub set_bundling_mode : Debug E T J → String → State S V T → Reply S V T E
  set_bundling_mode d mode s =
      if str_eq mode "manual"
      then ((s.0, d.stop s.1), ok done)
      else if str_eq mode "auto"
      then kept s (d.run s.1)
      else (s, err (unrecognized_mode mode))

  abbrev pub decode_all : Debug E T J → List J → Result E (List ReputationOverride)
  decode_all d [] = ok []
  decode_all d (entry ∷ entries) =
      d.decode_entry entry >>= λ ro. decode_all d entries >>= λ ros. ok (ro ∷ ros)

  unfoldable pub set_reputation : Debug E T J → List J → State S V T → Reply S V T E
  set_reputation d entries s =
      kept s (decode_all d entries >>= λ overrides. d.override overrides s.1)

  abbrev pub debug_call : Debug E T J → Call J → State S V T → Reply S V T E
  debug_call d bundler_clear_state s = clear_state d s
  debug_call d bundler_send_bundle_now s = send_bundle_now d s
  debug_call d (bundler_dump_mempool ep) s = (s, ok (dumped (dump_mempool S V codec ep s.0)))
  debug_call d (bundler_set_bundling_mode mode) s = set_bundling_mode d mode s
  debug_call d (bundler_set_reputation entries ep) s = set_reputation d entries s
  debug_call d (bundler_dump_reputation ep) s = (s, ok (dumped []))

  -- The adapter: `none` is a nil Debug.
  unfoldable pub adapter : Option (Debug E T J) → Call J → State S V T → Reply S V T E
  unfolding clear_state send_bundle_now dump_mempool set_bundling_mode set_reputation
  adapter none call s = (s, err not_enabled)
  adapter (some d) call s = debug_call d call s
