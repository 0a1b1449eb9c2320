-- ===== src/AltMempools.antt =====
-- pkg/altmempools/directory.go: the exceptions of alternative mempools. The schema and the decoding
-- of hex numbers are parameters, as is the gateway that NewFromIPFS asks. The concurrent map is a list
-- of its entries.
pub mod Exceptions
pub mod Examples
use Prim.Native.String.{◌++◌ as str_append}
use text.Mathlib.Text.{◌==◌ as str_eq}
use aiops_bundler.Base.{ℕ, String, Bool, true, false, List, [], ◌∷◌, ◌++◌, Option, none, some}
use aiops_bundler.Base.Tests.{◌==◌, if◌then◌else◌}
use aiops_bundler.Base.Result.{Result, ok, err, ◌>>=◌}

-- An entry of an allowlist: its rule, and the texts that the rule of invalid storage access has.
pub data AllowItem : Type 0 where
  invalid_storage_access : String → String → String → AllowItem
  other_rule : AllowItem

-- The data of a mempool, as far as the directory reads it.
pub record Config : Type 0 where
  pub id : String
  pub chain_ids : List String
  pub allowlist : List AllowItem

abbrev pub Directory : Type 0
Directory = List (String × List String)

unfoldable pub invalid_storage_access_id : String → String → String → String
invalid_storage_access_id entity contract slot = str_append (str_append entity contract) slot

-- Load, with the nil of a missing key, and Store of the map.
unfoldable pub load : String → Directory → List String
load key [] = []
load key ((k, ids) ∷ dir) = if str_eq k key then ids else load key dir

unfoldable pub store : String → List String → Directory → Directory
store key new [] = (key, new) ∷ []
store key new ((k, ids) ∷ dir) =
    if str_eq k key then (key, new) ∷ dir else (k, ids) ∷ store key new dir

unfoldable pub has_invalid_storage_access_exception :
    Directory → String → String → String → List String
unfolding invalid_storage_access_id load
has_invalid_storage_access_exception dir entity contract slot =
    load (invalid_storage_access_id entity contract slot) dir

-- The loop over the allowlist of a mempool.
unfoldable pub allow : String → List AllowItem → Directory → Directory
allow id [] dir = dir
allow id (other_rule ∷ items) dir = allow id items dir
allow id (invalid_storage_access entity contract slot ∷ items) dir =
    let key = invalid_storage_access_id entity contract slot in
    allow id items (store key (load key dir ++ id ∷ []) dir)

module _ {ℓ} {E : Type ℓ} (validate : Config → Result E (Unit {0}))
    (decode_big : String → Result E ℕ) where
  -- The loop over the chain ids; what it returns is `skip`.
  unfoldable pub skipped : ℕ → List String → Bool → Result E Bool
  skipped chain [] skip = ok skip
  skipped chain (item ∷ items) skip =
      decode_big item >>= λ allowed. skipped chain items (if chain == allowed then false else skip)

  unfoldable pub add_configs : ℕ → List Config → Directory → Result E Directory
  add_configs chain [] dir = ok dir
  add_configs chain (alt ∷ alts) dir = validate alt >>= λ u.
      skipped chain alt.chain_ids true >>= λ skip.
      add_configs chain alts (if skip then dir else allow alt.id alt.allowlist dir)

  unfoldable pub new : ℕ → List Config → Result E Directory
  unfolding add_configs
  new chain alt_mempools = add_configs chain alt_mempools []

  -- `fetch` is fetchMempoolConfig of the gateway.
  unfoldable pub fetch_all : (String → Result E Config) → List String → Result E (List Config)
  fetch_all fetch [] = ok []
  fetch_all fetch (id ∷ ids) =
      fetch id >>= λ found. fetch_all fetch ids >>= λ alts. ok (record found { id = id } ∷ alts)

  unfoldable pub new_from_ipfs : (String → Result E Config) → ℕ → List String → Result E Directory
  unfolding fetch_all new
  new_from_ipfs fetch chain ids = fetch_all fetch ids >>= new chain
