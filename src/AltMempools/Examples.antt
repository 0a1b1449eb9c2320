-- ===== src/AltMempools/Examples.antt =====
-- A test of a directory of two mempools, one of them of another chain.
use aiops_bundler.Base.{ℕ, String, ◌≡◌, refl, List, [], ◌∷◌}
use aiops_bundler.Base.Result.{Result, ok}
use aiops_bundler.AltMempools.{
  AllowItem, invalid_storage_access, Config, Directory, invalid_storage_access_id, load, store,
  allow, skipped, add_configs, has_invalid_storage_access_exception, new,
}
use aiops_bundler.AltMempools.Exceptions.{new-exceptions}

abbrev sample_item : AllowItem
sample_item = invalid_storage_access "account" "0x01" "0x02"

abbrev sample_configs : List Config
sample_configs =
    record { id = "1"; chain_ids = "0x1" ∷ []; allowlist = sample_item ∷ [] }
    ∷ record { id = "2"; chain_ids = "0x1" ∷ []; allowlist = [] }
    ∷ []

abbrev sample_validate : Config → Result ℕ (Unit {0})
sample_validate c = ok tt

abbrev sample_decode : String → Result ℕ ℕ
sample_decode s = ok 1

abbrev sample_directory : Directory
sample_directory = ("account0x010x02", "1" ∷ []) ∷ []

sample_new : new sample_validate sample_decode 1 sample_configs ≡ ok sample_directory
unfolding new add_configs skipped allow store load invalid_storage_access_id
sample_new = refl

new-exceptions_example :
    has_invalid_storage_access_exception sample_directory "account" "0x01" "0x02" ≡ "1" ∷ []
unfolding invalid_storage_access_id
new-exceptions_example =
    new-exceptions sample_validate sample_decode 1 sample_configs sample_directory "account" "0x01"
      "0x02" sample_new
