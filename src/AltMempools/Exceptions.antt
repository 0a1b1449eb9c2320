-- ===== src/AltMempools/Exceptions.antt =====
-- The exceptions that a directory of alternative mempools makes.
use text.Mathlib.Text.{◌==◌ as str_eq}
use text.Mathlib.TextEquality.{eq_iff}
use mathlib.Core.List.{append_assoc, append-nil}
use aiops_bundler.Base.{
  ℕ, String, Bool, true, false, not, ◌&&◌, ◌||◌, List, [], ◌∷◌, ◌++◌, ◌≡◌, refl, sym, ap, ◌∙◌, inl,
  inr, arith,
}
use aiops_bundler.Base.Tests.{◌==◌, if◌then◌else◌, Bool-cases}
use aiops_bundler.Base.Result.{Result, ok, err, >>=-eq-ok}
use aiops_bundler.AltMempools.{
  AllowItem, invalid_storage_access, other_rule, Config, Directory, invalid_storage_access_id, load,
  store, has_invalid_storage_access_exception, allow, skipped, add_configs, new,
}

load-store :
    (key at : String) (ids : List String) (dir : Directory)
    → load key (store at ids dir) ≡ (if str_eq at key then ids else load key dir)
unfolding load store
load-store key at ids [] = refl
load-store key at ids ((k, old) ∷ dir) =
    ground (arith, eq_iff at key, eq_iff k at, eq_iff k key, load-store key at ids dir)

-- The id of a mempool, as often as its allowlist has the key.
abbrev pub granted : String → String → List AllowItem → List String
granted key id [] = []
granted key id (other_rule ∷ items) = granted key id items
granted key id (invalid_storage_access entity contract slot ∷ items) =
    (if str_eq (invalid_storage_access_id entity contract slot) key then id ∷ [] else [])
    ++ granted key id items

allow_lem :
    (key id : String) (items : List AllowItem) (dir : Directory)
    → load key (allow id items dir) ≡ load key dir ++ granted key id items
unfolding allow
allow_lem key id [] dir = sym (append-nil (load key dir))
allow_lem key id (other_rule ∷ items) dir = allow_lem key id items dir
allow_lem key id (invalid_storage_access entity contract slot ∷ items) dir =
    let at = invalid_storage_access_id entity contract slot in
    allow_lem key id items (store at (load at dir ++ id ∷ []) dir)
    ∙ (ap (λ l. l ++ granted key id items) (load-store key at (load at dir ++ id ∷ []) dir)
        ∙ elim (Bool-cases (str_eq at key)) [
          | inl e ↦
              let same : at ≡ key = (eq_iff at key).0 e in
              rw (e, same) (append_assoc (load key dir) (id ∷ []) (granted key id items))
          | inr e ↦ rw e refl
        ])

module _ {ℓ} {E : Type ℓ} (validate : Config → Result E (Unit {0}))
    (decode_big : String → Result E ℕ) where
  abbrev is_chain : ℕ → Result E ℕ → Bool
  is_chain chain (ok n) = chain == n
  is_chain chain (err e) = false

  -- One of the texts spells the number of the chain.
  abbrev pub listed : ℕ → List String → Bool
  listed chain [] = false
  listed chain (item ∷ items) = is_chain chain (decode_big item) || listed chain items

  skipped_lem :
      (chain : ℕ) (items : List String) (before after : Bool)
      → skipped validate decode_big chain items before ≡ ok after
      → after ≡ (before && not (listed chain items))
  unfolding skipped
  skipped_lem chain [] before after h = ground arith
  skipped_lem chain (item ∷ items) before after h =
      let (n, e, rest) = >>=-eq-ok (decode_big item) _ h in
      rw e
        (ground (arith, skipped_lem chain items (if chain == n then false else before) after rest))

  -- The ids of the mempools of the chain, as often as they except the key.
  abbrev pub all_granted : ℕ → String → List Config → List String
  all_granted chain key [] = []
  all_granted chain key (alt ∷ alts) =
      (if listed chain alt.chain_ids then granted key alt.id alt.allowlist else [])
      ++ all_granted chain key alts

  add_configs_lem :
      (chain : ℕ) (key : String) (alts : List Config) (dir last : Directory)
      → add_configs validate decode_big chain alts dir ≡ ok last
      → load key last ≡ load key dir ++ all_granted chain key alts
  unfolding add_configs
  add_configs_lem chain key [] dir last h =
      let same : dir ≡ last = cc in rw (append-nil (load key dir)) (ap (load key) (sym same))
  add_configs_lem chain key (alt ∷ alts) dir last h =
      let (u, valid, rest) = >>=-eq-ok (validate alt) _ h in
      let (skip, e, more) =
        >>=-eq-ok (skipped validate decode_big chain alt.chain_ids true) _ rest in
      let chosen = skipped_lem chain alt.chain_ids true skip e in
      let on = listed chain alt.chain_ids in
      elim (Bool-cases on) [
        | inl b ↦
            let s : skip ≡ false = ground arith in
            let after = add_configs_lem chain key alts (allow alt.id alt.allowlist dir) last (
              ap
                (λ t.
                  add_configs validate decode_big chain alts
                    (if t then dir else allow alt.id alt.allowlist dir))
                (sym s)
              ∙ more) in
            after
            ∙ (ap (λ l. l ++ all_granted chain key alts) (allow_lem key alt.id alt.allowlist dir)
                ∙ rw b (
                    append_assoc (load key dir) (granted key alt.id alt.allowlist)
                      (all_granted chain key alts)))
        | inr b ↦
            let s : skip ≡ true = ground arith in
            rw b (
              add_configs_lem chain key alts dir last (
                ap
                  (λ t.
                    add_configs validate decode_big chain alts
                      (if t then dir else allow alt.id alt.allowlist dir))
                  (sym s)
                ∙ more))
      ]

  -- A directory that New returns excepts an access by exactly the mempools whose configs list the
  -- chain, each as often as its allowlist names the access, in the order of the configs.
  pub new-exceptions :
      (chain : ℕ) (alts : List Config) (dir : Directory) (entity contract slot : String)
      → new validate decode_big chain alts ≡ ok dir
      → has_invalid_storage_access_exception dir entity contract slot
        ≡ all_granted chain (invalid_storage_access_id entity contract slot) alts
  unfolding new has_invalid_storage_access_exception load
  new-exceptions chain alts dir entity contract slot h =
      add_configs_lem chain (invalid_storage_access_id entity contract slot) alts [] dir h
