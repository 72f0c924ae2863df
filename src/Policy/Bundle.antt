-- ===== src/Policy/Bundle.antt =====
-- crates/nova-policy/src/bundle.rs. SHA-256 in hexadecimal and the clock are arguments.
use nova_vm.Common.{
  ℕ, Bool, true, false, ◌&&◌, Option, Result-cases, Bool-cases, none, some, List, [], ◌∷◌, String,
  str_append, str_eq, eq_iff, Result, ok, err, if◌then◌else◌, StringMap, lookup, insert, remove,
  is_ok, ◌≡◌, refl, arith, lookup-insert, lookup-remove, Option-cases, inl, inr,
}
use nova_vm.Policy.Engine.{PolicyError, CompiledPolicy, Wasmtime, compile}

pub record BundleInfo : Type 0 where
  pub bundle_id : String
  pub digest : String
  pub policy_count : ℕ
  pub loaded_at : ℕ

abbrev pub BundleManager : Type 0
BundleManager = StringMap (BundleInfo × List CompiledPolicy)

abbrev pub Outcome : Type 0
Outcome = BundleManager × Result PolicyError (Unit {0})

abbrev pub info_of : (List ℕ → String) → ℕ → String → List ℕ → BundleInfo
info_of sha256 now bundle_id bytes = record {
  bundle_id = bundle_id;
  digest = str_append "sha256:" (sha256 bytes);
  policy_count = 1;
  loaded_at = now;
}

unfoldable pub load_bundle :
    Wasmtime → (List ℕ → String) → ℕ → BundleManager → String → List ℕ → Outcome
load_bundle host sha256 now m bundle_id [] = (m, err (PolicyError.bundle bundle_id))
load_bundle host sha256 now m bundle_id (b ∷ bs) = elim (compile host bundle_id (b ∷ bs)) [
  | err e ↦ (m, err e)
  | ok compiled ↦ (insert bundle_id (info_of sha256 now bundle_id (b ∷ bs), compiled ∷ []) m, ok tt)
]

unfoldable pub remove_bundle : BundleManager → String → Outcome
remove_bundle m bundle_id = elim (lookup bundle_id m) [
  | none ↦ (m, err (PolicyError.bundle bundle_id))
  | some b ↦ (remove bundle_id m, ok tt)
]

unfoldable pub get_info : BundleManager → String → Option BundleInfo
get_info m bundle_id = elim (lookup bundle_id m) [ none ↦ none | some b ↦ some b.0 ]

unfoldable pub get_policies : BundleManager → String → Option (List CompiledPolicy)
get_policies m bundle_id = elim (lookup bundle_id m) [ none ↦ none | some b ↦ some b.1 ]

abbrev pub is_loaded : Option (List CompiledPolicy) → Bool
is_loaded none = false
is_loaded (some policies) = true

-- The policies that bytes make
abbrev pub policies_of : Result PolicyError CompiledPolicy → Option (List CompiledPolicy)
policies_of (ok p) = some (p ∷ [])
policies_of (err e) = none

-- Removing a bundle succeeds exactly when it is loaded; then it is gone, and the other bundles keep
-- their policies. A failed removal changes nothing.
pub remove_bundle-get_policies :
    (m : BundleManager) (bundle_id other : String)
    → let (m', r) = remove_bundle m bundle_id in
      (is_ok r ≡ is_loaded (get_policies m bundle_id))
      × (get_policies m' other ≡ (if str_eq bundle_id other then none else get_policies m other))
unfolding remove_bundle get_policies
remove_bundle-get_policies m bundle_id other = elim (Option-cases (lookup bundle_id m)) [
  | inl e ↦ ground (arith, eq_iff bundle_id other)
  | inr (b, e) ↦ ground (arith, eq_iff bundle_id other, lookup-remove bundle_id other m)
]

-- Loading bytes that compile binds the id to that one policy and to the digest of the bytes, and no
-- other id; empty bytes, or bytes that do not compile, change nothing.
pub load_bundle-get_policies :
    (host : Wasmtime) (sha256 : List ℕ → String) (now : ℕ) (m : BundleManager) (id other : String)
    (bytes : List ℕ)
    → let (m', r) = load_bundle host sha256 now m id bytes in
      get_policies m' other ≡ (
        if is_ok r && str_eq id other
        then policies_of (compile host id bytes)
        else get_policies m other)
unfolding load_bundle get_policies
load_bundle-get_policies host sha256 now m id other [] = refl
load_bundle-get_policies host sha256 now m id other (b ∷ bs) =
    elim (Result-cases (compile host id (b ∷ bs))) [
      | inl (c, e) ↦
          let entry = lookup-insert id other (info_of sha256 now id (b ∷ bs), c ∷ []) m in
          rw (e, load_bundle)
            (rw (entry, get_policies)
              (elim (Bool-cases (str_eq id other)) [
                | inl same ↦ rw same refl
                | inr differ ↦ rw differ refl
              ]))
      | inr (x, e) ↦ ground arith
    ]
