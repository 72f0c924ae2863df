-- ===== src/Wasm/Pool/Fifo.antt =====
-- crates/nova-wasm/src/pool.rs: the modules of one name, and what a push and a removal do to them.
use text.Mathlib.TextEquality.{eq_iff}
use nova_vm.Common.{
  suc, ◌≡◌, refl, ap, ◌⊎◌, inl, inr, false, none, some, List, [], ◌∷◌, ◌++◌, arith, length, String,
  str_eq, if◌then◌else◌, Bool-cases,
}
use nova_vm.Wasm.Pool.{PoolEntry, remove_first}

-- The modules of a name, the oldest first.
unfoldable pub named : {M : Type 0} → String → List (PoolEntry M) → List M
named n [] = []
named n (e ∷ es) = let rest = named n es in if str_eq e.name n then e.compiled ∷ rest else rest

module _ {M : Type 0} where
  pub named-push :
      (n : String) (es : List (PoolEntry M)) (e : PoolEntry M)
      → named n (es ++ (e ∷ []))
        ≡ (if str_eq e.name n then named n es ++ (e.compiled ∷ []) else named n es)
  unfolding named
  named-push n [] e = refl
  named-push n (x ∷ es) e = ground (arith, named-push n es e)

  -- What `remove_first` finds: nothing of the name, or its oldest module.
  pub record Removed (name : String) (es : List (PoolEntry M)) (m : M) (others : List (PoolEntry M))
      : Type 0 where
    pub found : remove_first name es ≡ some (m, others)
    pub oldest : named name es ≡ m ∷ named name others
    pub apart : (n : String) → str_eq name n ≡ false → named n others ≡ named n es
    pub one_less : length es ≡ suc (length others)

  pub remove_first-cases :
      (name : String) (es : List (PoolEntry M))
      → ((remove_first name es ≡ none) × (named name es ≡ []))
        ⊎ ((m : M) × (others : List (PoolEntry M)) × Removed name es m others)
  unfolding remove_first named
  remove_first-cases name [] = inl (refl, refl)
  remove_first-cases name (e ∷ es) = elim (Bool-cases (str_eq e.name name)) [
    | inl same ↦ inr (
      e.compiled,
      es,
      record {
        found = rw same refl;
        oldest = rw same refl;
        apart = λ n ne.
            let other : str_eq e.name n ≡ false =
              ground (arith, eq_iff e.name name, eq_iff e.name n, eq_iff name n) in
            rw other refl;
        one_less = refl;
      },
    )
    | inr ne ↦ elim (remove_first-cases name es) [
      | inl (f, g) ↦ inl (rw (ne, f) refl, rw (ne, g) refl)
      | inr (m, others, v) ↦ inr (
        m,
        e ∷ others,
        record {
          found = rw (ne, v.found) refl;
          oldest = rw (ne, v.oldest) refl;
          apart = λ n apart. rw (v.apart n apart) refl;
          one_less = ap suc v.one_less;
        },
      )
    ]
  ]
