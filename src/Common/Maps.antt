-- ===== src/Common/Maps.antt =====
-- `HashMap<String, V>` as an association list. Its order is never observed by the theorems.
use Prim.Native.Nat.{◌+◌}
use Prim.Native.String.{String}
use mathlib.Core.Path.{◌≡◌, refl}
use mathlib.Core.Option.{Option, none, some}
use mathlib.Core.List.{List, [], ◌∷◌}
use native.Mathlib.Omega.{arith}
use text.Mathlib.Text.{◌==◌}
use text.Mathlib.TextEquality.{eq_iff}
use nova_vm.Common.Tests.{if◌then◌else◌}
use nova_vm.Common.Lists.{length}

abbrev pub StringMap {ℓ} : Type ℓ → Type ℓ
StringMap V = List (String × V)

module _ {ℓ} {V : Type ℓ} where
  unfoldable pub lookup : String → StringMap V → Option V
  lookup key [] = none
  lookup key ((first, x) ∷ rest) = if first == key then some x else lookup key rest

  unfoldable pub insert : String → V → StringMap V → StringMap V
  insert k v [] = (k, v) ∷ []
  insert k v ((j, w) ∷ m) = if j == k then (k, v) ∷ m else (j, w) ∷ insert k v m

  unfoldable pub remove : String → StringMap V → StringMap V
  remove k [] = []
  remove k ((j, w) ∷ m) = let rest = remove k m in if j == k then rest else (j, w) ∷ rest

  pub lookup-insert :
      (written read : String) (x : V) (entries : StringMap V)
      → lookup read (insert written x entries)
        ≡ (if written == read then some x else lookup read entries)
  unfolding lookup insert
  lookup-insert written read x [] = refl
  lookup-insert written read x ((first, y) ∷ rest) =
      let later = lookup-insert written read x rest in
      ground (arith, eq_iff first read, eq_iff written read, eq_iff first written, later)

  pub lookup-remove :
      (gone read : String) (entries : StringMap V)
      → lookup read (remove gone entries) ≡ (if gone == read then none else lookup read entries)
  unfolding lookup remove
  lookup-remove gone read [] = ground arith
  lookup-remove gone read ((first, y) ∷ rest) =
      let later = lookup-remove gone read rest in
      ground (arith, eq_iff first read, eq_iff gone read, eq_iff first gone, later)

  pub length-insert_new :
      (k : String) (v : V) (m : StringMap V)
      → lookup k m ≡ none
      → length (insert k v m) ≡ length m + 1
  unfolding lookup insert
  length-insert_new k v [] h = omega arith
  length-insert_new k v ((i, w) ∷ m) h = ground (arith, length-insert_new k v m)

  pub length-insert_old :
      (k : String) (v w : V) (m : StringMap V)
      → lookup k m ≡ some w
      → length (insert k v m) ≡ length m
  unfolding lookup insert
  length-insert_old k v w [] h = cc
  length-insert_old k v w ((i, u) ∷ m) h = ground (arith, length-insert_old k v w m)
