-- ===== src/Common/Slices.antt =====
-- Byte copies at an offset of a buffer, as `ptr::copy_nonoverlapping` makes them.
use Prim.Native.Nat.{ℕ, zero, suc, ◌+◌, ◌≤◌}
use mathlib.Core.Path.{◌≡◌, refl, ap, sym, ◌∙◌}
use mathlib.Core.List.{List, [], ◌∷◌}
use native.Mathlib.Omega.{arith}
use nova_vm.Common.Lists.{length, take, drop, replicate}

module _ {ℓ} {A : Type ℓ} where
  -- `n` elements from offset `o` on; fewer where the buffer ends before.
  abbrev pub slice : List A → ℕ → ℕ → List A
  slice xs zero n = take n xs
  slice [] (suc o) n = []
  slice (x ∷ xs) (suc o) n = slice xs o n

  abbrev pub overwrite : List A → List A → List A
  overwrite xs [] = xs
  overwrite [] (d ∷ ds) = []
  overwrite (x ∷ xs) (d ∷ ds) = d ∷ overwrite xs ds

  -- The buffer with `ds` copied to offset `o`; what would go past the end is dropped.
  abbrev pub splice : List A → ℕ → List A → List A
  splice xs zero ds = overwrite xs ds
  splice [] (suc o) ds = []
  splice (x ∷ xs) (suc o) ds = x ∷ splice xs o ds

  length-overwrite : (xs ds : List A) → length (overwrite xs ds) ≡ length xs
  length-overwrite [] [] = refl
  length-overwrite (x ∷ xs) [] = refl
  length-overwrite [] (d ∷ ds) = refl
  length-overwrite (x ∷ xs) (d ∷ ds) = ap suc (length-overwrite xs ds)

  pub length-splice : (xs : List A) (o : ℕ) (ds : List A) → length (splice xs o ds) ≡ length xs
  length-splice xs zero ds = length-overwrite xs ds
  length-splice [] (suc o) ds = refl
  length-splice (x ∷ xs) (suc o) ds = ap suc (length-splice xs o ds)

  pub length-slice : (xs : List A) (o n : ℕ) → o + n ≤ length xs → length (slice xs o n) ≡ n
  length-slice xs zero zero h = refl
  length-slice [] zero (suc n) h = absurd (omega arith)
  length-slice (x ∷ xs) zero (suc n) h = ap suc (length-slice xs zero n (omega arith))
  length-slice [] (suc o) n h = absurd (omega arith)
  length-slice (x ∷ xs) (suc o) n h = length-slice xs o n (omega arith)

  take-overwrite :
      (xs ds : List A) → length ds ≤ length xs → take (length ds) (overwrite xs ds) ≡ ds
  take-overwrite xs [] h = refl
  take-overwrite [] (d ∷ ds) h = absurd (omega arith)
  take-overwrite (x ∷ xs) (d ∷ ds) h = ap (λ t. d ∷ t) (take-overwrite xs ds (omega arith))

  pub slice-splice_self :
      (xs : List A) (o : ℕ) (ds : List A)
      → o + length ds ≤ length xs
      → slice (splice xs o ds) o (length ds) ≡ ds
  slice-splice_self xs zero ds h = take-overwrite xs ds (omega arith)
  slice-splice_self [] (suc o) ds h = absurd (omega arith)
  slice-splice_self (x ∷ xs) (suc o) ds h = slice-splice_self xs o ds (omega arith)

  slice-overwrite_above :
      (xs ds : List A) (p n : ℕ) → length ds ≤ p → slice (overwrite xs ds) p n ≡ slice xs p n
  slice-overwrite_above xs [] p n h = refl
  slice-overwrite_above [] (d ∷ ds) p n h = refl
  slice-overwrite_above (x ∷ xs) (d ∷ ds) zero n h = absurd (omega arith)
  slice-overwrite_above (x ∷ xs) (d ∷ ds) (suc p) n h =
      slice-overwrite_above xs ds p n (omega arith)

  pub slice-splice_above :
      (xs : List A) (o : ℕ) (ds : List A) (p n : ℕ)
      → o + length ds ≤ p
      → slice (splice xs o ds) p n ≡ slice xs p n
  slice-splice_above xs zero ds p n h = slice-overwrite_above xs ds p n (omega arith)
  slice-splice_above [] (suc o) ds p n h = refl
  slice-splice_above (x ∷ xs) (suc o) ds zero n h = absurd (omega arith)
  slice-splice_above (x ∷ xs) (suc o) ds (suc p) n h = slice-splice_above xs o ds p n (omega arith)

  pub slice-splice_below :
      (xs : List A) (o : ℕ) (ds : List A) (p n : ℕ)
      → p + n ≤ o
      → slice (splice xs o ds) p n ≡ slice xs p n
  slice-splice_below xs o ds zero zero h = refl
  slice-splice_below xs zero ds p (suc n) h = absurd (omega arith)
  slice-splice_below xs zero ds (suc p) zero h = absurd (omega arith)
  slice-splice_below [] (suc o) ds p n h = refl
  slice-splice_below (x ∷ xs) (suc o) ds zero (suc n) h =
      ap (λ t. x ∷ t) (slice-splice_below xs o ds zero n (omega arith))
  slice-splice_below (x ∷ xs) (suc o) ds (suc p) n h = slice-splice_below xs o ds p n (omega arith)

  pub slice-none : (xs : List A) (o : ℕ) → slice xs o 0 ≡ []
  slice-none xs zero = refl
  slice-none [] (suc o) = refl
  slice-none (x ∷ xs) (suc o) = slice-none xs o

  pub drop-nil : (n : ℕ) → drop {A = A} n [] ≡ []
  drop-nil zero = refl
  drop-nil (suc n) = refl

  pub nil-slice : (o n : ℕ) → slice [] o n ≡ []
  nil-slice zero zero = refl
  nil-slice zero (suc n) = refl
  nil-slice (suc o) n = refl

  pub slice-replicate : (m o n : ℕ) (a : A) → o + n ≤ m → slice (replicate m a) o n ≡ replicate n a
  slice-replicate m zero zero a h = refl
  slice-replicate zero zero (suc n) a h = absurd (omega arith)
  slice-replicate (suc m) zero (suc n) a h =
      ap (λ t. a ∷ t) (slice-replicate m zero n a (omega arith))
  slice-replicate zero (suc o) n a h = absurd (omega arith)
  slice-replicate (suc m) (suc o) n a h = slice-replicate m o n a (omega arith)

  pub slice-take : (xs : List A) (m o n : ℕ) → o + n ≤ m → slice (take m xs) o n ≡ slice xs o n
  slice-take xs zero zero zero h = refl
  slice-take xs zero zero (suc n) h = absurd (omega arith)
  slice-take xs zero (suc o) n h = absurd (omega arith)
  slice-take [] (suc m) o n h = refl
  slice-take (x ∷ xs) (suc m) zero zero h = refl
  slice-take (x ∷ xs) (suc m) zero (suc n) h =
      ap (λ t. x ∷ t) (slice-take xs m zero n (omega arith))
  slice-take (x ∷ xs) (suc m) (suc o) n h = slice-take xs m o n (omega arith)

  pub slice-slice :
      (xs : List A) (a b o n : ℕ) → o + n ≤ b → slice (slice xs a b) o n ≡ slice xs (a + o) n
  slice-slice xs zero b o n h = slice-take xs b o n h ∙ ap (λ k. slice xs k n) (omega arith)
  slice-slice [] (suc a) b o n h = nil-slice o n ∙ sym (nil-slice (suc a + o) n)
  slice-slice (x ∷ xs) (suc a) b o n h =
      slice-slice xs a b o n h ∙ ap (λ k. slice (x ∷ xs) k n) {x = suc (a + o)} (omega arith)

  slice-overwrite_inside :
      (xs ds : List A) (k n : ℕ)
      → k + n ≤ length ds
      → length ds ≤ length xs
      → slice (overwrite xs ds) k n ≡ slice ds k n
  slice-overwrite_inside xs [] zero zero h l = refl
  slice-overwrite_inside xs [] zero (suc n) h l = absurd (omega arith)
  slice-overwrite_inside xs [] (suc k) n h l = absurd (omega arith)
  slice-overwrite_inside [] (d ∷ ds) k n h l = absurd (omega arith)
  slice-overwrite_inside (x ∷ xs) (d ∷ ds) zero zero h l = refl
  slice-overwrite_inside (x ∷ xs) (d ∷ ds) zero (suc n) h l =
      ap (λ t. d ∷ t) (slice-overwrite_inside xs ds zero n (omega arith) (omega arith))
  slice-overwrite_inside (x ∷ xs) (d ∷ ds) (suc k) n h l =
      slice-overwrite_inside xs ds k n (omega arith) (omega arith)

  pub slice-splice_inside :
      (xs : List A) (o : ℕ) (ds : List A) (k n : ℕ)
      → k + n ≤ length ds
      → o + length ds ≤ length xs
      → slice (splice xs o ds) (o + k) n ≡ slice ds k n
  slice-splice_inside xs zero ds k n h l =
      ap (λ t. slice (overwrite xs ds) t n) {y = k} (omega arith)
      ∙ slice-overwrite_inside xs ds k n h (omega arith)
  slice-splice_inside [] (suc o) ds k n h l = absurd (omega arith)
  slice-splice_inside (x ∷ xs) (suc o) ds k n h l =
      ap (λ t. slice (splice (x ∷ xs) (suc o) ds) t n) {y = suc (o + k)} (omega arith)
      ∙ slice-splice_inside xs o ds k n h (omega arith)
