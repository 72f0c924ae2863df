-- ===== src/Boot/Params/Fields.antt =====
-- The fields of the setup header, crates/nova-boot/src/boot_params.rs: a field that is set is read back,
-- and the others stay.
use nova_vm.Common.{
  ℕ, zero, suc, ◌+◌, ◌≤◌, ◌<◌, ◌^◌, ◌≡◌, ◌≢◌, ap, ◌⊎◌, inl, inr, List, [], ◌∷◌, length, slice,
  get_or, arith, length-splice, slice-splice_self, slice-splice_above, slice-splice_below,
}
use native.Mathlib.Decide.{dec_lt}
use nova_vm.Common.Bytes.{to_le, from_le, from_le-to_le, length-to_le}
use nova_vm.Boot.Params.{
  page_size, BootParams, setup_header, width, widths_below, offset, get_field, set_field,
}

-- A field that starts further down begins behind one further up.
widths_below_apart :
    (ws : List ℕ) (i j : ℕ) → i < j → widths_below i ws + get_or ws i 0 ≤ widths_below j ws
unfolding widths_below
widths_below_apart [] zero j h = omega arith
widths_below_apart [] (suc i) j h = omega arith
widths_below_apart (w ∷ ws) zero zero h = absurd (omega arith)
widths_below_apart (w ∷ ws) zero (suc j) h = omega arith
widths_below_apart (w ∷ ws) (suc i) zero h = absurd (omega arith)
widths_below_apart (w ∷ ws) (suc i) (suc j) h =
    omega (arith, widths_below_apart ws i j (omega arith))

widths_below-le :
    (ws : List ℕ) (i : ℕ) → widths_below i ws + get_or ws i 0 ≤ widths_below (length ws) ws
unfolding widths_below
widths_below-le [] zero = omega arith
widths_below-le [] (suc i) = omega arith
widths_below-le (w ∷ ws) zero = omega arith
widths_below-le (w ∷ ws) (suc i) = omega (arith, widths_below-le ws i)

-- The header ends at 0x268, below the table of memory ranges.
pub offset-le : (i : ℕ) → offset i + width i ≤ 0x268
unfolding offset
offset-le i = omega (arith, widths_below-le setup_header i)

pub offset-ge : (i : ℕ) → 0x1F1 ≤ offset i
unfolding offset
offset-ge i = omega arith

pub get_field-set_field_self :
    (i v : ℕ) (p : BootParams)
    → length p ≡ page_size
    → v < 256 ^ width i
    → get_field i (set_field i v p) ≡ v
unfolding get_field set_field
get_field-set_field_self i v p full fits =
    let written =
      slice-splice_self p (offset i) (to_le (width i) v)
        (omega (arith, offset-le i, length-to_le (width i) v)) in
    rw (rw (length-to_le (width i) v) at written) (from_le-to_le (width i) v fits)

-- The bytes apart from a field are as they were.
pub slice-set_field :
    (i v : ℕ) (p : BootParams) (o n : ℕ)
    → (o + n ≤ offset i) ⊎ (offset i + width i ≤ o)
    → slice (set_field i v p) o n ≡ slice p o n
unfolding set_field
slice-set_field i v p o n apart = elim apart [
  | inl below ↦ slice-splice_below p (offset i) (to_le (width i) v) o n below
  | inr above ↦
      slice-splice_above p (offset i) (to_le (width i) v) o n
        (omega (arith, length-to_le (width i) v))
]

pub get_field-set_field_ne :
    (i j v : ℕ) (p : BootParams) → i ≢ j → get_field j (set_field i v p) ≡ get_field j p
unfolding get_field
get_field-set_field_ne i j v p ne = ap from_le (
    slice-set_field i v p (offset j) (width j) (elim (dec_lt i j) [
      | yes lt ↦ inr (apart i j lt)
      | no ge ↦ inl (apart j i (omega (arith, ne)))
    ]))
  where
    apart : (i j : ℕ) → i < j → offset i + width i ≤ offset j
    apart i j lt = unfold offset in omega (arith, widths_below_apart setup_header i j lt)

pub length-set_field : (i v : ℕ) (p : BootParams) → length (set_field i v p) ≡ length p
unfolding set_field
length-set_field i v p = length-splice p (offset i) (to_le (width i) v)
