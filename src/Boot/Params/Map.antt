-- ===== src/Boot/Params/Map.antt =====
-- The memory map in the zero page, crates/nova-boot/src/boot_params.rs.
use nova_vm.Common.{
  ℕ, ◌≤◌, ◌<◌, ◌^◌, ◌≡◌, ◌≢◌, ap, ◌⊎◌, inl, inr, true, false, List, length, slice, splice, take,
  drop, leb, arith, slice-splice_self, slice-splice_above, slice-splice_below,
}
use native.Mathlib.Decide.{dec_lt}
use nova_vm.Common.Bytes.{from_le, from_le-to_le}
use nova_vm.Boot.Params.{
  page_size, BootParams, E820Entry, e820_bytes, e820_offset, e820_max_entries, set_e820_entry,
  get_field, width, offset,
}
use nova_vm.Boot.Params.Fields.{offset-le}

-- What the kernel reads at an index of the table: 20 bytes, of which the address, the size and the type.
unfoldable pub decode_e820 : List ℕ → E820Entry
decode_e820 bs = record {
  addr = from_le (take 8 bs);
  size = from_le (take 8 (drop 8 bs));
  type_ = from_le (drop 8 (drop 8 bs));
}

unfoldable pub get_e820_entry : ℕ → BootParams → E820Entry
unfolding decode_e820
get_e820_entry index p = decode_e820 (slice p (e820_offset index) 20)

-- The fields have the widths of the table.
pub record Fits (e : E820Entry) : Type 0 where
  pub addr_fits : e.addr < 2 ^ 64
  pub size_fits : e.size < 2 ^ 64
  pub type_fits : e.type_ < 2 ^ 32

pub length-e820_bytes : (e : E820Entry) → length (e820_bytes e) ≡ 20
unfolding e820_bytes
length-e820_bytes e = omega arith

pub decode_e820-e820_bytes : (e : E820Entry) → Fits e → decode_e820 (e820_bytes e) ≡ e
unfolding decode_e820 e820_bytes
decode_e820-e820_bytes e f = ground (
  arith,
  from_le-to_le 8 e.addr,
  from_le-to_le 8 e.size,
  from_le-to_le 4 e.type_,
  f.addr_fits,
  f.size_fits,
  f.type_fits,
)

-- An entry set at an index below 128 is what the kernel finds at that index; every other entry and every
-- field of the setup header is as before. From 128 on nothing is written.
pub set_e820_entry_lem :
    (index : ℕ) (e : E820Entry) (p : BootParams)
    → length p ≡ page_size
    → Fits e
    → ((index < e820_max_entries)
        × ((set_e820_entry index e p).1 ≡ true)
        × (get_e820_entry index (set_e820_entry index e p).0 ≡ e)
        × ((j : ℕ) → j ≢ index → get_e820_entry j (set_e820_entry index e p).0 ≡ get_e820_entry j p)
        × ((i : ℕ) → get_field i (set_e820_entry index e p).0 ≡ get_field i p))
      ⊎ ((e820_max_entries ≤ index) × (set_e820_entry index e p ≡ (p, false)))
unfolding set_e820_entry
set_e820_entry_lem index e p full f = elim (dec_lt index e820_max_entries) [
  | yes lt ↦
      let inside : leb e820_max_entries index ≡ false = ground arith in
      let o = e820_offset index in
      inl (lt, rw inside, rw inside (here lt), rw inside others, rw inside header)
  | no ge ↦
      let outside : leb e820_max_entries index ≡ true = ground arith in
      inr (omega arith, rw outside)
]
  where
    here : index < 128 → get_e820_entry index (splice p (e820_offset index) (e820_bytes e)) ≡ e
    here lt =
        unfold get_e820_entry in
        rw
          (rw (length-e820_bytes e) at (
            slice-splice_self p (e820_offset index) (e820_bytes e)
              (omega (arith, length-e820_bytes e))))
          (decode_e820-e820_bytes e f)

    others :
        (j : ℕ)
        → j ≢ index
        → get_e820_entry j (splice p (e820_offset index) (e820_bytes e)) ≡ get_e820_entry j p
    others j ne =
        unfold get_e820_entry in
        ap decode_e820 (elim (dec_lt j index) [
          | yes lt ↦
              slice-splice_below p (e820_offset index) (e820_bytes e) (e820_offset j) 20
                (omega arith)
          | no ge ↦
              slice-splice_above p (e820_offset index) (e820_bytes e) (e820_offset j) 20
                (omega (arith, ne, length-e820_bytes e))
        ])

    header : (i : ℕ) → get_field i (splice p (e820_offset index) (e820_bytes e)) ≡ get_field i p
    header i =
        unfold get_field in
        ap from_le (
          slice-splice_below p (e820_offset index) (e820_bytes e) (offset i) (width i)
            (omega (arith, offset-le i)))
