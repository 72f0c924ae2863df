-- ===== src/Boot/Params.antt =====
-- crates/nova-boot/src/boot_params.rs and layout.rs: the zero page as its 4096 bytes.
pub mod Fields
pub mod Map
use nova_vm.Common.{
  ℕ, suc, zero, ◌+◌, ◌*◌, ◌-◌, ◌≤◌, ◌<◌, ◌^◌, ◌≡◌, ◌≢◌, refl, ap, ◌⊎◌, inl, inr, Bool, true, false,
  List, [], ◌∷◌, ◌++◌, leb, min, if◌then◌else◌, length, slice, splice, take, replicate, get_or,
  arith, length-splice, slice-splice_self, slice-splice_above, slice-splice_below, length-replicate,
}
use native.Mathlib.Decide.{dec_lt}
use nova_vm.Common.Bytes.{to_le, from_le, from_le-to_le, length-to_le}

abbrev pub page_size : ℕ
page_size = 4096

-- `BootParams`
abbrev pub BootParams : Type 0
BootParams = List ℕ

-- `BootParams::new`
unfoldable pub empty_params : BootParams
empty_params = replicate page_size 0

-- `SetupHeader` is packed: the widths of its fields in order, each field right behind the one before.
abbrev pub setup_header : List ℕ
setup_header =
    1 ∷ 2 ∷ 4 ∷ 2 ∷ 2 ∷ 2 ∷ 2 ∷ 2 ∷ 4 ∷ 2 ∷ 4 ∷ 2 ∷ 2 ∷ 1 ∷ 1 ∷ 2 ∷ 4 ∷ 4 ∷ 4 ∷ 4 ∷ 2 ∷ 1 ∷ 1 ∷ 4
    ∷ 4 ∷ 4 ∷ 1 ∷ 1 ∷ 2 ∷ 4 ∷ 4 ∷ 8 ∷ 4 ∷ 4 ∷ 8 ∷ 8 ∷ 4 ∷ 4 ∷ []

-- The numbers of the fields that the loader reads or writes.
abbrev pub type_of_loader : ℕ
type_of_loader = 13

abbrev pub loadflags : ℕ
loadflags = 14

abbrev pub ramdisk_image : ℕ
ramdisk_image = 17

abbrev pub ramdisk_size : ℕ
ramdisk_size = 18

abbrev pub cmd_line_ptr : ℕ
cmd_line_ptr = 23

abbrev pub cmdline_size : ℕ
cmdline_size = 29

abbrev pub setup_header_offset : ℕ
setup_header_offset = 0x1F1

abbrev pub width : ℕ → ℕ
width i = get_or setup_header i 0

unfoldable pub widths_below : ℕ → List ℕ → ℕ
widths_below zero ws = 0
widths_below (suc i) [] = 0
widths_below (suc i) (w ∷ ws) = w + widths_below i ws

unfoldable pub offset : ℕ → ℕ
unfolding widths_below
offset i = setup_header_offset + widths_below i setup_header

-- `setup_header().field` and `setup_header_mut().field = v`
unfoldable pub get_field : ℕ → BootParams → ℕ
get_field i p = from_le (slice p (offset i) (width i))

unfoldable pub set_field : ℕ → ℕ → BootParams → BootParams
set_field i v p = splice p (offset i) (to_le (width i) v)

pub record E820Entry : Type 0 where
  pub addr : ℕ
  pub size : ℕ
  pub type_ : ℕ

abbrev pub e820_max_entries : ℕ
e820_max_entries = 128

-- The packed bytes of an entry.
unfoldable pub e820_bytes : E820Entry → List ℕ
e820_bytes e = to_le 8 e.addr ++ (to_le 8 e.size ++ to_le 4 e.type_)

abbrev pub e820_offset : ℕ → ℕ
e820_offset index = 0x2D0 + index * 20

unfoldable pub set_e820_entry : ℕ → E820Entry → BootParams → BootParams × Bool
set_e820_entry index e p =
    if leb e820_max_entries index
    then (p, false)
    else (splice p (e820_offset index) (e820_bytes e), true)

unfoldable pub set_e820_count : ℕ → BootParams → BootParams
set_e820_count count p = splice p 0x1E8 (count ∷ [])

unfoldable pub e820_count : BootParams → ℕ
e820_count p = get_or p 0x1E8 0

unfoldable pub copy_setup_header_from : List ℕ → BootParams → BootParams
copy_setup_header_from header_bytes p =
    splice p setup_header_offset
      (take (min (length header_bytes) (page_size - setup_header_offset)) header_bytes)
