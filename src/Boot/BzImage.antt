-- ===== src/Boot/BzImage.antt =====
-- crates/nova-boot/src/bzimage.rs, of the bytes that the reader gives. Each index stands below 0x268,
-- which the first test asks of the image, so none panics.
use Prim.Native.Nat.{bit_or}
use nova_vm.Common.{
  ℕ, ◌+◌, ◌-◌, ◌*◌, List, Result, ok, err, ◌>>=◌, not, ltb, ◌==◌, if◌then◌else◌, length, slice,
  drop, get_or, map_err,
}
use nova_vm.Common.Bytes.{from_le}
use nova_vm.Mem.Memory.{Memory, write_slice}
use nova_vm.Boot.Error.{
  BootError, invalid_bzimage_magic, old_boot_protocol, kernel_too_large, memory, from_mem,
}
use nova_vm.Boot.Params.{
  BootParams, empty_params, setup_header_offset, copy_setup_header_from, get_field, set_field,
  type_of_loader, loadflags,
}
pub mod Loaded

pub record BzImage : Type 0 where
  pub boot_params : BootParams
  pub kernel_code : List ℕ
  pub protocol_version : ℕ
  pub setup_sects : ℕ

abbrev pub hdrs_magic : ℕ
hdrs_magic = 0x53726448

abbrev pub kernel_load_addr : ℕ
kernel_load_addr = 0x100000

abbrev pub zero_page_addr : ℕ
zero_page_addr = 0x7000

-- Zero sectors stand for four.
unfoldable pub sectors : List ℕ → ℕ
sectors image = let n = get_or image 0x1F1 0 in if n == 0 then 4 else n

unfoldable pub setup_size : List ℕ → ℕ
unfolding sectors
setup_size image = (1 + sectors image) * 512

unfoldable pub parse : List ℕ → Result BootError BzImage
parse image =
    if ltb (length image) 0x268
    then err (invalid_bzimage_magic 0)
    else (let magic = from_le (slice image 0x202 4) in
        if not (magic == hdrs_magic)
        then err (invalid_bzimage_magic magic)
        else (let version = from_le (slice image 0x206 2) in
            if ltb version 0x0200
            then err (old_boot_protocol version)
            else (if ltb (length image) (setup_size image)
                then err (kernel_too_large (length image) 0)
                else (let header_bytes =
                      slice image setup_header_offset (setup_size image - setup_header_offset) in
                    ok (record {
                      boot_params = copy_setup_header_from header_bytes empty_params;
                      kernel_code = drop (setup_size image) image;
                      protocol_version = version;
                      setup_sects = sectors image;
                    })))))

-- The zero page with the loader's type and the flag that the kernel is loaded high.
unfoldable pub loader_fields : BootParams → BootParams
loader_fields p =
    let q = set_field type_of_loader 0xFF p in
    set_field loadflags (bit_or (get_field loadflags q) 1) q

unfoldable pub load_into_memory : BzImage → Memory → Result BootError (BzImage × Memory)
unfolding loader_fields
load_into_memory image m = do
  let page = loader_fields image.boot_params
  m' ←
      map_err (λ e. kernel_too_large (length image.kernel_code) kernel_load_addr)
        (write_slice m kernel_load_addr image.kernel_code)
  m'' ← from_mem (write_slice m' zero_page_addr page)
  ok (record image { boot_params = page }, m'')
