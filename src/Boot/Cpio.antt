-- ===== src/Boot/Cpio.antt =====
-- crates/nova-boot/src/initrd.rs: what it appends to a cpio archive of the "newc" format, and the
-- loading of an initrd. A text is the list of its bytes.
pub mod Newc
pub mod Archive
use nova_vm.Common.{
  ℕ, zero, suc, ◌+◌, ◌-◌, ◌*◌, ◌/◌, ◌%◌, ◌^◌, List, [], ◌∷◌, ◌++◌, Result, ok, err, ◌>>=◌, ltb,
  if◌then◌else◌, length, replicate,
}
use nova_vm.Mem.Memory.{Memory, write_slice}
use nova_vm.Mem.Address.{GuestAddress}
use nova_vm.Boot.Error.{BootError, initrd_too_large, from_mem}
use nova_vm.Boot.Params.{BootParams, set_field, ramdisk_image, ramdisk_size}

abbrev pub u32_mod : ℕ
u32_mod = 2 ^ 32

abbrev pub initrd_addr : ℕ
initrd_addr = 0x1000000

abbrev pub initrd_max : ℕ
initrd_max = 512 * 1024 * 1024

-- `load_initrd_at`, of the bytes that the reader gives; `as u32` cuts the address and the size.
unfoldable pub load_initrd_at :
    List ℕ → Memory → BootParams → GuestAddress → Result BootError (Memory × BootParams)
load_initrd_at bytes m p load_addr =
    if ltb initrd_max (length bytes)
    then err (initrd_too_large (length bytes))
    else (from_mem (write_slice m load_addr bytes) >>= λ m'. ok (
      m',
      set_field ramdisk_size (length bytes % u32_mod)
          (set_field ramdisk_image (load_addr % u32_mod) p),
    ))

unfoldable pub load_initrd : List ℕ → Memory → BootParams → Result BootError (Memory × BootParams)
load_initrd bytes m p = load_initrd_at bytes m p initrd_addr

abbrev pub hex_digit : ℕ → ℕ
hex_digit d = if ltb d 10 then b'0' + d else b'A' + (d - 10)

-- `{:08X}`, of a number below 2 ^ 32: the `k` low digits, the highest first.
unfoldable pub hex_upper : ℕ → ℕ → List ℕ
hex_upper zero v = []
hex_upper (suc k) v = hex_upper k (v / 16) ++ (hex_digit (v % 16) ∷ [])

abbrev pub hex8 : ℕ → List ℕ
hex8 v = hex_upper 8 v

abbrev pub newc_magic : List ℕ
newc_magic = b'0' ∷ b'7' ∷ b'0' ∷ b'7' ∷ b'0' ∷ b'1' ∷ []

-- Zero bytes up to the next multiple of 4.
abbrev pub padding : ℕ → ℕ
padding n = (4 - n % 4) % 4

-- The fields that do not vary: uid, gid, link count and time; the device numbers.
unfoldable pub newc_owner : List ℕ
unfolding hex_upper
newc_owner = hex8 0 ++ (hex8 0 ++ (hex8 1 ++ hex8 0))

unfoldable pub newc_devices : List ℕ
unfolding hex_upper
newc_devices = hex8 0 ++ (hex8 0 ++ (hex8 0 ++ hex8 0))

-- The 110 bytes of a header.
unfoldable pub newc_header : ℕ → ℕ → ℕ → ℕ → List ℕ
newc_header ino mode filesize namesize =
    newc_magic
    ++ (hex8 ino
        ++ (hex8 mode
            ++ (newc_owner ++ (hex8 filesize ++ (newc_devices ++ (hex8 namesize ++ hex8 0))))))

-- What `write_cpio_entry` appends to the buffer.
unfoldable pub cpio_entry : List ℕ → ℕ → List ℕ → ℕ → List ℕ
cpio_entry name mode content ino =
    newc_header ino mode (length content) (length name + 1)
    ++ (name
        ++ (0
            ∷ (replicate (padding (110 + (length name + 1))) 0
                ++ (content ++ replicate (padding (length content)) 0))))

abbrev pub trailer_name : List ℕ
trailer_name = b'T' ∷ b'R' ∷ b'A' ∷ b'I' ∷ b'L' ∷ b'E' ∷ b'R' ∷ b'!' ∷ b'!' ∷ b'!' ∷ []

-- `inject_file`
unfoldable pub inject_file : List ℕ → List ℕ → List ℕ → ℕ → List ℕ
inject_file cpio path content mode =
    (cpio ++ cpio_entry path mode content 1) ++ cpio_entry trailer_name 0 [] 0

-- `sbin/nova-agent`
abbrev pub agent_name : List ℕ
agent_name =
    b's' ∷ b'b' ∷ b'i' ∷ b'n' ∷ b'/' ∷ b'n' ∷ b'o' ∷ b'v' ∷ b'a' ∷ b'-' ∷ b'a' ∷ b'g' ∷ b'e' ∷ b'n'
    ∷ b't' ∷ []

-- One entry of `inject_agent`, which pads in front of the name and not behind it.
unfoldable pub padded_name_entry : List ℕ → ℕ → List ℕ → List ℕ
padded_name_entry name mode content =
    newc_header 0 mode (length content) (length name + 1)
    ++ (replicate (padding (110 + (length name + 1))) 0 ++ (name ++ (0 ∷ content)))

-- `inject_agent`
unfoldable pub inject_agent : List ℕ → List ℕ → List ℕ
inject_agent initrd agent =
    (((initrd ++ padded_name_entry agent_name 0o100755 agent)
        ++ replicate (padding (length agent)) 0)
      ++ padded_name_entry trailer_name 0 [])
    ++ replicate (padding (length trailer_name + 1)) 0

-- What a tree of files gives, once walked: the path, the mode and the content of each entry, sorted
-- by path. (`dir_to_cpio`, whose walk reads the file system.)
pub record TreeEntry : Type 0 where
  pub path : List ℕ
  pub mode : ℕ
  pub content : List ℕ

unfoldable pub entries_to_cpio : List TreeEntry → ℕ → List ℕ
entries_to_cpio [] ino = cpio_entry trailer_name 0 [] 0
entries_to_cpio (e ∷ es) ino =
    cpio_entry e.path e.mode e.content ino ++ entries_to_cpio es (suc ino)
