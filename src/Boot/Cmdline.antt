-- ===== src/Boot/Cmdline.antt =====
-- crates/nova-boot/src/cmdline.rs. A text is the list of its bytes.
pub mod Parts
use nova_vm.Common.{ℕ, ◌+◌, List, [], ◌∷◌, ◌++◌, Result, ok, err, ◌>>=◌, leb, if◌then◌else◌, length}
use nova_vm.Mem.Memory.{Memory, write_slice}
use nova_vm.Boot.Error.{BootError, cmdline_too_long, from_mem}
use nova_vm.Boot.Params.{BootParams, set_field, cmd_line_ptr, cmdline_size}

abbrev pub cmdline_addr : ℕ
cmdline_addr = 0x20000

abbrev pub cmdline_max_size : ℕ
cmdline_max_size = 4096

-- `CmdlineBuilder`: its parts.
abbrev pub CmdlineBuilder : Type 0
CmdlineBuilder = List (List ℕ)

unfoldable pub arg : List ℕ → List ℕ → CmdlineBuilder → CmdlineBuilder
arg key value parts = parts ++ ((key ++ (b'=' ∷ value)) ∷ [])

-- `flag` and `raw`
unfoldable pub flag : List ℕ → CmdlineBuilder → CmdlineBuilder
flag text parts = parts ++ (text ∷ [])

-- `parts.join(" ")`
unfoldable pub build : CmdlineBuilder → List ℕ
build [] = []
build (part ∷ []) = part
build (part ∷ (next ∷ rest)) = part ++ (b' ' ∷ build (next ∷ rest))

unfoldable pub write_to_memory :
    CmdlineBuilder → Memory → BootParams → Result BootError (Memory × BootParams)
write_to_memory parts m p =
    let bytes = build parts in
    if leb cmdline_max_size (length bytes)
    then err (cmdline_too_long (length bytes) cmdline_max_size)
    else (from_mem (write_slice m cmdline_addr (bytes ++ (0 ∷ []))) >>= λ m'.
        ok (m', set_field cmdline_size (length bytes) (set_field cmd_line_ptr cmdline_addr p)))
