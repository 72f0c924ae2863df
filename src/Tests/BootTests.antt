-- ===== src/Tests/BootTests.antt =====
-- The kernel loaders on small images.
use nova_vm.Common.{
  ℕ, ◌≡◌, refl, ◌⊎◌, ◌≤◌, none, false, List, [], ◌∷◌, ◌++◌, Result, ok, err, length, replicate,
  arith,
}
use nova_vm.Mem.Memory.{GuestRegion, Memory, locate, write_slice, read_slice}
use nova_vm.Mem.Region.{MemError}
use nova_vm.Boot.Error.{cmdline_too_long, memory}
use nova_vm.Boot.Params.{
  BootParams, E820Entry, empty_params, offset, set_field, copy_setup_header_from,
}
use nova_vm.Boot.Cmdline.{arg, flag, build, write_to_memory}
use nova_vm.Boot.Cmdline.Parts.{write_to_memory-Written, Written}
use nova_vm.Boot.BzImage.{BzImage, parse, load_into_memory, loader_fields, setup_size}
use nova_vm.Boot.BzImage.Loaded.{Loaded, load_into_memory-Loaded}
use nova_vm.Boot.Pvh.{setup_pvh_boot, info_bytes, memmap_bytes, entry_bytes}
use nova_vm.Boot.Pvh.Found.{Found, setup_pvh_boot-Found}
use nova_vm.Boot.Elf
use nova_vm.Boot.Elf.{ElfKernel, LoadSegment}
use nova_vm.Boot.Elf.Load.{AllInPlace, AllBeside, load_into_memory-AllInPlace}

abbrev pub region : ℕ → List ℕ → GuestRegion
region base bs = record { guest_base = base; mmap = record { bytes = bs; hugetlb = false } }

abbrev pub value : {A E : Type 0} → A → Result E A → A
value d (ok a) = a
value d (err e) = d

-- A command line, with the two pages that it and its pointer need.
abbrev cmdline_memory : Memory
cmdline_memory = region 0x20000 (replicate 32 7) ∷ []

abbrev console : List (List ℕ)
console = arg (b'c' ∷ []) (b't' ∷ []) (flag (b'r' ∷ b'o' ∷ []) [])

build_run : build console ≡ b'r' ∷ b'o' ∷ b' ' ∷ b'c' ∷ b'=' ∷ b't' ∷ []
unfolding build arg flag
build_run = refl

write_to_memory_run :
    write_slice cmdline_memory 0x20000 (b'r' ∷ b'o' ∷ 0 ∷ [])
    ≡ ok (region 0x20000 (b'r' ∷ b'o' ∷ 0 ∷ replicate 29 7) ∷ [])
unfolding write_slice locate
write_to_memory_run = refl

-- A page of zeros stands for the zero page.
length-empty_params : length empty_params ≡ 4096
unfolding empty_params
length-empty_params = refl

abbrev ro : List ℕ
ro = b'r' ∷ b'o' ∷ []

write_to_memory-Written_example :
    ((4096 ≤ length (build (ro ∷ [])))
      × (write_to_memory (ro ∷ []) cmdline_memory empty_params
          ≡ err (cmdline_too_long (length (build (ro ∷ []))) 4096)))
    ⊎ (((e : MemError) × (write_slice cmdline_memory 0x20000 (build (ro ∷ []) ++ (0 ∷ [])) ≡ err e)
          × (write_to_memory (ro ∷ []) cmdline_memory empty_params ≡ err (memory e)))
        ⊎ ((m' : Memory) × (p' : BootParams) × (write_to_memory
                (ro ∷ [])
                cmdline_memory
                empty_params
              ≡ ok (m', p'))
            × Written (ro ∷ []) cmdline_memory m' empty_params p'))
write_to_memory-Written_example =
    write_to_memory-Written ro [] cmdline_memory empty_params length-empty_params (omega arith)

-- A bzImage with one setup sector, protocol 2.15 and a kernel of two bytes.
abbrev image : List ℕ
image =
    (((replicate 0x1F1 0 ++ (1 ∷ replicate 16 0)) ++ (0x48 ∷ 0x64 ∷ 0x72 ∷ 0x53 ∷ 0x0F ∷ 0x02 ∷ []))
      ++ replicate 504 0)
    ++ (0xEB ∷ 0xFE ∷ [])

abbrev boot_memory : Memory
boot_memory = region 0x7000 (replicate 4096 7) ∷ region 0x100000 (replicate 4 9) ∷ []

abbrev no_image : BzImage
no_image = record { boot_params = []; kernel_code = []; protocol_version = 0; setup_sects = 0 }

parsed : BzImage
unfolding parse
parsed = value no_image (parse image)

after_load : BzImage × Memory
after_load = value (no_image, []) (load_into_memory parsed boot_memory)

parse_run : parse image ≡ ok parsed
unfolding parse parsed setup_size
parse_run = refl

load_run : load_into_memory parsed boot_memory ≡ ok after_load
unfolding after_load load_into_memory loader_fields parsed parse setup_size write_slice locate
    set_field offset copy_setup_header_from empty_params
load_run = refl

load_into_memory-Loaded_example : Loaded image boot_memory (after_load.1) (after_load.0.boot_params)
unfolding offset
load_into_memory-Loaded_example =
    load_into_memory-Loaded image parsed (after_load.0) boot_memory (after_load.1) parse_run
      load_run (omega arith)

-- A PVH start with one range of memory.
abbrev low_memory : E820Entry
low_memory = record { addr = 0; size = 0x9FC00; type_ = 1 }

abbrev pvh_memory : Memory
pvh_memory = region 0x6000 (replicate 512 7) ∷ []

after_pvh : ℕ × Memory
after_pvh = value (0, []) (setup_pvh_boot pvh_memory 0x20000 (low_memory ∷ []))

pvh_run : setup_pvh_boot pvh_memory 0x20000 (low_memory ∷ []) ≡ ok after_pvh
unfolding after_pvh setup_pvh_boot memmap_bytes entry_bytes info_bytes write_slice locate
pvh_run = refl

setup_pvh_boot-Found_example :
    (1 ≤ 128) × Found (after_pvh.1) (after_pvh.0) 0x20000 (low_memory ∷ [])
setup_pvh_boot-Found_example =
    setup_pvh_boot-Found pvh_memory (after_pvh.1) 0x20000 (after_pvh.0) (low_memory ∷ []) pvh_run
      (omega arith) (omega arith)

-- An ELF kernel of two segments, the second with zeros behind its bytes.
abbrev kernel : ElfKernel
kernel = record {
  image = 1 ∷ 2 ∷ 3 ∷ 4 ∷ [];
  entry_point = 16;
  segments =
      record { guest_addr = 16; file_offset = 0; file_size = 2; mem_size = 2 }
      ∷ record { guest_addr = 20; file_offset = 2; file_size = 2; mem_size = 4 }
      ∷ [];
  pvh_entry = none;
}

abbrev elf_before : Memory
elf_before = region 16 (replicate 8 7) ∷ []

abbrev elf_after : Memory
elf_after = region 16 (1 ∷ 2 ∷ 7 ∷ 7 ∷ 3 ∷ 4 ∷ 0 ∷ 0 ∷ []) ∷ []

elf_run : Elf.load_into_memory kernel elf_before ≡ ok elf_after
unfolding Elf.load_into_memory write_slice locate
elf_run = refl

load_into_memory-AllInPlace_example :
    AllInPlace kernel.image elf_after kernel.segments
    × ((b n : ℕ)
        → AllBeside kernel.segments b n
        → read_slice elf_after b n ≡ read_slice elf_before b n)
load_into_memory-AllInPlace_example =
    load_into_memory-AllInPlace kernel elf_before elf_after elf_run (omega arith) (omega arith)
