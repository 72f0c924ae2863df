-- ===== src/Boot/Elf.antt =====
-- crates/nova-boot/src/elf.rs, of the bytes that the reader gives. `usize` and `u64` are of 64 bits and
-- wrap around in a release build; an index out of the image panics.
use nova_vm.Common.{
  ℕ, zero, suc, ◌+◌, ◌*◌, ◌-◌, ◌/◌, ◌%◌, ◌^◌, Bool, true, false, not, ◌&&◌, Option, none, some,
  List, [], ◌∷◌, ◌++◌, Result, ok, err, ◌>>=◌, ltb, leb, ◌==◌, if◌then◌else◌, length, slice,
  replicate, map_err,
}
use nova_vm.Mem.Region.{MemError}
use nova_vm.Mem.Memory.{Memory, write_slice}
use nova_vm.Boot.Error.{
  BootError, Fault, failed, panicked, invalid_elf_magic, not64_bit_elf, not_executable_elf,
  no_loadable_segments, kernel_too_large, memory, read_at,
}
pub mod Load
pub mod Parse

abbrev pub wrap : ℕ → ℕ
wrap n = n % 2 ^ 64

pub record LoadSegment : Type 0 where
  pub guest_addr : ℕ
  pub file_offset : ℕ
  pub file_size : ℕ
  pub mem_size : ℕ

pub record ElfKernel : Type 0 where
  pub image : List ℕ
  pub entry_point : ℕ
  pub segments : List LoadSegment
  pub pvh_entry : Option ℕ

abbrev pt_load : ℕ
pt_load = 1

abbrev sht_note : ℕ
sht_note = 7

abbrev xen_elfnote_phys_entry : ℕ
xen_elfnote_phys_entry = 18

-- The fields of a program header of the type PT_LOAD.
unfoldable pub read_segment : List ℕ → ℕ → Result Fault LoadSegment
read_segment image offset = do
  p_offset ← read_at image (offset + 8) 8
  p_vaddr ← read_at image (offset + 16) 8
  p_paddr ← read_at image (offset + 24) 8
  p_filesz ← read_at image (offset + 32) 8
  p_memsz ← read_at image (offset + 40) 8
  ok (record {
    guest_addr = if p_paddr == 0 then p_vaddr else p_paddr;
    file_offset = p_offset;
    file_size = p_filesz;
    mem_size = p_memsz;
  })

-- The loop over the program headers, from number `i` on: it breaks off at the first that does not lie in
-- the image.
unfoldable pub read_segments : List ℕ → ℕ → ℕ → ℕ → ℕ → Result Fault (List LoadSegment)
unfolding read_segment
read_segments image ph_offset ph_entry_size zero i = ok []
read_segments image ph_offset ph_entry_size (suc n) i =
    let rest = read_segments image ph_offset ph_entry_size n (suc i) in
    let offset = wrap (ph_offset + i * ph_entry_size) in
    if ltb (length image) (wrap (offset + ph_entry_size)) then ok [] else (do
      p_type ← read_at image offset 4
      if not (p_type == pt_load)
          then rest
          else (do seg ← read_segment image offset; segs ← rest; ok (seg ∷ segs)))

-- `(n + 3) & !3`
abbrev align4 : ℕ → ℕ
align4 n = (n + 3) / 4 * 4

-- The loop over the notes of a section that ends at `stop`, with fuel: a note is at least 12 bytes.
unfoldable pub find_note : ℕ → List ℕ → ℕ → ℕ → Result Fault (Option ℕ)
find_note zero image pos stop = ok none
find_note (suc fuel) image pos stop =
    if leb (wrap (pos + 12)) stop && leb (wrap (pos + 12)) (length image)
    then (do
      namesz ← read_at image pos 4
      descsz ← read_at image (pos + 4) 4
      note_type ← read_at image (pos + 8) 4
      let desc_start = pos + 12 + align4 namesz
      let next = find_note fuel image (desc_start + align4 descsz) stop
      if (note_type == xen_elfnote_phys_entry)
            && (leb 8 descsz && leb (desc_start + 8) (length image))
          then (do entry ← read_at image desc_start 8; ok (some entry))
          else next)
    else ok none

-- The loop over the section headers, from number `i` on.
unfoldable pub find_sections : List ℕ → ℕ → ℕ → ℕ → ℕ → Result Fault (Option ℕ)
unfolding find_note
find_sections image sh_offset sh_entry_size zero i = ok none
find_sections image sh_offset sh_entry_size (suc n) i =
    let rest = find_sections image sh_offset sh_entry_size n (suc i) in
    let offset = wrap (sh_offset + i * sh_entry_size) in
    if ltb (length image) (wrap (offset + sh_entry_size)) then ok none else (do
      sh_type ← read_at image (wrap (offset + 4)) 4
      if not (sh_type == sht_note) then rest else (do
        note_offset ← read_at image (wrap (offset + 24)) 8
        note_size ← read_at image (wrap (offset + 32)) 8
        found ← find_note (suc (length image)) image note_offset (wrap (note_offset + note_size))
        elim found [ some entry ↦ ok (some entry) | none ↦ rest ]))

unfoldable pub find_pvh_entry : List ℕ → Result Fault (Option ℕ)
unfolding find_sections
find_pvh_entry image = if ltb (length image) 64 then ok none else (do
  sh_offset ← read_at image 40 8
  sh_entry_size ← read_at image 58 2
  sh_count ← read_at image 60 2
  find_sections image sh_offset sh_entry_size sh_count 0)

abbrev elf_magic : ℕ
elf_magic = 0x464C457F

unfoldable pub parse : List ℕ → Result Fault ElfKernel
unfolding read_segments find_pvh_entry
parse image = if ltb (length image) 64 then err (failed invalid_elf_magic) else (do
  magic ← read_at image 0 4
  if not (magic == elf_magic) then err (failed invalid_elf_magic) else (do
    class_ ← read_at image 4 1
    if not (class_ == 2) then err (failed (not64_bit_elf class_)) else (do
      e_type ← read_at image 16 2
      if not (e_type == 2) then err (failed (not_executable_elf e_type)) else (do
        entry_point ← read_at image 24 8
        ph_offset ← read_at image 32 8
        ph_entry_size ← read_at image 54 2
        ph_count ← read_at image 56 2
        segments ← read_segments image ph_offset ph_entry_size ph_count 0
        elim segments [
          | [] ↦ err (failed no_loadable_segments)
          | seg ∷ segs ↦ (do
            pvh_entry ← find_pvh_entry image
            ok (record {
              image = image;
              entry_point = entry_point;
              segments = seg ∷ segs;
              pvh_entry = pvh_entry;
            }))
        ]))))

abbrev from_mem {ℓ} : {A : Type ℓ} → Result MemError A → Result Fault A
from_mem r = map_err (λ e. failed (memory e)) r

-- The first half of the loop's body: the bytes that the file has.
unfoldable pub load_file : List ℕ → LoadSegment → Memory → Result Fault Memory
load_file image seg m =
    if seg.file_size == 0
    then ok m
    else (let end = wrap (seg.file_offset + seg.file_size) in
        if ltb (length image) end
        then err (failed (kernel_too_large end seg.guest_addr))
        else (if ltb end seg.file_offset
            then err panicked
            else (from_mem
                (write_slice m seg.guest_addr (slice image seg.file_offset seg.file_size)))))

-- The second half: zeros up to the size in memory.
unfoldable pub load_bss : LoadSegment → Memory → Result Fault Memory
load_bss seg m =
    if ltb seg.file_size seg.mem_size
    then from_mem (
        write_slice m (wrap (seg.guest_addr + seg.file_size))
          (replicate (seg.mem_size - seg.file_size) 0))
    else ok m

unfoldable pub load_segments : List ℕ → List LoadSegment → Memory → Result Fault Memory
unfolding load_file load_bss
load_segments image [] m = ok m
load_segments image (seg ∷ segs) m = do
  m' ← load_file image seg m
  m'' ← load_bss seg m'
  load_segments image segs m''

unfoldable pub load_into_memory : ElfKernel → Memory → Result Fault Memory
unfolding load_segments
load_into_memory k m = load_segments k.image k.segments m
