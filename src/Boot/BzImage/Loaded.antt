-- ===== src/Boot/BzImage/Loaded.antt =====
-- What lies in guest memory once crates/nova-boot/src/bzimage.rs has loaded an image.
use Prim.Native.Nat.{bit_or}
use nova_vm.Common.{
  ℕ, ◌+◌, ◌-◌, ◌*◌, ◌/◌, ◌≤◌, ◌<◌, ◌≡◌, ◌≢◌, refl, sym, ap, ◌∙◌, ◌⊎◌, inl, inr, List, false, ok,
  ◌==◌, ==_iff, length, slice, splice, take, drop, min, get_or, if◌then◌else◌, arith, guarded-eq-ok,
  ok-injective, ltb→ge, not, >>=-eq-ok, map_err-eq-ok, length-take, length-slice, length-drop,
  length-replicate, length-splice, slice-slice, slice-take, slice-splice_inside,
}
use nova_vm.Common.Bytes.{from_le}
use nova_vm.Common.Table.{every_below, every_below-at}
use nova_vm.Mem.Memory.{Memory, write_slice, read_slice}
use nova_vm.Mem.Access.{read_slice-write_slice_self, read_slice-write_slice_ne}
use nova_vm.Boot.Params.{
  BootParams, page_size, setup_header_offset, empty_params, copy_setup_header_from, width, offset,
  get_field, set_field, type_of_loader, loadflags,
}
use nova_vm.Boot.Params.Fields.{
  offset-le, offset-ge, get_field-set_field_self, get_field-set_field_ne, length-set_field,
}
use nova_vm.Boot.BzImage.{
  BzImage, parse, load_into_memory, loader_fields, setup_size, sectors, hdrs_magic,
  kernel_load_addr, zero_page_addr,
}

-- A field of the setup header as it stands in the image.
abbrev pub image_field : List ℕ → ℕ → ℕ
image_field image i = from_le (slice image (offset i) (width i))

setup_size-ge : (image : List ℕ) → 1024 ≤ setup_size image
unfolding setup_size
setup_size-ge image = ground arith

-- What `parse` accepts, and what it makes of it.
pub record Parsed (image : List ℕ) (b : BzImage) : Type 0 where
  pub long : 0x268 ≤ length image
  pub magic : from_le (slice image 0x202 4) ≡ hdrs_magic
  pub version : 0x0200 ≤ from_le (slice image 0x206 2)
  pub complete : setup_size image ≤ length image
  pub params :
      b.boot_params
      ≡ copy_setup_header_from
          (slice image setup_header_offset (setup_size image - setup_header_offset))
          empty_params
  pub code : b.kernel_code ≡ drop (setup_size image) image

equal_of_test : (a b : ℕ) → not (a == b) ≡ false → a ≡ b
equal_of_test a b h = ground arith

pub parse-Parsed : (image : List ℕ) (b : BzImage) → parse image ≡ ok b → Parsed image b
unfolding parse
parse-Parsed image b h =
    let (long, h1) = guarded-eq-ok _ _ _ h in
    let (magic, h2) = guarded-eq-ok _ _ _ h1 in
    let (version, h3) = guarded-eq-ok _ _ _ h2 in
    let (complete, h4) = guarded-eq-ok _ _ _ h3 in
    let built = ok-injective h4 in
    record {
      long = ltb→ge (length image) 0x268 long;
      magic = equal_of_test _ hdrs_magic magic;
      version = ltb→ge (from_le (slice image 0x206 2)) 0x0200 version;
      complete = ltb→ge (length image) (setup_size image) complete;
      params = sym (ap (λ (x : BzImage). x.boot_params) built);
      code = sym (ap (λ (x : BzImage). x.kernel_code) built);
    }

length-empty_params : length empty_params ≡ page_size
unfolding empty_params
length-empty_params = length-replicate {A = ℕ} page_size 0

copied_field :
    (image : List ℕ) (i : ℕ)
    → setup_size image ≤ length image
    → get_field i (
        copy_setup_header_from
          (slice image setup_header_offset (setup_size image - setup_header_offset))
          empty_params)
      ≡ image_field image i
unfolding get_field copy_setup_header_from
copied_field image i h =
    let header = slice image setup_header_offset (setup_size image - setup_header_offset) in
    let count = min (length header) (page_size - setup_header_offset) in
    let k = offset i - setup_header_offset in
    let header_length : length header ≡ setup_size image - setup_header_offset =
      length-slice image setup_header_offset (setup_size image - setup_header_offset)
        (omega (arith, setup_size-ge image)) in
    let room : k + width i ≤ count =
      omega (arith, offset-le i, offset-ge i, header_length, setup_size-ge image) in
    let at : offset i ≡ setup_header_offset + k = omega (arith, offset-ge i) in
    ap from_le (
      ap (λ o. slice (splice empty_params setup_header_offset (take count header)) o (width i)) at
      ∙ slice-splice_inside empty_params setup_header_offset (take count header) k (width i)
          (omega (arith, room, length-take count header))
          (omega (arith, length-take count header, length-empty_params))
      ∙ slice-take header count k (width i) room
      ∙ slice-slice image setup_header_offset (setup_size image - setup_header_offset) k (width i)
          (omega (arith, room, header_length))
      ∙ ap (λ o. slice image o (width i)) (sym at))

length-copy :
    (header : List ℕ) (p : BootParams) → length (copy_setup_header_from header p) ≡ length p
unfolding copy_setup_header_from
length-copy header p =
    length-splice p setup_header_offset
      (take (min (length header) (page_size - setup_header_offset)) header)

-- `x | 1` for a byte: the odd one of the pair.
flag_one : (x : ℕ) → x < 256 → bit_or x 1 ≡ x / 2 * 2 + 1
unfolding every_below
flag_one x h = (==_iff _ _).0 (every_below-at (λ x. bit_or x 1 == (x / 2 * 2 + 1)) 256 h refl)

-- The ranges that neither the zero page nor the kernel takes.
abbrev pub Beside : ℕ → ℕ → ℕ → Type 0
Beside code a n = (a + n ≤ 0x7000) ⊎ (((0x8000 ≤ a) × (a + n ≤ 0x100000)) ⊎ (0x100000 + code ≤ a))

-- Where the boot protocol puts the kernel in the file: behind the boot sector and as many sectors of
-- 512 bytes as the byte at 0x1F1 says, where 0 stands for 4.
abbrev pub code_offset : List ℕ → ℕ
code_offset image = let n = get_or image 0x1F1 0 in if n == 0 then 2560 else 512 * n + 512

setup_size-code_offset : (image : List ℕ) → setup_size image ≡ code_offset image
unfolding setup_size sectors
setup_size-code_offset image = ground arith

-- What the loaded image leaves in memory: the kernel's code at 1 MiB; at 0x7000 the zero page, whose
-- setup header is the image's but for the type of the loader and the flag that the kernel is loaded
-- high; and what lies apart from the two is as before.
pub record Loaded (image : List ℕ) (m m' : Memory) (page : BootParams) : Type 0 where
  pub code_there :
      read_slice m' 0x100000 (length image - code_offset image)
      ≡ ok (drop (code_offset image) image)
  pub page_there : read_slice m' 0x7000 4096 ≡ ok page
  pub loader_there : from_le (slice page 0x210 1) ≡ 0xFF
  pub flags_there : from_le (slice page 0x211 1) ≡ from_le (slice image 0x211 1) / 2 * 2 + 1
  pub fields_there :
      (i : ℕ) → i ≢ type_of_loader → i ≢ loadflags → get_field i page ≡ image_field image i
  pub others :
      (a n : ℕ)
      → Beside (length image - code_offset image) a n
      → read_slice m' a n ≡ read_slice m a n

module _ (p : BootParams) (full : length p ≡ page_size) where
  length-loader_fields : length (loader_fields p) ≡ page_size
  unfolding loader_fields
  length-loader_fields =
      length-set_field loadflags _ (set_field type_of_loader 0xFF p)
      ∙ length-set_field type_of_loader 0xFF p
      ∙ full

  fields_kept :
      (i : ℕ) → i ≢ type_of_loader → i ≢ loadflags → get_field i (loader_fields p) ≡ get_field i p
  unfolding loader_fields
  fields_kept i a b =
      get_field-set_field_ne loadflags i _ (set_field type_of_loader 0xFF p) (λ e. b (sym e))
      ∙ get_field-set_field_ne type_of_loader i 0xFF p (λ e. a (sym e))

  loader_set : get_field type_of_loader (loader_fields p) ≡ 0xFF
  unfolding loader_fields
  loader_set =
      get_field-set_field_ne loadflags type_of_loader _ (set_field type_of_loader 0xFF p)
        (omega arith)
      ∙ get_field-set_field_self type_of_loader 0xFF p full (omega arith)

  flags_set :
      get_field loadflags p < 256
      → get_field loadflags (loader_fields p) ≡ get_field loadflags p / 2 * 2 + 1
  unfolding loader_fields
  flags_set byte =
      let q = set_field type_of_loader 0xFF p in
      let kept : get_field loadflags q ≡ get_field loadflags p =
        get_field-set_field_ne type_of_loader loadflags 0xFF p (omega arith) in
      let value : bit_or (get_field loadflags q) 1 ≡ get_field loadflags p / 2 * 2 + 1 =
        rw kept (flag_one (get_field loadflags p) byte) in
      get_field-set_field_self loadflags (bit_or (get_field loadflags q) 1) q
        (length-set_field type_of_loader 0xFF p ∙ full) (omega (arith, value))
      ∙ value

Beside-page :
    (code a n size : ℕ)
    → size ≡ page_size
    → Beside code a n
    → (a + n ≤ zero_page_addr) ⊎ (zero_page_addr + size ≤ a)
Beside-page code a n size e (inl h) = inl h
Beside-page code a n size e (inr (inl h)) = inr (omega (arith, h.0))
Beside-page code a n size e (inr (inr h)) = inr (omega arith)

Beside-code :
    (code a n size : ℕ)
    → size ≡ code
    → Beside code a n
    → (a + n ≤ kernel_load_addr) ⊎ (kernel_load_addr + size ≤ a)
Beside-code code a n size e (inl h) = inl (omega arith)
Beside-code code a n size e (inr (inl h)) = inl h.1
Beside-code code a n size e (inr (inr h)) = inr (omega arith)

module _ (image : List ℕ) (b : BzImage) (m m1 : Memory) (v : Parsed image b)
    (code : write_slice m kernel_load_addr b.kernel_code ≡ ok m1) where
  length-code : length b.kernel_code ≡ length image - setup_size image
  length-code = ap length v.code ∙ length-drop (setup_size image) image

  loaded :
      (m2 : Memory)
      → get_field loadflags b.boot_params < 256
      → length b.boot_params ≡ page_size
      → write_slice m1 zero_page_addr (loader_fields b.boot_params) ≡ ok m2
      → Loaded image m m2 (loader_fields b.boot_params)
  unfolding get_field offset
  loaded m2 byte full page =
      let size : length (loader_fields b.boot_params) ≡ page_size =
        length-loader_fields b.boot_params full in
      let field : (i : ℕ) → get_field i b.boot_params ≡ image_field image i =
        λ i. ap (get_field i) v.params ∙ copied_field image i v.complete in
      let at = setup_size-code_offset image in
      let code_read : read_slice m1 kernel_load_addr (length image - setup_size image)
          ≡ ok (drop (setup_size image) image) =
        rw (length-code, v.code) at
          (read_slice-write_slice_self m kernel_load_addr b.kernel_code m1 code) in
      record {
        code_there =
            ap (λ k. read_slice m2 kernel_load_addr (length image - k)) (sym at)
            ∙ read_slice-write_slice_ne m1 zero_page_addr (loader_fields b.boot_params) m2
                kernel_load_addr _ page (inr (omega (arith, size)))
            ∙ code_read
            ∙ ap (λ k. ok (drop k image)) at;
        page_there = rw size at (read_slice-write_slice_self m1 zero_page_addr _ m2 page);
        loader_there = loader_set b.boot_params full;
        flags_there = flags_set b.boot_params full byte ∙ ap (λ x. x / 2 * 2 + 1) (field loadflags);
        fields_there = λ i ne ne'. fields_kept b.boot_params full i ne ne' ∙ field i;
        others = λ a n apart.
            read_slice-write_slice_ne m1 zero_page_addr (loader_fields b.boot_params) m2 a n page
              (Beside-page _ a n _ size apart)
            ∙ read_slice-write_slice_ne m kernel_load_addr b.kernel_code m1 a n code
                (Beside-code _ a n _ (length-code ∙ ap (λ k. length image - k) at) apart);
      }

-- Once a bzImage is parsed and loaded, guest memory holds at 1 MiB all that the file has behind its boot
-- sector and setup sectors (zero of these stand for four), and at 0x7000 a page whose setup header has each
-- field of the file's but two: the loader's type is 0xFF, and of the load flags the lowest is set. What lies
-- apart from these two ranges is as before. The flag byte of the file is below 256.
pub load_into_memory-Loaded :
    (image : List ℕ) (b b' : BzImage) (m m' : Memory)
    → parse image ≡ ok b
    → load_into_memory b m ≡ ok (b', m')
    → image_field image loadflags < 256
    → Loaded image m m' b'.boot_params
unfolding load_into_memory
load_into_memory-Loaded image b b' m m' parsed done byte =
    let v = parse-Parsed image b parsed in
    let (m1, code, h1) = >>=-eq-ok _ _ done in
    let (m2, page, h2) = >>=-eq-ok _ _ h1 in
    let full : length b.boot_params ≡ page_size =
      ap length v.params ∙ length-copy _ empty_params ∙ length-empty_params in
    let flag : get_field loadflags b.boot_params < 256 =
      rw (ap (get_field loadflags) v.params ∙ copied_field image loadflags v.complete) byte in
    let there =
      loaded image b m m1 v (map_err-eq-ok _ _ code) m2 flag full (map_err-eq-ok _ _ page) in
    let built = ok-injective h2 in
    rw
      (
        ← ap (λ (x : BzImage × Memory). x.0.boot_params) built,
        ← ap (λ (x : BzImage × Memory). x.1) built,
      )
      there
