-- ===== src/Boot/Cmdline/Parts.antt =====
-- What the kernel finds of the command line that crates/nova-boot/src/cmdline.rs writes.
use nova_vm.Common.{
  ℕ, ◌+◌, ◌≤◌, ◌<◌, ◌≡◌, ◌≢◌, refl, sym, ap, ◌∙◌, ◌⊎◌, inl, inr, List, [], ◌∷◌, ◌++◌, ok, err, leb,
  ◌==◌, if◌then◌else◌, length, arith, length-append, Bool-cases, Result-cases,
}
use nova_vm.Mem.Region.{MemError}
use nova_vm.Mem.Memory.{Memory, write_slice, read_slice}
use nova_vm.Mem.Access.{read_slice-write_slice_self, read_slice-write_slice_ne}
use nova_vm.Boot.Error.{cmdline_too_long, memory}
use nova_vm.Boot.Params.{BootParams, page_size, get_field, set_field, cmd_line_ptr, cmdline_size}
use nova_vm.Boot.Params.Fields.{get_field-set_field_self, get_field-set_field_ne, length-set_field}
use nova_vm.Boot.Cmdline.{CmdlineBuilder, build, write_to_memory, cmdline_addr, cmdline_max_size}

prepend : ℕ → List (List ℕ) → List (List ℕ)
prepend b [] = (b ∷ []) ∷ []
prepend b (w ∷ ws) = (b ∷ w) ∷ ws

-- The words of a command line, as the kernel splits it at spaces.
unfoldable pub words : List ℕ → List (List ℕ)
unfolding prepend
words [] = [] ∷ []
words (b ∷ bs) = let rest = words bs in if b == b' ' then [] ∷ rest else prepend b rest

abbrev SpaceFree : List ℕ → Type 0
SpaceFree [] = Unit {0}
SpaceFree (b ∷ bs) = (b ≢ b' ') × SpaceFree bs

abbrev pub AllSpaceFree : CmdlineBuilder → Type 0
AllSpaceFree [] = Unit {0}
AllSpaceFree (w ∷ ws) = SpaceFree w × AllSpaceFree ws

words_last : (w : List ℕ) → SpaceFree w → words w ≡ w ∷ []
unfolding words
words_last [] h = refl
words_last (b ∷ bs) h = ground (arith, h.0, words_last bs h.1)

words_more : (w rest : List ℕ) → SpaceFree w → words (w ++ (b' ' ∷ rest)) ≡ w ∷ words rest
unfolding words
words_more [] rest h = refl
words_more (b ∷ bs) rest h = ground (arith, h.0, words_more bs rest h.1)

words-build :
    (w : List ℕ) (ws : CmdlineBuilder) → AllSpaceFree (w ∷ ws) → words (build (w ∷ ws)) ≡ w ∷ ws
unfolding build
words-build w [] h = words_last w h.0
words-build w (v ∷ ws) h =
    words_more w (build (v ∷ ws)) h.0 ∙ ap (λ t. w ∷ t) (words-build v ws h.1)

-- What the kernel has of a command line once the zero page and the memory are as `write_to_memory` left
-- them: `text` ends with a zero byte, its words are the parts, and nothing else has changed.
pub record Written (parts : CmdlineBuilder) (m m' : Memory) (p p' : BootParams) : Type 0 where
  pub text : List ℕ
  pub at_pointer :
      read_slice m' (get_field cmd_line_ptr p') (get_field cmdline_size p' + 1)
      ≡ ok (text ++ (0 ∷ []))
  pub parted : words text ≡ parts
  pub other_fields : (i : ℕ) → i ≢ cmd_line_ptr → i ≢ cmdline_size → get_field i p' ≡ get_field i p
  pub other_memory :
      (b n : ℕ)
      → (b + n ≤ cmdline_addr) ⊎ (cmdline_addr + cmdline_max_size ≤ b)
      → read_slice m' b n ≡ read_slice m b n

fields_set :
    (size : ℕ) (p : BootParams)
    → length p ≡ page_size
    → size < cmdline_max_size
    → let p' = set_field cmdline_size size (set_field cmd_line_ptr cmdline_addr p) in
      (get_field cmd_line_ptr p' ≡ cmdline_addr)
      × (get_field cmdline_size p' ≡ size)
      × ((i : ℕ) → i ≢ cmd_line_ptr → i ≢ cmdline_size → get_field i p' ≡ get_field i p)
fields_set size p full lt =
    let q = set_field cmd_line_ptr cmdline_addr p in
    (
      get_field-set_field_ne cmdline_size cmd_line_ptr size q (omega arith)
          ∙ get_field-set_field_self cmd_line_ptr cmdline_addr p full (omega arith),
      get_field-set_field_self cmdline_size size q
          (length-set_field cmd_line_ptr cmdline_addr p ∙ full) (omega arith),
      λ i a b.
          get_field-set_field_ne cmdline_size i size q (λ e. b (sym e))
          ∙ get_field-set_field_ne cmd_line_ptr i cmdline_addr p (λ e. a (sym e)),
    )

written :
    (part : List ℕ) (parts : CmdlineBuilder) (m m' : Memory) (p : BootParams)
    → length p ≡ page_size
    → AllSpaceFree (part ∷ parts)
    → length (build (part ∷ parts)) < cmdline_max_size
    → write_slice m cmdline_addr (build (part ∷ parts) ++ (0 ∷ [])) ≡ ok m'
    → Written (part ∷ parts) m m' p (
        set_field cmdline_size
          (length (build (part ∷ parts)))
          (set_field cmd_line_ptr cmdline_addr p))
written part parts m m' p full free lt h =
    let text = build (part ∷ parts) in
    let size : length (text ++ (0 ∷ [])) ≡ length text + 1 = length-append text (0 ∷ []) in
    let (pointer, count, others) = fields_set (length text) p full lt in
    record {
      text = text;
      at_pointer =
          rw (pointer, count)
            (rw size at (read_slice-write_slice_self m cmdline_addr (text ++ (0 ∷ [])) m' h));
      parted = words-build part parts free;
      other_fields = others;
      other_memory = λ b n apart.
          read_slice-write_slice_ne m cmdline_addr (text ++ (0 ∷ [])) m' b n h
            (beyond b n (length (text ++ (0 ∷ []))) (omega (arith, size)) apart);
    }
  where
    beyond :
        (b n size : ℕ)
        → size ≤ cmdline_max_size
        → (b + n ≤ cmdline_addr) ⊎ (cmdline_addr + cmdline_max_size ≤ b)
        → (b + n ≤ cmdline_addr) ⊎ (cmdline_addr + size ≤ b)
    beyond b n size le (inl h) = inl h
    beyond b n size le (inr h) = inr (omega arith)

-- A command line of at least one part, none with a space, is too long, of 4096 bytes or more, and refused
-- for that; or guest memory refuses it, and its error is returned; or it is found through the zero
-- page's pointer and size, ends with a zero byte and falls into its parts at the spaces, and no other
-- field and no memory outside the 4096 bytes for it has changed.
pub write_to_memory-Written :
    (part : List ℕ) (parts : CmdlineBuilder) (m : Memory) (p : BootParams)
    → length p ≡ page_size
    → AllSpaceFree (part ∷ parts)
    → ((cmdline_max_size ≤ length (build (part ∷ parts)))
        × (write_to_memory (part ∷ parts) m p
            ≡ err (cmdline_too_long (length (build (part ∷ parts))) cmdline_max_size)))
      ⊎ (((e : MemError) × (write_slice m cmdline_addr (build (part ∷ parts) ++ (0 ∷ [])) ≡ err e)
            × (write_to_memory (part ∷ parts) m p ≡ err (memory e)))
          ⊎ ((m' : Memory) × (p' : BootParams) × (write_to_memory (part ∷ parts) m p ≡ ok (m', p'))
              × Written (part ∷ parts) m m' p p'))
unfolding write_to_memory
write_to_memory-Written part parts m p full free =
    let text = build (part ∷ parts) in
    elim (Bool-cases (leb cmdline_max_size (length text))) [
      | inl long ↦ inl (ground arith, rw long)
      | inr short ↦ elim (Result-cases (write_slice m cmdline_addr (text ++ (0 ∷ [])))) [
        | inl (m', h) ↦
            inr (inr (m', _, rw (short, h), written part parts m m' p full free (ground arith) h))
        | inr (e, h) ↦ inr (inl (e, h, rw (short, h)))
      ]
    ]
