-- ===== src/Boot/Cpio/Archive.antt =====
-- The archives that crates/nova-boot/src/initrd.rs makes, read as the kernel reads an initrd: entry by
-- entry to the end of the buffer, since archives may follow one another.
use mathlib.Core.List.{append_assoc}
use nova_vm.Common.{
  ℕ, suc, ◌+◌, ◌<◌, ◌≡◌, refl, ◌∙◌, List, [], ◌∷◌, ◌++◌, some, length, take, replicate,
  length-replicate, length-append, arith,
}
use nova_vm.Boot.Cpio.{
  newc_header, padding, cpio_entry, padded_name_entry, trailer_name, agent_name, inject_file,
  inject_agent, TreeEntry, entries_to_cpio, u32_mod,
}
use nova_vm.Boot.Cpio.Newc.{
  NewcEntry, to_aligned, next, c_string, read_body, read_newc, next-append, read_newc-newc_header,
}

-- A text without zero bytes.
abbrev pub NulFree : List ℕ → Type 0
NulFree [] = Unit {0}
NulFree (b ∷ bs) = (0 < b) × NulFree bs

c_string_lem : (name : List ℕ) → NulFree name → c_string (name ++ (0 ∷ [])) ≡ name
unfolding c_string
c_string_lem [] h = refl
c_string_lem (b ∷ bs) h = ground (arith, h.0, c_string_lem bs h.1)

abbrev pub entry : List ℕ → ℕ → List ℕ → ℕ → NewcEntry
entry name mode content ino = record { ino = ino; mode = mode; name = name; content = content }

-- The writers pad up to the place where the reader goes on.
padding-to_aligned : (n : ℕ) → padding n ≡ to_aligned n
padding-to_aligned n = omega arith

next-padding :
    (n : ℕ) (bs : List ℕ)
    → next (to_aligned n) (replicate (padding n) 0 ++ bs) ≡ some (replicate (padding n) 0, bs)
next-padding n bs =
    next-append (replicate (padding n) 0) bs (to_aligned n)
      (length-replicate (padding n) 0 ∙ padding-to_aligned n)

-- What stands behind the header of a written entry, and then `rest`.
written_body : List ℕ → List ℕ → List ℕ → List ℕ
written_body name content rest =
    (name ++ (0 ∷ []))
    ++ (replicate (padding (110 + (length name + 1))) 0
        ++ (content ++ (replicate (padding (length content)) 0 ++ rest)))

cpio_entry-body :
    (name : List ℕ) (mode : ℕ) (content : List ℕ) (ino : ℕ) (rest : List ℕ)
    → cpio_entry name mode content ino ++ rest
      ≡ newc_header ino mode (length content) (length name + 1) ++ written_body name content rest
unfolding cpio_entry written_body
cpio_entry-body name mode content ino rest = simp append_assoc

read_body-written_body :
    (name : List ℕ) (mode : ℕ) (content : List ℕ) (ino : ℕ) (rest : List ℕ)
    → NulFree name
    → read_body ino mode (length content) (length name + 1) (written_body name content rest)
      ≡ some (entry name mode content ino, rest)
unfolding read_body written_body
read_body-written_body name mode content ino rest free =
    let size = length content in
    let behind = replicate (padding size) 0 ++ rest in
    let pad = 110 + (length name + 1) in
    let tail = replicate (padding pad) 0 ++ (content ++ behind) in
    rw (next-append (name ++ (0 ∷ [])) tail (length name + 1) (length-append name (0 ∷ []))) (
      rw (next-padding pad (content ++ behind)) (
        rw (next-append content behind size refl)
          (rw (next-padding size rest) (rw (c_string_lem name free)))))

-- What one written entry is to the reader, whatever follows it.
pub read_newc-cpio_entry :
    (name : List ℕ) (mode : ℕ) (content : List ℕ) (ino : ℕ) (rest : List ℕ)
    → NulFree name
    → ino < u32_mod
    → mode < u32_mod
    → length content < u32_mod
    → length name + 1 < u32_mod
    → read_newc (cpio_entry name mode content ino ++ rest)
      ≡ some (entry name mode content ino, rest)
read_newc-cpio_entry name mode content ino rest free a b c d =
    rw (cpio_entry-body name mode content ino rest) (
      read_newc-newc_header ino mode (length content) (length name + 1)
        (written_body name content rest) a b c d
      ∙ read_body-written_body name mode content ino rest free)

-- The reader takes these entries off the front, one after the other, and this is left.
pub data Reads (left : List ℕ) : List ℕ → List NewcEntry → Type 0 where
  done : Reads left left []
  take_one :
      {bs rest : List ℕ} {e : NewcEntry} {es : List NewcEntry}
      → read_newc bs ≡ some (e, rest)
      → Reads left rest es
      → Reads left bs (e ∷ es)

-- The whole archive is read as these entries, wherever it stands.
abbrev pub IsArchive : List ℕ → List NewcEntry → Type 0
IsArchive cpio es = (more : List ℕ) → Reads more (cpio ++ more) es

Reads-append :
    {left mid bs : List ℕ} {es fs : List NewcEntry}
    → Reads mid bs es
    → Reads left mid fs
    → Reads left bs (es ++ fs)
Reads-append done s = s
Reads-append (take_one e r) s = take_one e (Reads-append r s)

IsArchive-append :
    (a b : List ℕ) (es fs : List NewcEntry)
    → IsArchive a es
    → IsArchive b fs
    → IsArchive (a ++ b) (es ++ fs)
IsArchive-append a b es fs p q more =
    rw (append_assoc a b more) (Reads-append (p (b ++ more)) (q more))

-- An entry that fits the header's fields of eight digits.
pub record Fits (name : List ℕ) (mode : ℕ) (content : List ℕ) (ino : ℕ) : Type 0 where
  pub free : NulFree name
  pub ino_fits : ino < u32_mod
  pub mode_fits : mode < u32_mod
  pub content_fits : length content < u32_mod
  pub name_fits : length name + 1 < u32_mod

cpio_entry-IsArchive :
    (name : List ℕ) (mode : ℕ) (content : List ℕ) (ino : ℕ)
    → Fits name mode content ino
    → IsArchive (cpio_entry name mode content ino) (entry name mode content ino ∷ [])
cpio_entry-IsArchive name mode content ino f more =
    take_one
      (read_newc-cpio_entry name mode content ino more f.free f.ino_fits f.mode_fits f.content_fits
        f.name_fits)
      done

abbrev pub trailer : NewcEntry
trailer = entry trailer_name 0 [] 0

trailer-IsArchive : IsArchive (cpio_entry trailer_name 0 [] 0) (trailer ∷ [])
trailer-IsArchive = cpio_entry-IsArchive trailer_name 0 [] 0 (record {
  free = omega arith;
  ino_fits = omega arith;
  mode_fits = omega arith;
  content_fits = omega arith;
  name_fits = omega arith;
})

-- A file injected into an archive is read behind what was there, under its path, with its mode and
-- content, and then the trailer.
pub inject_file-IsArchive :
    (cpio path content : List ℕ) (mode : ℕ) (es : List NewcEntry)
    → IsArchive cpio es
    → Fits path mode content 1
    → IsArchive
        (inject_file cpio path content mode)
        (es ++ (entry path mode content 1 ∷ trailer ∷ []))
unfolding inject_file
inject_file-IsArchive cpio path content mode es p f =
    let file = cpio_entry path mode content 1 in
    rw (append_assoc cpio file (cpio_entry trailer_name 0 [] 0)) (
      IsArchive-append cpio _ es _ p (
        IsArchive-append file _ _ _ (cpio_entry-IsArchive path mode content 1 f) trailer-IsArchive))

-- The entries of a tree, with inode numbers from `ino` on.
abbrev pub numbered : List TreeEntry → ℕ → List NewcEntry
numbered [] ino = []
numbered (t ∷ ts) ino = entry t.path t.mode t.content ino ∷ numbered ts (suc ino)

abbrev pub AllFit : List TreeEntry → ℕ → Type 0
AllFit [] ino = Unit {0}
AllFit (t ∷ ts) ino = Fits t.path t.mode t.content ino × AllFit ts (suc ino)

-- The archive of a tree is read as its entries, in their order, each under an inode number of its own,
-- and then the trailer, by a reader that takes the sizes from the headers and goes on at multiples of four.
-- Names have no zero byte, and the numbers fit the header's fields.
pub entries_to_cpio-IsArchive :
    (ts : List TreeEntry) (ino : ℕ)
    → AllFit ts ino
    → IsArchive (entries_to_cpio ts ino) (numbered ts ino ++ (trailer ∷ []))
unfolding entries_to_cpio
entries_to_cpio-IsArchive [] ino f = trailer-IsArchive
entries_to_cpio-IsArchive (t ∷ ts) ino f =
    IsArchive-append (cpio_entry t.path t.mode t.content ino) _
      (entry t.path t.mode t.content ino ∷ []) _
      (cpio_entry-IsArchive t.path t.mode t.content ino f.0)
      (entries_to_cpio-IsArchive ts (suc ino) f.1)

-- The first entry of `inject_agent`: the name field holds the padding and the name's front, and what is
-- left of the name is taken for padding.
agent_body :
    (agent rest : List ℕ)
    → read_body 0 0o100755 (length agent) 16 (
        replicate 2 0
        ++ (agent_name ++ (0 ∷ (agent ++ (replicate (padding (length agent)) 0 ++ rest)))))
      ≡ some (entry [] 0o100755 agent 0, rest)
unfolding read_body c_string
agent_body agent rest =
    let size = length agent in
    let behind = replicate (padding size) 0 ++ rest in
    let name_end : List ℕ = b't' ∷ 0 ∷ [] in
    rw (next-append (replicate 2 0 ++ take 14 agent_name) (name_end ++ (agent ++ behind)) 16 refl) (
      rw (next-append name_end (agent ++ behind) 2 refl)
        (rw (next-append agent behind size refl) (rw (next-padding size rest))))

trailer_body :
    (rest : List ℕ)
    → read_body 0 0 0 11 (replicate 3 0 ++ (trailer_name ++ (0 ∷ rest)))
      ≡ some (entry [] 0 [] 0, rest)
unfolding read_body c_string
trailer_body rest =
    let name_end : List ℕ = b'!' ∷ b'!' ∷ 0 ∷ [] in
    rw (next-append (replicate 3 0 ++ take 8 trailer_name) (name_end ++ rest) 11 refl) (
      rw (next-append name_end rest 3 refl)
        (rw (next-append [] rest 0 refl) (rw (next-append [] rest 0 refl))))

read_agent :
    (agent rest : List ℕ)
    → length agent < u32_mod
    → read_newc (
        padded_name_entry agent_name 0o100755 agent
        ++ (replicate (padding (length agent)) 0 ++ rest))
      ≡ some (entry [] 0o100755 agent 0, rest)
unfolding padded_name_entry
read_agent agent rest h =
    let size = length agent in
    let behind = replicate (padding size) 0 ++ rest in
    simp append_assoc (
      read_newc-newc_header 0 0o100755 size 16 _ (omega arith) (omega arith) h (omega arith)
      ∙ agent_body agent rest)

read_trailer :
    (rest : List ℕ)
    → read_newc (padded_name_entry trailer_name 0 [] ++ rest) ≡ some (entry [] 0 [] 0, rest)
unfolding padded_name_entry
read_trailer rest = simp append_assoc (
    read_newc-newc_header 0 0 0 11 _ (omega arith) (omega arith) (omega arith) (omega arith)
    ∙ trailer_body rest)

-- Whatever agent `inject_agent` is given, neither of its entries has a name for the reader, since the
-- padding stands in front of the name: the agent's bytes are found, but not under `sbin/nova-agent`,
-- there is no trailer, and one zero byte is left over.
pub inject_agent_nameless :
    (initrd agent : List ℕ) (es : List NewcEntry) (more : List ℕ)
    → IsArchive initrd es
    → length agent < u32_mod
    → Reads
        (0 ∷ more)
        (inject_agent initrd agent ++ more)
        (es ++ (entry [] 0o100755 agent 0 ∷ entry [] 0 [] 0 ∷ []))
unfolding inject_agent
inject_agent_nameless initrd agent es more p h =
    let pad = replicate (padding (length agent)) 0 in
    let last = padded_name_entry trailer_name 0 [] ++ (0 ∷ more) in
    simp append_assoc (
      Reads-append (p (padded_name_entry agent_name 0o100755 agent ++ (pad ++ last)))
        (take_one (read_agent agent last h) (take_one (read_trailer (0 ∷ more)) done)))
