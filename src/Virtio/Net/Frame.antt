-- ===== src/Virtio/Net/Frame.antt =====
-- The frame that is sent for a chain, against the bytes that the guest has put into it.
use native.Mathlib.Decide.{dec_lt}
use nova_vm.Common.{
  ℕ, zero, suc, ◌+◌, ◌-◌, ◌≤◌, ◌<◌, ◌≡◌, refl, ap, ◌∙◌, List, [], ◌∷◌, ◌++◌, ok, length, arith,
  drop, length-slice,
}
use nova_vm.Mem.Address.{add, u64_mod}
use nova_vm.Mem.Memory.{Memory, read_slice}
use nova_vm.Mem.Layout.{Ascending}
use nova_vm.Mem.Access.{read_slice-ok}
use nova_vm.Mem.Contiguous.{read_slice-drop}
use nova_vm.Virtio.Queue.{VirtqDesc}
use nova_vm.Virtio.Net.{gather}

-- Every descriptor names memory that can be read, and none wraps round the address space; `bs` is
-- all their bytes, in order.
pub data Holds (mem : Memory) : List VirtqDesc → List ℕ → Type 0 where
  none_left : Holds mem [] []
  some_bytes :
      (d : VirtqDesc) (ds : List VirtqDesc) (bs rest : List ℕ)
      → read_slice mem d.addr d.len ≡ ok bs
      → d.addr + d.len < u64_mod
      → Holds mem ds rest
      → Holds mem (d ∷ ds) (bs ++ rest)

length-read_slice :
    (mem : Memory) (a n : ℕ) (bs : List ℕ) → read_slice mem a n ≡ ok bs → length bs ≡ n
length-read_slice mem a n bs h =
    let (i, o, r, v, e) = read_slice-ok mem a n bs h in
    ap length e ∙ length-slice r.mmap.bytes o n v.room

drop-append_short :
    (bs rest : List ℕ) (s : ℕ) → length bs ≤ s → drop s (bs ++ rest) ≡ drop (s - length bs) rest
drop-append_short [] rest s h = ap (λ k. drop k rest) (omega arith)
drop-append_short (b ∷ bs) rest zero h = absurd (omega arith)
drop-append_short (b ∷ bs) rest (suc s) h =
    drop-append_short bs rest s (omega arith) ∙ ap (λ k. drop k rest) (omega arith)

drop-append_long :
    (bs rest : List ℕ) (s : ℕ) → s < length bs → drop s (bs ++ rest) ≡ drop s bs ++ rest
drop-append_long bs rest zero h = refl
drop-append_long [] rest (suc s) h = absurd (omega arith)
drop-append_long (b ∷ bs) rest (suc s) h = drop-append_long bs rest s (omega arith)

-- A descriptor read from `skip` on gives its bytes from there on.
read_from :
    (mem : Memory) (d : VirtqDesc) (skip : ℕ) (bs : List ℕ)
    → Ascending 0 mem
    → read_slice mem d.addr d.len ≡ ok bs
    → d.addr + d.len < u64_mod
    → skip < d.len
    → read_slice mem (add d.addr skip) (d.len - skip) ≡ ok (drop skip bs)
read_from mem d skip bs asc r fits lt =
    let no_wrap : add d.addr skip ≡ d.addr + skip = omega arith in
    rw no_wrap (read_slice-drop mem d.addr d.len skip bs asc r lt)

-- The frame is all the bytes of the readable descriptors but the first `skip`, the header.
pub gather-drop :
    (mem : Memory) (skip : ℕ) (ds : List VirtqDesc) (bs : List ℕ)
    → Ascending 0 mem
    → Holds mem ds bs
    → gather mem skip ds ≡ drop skip bs
unfolding gather
gather-drop mem zero ds bs asc none_left = refl
gather-drop mem (suc skip) ds bs asc none_left = refl
gather-drop mem skip ds bs asc (some_bytes d rest xs ys r fits h) =
    let len = length-read_slice mem d.addr d.len xs r in
    elim (dec_lt skip d.len) [
      | yes lt ↦ ground (
        arith,
        read_from mem d skip xs asc r fits lt,
        gather-drop mem 0 rest ys asc h,
        drop-append_long xs ys skip,
      )
      | no ge ↦
          ground (arith, gather-drop mem (skip - d.len) rest ys asc h, drop-append_short xs ys skip)
    ]
