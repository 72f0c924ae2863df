-- ===== src/Virtio/Net/Receive.antt =====
-- The length that the receive loop reports to the guest for a frame.
use nova_vm.Common.{
  ℕ, ◌+◌, ◌-◌, ◌≤◌, ◌≡◌, ◌∙◌, inl, inr, List, [], ◌∷◌, length, arith, min, slice, leb, Bool-cases,
  leb→le,
}
use nova_vm.Mem.Memory.{Memory, write_slice}
use nova_vm.Virtio.Queue.{VirtqDesc}
use nova_vm.Virtio.Net.{or_same, scatter}

abbrev pub total_len : List VirtqDesc → ℕ
total_len [] = 0
total_len (d ∷ ds) = d.len + total_len ds

-- The length that `process_rx` reports for a chain is that of the payload, or of all the writable
-- descriptors where these are shorter: a frame that does not fit is cut off.
pub scatter_count :
    (mem : Memory) (payload : List ℕ) (written : ℕ) (ds : List VirtqDesc)
    → written ≤ length payload
    → (scatter mem payload written ds).1 ≡ min (length payload) (written + total_len ds)
unfolding scatter
scatter_count mem payload written [] h = omega arith
scatter_count mem payload written (d ∷ ds) h =
    let n = min d.len (length payload - written) in
    let mem' = or_same mem (write_slice mem d.addr (slice payload written n)) in
    let ih = scatter_count mem' payload (written + n) ds (omega arith) in
    elim (Bool-cases (leb (length payload) written)) [
      | inl e ↦ rw e (omega (arith, leb→le (length payload) written e))
      | inr e ↦ rw e (ih ∙ ground arith)
    ]
