-- ===== src/Vmm/Bus/Dispatch.antt =====
-- Which device an access of the bus reaches, and what narrow reads return.
use nova_vm.Common.{
  ℕ, zero, suc, ◌+◌, ◌-◌, ◌*◌, ◌/◌, ◌%◌, ◌^◌, ◌<◌, ◌≡◌, refl, Bool, true, false, ◌||◌, Option, some,
  List, [], ◌∷◌, ◌++◌, arith, get_elem?,
}
use nova_vm.Common.Bytes.{to_le}
use nova_vm.Mem.Address.{GuestAddress}
use nova_vm.Mem.Memory.{Memory}
use nova_vm.Virtio.Trait.{VirtioDevice}
use nova_vm.Virtio.Mmio
use nova_vm.Virtio.Mmio.{Transport, u32_mod}
use nova_vm.Vmm.Bus.{
  MmioDevice, MmioBus, contains, is_width, read_device, read_from, read, write_to, write, aligned,
}

-- Some device has the address
unfoldable pub any_contains : {D : Type 0} → List (MmioDevice D) → GuestAddress → Bool
any_contains [] a = false
any_contains (d ∷ ds) a = contains d a || any_contains ds a

word_byte : (w i : ℕ) → i < 4 → some (w / 2 ^ (8 * i) % 2 ^ 8) ≡ get_elem? (to_le 4 w) i
word_byte w zero h = ground arith
word_byte w (suc zero) h = ground arith
word_byte w (suc (suc zero)) h = ground arith
word_byte w (suc (suc (suc zero))) h = ground arith
word_byte w (suc (suc (suc (suc i)))) h = absurd (omega arith)

module _ {D : Type 0} ⦃dev : VirtioDevice D⦄ where
  read_from-skip :
      (before : List (MmioDevice D)) (ds : List (MmioDevice D)) (a : GuestAddress) (size : ℕ)
      → any_contains before a ≡ false
      → read_from (before ++ ds) a size ≡ read_from ds a size
  unfolding read_from any_contains
  read_from-skip [] ds a size h = refl
  read_from-skip (d ∷ before) ds a size h =
      ground (arith, read_from-skip before ds a size (ground arith))

  write_to-skip :
      (before : List (MmioDevice D)) (ds : List (MmioDevice D)) (mem : Memory) (a : GuestAddress)
      (size value : ℕ)
      → any_contains before a ≡ false
      → write_to (before ++ ds) mem a size value ≡ (
        before ++ (write_to ds mem a size value).0,
        (write_to ds mem a size value).1,
        (write_to ds mem a size value).2,
      )
  unfolding write_to any_contains
  write_to-skip [] ds mem a size value h = refl
  write_to-skip (d ∷ before) ds mem a size value h =
      ground (arith, write_to-skip before ds mem a size value (ground arith))

  read_from-here :
      (after : List (MmioDevice D)) (d : MmioDevice D) (a : GuestAddress) (size : ℕ)
      → contains d a ≡ true
      → is_width size ≡ true
      → read_from (d ∷ after) a size ≡ read_device d.transport (a - d.base) size
  unfolding read_from read_device is_width
  read_from-here after d a size here width = ground arith

  write_to-here :
      (after : List (MmioDevice D)) (d : MmioDevice D) (mem : Memory) (a : GuestAddress)
      (size value : ℕ)
      → contains d a ≡ true
      → is_width size ≡ true
      → let (t, mem') = Mmio.write d.transport mem (a - d.base) value in
        write_to (d ∷ after) mem a size value ≡ (record d { transport = t } ∷ after, mem', true)
  unfolding write_to
  write_to-here after d mem a size value here width = rw (here, width) refl

  -- An access of a width that is served reaches the first registered device that has the address, at
  -- the address's offset in it, and no other; a write leaves every other device as it was.
  pub access-first :
      (before after : List (MmioDevice D)) (d : MmioDevice D) (fd : Option ℕ) (mem : Memory)
      (a : GuestAddress) (size value : ℕ)
      → any_contains before a ≡ false
      → contains d a ≡ true
      → is_width size ≡ true
      → let bus : MmioBus D = record { devices = before ++ (d ∷ after); vm_fd = fd } in
        let (t, mem') = Mmio.write d.transport mem (a - d.base) value in
        (read bus a size ≡ read_device d.transport (a - d.base) size)
        × (write bus mem a size value ≡ (
          record { devices = before ++ (record d { transport = t } ∷ after); vm_fd = fd },
          mem',
          true,
        ))
  unfolding read write
  access-first before after d fd mem a size value skip here width =
      let w = write_to-skip before (d ∷ after) mem a size value skip in
      let r = read_from-skip before (d ∷ after) a size skip in
      (
        rw r (read_from-here after d a size here width),
        rw w (rw (write_to-here after d mem a size value here width) refl),
      )

  -- Byte reads in an aligned word of a device return the four bytes of what a word read returns, least
  -- significant first.
  pub byte_reads :
      (d : MmioDevice D) (offset i : ℕ)
      → offset % 4 ≡ 0
      → i < 4
      → read_device d.transport (offset + i) 1
        ≡ get_elem? (to_le 4 (Mmio.read d.transport offset)) i
  unfolding read_device
  byte_reads d offset i h l =
      let place : aligned (offset + i) ≡ offset = omega arith in
      let rest : (offset + i) % 4 ≡ i = omega arith in
      rw (place, rest) (word_byte (Mmio.read d.transport offset) i l)
