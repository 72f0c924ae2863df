-- ===== src/Mem/Address.antt =====
-- crates/nova-mem/src/guest_address.rs. A `GuestAddress` is a `u64`: a number below 2 ^ 64.
use nova_vm.Common.{ℕ, ◌+◌, ◌-◌, ◌%◌, ◌^◌, ◌<◌, ◌≡◌, Option, none, some, ltb, if◌then◌else◌, arith}

abbrev pub GuestAddress : Type 0
GuestAddress = ℕ

abbrev pub u64_mod : ℕ
u64_mod = 2 ^ 64

-- `None` on overflow.
unfoldable pub checked_add : GuestAddress → ℕ → Option GuestAddress
checked_add a offset = if ltb (a + offset) u64_mod then some (a + offset) else none

-- `None` on underflow.
unfoldable pub checked_sub : GuestAddress → GuestAddress → Option ℕ
checked_sub a other = if ltb a other then none else some (a - other)

unfoldable pub offset_from : GuestAddress → GuestAddress → Option ℕ
unfolding checked_sub
offset_from a base = checked_sub a base

-- `impl Add<u64>`: the `+` of `u64`, which wraps in a release build.
abbrev pub add : GuestAddress → ℕ → GuestAddress
add a rhs = (a + rhs) % u64_mod

-- `checked_add` gives an address exactly when the sum fits, `offset_from` takes the offset off
-- again, and then `+` does not wrap.
pub checked_add-offset_from :
    (a offset b : ℕ)
    → checked_add a offset ≡ some b
    → (b < u64_mod) × (offset_from b a ≡ some offset) × (add a offset ≡ b)
unfolding checked_add offset_from
checked_add-offset_from a offset b h = ground arith
