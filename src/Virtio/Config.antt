-- ===== src/Virtio/Config.antt =====
-- What the devices of crates/nova-virtio/src share: reads of the config space from its bytes, and the
-- acknowledged features.
use Prim.Native.Nat.{bit_or}
use nova_vm.Common.{
  ℕ, zero, suc, ◌+◌, ◌*◌, ◌%◌, ◌^◌, ◌≤◌, ◌≡◌, refl, ap, ◌∙◌, List, [], ◌∷◌, arith, get_or, length,
  slice,
}

-- `acked_features |= (value as u64) << (page * 32)`, for pages 0 and 1
abbrev pub ack : ℕ → ℕ → ℕ → ℕ
ack acked page value = bit_or acked (value * 2 ^ (page * 32) % 2 ^ 64)

-- `*byte = config.get(offset + i).copied().unwrap_or(0)` for each of `n` bytes
unfoldable pub config_bytes : List ℕ → ℕ → ℕ → List ℕ
config_bytes config offset zero = []
config_bytes config offset (suc n) = get_or config offset 0 ∷ config_bytes config (offset + 1) n

config_bytes_tail :
    (x : ℕ) (config : List ℕ) (o n : ℕ)
    → config_bytes (x ∷ config) (suc o) n ≡ config_bytes config o n
unfolding config_bytes
config_bytes_tail x config o zero = refl
config_bytes_tail x config o (suc n) = ground (arith, config_bytes_tail x config (o + 1) n)

-- Inside the config space the bytes are those of the space; behind its end they are zeros.
pub config_bytes-eq-slice :
    (config : List ℕ) (o n : ℕ) → o + n ≤ length config → config_bytes config o n ≡ slice config o n
unfolding config_bytes
config_bytes-eq-slice config zero zero h = refl
config_bytes-eq-slice [] zero (suc n) h = absurd (omega arith)
config_bytes-eq-slice (x ∷ xs) zero (suc n) h =
    ap (λ t. x ∷ t) (config_bytes_tail x xs 0 n ∙ config_bytes-eq-slice xs zero n (omega arith))
config_bytes-eq-slice [] (suc o) n h = absurd (omega arith)
config_bytes-eq-slice (x ∷ xs) (suc o) n h =
    config_bytes_tail x xs o n ∙ config_bytes-eq-slice xs o n (omega arith)
