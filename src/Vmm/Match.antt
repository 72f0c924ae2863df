-- ===== src/Vmm/Match.antt =====
-- `run_vcpu_until_match` of crates/nova-vmm/src/exit_handler.rs: the loop that waits for a text in the
-- serial output. It treats an exit like the capture loop that is not interactive.
pub mod Found
use nova_vm.Common.{
  ℕ, ◌+◌, ◌-◌, Bool, true, false, ◌&&◌, ◌||◌, Option, none, some, List, [], ◌∷◌, ok, err, ◌==◌, leb,
  length, drop,
}
use nova_vm.Virtio.Trait.{VirtioDevice}
use nova_vm.Vmm.Capture.{
  VmExit, CaptureStopReason, Machine, Turn, CaptureConfig, Run, going, failed, count, poll, on_exit,
  stop,
}

-- `w == target_bytes` for the window at the start of the bytes
unfoldable pub starts : List ℕ → List ℕ → Bool
starts [] ys = true
starts (x ∷ xs) [] = false
starts (x ∷ xs) (y ∷ ys) = x == y && starts xs ys

-- `windows(target.len()).any(..)`, for a target that is not empty
unfoldable pub occurs : List ℕ → List ℕ → Bool
occurs target [] = false
occurs target (y ∷ ys) = starts target (y ∷ ys) || occurs target ys

-- The search in the end of the output
unfoldable pub found : List ℕ → List ℕ → Bool
found target output =
    leb (length target) (length output)
    && occurs target (drop (length output - (length target + 256)) output)

-- What `on_exit` takes of a loop that is not interactive: the time. The maximum is not looked at.
abbrev pub config : ℕ → CaptureConfig
config timeout = record { timeout = timeout; max_output = 0; interactive = false }

module _ {D : Type 0} ⦃dev : VirtioDevice D⦄ where
  abbrev pub before_exit : Machine D → Machine D
  before_exit m = record (poll m) {
    diag = record (poll m).diag { total_exits = count (poll m).diag.total_exits };
  }

  -- The loop, with a test of the output; of a turn it looks at what `run` returns and at the time.
  unfoldable pub match_loop : (List ℕ → Bool) → ℕ → Machine D → List Turn → Run D
  match_loop test timeout m [] = going m
  match_loop test timeout m (t ∷ ts) = elim (test m.output) [
    | true ↦ stop m t.elapsed CaptureStopReason.buffer_full
    | false ↦ elim t.exit [
      | err e ↦ failed (poll m) e
      | ok exit ↦
          let (m', reason) = on_exit (config timeout) false t.elapsed (before_exit m) exit in
          elim reason [ some r ↦ stop m' t.elapsed r | none ↦ match_loop test timeout m' ts ]
    ]
  ]

  -- `run_vcpu_until_match`; `windows` panics (`none`) at an empty target, in the first turn.
  unfoldable pub run_vcpu_until_match : ℕ → List ℕ → Machine D → List Turn → Option (Run D)
  run_vcpu_until_match timeout [] m [] = some (going m)
  run_vcpu_until_match timeout [] m (t ∷ ts) = none
  run_vcpu_until_match timeout (b ∷ bs) m ts = some (match_loop (found (b ∷ bs)) timeout m ts)
