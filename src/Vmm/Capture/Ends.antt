-- ===== src/Vmm/Capture/Ends.antt =====
-- When a capture loop ends.
use nova_vm.Common.{
  ◌≡◌, refl, Bool, true, false, ◌&&◌, ◌||◌, none, List, [], ◌∷◌, ok, err, leb, length, arith,
  Bool-cases, Option-cases, Result-cases, inl, inr,
}
use nova_vm.Virtio.Trait.{VirtioDevice}
use nova_vm.Vmm.Capture.{
  VmExit, Machine, Turn, CaptureConfig, Run, going, returned, failed, on_exit, capture,
}
use nova_vm.Vmm.Capture.Output.{final, final-on_exit}
use nova_vm.Vmm.Capture.Loop.{
  counted, capture-full, capture-stopped, capture-failed, capture-ended, capture-continued,
}

-- The turn ends the loop, whatever the loop has done before.
unfoldable pub ends : CaptureConfig → Turn → Bool
ends c t =
    (c.interactive && t.stop_before)
    || (elim t.exit [ err e ↦ true | ok x ↦ final c t.stop_after t.elapsed x ])

unfoldable pub any_ends : CaptureConfig → List Turn → Bool
any_ends c [] = false
any_ends c (t ∷ ts) = ends c t || any_ends c ts

module _ {D : Type 0} ⦃dev : VirtioDevice D⦄ where
  not_ending :
      (c : CaptureConfig) (m : Machine D) (t : Turn) (x : VmExit)
      → t.exit ≡ ok x
      → (c.interactive && t.stop_before) ≡ false
      → (on_exit c t.stop_after t.elapsed (counted m t.input) x).1 ≡ none
      → ends c t ≡ false
  unfolding ends
  not_ending c m t x ran goes on =
      let f = (final-on_exit c t.stop_after t.elapsed (counted m t.input) x).0 on in ground arith

  abbrev pub is_going : Run D → Bool
  is_going (going m) = true
  is_going (returned m r) = false
  is_going (failed m e) = false

  -- A loop ends at the latest with the first turn in which `run` fails or reports a shutdown or an error,
  -- the shutdown flag is set in the interactive loop, or an interruption finds the time up.
  pub capture_ends :
      (c : CaptureConfig) (m : Machine D) (ts : List Turn)
      → any_ends c ts ≡ true
      → is_going (capture c m ts) ≡ false
  unfolding any_ends
  capture_ends c m [] h = absurd (ground arith)
  capture_ends c m (t ∷ ts) h = elim (Bool-cases (leb c.max_output (length m.output))) [
    | inl full ↦ rw (capture-full c m t ts full) refl
    | inr more ↦ elim (Bool-cases (c.interactive && t.stop_before)) [
      | inl stops ↦ rw (capture-stopped c m t ts more stops) refl
      | inr goes ↦ elim (Result-cases t.exit) [
        | inl (x, ran) ↦
            elim (Option-cases (on_exit c t.stop_after t.elapsed (counted m t.input) x).1) [
              | inl on ↦ rw (capture-continued c m t ts more goes x ran on) (
                  capture_ends c (on_exit c t.stop_after t.elapsed (counted m t.input) x).0 ts
                    (ground (arith, not_ending c m t x ran goes on)))
              | inr (r, ended) ↦ rw (capture-ended c m t ts more goes x r ran ended) refl
            ]
        | inr (e, failure) ↦ rw (capture-failed c m t ts more goes e failure) refl
      ]
    ]
  ]
