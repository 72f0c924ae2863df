-- ===== src/Vmm/Capture/Loop.antt =====
-- What a capture loop returns: the bytes that the guest has sent, no more than asked for, in time.
use mathlib.Core.List.{append-nil, append_assoc}
use nova_vm.Common.{
  ℕ, Bool, if◌then◌else◌, ◌+◌, ◌≤◌, ◌≡◌, refl, sym, ◌∙◌, ap, ap₂, true, false, ◌&&◌, none, some,
  List, [], ◌∷◌, ◌++◌, String, ok, err, leb, length, length-append, arith, Bool-cases, Option-cases,
  Result-cases, inl, inr,
}
use nova_vm.Virtio.Trait.{VirtioDevice}
use nova_vm.Vmm.Capture.Output.{
  sent, next_lcr, final, turns_done, transmitted, on_exit-output, final-on_exit, ready-output,
}
use nova_vm.Vmm.Capture.{
  VmExit, CaptureStopReason, Machine, Turn, CaptureConfig, Run, going, returned, failed, drain,
  poll, on_exit, capture, count, stop,
}

transmitted-ran :
    (lcr : ℕ) (t : Turn) (x : VmExit) (ts : List Turn)
    → t.exit ≡ ok x
    → transmitted lcr (t ∷ ts) ≡ sent lcr x ++ transmitted (next_lcr lcr x) ts
transmitted-ran lcr t x ts ran = rw ran refl

length-sent : (lcr : ℕ) (x : VmExit) → length (sent lcr x) ≤ 1
unfolding sent
length-sent lcr x = ground arith

-- The description of a turn that is done
turns_done-goes :
    (c : CaptureConfig) (n lcr : ℕ) (t : Turn) (ts : List Turn) (x : VmExit) (last : Bool)
    → leb c.max_output n ≡ false
    → (c.interactive && t.stop_before) ≡ false
    → t.exit ≡ ok x
    → final c t.stop_after t.elapsed x ≡ last
    → turns_done c n lcr (t ∷ ts)
      ≡ t ∷ (if last then [] else turns_done c (n + length (sent lcr x)) (next_lcr lcr x) ts)
turns_done-goes c n lcr t ts x last more goes ran e = ground arith

module _ {D : Type 0} ⦃dev : VirtioDevice D⦄ where
  abbrev pub counted : Machine D → List ℕ → Machine D
  counted m bytes = record (poll (drain m bytes)) {
    diag = record (poll (drain m bytes)).diag {
      total_exits = count (poll (drain m bytes)).diag.total_exits;
    };
  }

  -- The four ways of a turn
  pub capture-full :
      (c : CaptureConfig) (m : Machine D) (t : Turn) (ts : List Turn)
      → leb c.max_output (length m.output) ≡ true
      → capture c m (t ∷ ts) ≡ stop m t.elapsed CaptureStopReason.buffer_full
  unfolding capture
  capture-full c m t ts e = rw (e, capture) refl

  pub capture-stopped :
      (c : CaptureConfig) (m : Machine D) (t : Turn) (ts : List Turn)
      → leb c.max_output (length m.output) ≡ false
      → (c.interactive && t.stop_before) ≡ true
      → capture c m (t ∷ ts) ≡ stop m t.elapsed CaptureStopReason.stopped
  unfolding capture
  capture-stopped c m t ts e s = rw (e, capture) (rw s refl)

  module _ (c : CaptureConfig) (m : Machine D) (t : Turn) (ts : List Turn)
      (more : leb c.max_output (length m.output) ≡ false)
      (goes : (c.interactive && t.stop_before) ≡ false) where
    pub capture-failed :
        (e : String) → t.exit ≡ err e → capture c m (t ∷ ts) ≡ failed (poll (drain m t.input)) e
    unfolding capture
    capture-failed e f = rw (more, capture) (rw goes (rw f refl))

    pub capture-ended :
        (x : VmExit) (r : CaptureStopReason)
        → t.exit ≡ ok x
        → (on_exit c t.stop_after t.elapsed (counted m t.input) x).1 ≡ some r
        → capture c m (t ∷ ts)
          ≡ stop (on_exit c t.stop_after t.elapsed (counted m t.input) x).0 t.elapsed r
    unfolding capture
    capture-ended x r f e = rw (more, capture) (rw goes (rw f (rw e refl)))

    pub capture-continued :
        (x : VmExit)
        → t.exit ≡ ok x
        → (on_exit c t.stop_after t.elapsed (counted m t.input) x).1 ≡ none
        → capture c m (t ∷ ts)
          ≡ capture c (on_exit c t.stop_after t.elapsed (counted m t.input) x).0 ts
    unfolding capture
    capture-continued x f e = rw (more, capture) (rw goes (rw f (rw e refl)))

  counted-output :
      (c : CaptureConfig) (t : Turn) (m : Machine D) (x : VmExit)
      → ((on_exit c t.stop_after t.elapsed (counted m t.input) x).0.output
          ≡ m.output ++ sent m.serial.lcr x)
        × ((on_exit c t.stop_after t.elapsed (counted m t.input) x).0.serial.lcr
            ≡ next_lcr m.serial.lcr x)
  counted-output c t m x =
      let o = on_exit-output c t.stop_after t.elapsed (counted m t.input) x in
      let r = ready-output m t.input in
      (o.0 ∙ ap₂ (λ out lcr. out ++ sent lcr x) r.0 r.1, o.1 ∙ ap (λ lcr. next_lcr lcr x) r.1)

  -- The output after a turn, and what later turns send
  turn-output :
      (c : CaptureConfig) (t : Turn) (m : Machine D) (x : VmExit) (done : List Turn)
      → t.exit ≡ ok x
      → let m' = (on_exit c t.stop_after t.elapsed (counted m t.input) x).0 in
        m'.output ++ transmitted m'.serial.lcr done
        ≡ m.output ++ transmitted m.serial.lcr (t ∷ done)
  turn-output c t m x done ran =
      let o = counted-output c t m x in
      ap₂ (λ out lcr. out ++ transmitted lcr done) o.0 o.1
      ∙ append_assoc m.output (sent m.serial.lcr x) (transmitted (next_lcr m.serial.lcr x) done)
      ∙ ap (λ xs. m.output ++ xs) (sym (transmitted-ran m.serial.lcr t x done ran))

  abbrev pub output_of : Run D → List ℕ
  output_of (going m) = m.output
  output_of (returned m r) = m.output
  output_of (failed m e) = m.output

  -- However a loop ends, its output is what it started with followed by all the bytes that the guest has
  -- sent in the turns done, in their order. The turns done are all that come until the output is as long
  -- as asked for, the interactive loop is told to stop, `run` fails, or an exit ends the loop: a shutdown,
  -- an error, or an interruption that finds the time up or the interactive loop told to stop.
  pub capture-transmitted :
      (c : CaptureConfig) (m : Machine D) (ts : List Turn)
      → output_of (capture c m ts)
        ≡ m.output ++ transmitted m.serial.lcr (turns_done c (length m.output) m.serial.lcr ts)
  unfolding capture
  capture-transmitted c m [] = sym (append-nil m.output)
  capture-transmitted c m (t ∷ ts) = elim (Bool-cases (leb c.max_output (length m.output))) [
    | inl full ↦ ap output_of (capture-full c m t ts full) ∙ rw full (sym (append-nil m.output))
    | inr more ↦ elim (Bool-cases (c.interactive && t.stop_before)) [
      | inl stops ↦
          ap output_of (capture-stopped c m t ts more stops)
          ∙ rw more (rw stops (sym (append-nil m.output)))
      | inr goes ↦ elim (Result-cases t.exit) [
        | inr (e, failure) ↦
            ap output_of (capture-failed c m t ts more goes e failure)
            ∙ (ready-output m t.input).0
            ∙ rw more (rw goes (rw failure (sym (append-nil m.output))))
        | inl (x, ran) ↦
            let m' = (on_exit c t.stop_after t.elapsed (counted m t.input) x).0 in
            let ends = final-on_exit c t.stop_after t.elapsed (counted m t.input) x in
            let this = turns_done-goes c (length m.output) m.serial.lcr t ts x in
            elim (Option-cases (on_exit c t.stop_after t.elapsed (counted m t.input) x).1) [
              | inl on ↦
                  let o = counted-output c t m x in
                  let longer : length m'.output ≡ length m.output + length (sent m.serial.lcr x) =
                    ap length o.0 ∙ length-append m.output (sent m.serial.lcr x) in
                  let later = ap₂ (λ n lcr. turns_done c n lcr ts) longer o.1 in
                  ap output_of (capture-continued c m t ts more goes x ran on)
                  ∙ capture-transmitted c m' ts
                  ∙ ap (λ done. m'.output ++ transmitted m'.serial.lcr done) later
                  ∙ turn-output c t m x
                      (turns_done c (length m.output + length (sent m.serial.lcr x))
                        (next_lcr m.serial.lcr x) ts)
                      ran
                  ∙ ap (λ done. m.output ++ transmitted m.serial.lcr done)
                      (sym (this false more goes ran (ends.0 on)))
              | inr (r, ended) ↦
                  ap output_of (capture-ended c m t ts more goes x r ran ended)
                  ∙ sym (append-nil m'.output)
                  ∙ turn-output c t m x [] ran
                  ∙ ap (λ done. m.output ++ transmitted m.serial.lcr done)
                      (sym (this true more goes ran (ends.1 r ended)))
            ]
      ]
    ]
  ]

  -- The output of a loop never grows past the limit that its caller gives.
  pub capture_bounded :
      (c : CaptureConfig) (m : Machine D) (ts : List Turn)
      → length m.output ≤ c.max_output
      → length (output_of (capture c m ts)) ≤ c.max_output
  unfolding capture
  capture_bounded c m [] h = h
  capture_bounded c m (t ∷ ts) h = elim (Bool-cases (leb c.max_output (length m.output))) [
    | inl full ↦ rw (ap output_of (capture-full c m t ts full)) h
    | inr more ↦ elim (Bool-cases (c.interactive && t.stop_before)) [
      | inl stops ↦ rw (ap output_of (capture-stopped c m t ts more stops)) h
      | inr goes ↦ elim (Result-cases t.exit) [
        | inl (x, ran) ↦
            let grown : length (on_exit c t.stop_after t.elapsed (counted m t.input) x).0.output
                ≤ c.max_output =
              ground (
                arith,
                ap length (counted-output c t m x).0,
                length-append m.output (sent m.serial.lcr x),
                length-sent m.serial.lcr x,
              ) in
            elim (Option-cases (on_exit c t.stop_after t.elapsed (counted m t.input) x).1) [
              | inl on ↦ rw (ap output_of (capture-continued c m t ts more goes x ran on)) (
                  capture_bounded c (on_exit c t.stop_after t.elapsed (counted m t.input) x).0 ts
                    grown)
              | inr (r, ended) ↦
                  rw (ap output_of (capture-ended c m t ts more goes x r ran ended)) grown
            ]
        | inr (e, failure) ↦
            rw
              (
                ap output_of (capture-failed c m t ts more goes e failure),
                (ready-output m t.input).0,
              )
              h
      ]
    ]
  ]
