-- ===== src/Vmm/Match/Found.antt =====
-- The search in the end of the output finds what a search in all of it would find.
use nova_vm.Common.{
  ℕ, zero, suc, ◌+◌, ◌-◌, ◌≤◌, ◌<◌, ◌≡◌, refl, sym, ◌∙◌, ap, Bool, true, false, ◌&&◌, Option, none,
  some, List, [], ◌∷◌, Result, ◌++◌, ok, err, ◌==◌, leb, length, drop, length-append, leb→le,
  String, if◌then◌else◌, arith, Bool-cases, Result-cases, inl, inr,
}
use nova_vm.Virtio.Trait.{VirtioDevice}
use nova_vm.Vmm.Capture.{VmExit, CaptureStopReason, Machine, Turn, Run, failed, poll, on_exit, stop}
use nova_vm.Vmm.Capture.Output.{sent, on_exit-output}
use nova_vm.Vmm.Match.{starts, occurs, found, config, before_exit, match_loop, run_vcpu_until_match}

starts_short : (target ys : List ℕ) → length ys < length target → starts target ys ≡ false
unfolding starts
starts_short [] ys h = absurd (omega arith)
starts_short (x ∷ xs) [] h = refl
starts_short (x ∷ xs) (y ∷ ys) h = ground (arith, starts_short xs ys)

starts-append :
    (target ys zs : List ℕ)
    → length target ≤ length ys
    → starts target (ys ++ zs) ≡ starts target ys
unfolding starts
starts-append [] ys zs h = refl
starts-append (x ∷ xs) [] zs h = absurd (omega arith)
starts-append (x ∷ xs) (y ∷ ys) zs h = ap (λ b. x == y && b) (starts-append xs ys zs (omega arith))

occurs_short : (target ys : List ℕ) → length ys < length target → occurs target ys ≡ false
unfolding occurs
occurs_short target [] h = refl
occurs_short target (y ∷ ys) h =
    rw (starts_short target (y ∷ ys) h, occurs_short target ys (omega arith)) refl

-- With one more byte, a text that was not there before can only stand at the end.
occurs-drop :
    (target out extra : List ℕ) (k : ℕ)
    → 0 < length target
    → length extra ≤ 1
    → occurs target out ≡ false
    → k + length target ≤ length (out ++ extra)
    → occurs target (drop k (out ++ extra)) ≡ occurs target (out ++ extra)
unfolding occurs
occurs-drop target out extra zero some_target one absent fits = refl
occurs-drop target [] extra (suc k) some_target one absent fits = absurd (omega arith)
occurs-drop target (x ∷ out) extra (suc k) some_target one absent fits =
    let len = length-append out extra in
    let first : starts target (x ∷ out) ≡ false = ground arith in
    let rest : occurs target out ≡ false = ground arith in
    let same : starts target (x ∷ (out ++ extra)) ≡ false =
      starts-append target (x ∷ out) extra (omega (arith, len)) ∙ first in
    rw same (occurs-drop target out extra k some_target one rest (omega arith))

found-eq-occurs :
    (target out extra : List ℕ)
    → 0 < length target
    → length extra ≤ 1
    → occurs target out ≡ false
    → found target (out ++ extra) ≡ occurs target (out ++ extra)
unfolding found
found-eq-occurs target out extra some_target one absent =
    elim (Bool-cases (leb (length target) (length (out ++ extra)))) [
      | inl e ↦
          let fits : length target ≤ length (out ++ extra) = leb→le _ _ e in
          rw e (
            occurs-drop target out extra (length (out ++ extra) - (length target + 256)) some_target
              one absent (omega (arith, fits)))
      | inr e ↦
          let short : length (out ++ extra) < length target = ground arith in
          rw (e, occurs_short target (out ++ extra) short) refl
    ]

length-sent : (lcr : ℕ) (x : VmExit) → length (sent lcr x) ≤ 1
unfolding sent
length-sent lcr x = ground arith

module _ {D : Type 0} ⦃dev : VirtioDevice D⦄ where
  before_exit-output : (m : Machine D) → (before_exit m).output ≡ m.output
  unfolding poll
  before_exit-output m = refl

  exit-output :
      (timeout elapsed : ℕ) (m : Machine D) (x : VmExit)
      → (on_exit (config timeout) false elapsed (before_exit m) x).0.output
        ≡ m.output ++ sent (before_exit m).serial.lcr x
  exit-output timeout elapsed m x =
      (on_exit-output (config timeout) false elapsed (before_exit m) x).0
      ∙ ap (λ out. out ++ sent (before_exit m).serial.lcr x) (before_exit-output m)

  -- The machine after an exit, and the reason to return
  abbrev exited : ℕ → ℕ → Machine D → VmExit → Machine D × Option CaptureStopReason
  exited timeout elapsed m x = on_exit (config timeout) false elapsed (before_exit m) x

  -- One turn of the loop, over what comes next
  abbrev turn : ℕ → Bool → Result String VmExit → ℕ → Machine D → (Machine D → Run D) → Run D
  turn timeout true r elapsed m next = stop m elapsed CaptureStopReason.buffer_full
  turn timeout false (err e) elapsed m next = failed (poll m) e
  turn timeout false (ok x) elapsed m next = elim (exited timeout elapsed m x).1 [
    | some r ↦ stop (exited timeout elapsed m x).0 elapsed r
    | none ↦ next (exited timeout elapsed m x).0
  ]

  match_loop-turn :
      (test : List ℕ → Bool) (timeout : ℕ) (m : Machine D) (t : Turn) (ts : List Turn)
      → match_loop test timeout m (t ∷ ts)
        ≡ turn timeout (test m.output) t.exit t.elapsed m (λ m'. match_loop test timeout m' ts)
  unfolding match_loop
  match_loop-turn test timeout m t ts = elim (Bool-cases (test m.output)) [
    | inl e ↦ rw (e, match_loop) refl
    | inr e ↦ elim (Result-cases t.exit) [
      | inl (x, f) ↦ rw (e, match_loop) (rw f refl)
      | inr (x, f) ↦ rw (e, match_loop) (rw f refl)
    ]
  ]

  turn_same :
      (timeout : ℕ) (stops : Bool) (r : Result String VmExit) (elapsed : ℕ) (m : Machine D)
      (f g : Machine D → Run D)
      → (stops ≡ false
          → (x : VmExit) → f (exited timeout elapsed m x).0 ≡ g (exited timeout elapsed m x).0)
      → turn timeout stops r elapsed m f ≡ turn timeout stops r elapsed m g
  turn_same timeout true r elapsed m f g h = refl
  turn_same timeout false (err e) elapsed m f g h = refl
  turn_same timeout false (ok x) elapsed m f g h =
      ap
        (λ z. elim (exited timeout elapsed m x).1 [
          | some r ↦ stop (exited timeout elapsed m x).0 elapsed r
          | none ↦ z
        ])
        (h refl x)

  -- A search that agrees with the one in all of the output before a turn agrees with it after the turn.
  agrees_later :
      (timeout elapsed : ℕ) (target : List ℕ) (m : Machine D) (x : VmExit)
      → 0 < length target
      → occurs target m.output ≡ false
      → found target (exited timeout elapsed m x).0.output
        ≡ occurs target (exited timeout elapsed m x).0.output
  agrees_later timeout elapsed target m x some_target absent =
      let extra = sent (before_exit m).serial.lcr x in
      let grown : (exited timeout elapsed m x).0.output ≡ m.output ++ extra =
        exit-output timeout elapsed m x in
      ap (found target) grown
      ∙ found-eq-occurs target m.output extra some_target (length-sent (before_exit m).serial.lcr x)
          absent
      ∙ ap (occurs target) (sym grown)

  match_loop_end :
      (f g : List ℕ → Bool) (timeout : ℕ) (m : Machine D)
      → match_loop f timeout m [] ≡ match_loop g timeout m []
  unfolding match_loop
  match_loop_end f g timeout m = refl

  match_loop-found :
      (timeout : ℕ) (target : List ℕ) (m : Machine D) (ts : List Turn)
      → 0 < length target
      → found target m.output ≡ occurs target m.output
      → match_loop (found target) timeout m ts ≡ match_loop (occurs target) timeout m ts
  match_loop-found timeout target m [] some_target same =
      match_loop_end (found target) (occurs target) timeout m
  match_loop-found timeout target m (t ∷ ts) some_target same =
      match_loop-turn (found target) timeout m t ts
      ∙ ap (λ b. turn timeout b t.exit t.elapsed m (λ m'. match_loop (found target) timeout m' ts))
          same
      ∙ turn_same timeout (occurs target m.output) t.exit t.elapsed m
          (λ m'. match_loop (found target) timeout m' ts)
          (λ m'. match_loop (occurs target) timeout m' ts)
          (λ absent x.
            match_loop-found timeout target (exited timeout t.elapsed m x).0 ts some_target
              (agrees_later timeout t.elapsed target m x some_target absent))
      ∙ sym (match_loop-turn (occurs target) timeout m t ts)

  -- From an empty output on, the loop for a target that is not empty is the one that searches all of the
  -- output each time: a text is never missed because only the end is looked at. An empty target panics
  -- in the first turn.
  pub run_vcpu_until_match-occurs :
      (timeout : ℕ) (target : List ℕ) (m : Machine D) (t : Turn) (ts : List Turn)
      → m.output ≡ []
      → run_vcpu_until_match timeout target m (t ∷ ts) ≡ (
          if length target == 0 then none else some (match_loop (occurs target) timeout m (t ∷ ts)))
  unfolding run_vcpu_until_match
  run_vcpu_until_match-occurs timeout [] m t ts empty = refl
  run_vcpu_until_match-occurs timeout (b ∷ bs) m t ts empty =
      let start : found (b ∷ bs) m.output ≡ occurs (b ∷ bs) m.output =
        ap (found (b ∷ bs)) empty
        ∙ found-eq-occurs (b ∷ bs) [] [] (omega arith) (omega arith)
            (occurs_short (b ∷ bs) [] (omega arith))
        ∙ ap (occurs (b ∷ bs)) (sym empty) in
      rw (match_loop-found timeout (b ∷ bs) m (t ∷ ts) (omega arith) start) (ground arith)
