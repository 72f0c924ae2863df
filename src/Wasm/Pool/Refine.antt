-- ===== src/Wasm/Pool/Refine.antt =====
-- crates/nova-wasm/src/pool.rs: the pool implements one queue for each name, with a bound on all of
-- them together.
use text.Mathlib.TextEquality.{eq_iff}
use nova_vm.Common.{
  ℕ, suc, ◌+◌, ◌-◌, ◌≤◌, ◌≡◌, refl, sym, subst, ap, ◌∙◌, inl, inr, Option, none, some, List, [],
  ◌∷◌, ◌++◌, Result, ok, err, ltb, leb, arith, length, String, str_eq, str_append, if◌then◌else◌,
  Bool-cases, length-append, ltb→lt, Result-cases,
}
use nova_vm.Wasm.Pool
use nova_vm.Wasm.Pool.{
  WasmError, cache, compilation, PoolEntry, InstancePool, push_back, remove_first, warm, take,
  return_module,
}
use nova_vm.Wasm.Pool.Fifo.{named, named-push, Removed, remove_first-cases}

-- The calls of the pool, and what they answer.
pub data Call (M : Type 0) : Type 0 where
  warms : String → List ℕ → Call M
  takes : String → Call M
  returns : String → M → Call M

pub data Answer (M : Type 0) : Type 0 where
  warmed : Result WasmError (Unit {0}) → Answer M
  took : Option M → Answer M
  returned : Answer M

-- The specification: a queue for each name, and how many modules they hold together.
pub record Queues (M : Type 0) : Type 0 where
  pub queue : String → List M
  pub count : ℕ

module _ {M : Type 0} (compile : List ℕ → Result String M) (max_size : ℕ) where
  abbrev append : Queues M → String → M → Queues M
  append s name m = record {
    queue = λ n. if str_eq name n then s.queue n ++ (m ∷ []) else s.queue n;
    count = s.count + 1;
  }

  -- A queue without its first module
  abbrev behead : Queues M → String → List M → Queues M
  behead s name ms = record {
    queue = λ n. if str_eq name n then ms else s.queue n;
    count = s.count - 1;
  }

  abbrev pub spec_take : Queues M → String → List M → Queues M × Answer M
  spec_take s name [] = (s, took none)
  spec_take s name (m ∷ ms) = (behead s name ms, took (some m))

  abbrev pub spec : Queues M → Call M → Queues M × Answer M
  spec s (warms name bytes) =
      if leb max_size s.count
      then (s, warmed (err (cache "pool is full")))
      else elim (compile bytes) [
        | err e ↦ (
          s,
          warmed (
              err (
                compilation
                  (str_append "failed to compile '" (str_append name (str_append "': " e))))),
        )
        | ok m ↦ (append s name m, warmed (ok tt))
      ]
  spec s (takes name) = spec_take s name (s.queue name)
  spec s (returns name m) =
      if ltb s.count max_size then (append s name m, returned) else (s, returned)

  abbrev pub call : InstancePool M → Call M → InstancePool M × Answer M
  call p (warms name bytes) = let (p', r) = warm compile p name bytes in (p', warmed r)
  call p (takes name) = let (p', r) = take p name in (p', took r)
  call p (returns name m) = (return_module p name m, returned)

  -- The answers to a sequence of calls, of the pool and of the specification
  unfoldable pub answers : InstancePool M → List (Call M) → List (Answer M)
  answers p [] = []
  answers p (c ∷ cs) = let (p', a) = call p c in a ∷ answers p' cs

  unfoldable pub spec_answers : Queues M → List (Call M) → List (Answer M)
  spec_answers s [] = []
  spec_answers s (c ∷ cs) = let (s', a) = spec s c in a ∷ spec_answers s' cs

  -- A pool that stands for a state of the specification, within its bound.
  record Refines (p : InstancePool M) (s : Queues M) : Type 0 where
    same : (n : String) → named n p.pool ≡ s.queue n
    counted : length p.pool ≡ s.count
    bound : p.max_size ≡ max_size
    within : s.count ≤ max_size

  push_back-Refines :
      (p : InstancePool M) (s : Queues M) (name : String) (m : M)
      → Refines p s
      → suc s.count ≤ max_size
      → Refines (push_back p name m) (append s name m)
  unfolding push_back
  push_back-Refines p s name m v room = record {
    same = λ n.
        let pushed = named-push n p.pool (record { compiled = m; name = name }) in
        pushed ∙ rw (v.same n) refl;
    counted =
        omega (arith, length-append p.pool (record { compiled = m; name = name } ∷ []), v.counted);
    bound = v.bound;
    within = omega (arith, room);
  }

  abbrev Agrees : InstancePool M × Answer M → Queues M × Answer M → Type 0
  Agrees x y = (x.1 ≡ y.1) × Refines x.0 y.0

  transported :
      {x x' : InstancePool M × Answer M} {y y' : Queues M × Answer M}
      → x ≡ x'
      → y ≡ y'
      → Agrees x' y'
      → Agrees x y
  transported {x = x} {y' = y'} e f a =
      subst (λ b. Agrees x b) (sym f) (subst (λ t. Agrees t y') (sym e) a)

  warms-Agrees :
      (p : InstancePool M) (s : Queues M) (name : String) (bytes : List ℕ)
      → Refines p s
      → Agrees (call p (warms name bytes)) (spec s (warms name bytes))
  unfolding warm
  warms-Agrees p s name bytes v =
      let full : leb p.max_size (length p.pool) ≡ leb max_size s.count =
        ap (λ k. leb k (length p.pool)) v.bound ∙ ap (λ k. leb max_size k) v.counted in
      elim (Bool-cases (leb max_size s.count)) [
        | inl e ↦ rw (full, e) (refl, v)
        | inr e ↦ elim (Result-cases (compile bytes)) [
          | inl (m, f) ↦ rw (full, e, f) (refl, push_back-Refines p s name m v (ground arith))
          | inr (x, f) ↦ rw (full, e, f) (refl, v)
        ]
      ]

  returns-Agrees :
      (p : InstancePool M) (s : Queues M) (name : String) (m : M)
      → Refines p s
      → Agrees (call p (returns name m)) (spec s (returns name m))
  unfolding return_module
  returns-Agrees p s name m v =
      let room : ltb (length p.pool) p.max_size ≡ ltb s.count max_size =
        ap (λ k. ltb (length p.pool) k) v.bound ∙ ap (λ k. ltb k max_size) v.counted in
      elim (Bool-cases (ltb s.count max_size)) [
        | inl e ↦ rw (room, e) (refl, push_back-Refines p s name m v (omega (arith, ltb→lt _ _ e)))
        | inr e ↦ rw (room, e) (refl, v)
      ]

  take-none :
      (p : InstancePool M) (name : String)
      → remove_first name p.pool ≡ none
      → take p name ≡ (p, none)
  unfolding take
  take-none p name f = rw (take, f) refl

  take-some :
      (p : InstancePool M) (name : String) (m : M) (others : List (PoolEntry M))
      → remove_first name p.pool ≡ some (m, others)
      → take p name ≡ (record p { pool = others }, some m)
  unfolding take
  take-some p name m others f = rw (take, f) refl

  beheaded :
      (p : InstancePool M) (s : Queues M) (name : String) (m : M) (others : List (PoolEntry M))
      → Refines p s
      → Removed name p.pool m others
      → Refines (record p { pool = others }) (behead s name (named name others))
  beheaded p s name m others v w = record {
    same = λ n. elim (Bool-cases (str_eq name n)) [
      | inl e ↦ rw e (ap (λ k. named k others) (sym ((eq_iff name n).0 e)))
      | inr e ↦ rw e (w.apart n e ∙ v.same n)
    ];
    counted = omega (arith, w.one_less, v.counted);
    bound = v.bound;
    within = omega (arith, v.within);
  }

  takes-Agrees :
      (p : InstancePool M) (s : Queues M) (name : String)
      → Refines p s
      → Agrees (call p (takes name)) (spec s (takes name))
  takes-Agrees p s name v = elim (remove_first-cases name p.pool) [
    | inl (f, g) ↦
        let calls : call p (takes name) ≡ (p, took none) =
          ap (λ t. (t.0, took t.1)) (take-none p name f) in
        let specs : spec s (takes name) ≡ (s, took none) =
          ap (spec_take s name) (sym (v.same name) ∙ g) in
        transported calls specs (refl, v)
    | inr (m, others, w) ↦
        let calls : call p (takes name) ≡ (record p { pool = others }, took (some m)) =
          ap (λ t. (t.0, took t.1)) (take-some p name m others w.found) in
        let specs : spec s (takes name) ≡ (behead s name (named name others), took (some m)) =
          ap (spec_take s name) (sym (v.same name) ∙ w.oldest) in
        transported calls specs (refl, beheaded p s name m others v w)
  ]

  -- One call of the pool answers as the specification and keeps standing for its state.
  step :
      (p : InstancePool M) (s : Queues M) (c : Call M) → Refines p s → Agrees (call p c) (spec s c)
  step p s (warms name bytes) v = warms-Agrees p s name bytes v
  step p s (takes name) v = takes-Agrees p s name v
  step p s (returns name m) v = returns-Agrees p s name m v

  answers-from :
      (p : InstancePool M) (s : Queues M) (cs : List (Call M))
      → Refines p s
      → answers p cs ≡ spec_answers s cs
  unfolding answers spec_answers
  answers-from p s [] v = refl
  answers-from p s (c ∷ cs) v =
      let (same, v') = step p s c v in cc (same, answers-from (call p c).0 (spec s c).0 cs v')

  -- A new pool answers any sequence of calls as one queue for each name would, whose first-in module is
  -- taken first, where a module is added, compiled or given back, only while all queues together hold
  -- fewer than the maximum.
  pub answers-eq-spec_answers :
      (cs : List (Call M))
      → answers (Pool.new max_size) cs ≡ spec_answers (record { queue = λ n. []; count = 0 }) cs
  unfolding Pool.new named
  answers-eq-spec_answers cs =
      answers-from (Pool.new max_size) (record { queue = λ n. []; count = 0 }) cs
        (record { same = λ n. refl; counted = refl; bound = refl; within = omega arith })
