-- ===== src/Server/Start/Loaded.antt =====
-- Which schemas there are after the goroutines of `NewServer` ran, in whatever order.
use sdcio_schema_server.Base.{
  ℕ, zero, suc, ◌-◌, ◌≤◌, nat_beq, ◌≡◌, refl, ap, sym, subst, Bool, true, false, List, [], ◌∷◌,
  Result, if◌then◌else◌, arith,
}
use sdcio_schema_server.Config.{SchemaConfig}
use sdcio_schema_server.Yang.{Entry}
use sdcio_schema_server.Schema.Element.{Annotations}
use sdcio_schema_server.Schema.Load.{Host, Schema, new_schema}
use sdcio_schema_server.Base.{ok, err, panic}
use sdcio_schema_server.Store.{SchemaKey, key_in}
use sdcio_schema_server.Store.Interface.{StoreOps, IsStore}
use sdcio_schema_server.Server.Start.{
  existing, Progress, starting, absent, ended, Task, tasks_of, outcome_of, add_parsed, advance,
  step_at, run,
}
use sdcio_schema_server.Server.Start.Growth.{
  configs, AllSeparable, Adds-advance, There-advance, AllThere, Grows, Grows-refl, Grows-trans,
  Grows-Adds, Grows-more, AllThere-Grows,
}

-- The steps that a goroutine has left at most.
abbrev pub left : Progress → ℕ
left starting = 2
left absent = 1
left (ended x) = 0

abbrev pub left_at : ℕ → List Task → ℕ
left_at i [] = 0
left_at zero (t ∷ ts) = left t.1
left_at (suc i) (t ∷ ts) = left_at i ts

-- How often a position stands in a schedule.
abbrev pub turns : ℕ → List ℕ → ℕ
turns i [] = 0
turns i (j ∷ js) = if nat_beq j i then suc (turns i js) else turns i js

module _ (o : StoreOps) (h : Host) (annotate : Entry → Result Annotations) where
  left-if : (b : Bool) → left (if b then ended existing else absent) ≤ 1
  left-if true = omega arith
  left-if false = omega arith

  left-outcome : (r : Result (Unit {0}) × o.State) → left (outcome_of o h annotate r).0 ≤ 0
  left-outcome (ok u, s) = omega arith
  left-outcome (err e, s) = omega arith
  left-outcome (panic, s) = omega arith

  left-parsed : (r : Result Schema) (s : o.State) → left (add_parsed o h annotate r s).0 ≤ 0
  left-parsed (ok sc) s = left-outcome (o.add_schema s sc)
  left-parsed (err e) s = omega arith
  left-parsed panic s = omega arith

  left-advance :
      (c : SchemaConfig) (p : Progress) (s : o.State)
      → left (advance o h annotate c p s).0 ≤ left p - 1
  unfolding advance
  left-advance c starting s = left-if (o.has_schema s (key_in c))
  left-advance c absent s = left-parsed (new_schema h annotate c) s
  left-advance c (ended x) s = omega arith

  left-step_at :
      (i j : ℕ) (ts : List Task) (s : o.State)
      → left_at i (step_at o h annotate j ts s).0 ≤ left_at i ts - (if nat_beq j i then 1 else 0)
  unfolding step_at
  left-step_at i j [] s = omega arith
  left-step_at zero zero ((c, p) ∷ ts) s = left-advance c p s
  left-step_at zero (suc j) ((c, p) ∷ ts) s = ground arith
  left-step_at (suc i) zero ((c, p) ∷ ts) s = ground arith
  left-step_at (suc i) (suc j) (t ∷ ts) s = ground (arith, left-step_at i j ts s)

  left-run :
      (i : ℕ) (js : List ℕ) (ts : List Task) (s : o.State)
      → left_at i (run o h annotate js ts s).0 ≤ left_at i ts - turns i js
  unfolding run
  left-run i [] ts s = omega arith
  left-run i (j ∷ js) ts s =
      let moved = step_at o h annotate j ts s in
      ground (arith, left-step_at i j ts s, left-run i js moved.0 moved.1)

  left-tasks_of : (i : ℕ) (cs : List SchemaConfig) → left_at i (tasks_of cs) ≤ 2
  left-tasks_of i [] = omega arith
  left-tasks_of zero (c ∷ cs) = omega arith
  left-tasks_of (suc i) (c ∷ cs) = left-tasks_of i cs

  configs-step_at :
      (i : ℕ) (ts : List Task) (s : o.State) → configs (step_at o h annotate i ts s).0 ≡ configs ts
  unfolding step_at
  configs-step_at i [] s = refl
  configs-step_at zero ((c, p) ∷ ts) s = refl
  configs-step_at (suc i) (t ∷ ts) s = ap (λ cs. t.0 ∷ cs) (configs-step_at i ts s)

  configs-tasks_of : (cs : List SchemaConfig) → configs (tasks_of cs) ≡ cs
  configs-tasks_of [] = refl
  configs-tasks_of (c ∷ cs) = ap (λ r. c ∷ r) (configs-tasks_of cs)

  module _ (drops : SchemaKey → SchemaKey → Bool) (law : IsStore o drops) where
    AllThere-tasks_of :
        (cs : List SchemaConfig) (s : o.State) → AllThere o h annotate drops law (tasks_of cs) s
    AllThere-tasks_of [] s = tt
    AllThere-tasks_of (c ∷ cs) s = ((λ t. absurd t), AllThere-tasks_of cs s)

    step_at-Grows :
        (i : ℕ) (ts : List Task) (s : o.State)
        → AllSeparable (configs ts)
        → AllThere o h annotate drops law ts s
        → Grows o h annotate drops law (configs ts) s (step_at o h annotate i ts s).1
          × AllThere o h annotate drops law
              (step_at o h annotate i ts s).0
              (step_at o h annotate i ts s).1
    unfolding step_at
    step_at-Grows i [] s k a = (Grows-refl o h annotate drops law [] s, tt)
    step_at-Grows zero ((c, p) ∷ ts) s (k, ks) (a, as') =
        let grows =
          Grows-Adds o h annotate drops law c (configs ts) s (advance o h annotate c p s).1
            (Adds-advance o h annotate drops law c p s k) in
        (
          grows,
          (
            There-advance o h annotate drops law c p s k a,
            AllThere-Grows o h annotate drops law (c ∷ configs ts) ts s
                (advance o h annotate c p s).1 ks grows as',
          ),
        )
    step_at-Grows (suc i) ((c, p) ∷ ts) s (k, ks) (a, as') =
        let (grows, there) = step_at-Grows i ts s ks as' in
        (
          Grows-more o h annotate drops law c (configs ts) s (step_at o h annotate i ts s).1 grows,
          ((λ t. grows.kept (key_in c) k (a t)), there),
        )

    run-Grows :
        (is : List ℕ) (ts : List Task) (s : o.State)
        → AllSeparable (configs ts)
        → AllThere o h annotate drops law ts s
        → Grows o h annotate drops law (configs ts) s (run o h annotate is ts s).1
          × AllThere o h annotate drops law
              (run o h annotate is ts s).0
              (run o h annotate is ts s).1
    unfolding run
    run-Grows [] ts s k a = (Grows-refl o h annotate drops law (configs ts) s, a)
    run-Grows (i ∷ is) ts s k a =
        let moved = step_at o h annotate i ts s in
        let same = configs-step_at i ts s in
        let (grows, there) = step_at-Grows i ts s k a in
        let (later, last) = run-Grows is moved.0 moved.1 (subst AllSeparable (sym same) k) there in
        (
          Grows-trans o h annotate drops law (configs ts) s moved.1
              (run o h annotate is moved.0 moved.1).1 grows
              (subst
                (λ cs.
                  Grows o h annotate drops law cs moved.1 (run o h annotate is moved.0 moved.1).1)
                same later),
          last,
        )

    -- Whatever the order in which the goroutines take their steps, no schema that the store had is
    -- lost, each schema that it has then was there before or is configured, a goroutine that found its
    -- schema or added it has it in the store, and one that took two steps has ended. The store keeps
    -- the promises of the interface, and the names and vendors that are configured or asked for hold
    -- no `@`.
    pub run_loads :
        (is : List ℕ) (cs : List SchemaConfig) (s : o.State)
        → AllSeparable cs
        → Grows o h annotate drops law cs s (run o h annotate is (tasks_of cs) s).1
          × AllThere o h annotate drops law
              (run o h annotate is (tasks_of cs) s).0
              (run o h annotate is (tasks_of cs) s).1
          × ((i : ℕ) → 2 ≤ turns i is → left_at i (run o h annotate is (tasks_of cs) s).0 ≡ 0)
    run_loads is cs s k =
        let same = configs-tasks_of cs in
        let (grows, there) =
          run-Grows is (tasks_of cs) s (subst AllSeparable (sym same) k) (AllThere-tasks_of cs s) in
        (
          subst (λ ds. Grows o h annotate drops law ds s (run o h annotate is (tasks_of cs) s).1)
              same grows,
          there,
          λ i t. omega (arith, left-run i is (tasks_of cs) s, left-tasks_of i cs),
        )
