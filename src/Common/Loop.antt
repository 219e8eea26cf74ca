-- ===== src/Common/Loop.antt =====
-- `while (true)` loops whose body goes on, breaks or throws, on fuel from a measure.
use reyao.Common.Calls.{Outcome, ok, err, Error, unfinished}
use Prim.Native.Nat.{ℕ, zero, suc, ◌<◌}
use mathlib.Core.Bool.{Bool, true, false}
use mathlib.Core.Path.{◌≡◌, refl, sym, ◌∙◌, ap, subst}
use mathlib.Core.Logic.{◌≢◌}
use native.Mathlib.Omega.{arith}

pub data Round {ℓ} (X : Type ℓ) : Type ℓ where
  again : X → Round X
  stop : X → Round X

-- What a round leads to, where `rest` is the rest of the loop.
abbrev pub follow {ℓ} : {X : Type ℓ} → (X → Outcome X) → Outcome (Round X) → Outcome X
follow rest (ok (again x)) = rest x
follow rest (ok (stop x)) = ok x
follow rest (err e) = err e

pub data RoundOf {ℓ} {X : Type ℓ} (r : Outcome (Round X)) : Type ℓ where
  goes_on : (x : X) → r ≡ ok (again x) → RoundOf r
  stops : (x : X) → r ≡ ok (stop x) → RoundOf r
  fails : (e : Error) → r ≡ err e → RoundOf r

pub round_of {ℓ} : {X : Type ℓ} (r : Outcome (Round X)) → RoundOf r
round_of (ok (again x)) = goes_on x refl
round_of (ok (stop x)) = stops x refl
round_of (err e) = fails e refl

unfoldable pub loop {ℓ} : {X : Type ℓ} → (X → Outcome (Round X)) → ℕ → X → Outcome X
loop step zero x = err unfinished
loop step (suc fuel) x = follow (loop step fuel) (step x)

-- A loop with fuel for its measure.
unfoldable pub run {ℓ} : {X : Type ℓ} → (X → Outcome (Round X)) → (X → ℕ) → X → Outcome X
unfolding loop
run step measure x = loop step (suc (measure x)) x

module _ {ℓ} {X : Type ℓ} (step : X → Outcome (Round X)) (measure : X → ℕ)
    (falls : (x x' : X) → step x ≡ ok (again x') → measure x' < measure x) where
  -- More fuel than the measure makes no difference.
  loop_fuel : (f g : ℕ) (x : X) → measure x < f → measure x < g → loop step f x ≡ loop step g x
  unfolding loop
  loop_fuel zero g x hf hg = absurd (omega arith)
  loop_fuel (suc f) zero x hf hg = absurd (omega arith)
  loop_fuel (suc f) (suc g) x hf hg = elim (round_of (step x)) [
    | goes_on x' e ↦
        let less : measure x' < measure x = falls x x' e in
        rw e (loop_fuel f g x' (omega arith) (omega arith))
    | stops x' e ↦ rw e
    | fails r e ↦ rw e
  ]

  -- The loop is its first round and the rest.
  pub run_lem : (x : X) → run step measure x ≡ follow (run step measure) (step x)
  unfolding run
  run_lem x = elim (round_of (step x)) [
    | goes_on x' e ↦
        let less : measure x' < measure x = falls x x' e in
        rw e (loop_fuel (measure x) (suc (measure x')) x' less (omega arith))
    | stops x' e ↦ rw e
    | fails r e ↦ rw e
  ]

  -- The loop ends: it never runs out of fuel unless its body does, where `Inv` is kept.
  module _ (Inv : X → Type 0) (keeps : (x x' : X) → Inv x → step x ≡ ok (again x') → Inv x')
      (ends : (x : X) → Inv x → step x ≢ err unfinished) where
    loop-ends : (f : ℕ) (x : X) → measure x < f → Inv x → loop step f x ≢ err unfinished
    unfolding loop
    loop-ends zero x hf inv = absurd (omega arith)
    loop-ends (suc f) x hf inv = elim (round_of (step x)) [
      | goes_on x' e ↦
          let less : measure x' < measure x = falls x x' e in
          rw e (loop-ends f x' (omega arith) (keeps x x' inv e))
      | stops x' e ↦ rw e (λ p. cc p)
      | fails r e ↦ rw e (λ p. let same : r ≡ unfinished = cc p in ends x inv (e ∙ ap err same))
    ]

    pub run-ends : (x : X) → Inv x → run step measure x ≢ err unfinished
    unfolding run
    run-ends x inv = loop-ends (suc (measure x)) x (omega arith) inv

-- What the rounds keep, the loop keeps.
module _ {ℓ} {X : Type ℓ} (step : X → Outcome (Round X)) (P : X → Type 0)
    (on_again : (x x' : X) → P x → step x ≡ ok (again x') → P x')
    (on_stop : (x x' : X) → P x → step x ≡ ok (stop x') → P x') where
  loop-keeps : (f : ℕ) (x x' : X) → P x → loop step f x ≡ ok x' → P x'
  unfolding loop
  loop-keeps zero x x' p h = absurd (cc h)
  loop-keeps (suc f) x x' p h = elim (round_of (step x)) [
    | goes_on y e ↦ loop-keeps f y x' (on_again x y p e) (rw e at h)
    | stops y e ↦ let same : y ≡ x' = cc (rw e at h) in subst P same (on_stop x y p e)
    | fails r e ↦ absurd (cc (rw e at h))
  ]

  pub run-keeps : (measure : X → ℕ) (x x' : X) → P x → run step measure x ≡ ok x' → P x'
  unfolding run
  run-keeps measure x x' p h = loop-keeps (suc (measure x)) x x' p h

-- A loop that stops short of its goal, for lack of input, and is run again when more has come.
-- `more` hands the state more input, and `done` tells the end of the work from the lack of input.
pub record Resumes {ℓ} {X : Type ℓ} (step : X → Outcome (Round X)) (done : X → Bool) (more : X → X)
    (x : X) : Type ℓ where
  pub goes_on : (x' : X) → step x ≡ ok (again x') → step (more x) ≡ ok (again (more x'))
  pub ends : (x' : X) → step x ≡ ok (stop x') → done x' ≡ true → step (more x) ≡ ok (stop (more x'))
  pub waits : (x' : X) → step x ≡ ok (stop x') → done x' ≡ false → step (more x) ≡ step (more x')
  pub fails : (e : Error) → step x ≡ err e → step (more x) ≡ err e

-- What a run on part of the input says of a run on all of it.
abbrev pub Resumed {ℓ} :
    {X : Type ℓ} (go : X → Outcome X) (done : X → Bool) (more : X → X) (x : X) → Type ℓ
Resumed {X} go done more x =
    ((x' : X) → go x ≡ ok x' → done x' ≡ true → go (more x) ≡ ok (more x'))
    × ((x' : X) → go x ≡ ok x' → done x' ≡ false → go (more x) ≡ go (more x'))
    × ((e : Error) → go x ≡ err e → go (more x) ≡ err e)

module _ {ℓ} {X : Type ℓ} (step : X → Outcome (Round X)) (measure : X → ℕ)
    (falls : (x x' : X) → step x ≡ ok (again x') → measure x' < measure x) (done : X → Bool)
    (more : X → X) (Inv : X → Type 0) (keeps : (x x' : X) → Inv x → step x ≡ ok (again x') → Inv x')
    (resumes : (x : X) → Inv x → Resumes step done more x) where
  run-resumes_below :
      (n : ℕ) (x : X) → measure x < n → Inv x → Resumed (run step measure) done more x
  run-resumes_below zero x h inv = absurd (omega arith)
  run-resumes_below (suc n) x h inv = elim (round_of (step x)) [
    | goes_on x₁ e ↦
        let less : measure x₁ < measure x = falls x x₁ e in
        let (finished, waiting, failed) = run-resumes_below n x₁ (omega arith) (keeps x x₁ inv e) in
        let here : run step measure x ≡ run step measure x₁ = run_lem step measure falls x ∙ rw e in
        let there : run step measure (more x) ≡ run step measure (more x₁) =
          run_lem step measure falls (more x) ∙ rw ((resumes x inv).goes_on x₁ e) in
        (
          (λ x' p d. there ∙ finished x' (sym here ∙ p) d),
          (λ x' p d. there ∙ waiting x' (sym here ∙ p) d),
          (λ r p. there ∙ failed r (sym here ∙ p)),
        )
    | stops x₁ e ↦
        let here : run step measure x ≡ ok x₁ = run_lem step measure falls x ∙ rw e in
        (
          (λ x' p d.
              let same : x₁ ≡ x' = cc (here, p) in
              run_lem step measure falls (more x)
              ∙ rw ((resumes x inv).ends x₁ e (ap done same ∙ d)) (ap (λ y. ok (more y)) same)),
          (λ x' p d.
              let same : x₁ ≡ x' = cc (here, p) in
              run_lem step measure falls (more x)
              ∙ rw ((resumes x inv).waits x₁ e (ap done same ∙ d)) (
                  sym (run_lem step measure falls (more x₁))
                  ∙ ap (λ y. run step measure (more y)) same)),
          (λ r p. absurd (cc (here, p))),
        )
    | fails r e ↦
        let here : run step measure x ≡ err r = run_lem step measure falls x ∙ rw e in
        (
          (λ x' p d. absurd (cc (here, p))),
          (λ x' p d. absurd (cc (here, p))),
          (λ r' p.
              let same : r ≡ r' = cc (here, p) in
              run_lem step measure falls (more x) ∙ rw ((resumes x inv).fails r e) (ap err same)),
        )
  ]

  pub run-resumes : (x : X) → Inv x → Resumed (run step measure) done more x
  run-resumes x inv = run-resumes_below (suc (measure x)) x (omega arith) inv

-- The four ways in which a round is resumed.
module _ {ℓ} {X : Type ℓ} {step : X → Outcome (Round X)} {done : X → Bool} {more : X → X} where
  pub Resumes-again :
      (x x' : X)
      → step x ≡ ok (again x')
      → step (more x) ≡ ok (again (more x'))
      → Resumes step done more x
  Resumes-again x x' e f = record {
    goes_on = λ y p. let same : x' ≡ y = cc (e, p) in f ∙ ap (λ z. ok (again (more z))) same;
    ends = λ y p d. absurd (cc (e, p));
    waits = λ y p d. absurd (cc (e, p));
    fails = λ r p. absurd (cc (e, p));
  }

  pub Resumes-ends :
      (x x' : X)
      → step x ≡ ok (stop x')
      → done x' ≡ true
      → step (more x) ≡ ok (stop (more x'))
      → Resumes step done more x
  Resumes-ends x x' e d f = record {
    goes_on = λ y p. absurd (cc (e, p));
    ends = λ y p _. let same : x' ≡ y = cc (e, p) in f ∙ ap (λ z. ok (stop (more z))) same;
    waits = λ y p d'. let same : x' ≡ y = cc (e, p) in absurd (cc (d, d', ap done same));
    fails = λ r p. absurd (cc (e, p));
  }

  pub Resumes-waits :
      (x x' : X)
      → step x ≡ ok (stop x')
      → done x' ≡ false
      → step (more x) ≡ step (more x')
      → Resumes step done more x
  Resumes-waits x x' e d f = record {
    goes_on = λ y p. absurd (cc (e, p));
    ends = λ y p d'. let same : x' ≡ y = cc (e, p) in absurd (cc (d, d', ap done same));
    waits = λ y p _. let same : x' ≡ y = cc (e, p) in f ∙ ap (λ z. step (more z)) same;
    fails = λ r p. absurd (cc (e, p));
  }

  pub Resumes-fails :
      (x : X) (r : Error) → step x ≡ err r → step (more x) ≡ err r → Resumes step done more x
  Resumes-fails x r e f = record {
    goes_on = λ y p. absurd (cc (e, p));
    ends = λ y p d. absurd (cc (e, p));
    waits = λ y p d. absurd (cc (e, p));
    fails = λ r' p. let same : r ≡ r' = cc (e, p) in f ∙ ap err same;
  }
