-- ===== src/Common/Sim.antt =====
-- Two runs side by side: related results, or the same error.
use reyao.Common.Calls.{Outcome, ok, err, ◌>>=◌}
use reyao.Common.Loop.{Round, again, stop, follow, loop, run}
use mathlib.Core.Bool.{Bool, true, false}
use mathlib.Core.Option.{Option, none, some}
use reyao.Common.Tests.{if◌then◌else◌}
use Prim.Native.Nat.{ℕ, zero, suc}
use mathlib.Core.Path.{◌≡◌, refl, sym, subst}

-- A result and the one that it stands for.
abbrev pub Sim {ℓ κ} : {X : Type ℓ} {Y : Type κ} → (X → Y → Type 0) → Outcome X → Outcome Y → Type 0
Sim R (ok x) (ok y) = R x y
Sim R (ok x) (err e) = ⊥
Sim R (err e) (ok y) = ⊥
Sim R (err e) (err e') = e ≡ e'

pub Sim-bind {ℓ κ ℓ' κ'} :
    {X : Type ℓ} {Y : Type κ} {X' : Type ℓ'} {Y' : Type κ'} (R : X → Y → Type 0)
    (R' : X' → Y' → Type 0) (f : X → Outcome X') (g : Y → Outcome Y') (o : Outcome X)
    (o' : Outcome Y)
    → Sim R o o'
    → ((x : X) (y : Y) → R x y → Sim R' (f x) (g y))
    → Sim R' (o >>= f) (o' >>= g)
Sim-bind R R' f g (ok x) (ok y) h k = k x y h
Sim-bind R R' f g (ok x) (err e) h k = elim h [ ]
Sim-bind R R' f g (err e) (ok y) h k = elim h [ ]
Sim-bind R R' f g (err e) (err e') h k = h

-- The same test, and the same call, on both sides.
pub Sim-if {ℓ κ} :
    {X : Type ℓ} {Y : Type κ} (R : X → Y → Type 0) (b : Bool) (x y : Outcome X) (x' y' : Outcome Y)
    → Sim R x x'
    → Sim R y y'
    → Sim R (if b then x else y) (if b then x' else y')
Sim-if R true x y x' y' h k = h
Sim-if R false x y x' y' h k = k

pub Sim-same {ℓ κ ι} :
    {A : Type ι} {X : Type ℓ} {Y : Type κ} (R : X → Y → Type 0) (o : Outcome A) (f : A → Outcome X)
    (g : A → Outcome Y)
    → ((a : A) → Sim R (f a) (g a))
    → Sim R (o >>= f) (o >>= g)
Sim-same R (ok a) f g h = h a
Sim-same R (err e) f g h = refl

pub Sim-option {ℓ κ ι} :
    {A : Type ι} {X : Type ℓ} {Y : Type κ} (R : X → Y → Type 0) (o : Option A) (x : Outcome X)
    (f : A → Outcome X) (y : Outcome Y) (g : A → Outcome Y)
    → Sim R x y
    → ((a : A) → Sim R (f a) (g a))
    → Sim R (elim o [ none ↦ x | some a ↦ f a ]) (elim o [ none ↦ y | some a ↦ g a ])
Sim-option R none x f y g h k = h
Sim-option R (some a) x f y g h k = k a

abbrev pub SimRound {ℓ κ} :
    {X : Type ℓ} {Y : Type κ} → (X → Y → Type 0) → Round X → Round Y → Type 0
SimRound R (again x) (again y) = R x y
SimRound R (stop x) (stop y) = R x y
SimRound R (again x) (stop y) = ⊥
SimRound R (stop x) (again y) = ⊥

-- Loops whose rounds go side by side go side by side.
module _ {ℓ κ} {X : Type ℓ} {Y : Type κ} (R : X → Y → Type 0) (step : X → Outcome (Round X))
    (step' : Y → Outcome (Round Y))
    (sim : (x : X) (y : Y) → R x y → Sim (SimRound R) (step x) (step' y)) where
  Sim-follow :
      (rest : X → Outcome X) (rest' : Y → Outcome Y)
      → ((x : X) (y : Y) → R x y → Sim R (rest x) (rest' y))
      → (o : Outcome (Round X)) (o' : Outcome (Round Y)) → Sim (SimRound R) o o'
      → Sim R (follow rest o) (follow rest' o')
  Sim-follow rest rest' k (ok (again x)) (ok (again y)) h = k x y h
  Sim-follow rest rest' k (ok (again x)) (ok (stop y)) h = elim h [ ]
  Sim-follow rest rest' k (ok (stop x)) (ok (again y)) h = elim h [ ]
  Sim-follow rest rest' k (ok (stop x)) (ok (stop y)) h = h
  Sim-follow rest rest' k (ok (again x)) (err e) h = elim h [ ]
  Sim-follow rest rest' k (ok (stop x)) (err e) h = elim h [ ]
  Sim-follow rest rest' k (err e) (ok (again y)) h = elim h [ ]
  Sim-follow rest rest' k (err e) (ok (stop y)) h = elim h [ ]
  Sim-follow rest rest' k (err e) (err e') h = h

  Sim-loop : (fuel : ℕ) (x : X) (y : Y) → R x y → Sim R (loop step fuel x) (loop step' fuel y)
  unfolding loop
  Sim-loop zero x y h = refl
  Sim-loop (suc fuel) x y h =
      Sim-follow (loop step fuel) (loop step' fuel) (Sim-loop fuel) (step x) (step' y) (sim x y h)

  pub Sim-run :
      (measure : X → ℕ) (measure' : Y → ℕ) (x : X) (y : Y)
      → measure x ≡ measure' y
      → R x y
      → Sim R (run step measure x) (run step' measure' y)
  unfolding run
  Sim-run measure measure' x y same h =
      subst (λ n. Sim R (run step measure x) (loop step' (suc n) y)) same
        (Sim-loop (suc (measure x)) x y h)

pub Sim-at {ℓ κ} :
    {X : Type ℓ} {Y : Type κ} (R : X → Y → Type 0) (o o₁ : Outcome X) (o' o₁' : Outcome Y)
    → o ≡ o₁
    → o' ≡ o₁'
    → Sim R o₁ o₁'
    → Sim R o o'
Sim-at R o o₁ o' o₁' e e' h = subst (λ x. Sim R x o') (sym e) (subst (Sim R o₁) (sym e') h)
