-- ===== src/Common/Slots.antt =====
-- The elements of a std::vector by their index.
use Prim.Native.Nat.{ℕ, zero, suc, ◌<◌}
use mathlib.Core.Path.{◌≡◌, refl, sym, ap, ◌∙◌}
use mathlib.Core.Option.{Option, none, some}
use mathlib.Core.Bool.{true, false}
use mathlib.Core.List.{List, [], ◌∷◌}
use native.Mathlib.Omega.{arith}
use reyao.Common.Tests.{◌==◌, if◌then◌else◌}
use reyao.Common.Lists.{length}

-- `none` is behind the end.
unfoldable pub slot {ℓ} : {A : Type ℓ} → ℕ → List A → Option A
slot n [] = none
slot zero (x ∷ xs) = some x
slot (suc n) (x ∷ xs) = slot n xs

unfoldable pub set_slot {ℓ} : {A : Type ℓ} → ℕ → A → List A → List A
set_slot n x [] = []
set_slot zero x (y ∷ ys) = x ∷ ys
set_slot (suc n) x (y ∷ ys) = y ∷ set_slot n x ys

pub length-set_slot {ℓ} :
    {A : Type ℓ} (n : ℕ) (x : A) (xs : List A) → length (set_slot n x xs) ≡ length xs
unfolding set_slot
length-set_slot n x [] = refl
length-set_slot zero x (y ∷ ys) = refl
length-set_slot (suc n) x (y ∷ ys) = ap suc (length-set_slot n x ys)

pub slot_inside {ℓ} :
    {A : Type ℓ} (n : ℕ) (x : A) (xs : List A) → slot n xs ≡ some x → n < length xs
unfolding slot
slot_inside n x [] h = absurd (cc h)
slot_inside zero x (y ∷ ys) h = omega arith
slot_inside (suc n) x (y ∷ ys) h = omega (arith, slot_inside n x ys h)

pub slot_there {ℓ} :
    {A : Type ℓ} (n : ℕ) (xs : List A) → n < length xs → (x : A) × (slot n xs ≡ some x)
unfolding slot
slot_there n [] h = absurd (omega arith)
slot_there zero (x ∷ xs) h = (x, refl)
slot_there (suc n) (x ∷ xs) h = slot_there n xs (omega arith)

pub slot-set_slot {ℓ} :
    {A : Type ℓ} (n j : ℕ) (x : A) (xs : List A)
    → n < length xs
    → slot j (set_slot n x xs) ≡ (if j == n then some x else slot j xs)
unfolding slot set_slot
slot-set_slot n j x [] h = absurd (omega arith)
slot-set_slot zero zero x (y ∷ ys) h = refl
slot-set_slot zero (suc j) x (y ∷ ys) h = let e : (suc j == 0) ≡ false = ground arith in simp e
slot-set_slot (suc n) zero x (y ∷ ys) h = let e : (0 == suc n) ≡ false = ground arith in simp e
slot-set_slot (suc n) (suc j) x (y ∷ ys) h =
    let e : (suc j == suc n) ≡ (j == n) = ground arith in
    slot-set_slot n j x ys (omega arith) ∙ ap (λ b. if b then some x else slot j ys) (sym e)

pub slot-set_slot_same {ℓ} :
    {A : Type ℓ} (n : ℕ) (x : A) (xs : List A) → n < length xs → slot n (set_slot n x xs) ≡ some x
slot-set_slot_same n x xs h =
    let e : (n == n) ≡ true = ground arith in
    slot-set_slot n n x xs h ∙ ap (λ b. if b then some x else slot n xs) e
