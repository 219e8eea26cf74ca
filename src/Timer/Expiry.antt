-- ===== src/Timer/Expiry.antt =====
-- `expiredFunctions`: which functions it hands out, and what is left in the set.
use reyao.Common.{
  ℕ, ◌+◌, ◌≤◌, ◌<◌, ◌≡◌, ◌≢◌, refl, sym, ap, ◌∙◌, subst, Bool, true, false, Option, none, List, [],
  ◌∷◌, ◌++◌, All, map,
}
use reyao.Timer.{Key, Timer, TimeManager, split, put, rearm, after, fire, expired_functions}
use reyao.Timer.Order.{IsSorted, insert-All, split_lem, Divided}
use reyao.Timer.Invariant.{
  Coherent, IsValid, Absent, write-other, All-apart, put-IsValid, write-IsValid,
}

-- No two keys are of one object.
abbrev Different : List Key → Type 0
Different [] = Unit
Different (k ∷ ks) = Absent k.id ks × Different ks

-- No key of the one list is of an object that the other has.
abbrev Apart : List Key → List Key → Type 0
Apart ks timers = All (λ k. Absent k.id timers) ks

sorted-Different :
    (heap : ℕ → Timer) (ks : List Key) → IsSorted ks → All (Coherent heap) ks → Different ks
sorted-Different heap [] s c = tt
sorted-Different heap (k ∷ ks) s c =
    (All-apart heap k ks (c.0) (c.1) (s.0), sorted-Different heap ks (s.1) (c.1))

All-front : (P : Key → Type 0) (xs ys : List Key) → All P (xs ++ ys) → All P xs
All-front P [] ys h = tt
All-front P (x ∷ xs) ys h = (h.0, All-front P xs ys (h.1))

All-back : (P : Key → Type 0) (xs ys : List Key) → All P (xs ++ ys) → All P ys
All-back P [] ys h = h
All-back P (x ∷ xs) ys h = All-back P xs ys (h.1)

Different-front : (xs ys : List Key) → Different (xs ++ ys) → Different xs
Different-front [] ys h = tt
Different-front (x ∷ xs) ys h =
    (All-front (λ k. k.id ≢ x.id) xs ys (h.0), Different-front xs ys (h.1))

Different-Apart : (xs ys : List Key) → Different (xs ++ ys) → Apart xs ys
Different-Apart [] ys h = tt
Different-Apart (x ∷ xs) ys h =
    (All-back (λ k. k.id ≢ x.id) xs ys (h.0), Different-Apart xs ys (h.1))

rearm-IsValid :
    (b : Bool) (now id : ℕ) (m : TimeManager)
    → IsValid m
    → Absent id m.timers
    → IsValid (rearm b now id m)
unfolding rearm
rearm-IsValid true now id m v n =
    put-IsValid id (record (m.heap id) { expire = now + (m.heap id).interval }) m v n
rearm-IsValid false now id m v n = write-IsValid id (record (m.heap id) { func = none }) m refl v

rearm-other :
    (b : Bool) (now id i : ℕ) (m : TimeManager) → i ≢ id → (rearm b now id m).heap i ≡ m.heap i
unfolding rearm put
rearm-other true now id i m n =
    write-other id i (record (m.heap id) { expire = now + (m.heap id).interval }) m.heap n
rearm-other false now id i m n = write-other id i (record (m.heap id) { func = none }) m.heap n

rearm-Absent :
    (b : Bool) (now id i : ℕ) (m : TimeManager)
    → i ≢ id
    → Absent i m.timers
    → Absent i (rearm b now id m).timers
unfolding rearm put
rearm-Absent true now id i m n a =
    insert-All (λ k. k.id ≢ i) (record { expire = now + (m.heap id).interval; id = id }) m.timers
      (λ e. n (sym e)) a
rearm-Absent false now id i m n a = a

rearm-Apart :
    (b : Bool) (now id : ℕ) (ks : List Key) (m : TimeManager)
    → Absent id ks
    → Apart ks m.timers
    → Apart ks (rearm b now id m).timers
rearm-Apart b now id [] m n a = tt
rearm-Apart b now id (x ∷ xs) m n a =
    (rearm-Absent b now id x.id m (n.0) (a.0), rearm-Apart b now id xs m (n.1) (a.1))

pub fire-IsValid :
    (now : ℕ) (ks : List Key) (m : TimeManager)
    → Different ks
    → Apart ks m.timers
    → IsValid m
    → IsValid (fire now ks m).1
unfolding fire
fire-IsValid now [] m d a v = v
fire-IsValid now (k ∷ ks) m d a v =
    fire-IsValid now ks (after now k.id m) (d.1)
      (rearm-Apart (m.heap k.id).recursive now k.id ks m (d.0) (a.1))
      (rearm-IsValid (m.heap k.id).recursive now k.id m v (a.0))

functions-after :
    (now : ℕ) (k : Key) (ks : List Key) (m : TimeManager)
    → Absent k.id ks
    → map (λ x. ((after now k.id m).heap x.id).func) ks ≡ map (λ x. (m.heap x.id).func) ks
functions-after now k [] m n = refl
functions-after now k (x ∷ xs) m n = cc (
  ap (λ t. t.func) (rearm-other (m.heap k.id).recursive now k.id x.id m (n.0)),
  functions-after now k xs m (n.1),
)

fire-functions :
    (now : ℕ) (ks : List Key) (m : TimeManager)
    → Different ks
    → (fire now ks m).0 ≡ map (λ k. (m.heap k.id).func) ks
unfolding fire
fire-functions now [] m d = refl
fire-functions now (k ∷ ks) m d =
    ap (◌∷◌ (m.heap k.id).func)
      (fire-functions now ks (after now k.id m) (d.1) ∙ functions-after now k ks m (d.0))

-- What `expiredFunctions` does to a valid manager. `due` and `left` are the two parts of its set.
pub record Expired (now : ℕ) (m : TimeManager) (result : List (Option ℕ) × TimeManager)
    (due left : List Key) : Type 0 where
  pub whole : due ++ left ≡ m.timers
  pub expired : All (λ k. k.expire ≤ now) due
  pub later : All (λ k. now < k.expire) left
  pub functions : result.0 ≡ map (λ k. (m.heap k.id).func) due
  pub valid : IsValid result.1

-- On a valid manager `expiredFunctions` divides the set, in its order, into the timers whose time
-- is not after now and the timers whose time is after now; the functions it hands out are those of
-- the first part, in order, and the manager it leaves is valid.
pub expired_functions_lem :
    (now probe : ℕ) (m : TimeManager)
    → IsValid m
    → Expired now m
        (expired_functions now probe m)
        (split now probe m.timers).0
        (split now probe m.timers).1
unfolding expired_functions
expired_functions_lem now probe m v =
    let parts = split now probe m.timers in
    let d : Divided now m.timers parts = split_lem now probe m.timers v.sorted in
    let different : Different (parts.0 ++ parts.1) =
      subst Different (sym d.whole) (sorted-Different m.heap m.timers v.sorted v.coherent) in
    let coherent : All (Coherent m.heap) (parts.0 ++ parts.1) =
      subst (All (Coherent m.heap)) (sym d.whole) v.coherent in
    let rest : TimeManager = record m { timers = parts.1 } in
    let valid : IsValid rest = record {
      sorted = d.sorted;
      coherent = All-back (Coherent m.heap) (parts.0) (parts.1) coherent;
    } in
    record {
      whole = d.whole;
      expired = d.expired;
      later = d.later;
      functions = fire-functions now (parts.0) rest (Different-front (parts.0) (parts.1) different);
      valid =
          fire-IsValid now (parts.0) rest (Different-front (parts.0) (parts.1) different)
            (Different-Apart (parts.0) (parts.1) different) valid;
    }
