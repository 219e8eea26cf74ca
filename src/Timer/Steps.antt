-- ===== src/Timer/Steps.antt =====
-- The operations on the timers as steps, each under the manager's mutex, and what holds after any
-- sequence of them.
use reyao.Common.{
  ℕ, ◌+◌, ◌≤◌, ◌<◌, ◌≡◌, refl, arith, Bool, true, not, ◌&&◌, Option, none, some, List, [], ◌∷◌, ltb,
  ◌==◌, Bool-cases, All, inl, inr,
}
use reyao.Timer.{
  Key, Timer, TimeManager, key_of, has_key, put, erase, create, add_timer, cancel, refresh, reset,
  restarted, get_expire, expired_functions, is_none, at_front,
}
use reyao.Timer.Order.{IsSorted, Before}
use reyao.Timer.Invariant.{
  IsValid, Absent, noted-IsValid, reput-IsValid, add_timer-IsValid, cancel-IsValid, refresh-IsValid,
}
use reyao.Timer.Expiry.{expired_functions_lem}

-- A new object is not at the address of a timer that the set still holds.
pub data Step : TimeManager → TimeManager → Type 0 where
  added :
      {m : TimeManager} (now id interval func : ℕ) (recursive : Bool)
      → Absent id m.timers
      → Step m (add_timer now id interval func recursive m)
  cancelled : {m : TimeManager} (id : ℕ) → Step m (cancel id m).1
  refreshed : {m : TimeManager} (now id : ℕ) → Step m (refresh now id m).1
  changed :
      {m : TimeManager} (now id interval : ℕ) (from_now : Bool)
      → Step m (reset now id interval from_now m).1
  asked : {m : TimeManager} (now : ℕ) → Step m (get_expire now m).1
  fired : {m : TimeManager} (now probe : ℕ) → Step m (expired_functions now probe m).1

pub data Reachable (heap : ℕ → Timer) : TimeManager → Type 0 where
  start : Reachable heap (create heap)
  next : {m m' : TimeManager} → Reachable heap m → Step m m' → Reachable heap m'

reset-IsValid :
    (now id interval : ℕ) (from_now : Bool) (m : TimeManager)
    → IsValid m
    → IsValid (reset now id interval from_now m).1
unfolding reset
reset-IsValid now id interval from_now m v =
    let t = m.heap id in
    let t' = restarted now interval from_now t in
    let m' = put id t' (record m { timers = erase (key_of m id) m.timers }) in
    let w = reput-IsValid id t' m v in
    elim (Bool-cases (t.interval == interval && not from_now)) [
      | inl a ↦ simp a v
      | inr a ↦ elim (Bool-cases (is_none t.func)) [
        | inl e ↦ simp (a, e) v
        | inr e ↦ elim (Bool-cases (has_key (key_of m id) m.timers)) [
          | inl f ↦
              elim (Bool-cases (at_front (record { expire = t'.expire; id = id }) m'.timers)) [
                | inl g ↦ simp (a, e, f, g) (noted-IsValid true (m'.notified + 1) m' w)
                | inr g ↦ simp (a, e, f, g) w
              ]
          | inr f ↦ simp (a, e, f) v
        ]
      ]
    ]

get_expire-IsValid : (now : ℕ) (m : TimeManager) → IsValid m → IsValid (get_expire now m).1
unfolding get_expire
get_expire-IsValid now m v = by_timers m.timers v.sorted v.coherent
  where
    by_timers :
        (ks : List Key)
        → IsSorted ks
        → All (λ k. (m.heap k.id).expire ≡ k.expire) ks
        → IsValid (get_expire now (record m { timers = ks })).1
    by_timers [] s c = record { sorted = s; coherent = c }
    by_timers (k ∷ ks) s c = record { sorted = s; coherent = c }

Step-IsValid : (m m' : TimeManager) → IsValid m → Step m m' → IsValid m'
Step-IsValid m _ v (added now id interval func recursive n) =
    add_timer-IsValid now id interval func recursive m n v
Step-IsValid m _ v (cancelled id) = cancel-IsValid id m v
Step-IsValid m _ v (refreshed now id) = refresh-IsValid now id m v
Step-IsValid m _ v (changed now id interval from_now) = reset-IsValid now id interval from_now m v
Step-IsValid m _ v (asked now) = get_expire-IsValid now m v
Step-IsValid m _ v (fired now probe) = (expired_functions_lem now probe m v).valid

-- After any sequence of `addTimer`, `cancel`, `refresh`, `reset`, `getExpire` and
-- `expiredFunctions` on a new manager, in which no timer is created at the address of one that is
-- in the set, the set of timers is strictly in order and each of its keys has the time of its
-- timer.
pub Reachable-IsValid : (heap : ℕ → Timer) (m : TimeManager) → Reachable heap m → IsValid m
unfolding create
Reachable-IsValid heap _ start = record { sorted = tt; coherent = tt }
Reachable-IsValid heap m (next {m = before} r s) =
    Step-IsValid before m (Reachable-IsValid heap before r) s

-- What `getExpire` promises of the set: with a wait, at every moment before its end no timer is due,
-- but at its end one is, so that the caller neither wakes up for nothing nor sleeps past a timer.
abbrev pub Wakes : ℕ → Option ℕ → List Key → Type 0
Wakes now none ks = ks ≡ []
Wakes now (some wait) ks =
    ((t : ℕ) → now ≤ t → t < now + wait → All (λ k. t < k.expire) ks)
    × (k : Key) × (rest : List Key) × (ks ≡ k ∷ rest)
    × (k.expire ≤ now + wait)

rest_later :
    (t : ℕ) (k : Key) (ks : List Key)
    → t < k.expire
    → All (Before k) ks
    → All (λ x. t < x.expire) ks
rest_later t k [] h b = tt
rest_later t k (x ∷ xs) h b = (ground arith, rest_later t k xs h (b.1))

-- On a valid manager `getExpire` gives -1 only if there is no timer, and otherwise a wait such that
-- at no moment from now until before its end the time of a timer has come, and at its end that of
-- one has; for a timer whose time has come already the wait is thus over at once.
pub get_expire_lem :
    (now : ℕ) (m : TimeManager) → IsValid m → Wakes now (get_expire now m).0 m.timers
unfolding get_expire
get_expire_lem now m v = by_timers m.timers v.sorted
  where
    by_timers :
        (ks : List Key) → IsSorted ks → Wakes now (get_expire now (record m { timers = ks })).0 ks
    by_timers [] s = refl
    by_timers (k ∷ ks) s = elim (Bool-cases (ltb k.expire now)) [
      | inl past ↦ rw past ((λ t h n. absurd (omega (arith, h, n))), k, ks, refl, (ground arith))
      | inr not_past ↦
          let ahead : now ≤ k.expire = ground arith in
          rw not_past (
            (λ t h n.
                let here : t < k.expire = omega (arith, n, ahead, h) in
                (here, rest_later t k ks here (s.0))),
            k,
            ks,
            refl,
            omega (arith, ahead),
          )
    ]
