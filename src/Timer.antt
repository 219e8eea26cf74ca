-- ===== src/Timer.antt =====
-- reyao/timer.h and timer.cc. Times are milliseconds of a clock that has not reached 2^63, and
-- intervals are not negative, so no sum wraps around. The clock's value is an argument, `now`.
-- A Timer object is known by its address; `heap` is what the addresses hold. The set of timers is
-- ordered by `expire_` and the address. The code writes `expire_` only of a timer that it has just
-- taken out of the set, so an element of the set is kept as the pair that it is ordered by.
-- The mutex is held in every operation, so each is one step.
pub mod Order
pub mod Invariant
pub mod Expiry
pub mod Steps
mod Examples
use reyao.Common.{
  ℕ, ◌+◌, ◌-◌, ◌≡◌, refl, Bool, true, false, not, ◌&&◌, ◌||◌, Option, none, some, List, [], ◌∷◌,
  ◌++◌, ltb, ◌==◌, if◌then◌else◌,
}

pub record Key : Type 0 where
  pub expire : ℕ
  pub id : ℕ

-- `func_` is known by a number; `none` is the empty function.
pub record Timer : Type 0 where
  pub recursive : Bool
  pub interval : ℕ
  pub expire : ℕ
  pub func : Option ℕ

pub record TimeManager : Type 0 where
  pub timers : List Key
  pub heap : ℕ → Timer
  pub need_notify : Bool
  -- The calls of `timerInsertAtFront`.
  pub notified : ℕ

-- `Timer::Comparator` on two timers that are there.
unfoldable pub key_less : Key → Key → Bool
key_less a b =
    if ltb a.expire b.expire then true else if ltb b.expire a.expire then false else ltb a.id b.id

abbrev pub key_eq : Key → Key → Bool
key_eq a b = not (key_less a b) && not (key_less b a)

-- std::set: `insert`, which leaves an equal element alone, `find` and `erase`.
unfoldable pub insert : Key → List Key → List Key
unfolding key_less
insert k [] = k ∷ []
insert k (x ∷ xs) =
    let rest = insert k xs in
    if key_less k x then k ∷ x ∷ xs else if key_less x k then x ∷ rest else x ∷ xs

unfoldable pub has_key : Key → List Key → Bool
unfolding key_less
has_key k [] = false
has_key k (x ∷ xs) = key_eq k x || has_key k xs

unfoldable pub erase : Key → List Key → List Key
unfolding key_less
erase k [] = []
erase k (x ∷ xs) = let rest = erase k xs in if key_eq k x then xs else x ∷ rest

unfoldable pub at_front : Key → List Key → Bool
unfolding key_less
at_front k [] = false
at_front k (x ∷ xs) = key_eq k x

unfoldable pub write : ℕ → Timer → (ℕ → Timer) → ℕ → Timer
write id t heap i = if i == id then t else heap i

abbrev pub is_none : Option ℕ → Bool
is_none none = true
is_none (some f) = false

abbrev pub key_of : TimeManager → ℕ → Key
key_of m id = record { expire = (m.heap id).expire; id = id }

unfoldable pub create : (ℕ → Timer) → TimeManager
create heap = record { timers = []; heap = heap; need_notify = false; notified = 0 }

-- The timer `id` with a new interval and time, put into the set.
unfoldable pub put : ℕ → Timer → TimeManager → TimeManager
unfolding insert write
put id t m = record m {
  timers = insert (record { expire = t.expire; id = id }) m.timers;
  heap = write id t m.heap;
}

-- `addTimer`, where `id` is the address of the new object.
unfoldable pub add_timer : ℕ → ℕ → ℕ → ℕ → Bool → TimeManager → TimeManager
unfolding put at_front
add_timer now id interval func recursive m =
    let t : Timer = record {
      recursive = recursive;
      interval = interval;
      expire = now + interval;
      func = some func;
    } in
    let m' = put id t m in
    record m' {
      notified =
          if at_front (record { expire = now + interval; id = id }) m'.timers
          then m'.notified + 1
          else m'.notified;
    }

unfoldable pub cancel : ℕ → TimeManager → Bool × TimeManager
unfolding write has_key erase
cancel id m =
    let t = m.heap id in
    let m' = record m { heap = write id (record t { func = none }) m.heap } in
    if is_none t.func
    then (false, m)
    else if has_key (key_of m id) m.timers
    then (true, record m' { timers = erase (key_of m id) m.timers })
    else (false, m')

unfoldable pub refresh : ℕ → ℕ → TimeManager → Bool × TimeManager
unfolding has_key erase put
refresh now id m =
    let t = m.heap id in
    if is_none t.func
    then (false, m)
    else if has_key (key_of m id) m.timers
    then (
      true,
      put id (record t { expire = now + t.interval })
          (record m { timers = erase (key_of m id) m.timers }),
    )
    else (false, m)

-- The timer after `reset`: it starts now, or when it last started.
unfoldable pub restarted : ℕ → ℕ → Bool → Timer → Timer
restarted now interval from_now t = record t {
  interval = interval;
  expire = (if from_now then now else t.expire - t.interval) + interval;
}

unfoldable pub reset : ℕ → ℕ → ℕ → Bool → TimeManager → Bool × TimeManager
unfolding has_key erase put at_front restarted
reset now id interval from_now m =
    let t = m.heap id in
    let t' = restarted now interval from_now t in
    let m' = put id t' (record m { timers = erase (key_of m id) m.timers }) in
    let noted = record m' { need_notify = true; notified = m'.notified + 1 } in
    if t.interval == interval && not from_now
    then (true, m)
    else if is_none t.func
    then (false, m)
    else if has_key (key_of m id) m.timers
    then (true, (if at_front (record { expire = t'.expire; id = id }) m'.timers then noted else m'))
    else (false, m)

-- `none` is -1: there is no timer.
unfoldable pub get_expire : ℕ → TimeManager → Option ℕ × TimeManager
get_expire now m =
    let m' = record m { need_notify = false } in
    elim m.timers [
      | [] ↦ (none, m')
      | k ∷ ks ↦ (some (if ltb k.expire now then 0 else k.expire - now), m')
    ]

-- The part of the set in front of `lower_bound(now_timer)` and of the loop behind it, and the rest;
-- `probe` is the address of `now_timer`.
unfoldable pub skip_now : ℕ → List Key → List Key × List Key
skip_now now [] = ([], [])
skip_now now (k ∷ ks) =
    let rest = skip_now now ks in if k.expire == now then (k ∷ rest.0, rest.1) else ([], k ∷ ks)

unfoldable pub split : ℕ → ℕ → List Key → List Key × List Key
unfolding key_less skip_now
split now probe [] = ([], [])
split now probe (k ∷ ks) =
    let rest = split now probe ks in
    if key_less k (record { expire = now; id = probe })
    then (k ∷ rest.0, rest.1)
    else skip_now now (k ∷ ks)

-- What becomes of a timer that has expired: a recursive one is put back, another loses its function.
unfoldable pub rearm : Bool → ℕ → ℕ → TimeManager → TimeManager
unfolding put write
rearm true now id m = let t = m.heap id in put id (record t { expire = now + t.interval }) m
rearm false now id m = record m { heap = write id (record (m.heap id) { func = none }) m.heap }

abbrev pub after : ℕ → ℕ → TimeManager → TimeManager
after now id m = rearm (m.heap id).recursive now id m

-- The loop over the timers that have expired.
unfoldable pub fire : ℕ → List Key → TimeManager → List (Option ℕ) × TimeManager
unfolding rearm
fire now [] m = ([], m)
fire now (k ∷ ks) m =
    let rest = fire now ks (after now k.id m) in ((m.heap k.id).func ∷ rest.0, rest.1)

unfoldable pub expired_functions : ℕ → ℕ → TimeManager → List (Option ℕ) × TimeManager
unfolding split fire
expired_functions now probe m =
    let parts = split now probe m.timers in fire now parts.0 (record m { timers = parts.1 })

unfoldable pub has_timer : TimeManager → Bool
has_timer m = elim m.timers [ [] ↦ false | k ∷ ks ↦ true ]
