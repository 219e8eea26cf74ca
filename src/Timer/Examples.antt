-- ===== src/Timer/Examples.antt =====
-- The theorems on the timers at a manager with two of them, one of which is due.
use reyao.Common.{ℕ, refl, arith, inl, true, false, some, [], ◌∷◌, ◌==◌, if◌then◌else◌}
use reyao.Timer.{Timer, TimeManager, split, create, add_timer, expired_functions, get_expire}
use reyao.Timer.Invariant.{IsValid, Absent}
use reyao.Timer.Expiry.{Expired, expired_functions_lem}
use reyao.Timer.Steps.{Step, start, next, added, fired, Reachable-IsValid, get_expire_lem, Wakes}

-- Timer 7 is due at 100, any other at 200.
abbrev objects : ℕ → Timer
objects id =
    if id == 7
    then record { recursive = true; interval = 50; expire = 100; func = some 1 }
    else record { recursive = false; interval = 50; expire = 200; func = some 2 }

abbrev two_timers : TimeManager
two_timers = record {
  timers = record { expire = 100; id = 7 } ∷ record { expire = 200; id = 3 } ∷ [];
  heap = objects;
  need_notify = false;
  notified = 1;
}

two_timers-IsValid : IsValid two_timers
two_timers-IsValid = record {
  sorted = ((inl (omega arith), tt), (tt, tt));
  coherent = (refl, (refl, tt));
}

expired_functions_lem_example :
    Expired 150 two_timers
      (expired_functions 150 9 two_timers)
      (split 150 9 two_timers.timers).0
      (split 150 9 two_timers.timers).1
expired_functions_lem_example = expired_functions_lem 150 9 two_timers two_timers-IsValid

get_expire_lem_example : Wakes 60 (get_expire 60 two_timers).0 two_timers.timers
get_expire_lem_example = get_expire_lem 60 two_timers two_timers-IsValid

-- A timer is added, and fires.
abbrev with_timer : TimeManager
with_timer = add_timer 100 7 50 1 true (create objects)

Reachable-IsValid_example : IsValid (expired_functions 160 9 with_timer).1
Reachable-IsValid_example =
    let empty : TimeManager = create objects in
    let none_there : Absent 7 empty.timers = unfold create in tt in
    let put_in : Step empty with_timer = added 100 7 50 1 true none_there in
    Reachable-IsValid objects (expired_functions 160 9 with_timer).1
      (next (next start put_in) (fired 160 9))
