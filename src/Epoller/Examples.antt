-- ===== src/Epoller/Examples.antt =====
-- The theorems on the Epoller at concrete tables.
use reyao.Common.{
  ◌==◌, ◌+◌, ◌≡◌, refl, arith, true, false, none, some, List, [], ◌∷◌, ◌++◌, ok, inl,
}
use reyao.Common.Slots.{slot, set_slot}
use reyao.Epoller.{Epoller, Events, no_events, epollin, wait, wake, ready, CtlOp}
use reyao.Epoller.Spec.{Spec, Watch, no_watch, resumes, calls, waiter_of, arrive}
use reyao.Epoller.Entries.{events_of}
use reyao.Epoller.Refinement.{Shows}
use reyao.Epoller.Adding.{add}
use reyao.Epoller.Waking.{expire}
use reyao.Epoller.Runs.{Op, adds, dels, waits, perform_all, promised_all, perform_all-promised}
use reyao.Epoller.Wakeups.{wake-unwatches}
use reyao.Epoller.Conservation.{Test, tasks_in, watches_in, wait-conserves}

-- Coroutine 7 of worker 1 reads from descriptor 1 of two, and function 9 of worker 2 writes to it.
abbrev both : Watch
both = record { reader = some (resumes 1 7); writer = some (calls 2 9) }

abbrev waiting : Spec
waiting = record { watches = no_watch ∷ both ∷ []; posts = [] }

abbrev table : Epoller
table = record {
  pending_events = 2;
  io_events = events_of 0 (no_watch ∷ both ∷ []);
  polling = true;
  ctls = [];
  posts = [];
}

table-Shows : Shows waiting table
table-Shows = record { events = refl; pending = refl; posts = refl; small = omega arith }

abbrev readable : Events
readable = record no_events { reading = true }

abbrev hung : Events
hung = record no_events { hang_up = true }

-- A coroutine waits to read from descriptor 4 of a new Epoller, and is woken.
abbrev nobody : Spec
nobody = record { watches = []; posts = [] }

abbrev new_epoller : Epoller
new_epoller = record { pending_events = 0; io_events = []; polling = false; ctls = []; posts = [] }

new_epoller-Shows : Shows nobody new_epoller
new_epoller-Shows = record { events = refl; pending = refl; posts = refl; small = omega arith }

abbrev reading_once : List Op
reading_once =
    adds 4 epollin none 1 7 true
    ∷ waits 1 [] (ready 4 readable true ∷ [])
    ∷ dels 4 epollin true
    ∷ []

abbrev one_reader : Watch
one_reader = record { reader = some (resumes 1 7); writer = none }

perform_all-promised_example :
    (e' : Epoller) × (perform_all reading_once new_epoller
      ≡ ok ((promised_all reading_once nobody).0, e'))
    × Shows (promised_all reading_once nobody).1 e'
perform_all-promised_example =
    perform_all-promised reading_once nobody new_epoller new_epoller-Shows
      ((omega arith, inl (omega arith)), ((one_reader, here, (λ h. refl, λ h. h), tt), (tt, tt)))
  where
    here :
        slot 4 (expire 1 [] (add 4 epollin (waiter_of none 1 7) true nobody).1).watches
        ≡ some one_reader
    here = unfold slot set_slot in refl

-- What the second worker gets to do.
abbrev for_second : Test
for_second (worker, task) = worker == 2

wait-conserves_example :
    (e' : Epoller) × (s' : Spec) × (wait 1 (3 ∷ []) (ready 1 hung true ∷ []) table ≡ ok e')
    × Shows s' e'
    × (tasks_in for_second e'.posts + watches_in for_second s'.watches ≡ 0 + 0 + 1)
wait-conserves_example =
    wait-conserves for_second 1 (3 ∷ []) (ready 1 hung true ∷ []) waiting table table-Shows
      (both, here, (λ h. refl, λ h. refl), tt)
  where
    here : slot 1 waiting.watches ≡ some both
    here = unfold slot in refl

-- Only reading is reported, and the function that waits to write is left.
wake-unwatches_example :
    (e' : Epoller) × (op : CtlOp) × (wake (ready 1 readable true) table ≡ ok e')
    × Shows (arrive 1 readable both waiting) e'
    × (e'.ctls ≡ [] ++ (record { op = op; fd = 1; events = no_events }) ∷ [])
wake-unwatches_example =
    wake-unwatches 1 readable true waiting table both table-Shows here (λ h. refl, λ h. refl) refl
  where
    here : slot 1 waiting.watches ≡ some both
    here = unfold slot in refl
