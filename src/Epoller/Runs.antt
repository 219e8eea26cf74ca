-- ===== src/Epoller/Runs.antt =====
-- Sequences of operations on an Epoller, from the empty one on.
use reyao.Common.{
  ℕ, ◌^◌, ◌<◌, ◌≡◌, refl, ap, ◌∙◌, Bool, true, Option, List, [], ◌∷◌, ok, Outcome, ◌>>=◌,
}
use reyao.Epoller.{EventType, Epoller, add_event, del_event}
use reyao.Epoller.Spec.{waiter_of, Spec, forget, on_watch}
use reyao.Epoller.Refinement.{Shows}
use reyao.Epoller.{handle_event, handle_all_event}
use reyao.Epoller.Spec.{handle, handle_all}
use reyao.Epoller.{wait, Report, handle_all_event, handle_event}
use reyao.Epoller.Spec.{handle, handle_all, arrive_all}
use reyao.Epoller.Operations.{Gives, del_event-Gives, handle_event-Gives}
use reyao.Epoller.Waking.{handle_all_event-Gives, wait-Shows, expire, AreSound}
use reyao.Epoller.Adding.{add, add_event-Gives, HasPlace}

-- What is called, with the answers of the kernel.
pub data Op : Type 0 where
  adds : ℕ → EventType → Option ℕ → ℕ → ℕ → Bool → Op
  dels : ℕ → EventType → Bool → Op
  handles : ℕ → EventType → Bool → Op
  handles_all : ℕ → Bool → Op
  waits : ℕ → List ℕ → List Report → Op

unfoldable pub perform : Op → Epoller → Outcome (Bool × Epoller)
perform (adds fd type func worker co success) e = add_event fd type func worker co success e
perform (dels fd type success) e = del_event fd type success e
perform (handles fd type success) e = handle_event fd type success e
perform (handles_all fd success) e = handle_all_event fd success e
perform (waits worker expired reports) e = do e' ← wait worker expired reports e; ok (true, e')

abbrev pub promised : Op → Spec → Bool × Spec
promised (adds fd type func worker co success) s = add fd type (waiter_of func worker co) success s
promised (dels fd type success) s = on_watch fd success (forget fd type) s
promised (handles fd type success) s = on_watch fd success (handle fd type) s
promised (handles_all fd success) s = on_watch fd success (handle_all fd) s
promised (waits worker expired reports) s = (true, arrive_all reports (expire worker expired s))

-- A descriptor is below 2^30 and the table has or gets a place for it, and the kernel reports what is
-- waited for.
abbrev pub Allowed : Op → Spec → Type 0
Allowed (adds fd type func worker co success) s = (fd < 2 ^ 30) × HasPlace fd s
Allowed (dels fd type success) s = Unit
Allowed (handles fd type success) s = Unit
Allowed (handles_all fd success) s = Unit
Allowed (waits worker expired reports) s = AreSound reports (expire worker expired s)

perform-Gives :
    (op : Op) (s : Spec) (e : Epoller)
    → Shows s e
    → Allowed op s
    → Gives (promised op s) (perform op e)
unfolding perform
perform-Gives (adds fd type func worker co success) s e v (small, place) =
    add_event-Gives fd type func worker co success s e v small place
perform-Gives (dels fd type success) s e v a = del_event-Gives fd type success s e v
perform-Gives (handles fd type success) s e v a = handle_event-Gives fd type success s e v
perform-Gives (handles_all fd success) s e v a = handle_all_event-Gives fd success s e v
perform-Gives (waits worker expired reports) s e v a =
    let (e', f, v') = wait-Shows worker expired reports s e v a in
    (e', ap (λ (o : Outcome Epoller). o >>= λ e'. ok (true, e')) f, v')

-- The answers of a sequence of operations, and the state behind it.
unfoldable pub perform_all : List Op → Epoller → Outcome (List Bool × Epoller)
unfolding perform
perform_all [] e = ok ([], e)
perform_all (op ∷ ops) e = do
  (b, e') ← perform op e
  (bs, e'') ← perform_all ops e'
  ok (b ∷ bs, e'')

abbrev pub promised_all : List Op → Spec → List Bool × Spec
promised_all [] s = ([], s)
promised_all (op ∷ ops) s =
    let (b, s') = promised op s in let (bs, s'') = promised_all ops s' in (b ∷ bs, s'')

abbrev pub AllAllowed : List Op → Spec → Type 0
AllAllowed [] s = Unit
AllAllowed (op ∷ ops) s = Allowed op s × AllAllowed ops (promised op s).1

-- The Epoller implements its abstract specification, a table of who waits for what: from a table
-- that represents a state of it, any sequence of addEvent, delEvent, handleEvent, handleAllEvent
-- and rounds of wait fails no assertion, gives the promised answers, and leaves a table that
-- represents the promised state, with pendingEvents_ the number of waiters and the promised tasks
-- handed to workers; provided that the table has less than 2^31 entries, that each descriptor added
-- to is below 2^30 and the table has or gets a place for it, and that the kernel reports only what
-- is waited for.
pub perform_all-promised :
    (ops : List Op) (s : Spec) (e : Epoller)
    → Shows s e
    → AllAllowed ops s
    → (e' : Epoller) × (perform_all ops e ≡ ok ((promised_all ops s).0, e'))
      × Shows (promised_all ops s).1 e'
unfolding perform_all
perform_all-promised [] s e v a = (e, refl, v)
perform_all-promised (op ∷ ops) s e v (a, rest) =
    let (e1, f1, v1) = perform-Gives op s e v a in
    let (e2, f2, v2) = perform_all-promised ops (promised op s).1 e1 v1 rest in
    (
      e2,
      ap
            (λ (o : Outcome (Bool × Epoller)).
              o >>= λ (b, e'). perform_all ops e' >>= λ (bs, e''). ok (b ∷ bs, e''))
            f1
          ∙ ap
              (λ (o : Outcome (List Bool × Epoller)).
                o >>= λ (bs, e''). ok ((promised op s).0 ∷ bs, e''))
              f2,
      v2,
    )
