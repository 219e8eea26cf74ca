-- ===== src/Epoller/Operations.antt =====
-- Each operation of Epoller.antt does what Epoller/Spec.antt says, on a table that represents its state.
use reyao.Common.{
  ℕ, ◌^◌, ◌<◌, arith, leb, length, ◌≡◌, refl, sym, ap, ◌∙◌, subst, Bool, true, false, Option, none,
  some, if◌then◌else◌, ok, Bool-cases, Option-cases, inl, inr, Outcome,
}
use reyao.Common.Ints.{int_leb, int_leb_small}
use reyao.Common.Slots.{slot, set_slot, slot_there, slot_inside}
use reyao.Epoller.{
  Events, IoEvent, EventType, bit, bits_and, bits_or, bits_not, any, Epoller, del_event, del_at,
  call_ctl,
}
use reyao.Epoller.Spec.{Waiter, Watch, waiter, set_waiter, Spec, forget, on_watch}
use reyao.Epoller.Entries.{event_of, has_type, reset_event_ctx-waiting, types_of, length-events_of}
use mathlib.Core.Option
use reyao.Epoller.Refinement.{Shows, shown_slot, put-Shows, one_fewer, fire-waiting}
use reyao.Epoller.{ctl_mod, ctl_del, epollet, handle_at, handle_event, at_entry}
use reyao.Epoller.Spec.{handle}

-- The outcome of an operation: the answer, and a table that represents the state.
abbrev pub Gives : Bool × Spec → Outcome (Bool × Epoller) → Type 0
Gives (b, s) o = (e : Epoller) × (o ≡ ok (b, e)) × Shows s e

pub call_ctl-Shows :
    (s : Spec) (e : Epoller) (op : _) (fd : ℕ) (events : Events)
    → Shows s e
    → Shows s (call_ctl op fd events e)
unfolding call_ctl
call_ctl-Shows s e op fd events v = record {
  events = v.events;
  pending = v.pending;
  posts = v.posts;
  small = v.small;
}

Gives-same : (p : Bool × Spec) {o o' : Outcome (Bool × Epoller)} → o ≡ o' → Gives p o → Gives p o'
Gives-same p e g = subst (Gives p) e g

at_entry_missing :
    (fd : ℕ) (action : IoEvent → Epoller → Outcome (Bool × Epoller)) (e : Epoller)
    → length e.io_events < 2 ^ 31
    → slot fd e.io_events ≡ none
    → at_entry fd action e ≡ ok (false, e)
at_entry_missing fd action e fits h =
    let exact = int_leb_small (length e.io_events) fd fits in
    let out : int_leb (length e.io_events) fd ≡ true =
      exact ∙ outside (leb (length e.io_events) fd) refl in
    simp (at_entry, out)
  where
    outside : (b : Bool) → leb (length e.io_events) fd ≡ b → b ≡ true
    outside true p = refl
    outside false p =
        let (event, there) = slot_there fd e.io_events (ground arith) in absurd (cc (sym there ∙ h))

at_entry_there :
    (fd : ℕ) (action : IoEvent → Epoller → Outcome (Bool × Epoller)) (e : Epoller) (event : IoEvent)
    → length e.io_events < 2 ^ 31
    → slot fd e.io_events ≡ some event
    → at_entry fd action e ≡ action event e
at_entry_there fd action e event fits h =
    let exact = int_leb_small (length e.io_events) fd fits in
    let inside = slot_inside fd event e.io_events h in
    let passes : int_leb (length e.io_events) fd ≡ false = exact ∙ ground (arith, inside) in
    simp (at_entry, passes, h)

shown_small : (s : Spec) (e : Epoller) → Shows s e → length e.io_events < 2 ^ 31
shown_small s e v = omega (arith, ap length v.events, length-events_of 0 s.watches, v.small)

missing_entry :
    (s : Spec) (e : Epoller) (fd : ℕ)
    → Shows s e
    → slot fd s.watches ≡ none
    → slot fd e.io_events ≡ none
missing_entry s e fd v h = shown_slot s e fd v ∙ ap (Option.map (event_of fd)) h

pub shown_entry :
    (s : Spec) (e : Epoller) (fd : ℕ) (w : Watch)
    → Shows s e
    → slot fd s.watches ≡ some w
    → slot fd e.io_events ≡ some (event_of fd w)
shown_entry s e fd w v h = shown_slot s e fd v ∙ ap (Option.map (event_of fd)) h

pub entry-Gives :
    (success : Bool) (s : Spec) (e : Epoller) (fd : ℕ)
    (action : Bool → IoEvent → Epoller → Outcome (Bool × Epoller))
    (promised : Watch → Spec → Bool × Spec)
    → Shows s e
    → ((w : Watch)
        → slot fd s.watches ≡ some w
        → Gives (promised w s) (action true (event_of fd w) e))
    → ((w : Watch) → Gives (false, s) (action false (event_of fd w) e))
    → Gives (on_watch fd success promised s) (at_entry fd (action success) e)
entry-Gives success s e fd action promised v does refused =
    elim (Option-cases (slot fd s.watches)) [
      | inl none_here ↦ missing success none_here
      | inr (w, here) ↦ found success w here
    ]
  where
    missing :
        (b : Bool)
        → slot fd s.watches ≡ none
        → Gives (on_watch fd b promised s) (at_entry fd (action b) e)
    missing true h =
        rw (on_watch, h)
          (e, at_entry_missing fd (action true) e (shown_small s e v) (missing_entry s e fd v h), v)
    missing false h =
        (e, at_entry_missing fd (action false) e (shown_small s e v) (missing_entry s e fd v h), v)

    found :
        (b : Bool) (w : Watch)
        → slot fd s.watches ≡ some w
        → Gives (on_watch fd b promised s) (at_entry fd (action b) e)
    found true w h =
        rw (on_watch, h)
          (Gives-same (promised w s)
            (sym (
              at_entry_there fd (action true) e (event_of fd w) (shown_small s e v)
                (shown_entry s e fd w v h)))
            (does w h))
    found false w h =
        Gives-same (false, s)
          (sym (
            at_entry_there fd (action false) e (event_of fd w) (shown_small s e v)
              (shown_entry s e fd w v h)))
          (refused w)

del_at-refused :
    (s : Spec) (e : Epoller) (fd : ℕ) (type : EventType) (w : Watch)
    → Shows s e
    → Gives (false, s) (del_at fd type false (event_of fd w) e)
unfolding del_at
del_at-refused s e fd type w v = elim (Bool-cases (any (bits_and (types_of w) (bit type)))) [
  | inl t ↦ simp t (_, refl, call_ctl-Shows s e _ fd _ v)
  | inr t ↦ simp t (e, refl, v)
]

del_at-Gives :
    (s : Spec) (e : Epoller) (fd : ℕ) (type : EventType) (w : Watch) (o : Option Waiter)
    → Shows s e
    → slot fd s.watches ≡ some w
    → waiter type w ≡ o
    → Gives (forget fd type w s) (del_at fd type true (event_of fd w) e)
unfolding del_at call_ctl
del_at-Gives s e fd type w none v here waits = simp (has_type type w, waits) (e, refl, v)
del_at-Gives s e fd type w (some x) v here waits =
    simp (has_type type w, waits)
      (
        _,
        refl,
        put-Shows s e _ fd w (set_waiter type none w) v here
            (ap (λ u. set_slot fd u e.io_events) (reset_event_ctx-waiting type fd w))
            (one_fewer s e fd type w x v here waits) s.posts v.posts,
      )

-- `delEvent` forgets the waiter.
pub del_event-Gives :
    (fd : ℕ) (type : EventType) (success : Bool) (s : Spec) (e : Epoller)
    → Shows s e
    → Gives (on_watch fd success (forget fd type) s) (del_event fd type success e)
unfolding del_event
del_event-Gives fd type success s e v =
    entry-Gives success s e fd (del_at fd type) (forget fd type) v
      (λ w here. del_at-Gives s e fd type w (waiter type w) v here refl)
      (λ w. del_at-refused s e fd type w v)

handle_at-refused :
    (s : Spec) (e : Epoller) (fd : ℕ) (type : EventType) (w : Watch)
    → Shows s e
    → Gives (false, s) (handle_at fd type false (event_of fd w) e)
unfolding handle_at
handle_at-refused s e fd type w v = elim (Bool-cases (any (bits_and (types_of w) (bit type)))) [
  | inl t ↦ simp t (_, refl, call_ctl-Shows s e _ fd _ v)
  | inr t ↦ simp t (e, refl, v)
]

handle_at-Gives :
    (s : Spec) (e : Epoller) (fd : ℕ) (type : EventType) (w : Watch) (o : Option Waiter)
    → Shows s e
    → slot fd s.watches ≡ some w
    → waiter type w ≡ o
    → Gives (handle fd type w s) (handle_at fd type true (event_of fd w) e)
unfolding handle_at
handle_at-Gives s e fd type w none v here waits = simp (has_type type w, waits) (e, refl, v)
handle_at-Gives s e fd type w (some x) v here waits =
    let new_types = bits_and (types_of w) (bits_not (bit type)) in
    let called =
      call_ctl (if any new_types then ctl_mod else ctl_del) fd (bits_or epollet new_types) e in
    let (e', fired, v') =
      fire-waiting s called fd type w x (call_ctl-Shows s e _ fd _ v) here waits in
    simp (has_type type w, waits, fired) (e', refl, v')

-- `handleEvent` hands the waiter over.
pub handle_event-Gives :
    (fd : ℕ) (type : EventType) (success : Bool) (s : Spec) (e : Epoller)
    → Shows s e
    → Gives (on_watch fd success (handle fd type) s) (handle_event fd type success e)
unfolding handle_event
handle_event-Gives fd type success s e v =
    entry-Gives success s e fd (handle_at fd type) (handle fd type) v
      (λ w here. handle_at-Gives s e fd type w (waiter type w) v here refl)
      (λ w. handle_at-refused s e fd type w v)
