-- ===== src/Epoller/Adding.antt =====
-- `addEvent` on a table that represents its state.
use reyao.Common.{
  ℕ, ◌+◌, ◌-◌, ◌*◌, ◌/◌, ◌^◌, ◌≤◌, ◌<◌, ◌≡◌, refl, sym, ap, ◌∙◌, arith, Bool, true, false, Option,
  none, some, List, ◌++◌, length, replicate, leb, Bool-cases, inl, inr, ◌⊎◌, err, fault, take_all,
  length-append, length-replicate,
}
use reyao.Common.Ints.{int_leb, int_leb_small}
use reyao.Common.Slots.{slot, slot_there}
use reyao.Epoller.{IoEvent, EventType, fresh, Epoller, resize, grow, add_at, add_event, call_ctl}
use reyao.Epoller.Spec.{
  Waiter, waiter_of, Watch, no_watch, is_some, waiter, set_waiter, Spec, widen, come, on_watch,
}
use reyao.Epoller.Entries.{
  event_of, events_of, length-events_of, fresh-events_of, events_of-append, count-append,
  count-no_watch, has_type, arm-free,
}
use reyao.Epoller.Refinement.{Shows, put-Shows, one_further}
use reyao.Epoller.Operations.{Gives, call_ctl-Shows, shown_entry}

-- A descriptor that the table has a place for, or that it is grown for.
abbrev pub HasPlace : ℕ → Spec → Type 0
HasPlace fd s = (2 ≤ fd) ⊎ (fd < length s.watches)

widened :
    (fd : ℕ) (s : Spec)
    → length s.watches ≤ fd
    → widen fd s
      ≡ record s { watches = s.watches ++ replicate (fd * 3 / 2 - length s.watches) no_watch }
widened fd s h =
    let short : leb (length s.watches) fd ≡ true = ground arith in
    let all = take_all (fd * 3 / 2) s.watches (omega arith) in simp (widen, short, all) refl

grown :
    (fd : ℕ) (ws : List Watch) (e : Epoller)
    → e.io_events ≡ events_of 0 ws
    → length ws < 2 ^ 31
    → length ws ≤ fd
    → (grow fd e).io_events ≡ events_of 0 (ws ++ replicate (fd * 3 / 2 - length ws) no_watch)
unfolding grow resize
grown fd ws e h fits short =
    let n = length-events_of 0 ws in
    let size : length e.io_events ≡ length ws = ap length h ∙ n in
    let exact = int_leb_small (length e.io_events) fd (omega (arith, size, fits)) in
    let yes : int_leb (length e.io_events) fd ≡ true = exact ∙ ground (arith, size) in
    let all = take_all (fd * 3 / 2) e.io_events (omega (arith, size)) in
    simp yes (
      ap (◌++ fresh (length e.io_events) (fd * 3 / 2 - length e.io_events)) (all ∙ h)
      ∙ ap (λ k. events_of 0 ws ++ fresh k (fd * 3 / 2 - k)) size
      ∙ ap (events_of 0 ws ++◌) (fresh-events_of (length ws) (fd * 3 / 2 - length ws))
      ∙ (let z : length ws ≡ 0 + length ws = omega arith in
          ap (λ k. events_of 0 ws ++ events_of k (replicate (fd * 3 / 2 - length ws) no_watch)) z)
      ∙ sym (events_of-append 0 ws (replicate (fd * 3 / 2 - length ws) no_watch)))

grow_keeps :
    (fd : ℕ) (e : Epoller)
    → ((grow fd e).pending_events ≡ e.pending_events) × ((grow fd e).posts ≡ e.posts)
unfolding grow resize
grow_keeps fd e = elim (Bool-cases (int_leb (length e.io_events) fd)) [
  | inl h ↦ simp h (refl, refl)
  | inr h ↦ simp h (refl, refl)
]

grow_long :
    (fd : ℕ) (e : Epoller) → length e.io_events < 2 ^ 31 → fd < length e.io_events → grow fd e ≡ e
unfolding grow
grow_long fd e fits h =
    let exact = int_leb_small (length e.io_events) fd fits in
    let no : int_leb (length e.io_events) fd ≡ false = exact ∙ ground arith in simp no refl

grow-Shows :
    (fd : ℕ) (s : Spec) (e : Epoller) → Shows s e → fd < 2 ^ 30 → Shows (widen fd s) (grow fd e)
grow-Shows fd s e v small = elim (Bool-cases (leb (length s.watches) fd)) [
  | inl h ↦
      let short : length s.watches ≤ fd = ground arith in
      let more = replicate (fd * 3 / 2 - length s.watches) no_watch in
      rw (widened fd s short) (record {
        events = grown fd s.watches e v.events v.small short;
        pending =
            (grow_keeps fd e).0
            ∙ v.pending
            ∙ (omega (
              arith,
              count-append s.watches more,
              count-no_watch (fd * 3 / 2 - length s.watches),
            ));
        posts = (grow_keeps fd e).1 ∙ v.posts;
        small = omega (
          arith,
          length-append s.watches more,
          length-replicate {A = Watch} (fd * 3 / 2 - length s.watches) no_watch,
        );
      })
  | inr h ↦
      let long : fd < length s.watches = ground arith in
      let size = ap length v.events ∙ length-events_of 0 s.watches in
      let same = grow_long fd e (omega (arith, size, v.small)) (omega (arith, size)) in
      simp h (rw same v)
]

add_at-refused :
    (s : Spec) (e : Epoller) (fd : ℕ) (type : EventType) (func : Option ℕ) (worker co : ℕ)
    (w : Watch)
    → Shows s e
    → Gives (false, s) (add_at fd type func worker co false (event_of fd w) e)
unfolding add_at
add_at-refused s e fd type func worker co w v = elim (Bool-cases (is_some (waiter type w))) [
  | inl t ↦ simp (has_type type w, t) (e, refl, v)
  | inr t ↦ simp (has_type type w, t) (_, refl, call_ctl-Shows s e _ fd _ v)
]

add_at-Gives :
    (s : Spec) (e : Epoller) (fd : ℕ) (type : EventType) (func : Option ℕ) (worker co : ℕ)
    (w : Watch) (o : Option Waiter)
    → Shows s e
    → slot fd s.watches ≡ some w
    → waiter type w ≡ o
    → Gives
        (come fd type (waiter_of func worker co) w o s)
        (add_at fd type func worker co true (event_of fd w) e)
unfolding add_at call_ctl
add_at-Gives s e fd type func worker co w (some x) v here waits =
    simp (has_type type w, waits) (e, refl, v)
add_at-Gives s e fd type func worker co w none v here waits =
    let x = waiter_of func worker co in
    simp (has_type type w, waits, arm-free type func worker co fd w waits)
      (
        _,
        refl,
        put-Shows s e _ fd w (set_waiter type (some x) w) v here refl
            (one_further s e type w x v waits) s.posts v.posts,
      )

-- The waiter comes to its descriptor, if epoll agrees.
abbrev pub add : ℕ → EventType → Waiter → Bool → Spec → Bool × Spec
add fd type x success s =
    on_watch fd success (λ w s'. come fd type x w (waiter type w) s') (widen fd s)

place_found :
    (fd : ℕ) (s : Spec) → HasPlace fd s → (w : Watch) × (slot fd (widen fd s).watches ≡ some w)
place_found fd s h = slot_there fd (widen fd s).watches (wide fd s h)
  where
    wide : (fd : ℕ) (s : Spec) → HasPlace fd s → fd < length (widen fd s).watches
    wide fd s h = elim (Bool-cases (leb (length s.watches) fd)) [
      | inl t ↦
          let short : length s.watches ≤ fd = ground arith in
          let two : 2 ≤ fd = ground arith in
          let more = replicate (fd * 3 / 2 - length s.watches) no_watch in
          rw (widened fd s short) (
            omega (
              arith,
              length-append s.watches more,
              length-replicate {A = Watch} (fd * 3 / 2 - length s.watches) no_watch,
            ))
      | inr t ↦ let long : fd < length s.watches = ground arith in simp t long
    ]

add_event_found :
    (fd : ℕ) (type : EventType) (func : Option ℕ) (worker co : ℕ) (success : Bool) (e : Epoller)
    (event : IoEvent)
    → slot fd (grow fd e).io_events ≡ some event
    → add_event fd type func worker co success e
      ≡ add_at fd type func worker co success event (grow fd e)
unfolding add_event
add_event_found fd type func worker co success e event h =
    ap
      (λ (o : Option IoEvent). elim o [
        | none ↦ err fault
        | some event ↦ add_at fd type func worker co success event (grow fd e)
      ])
      h

-- `addEvent` lets the waiter come, unless somebody waits there.
pub add_event-Gives :
    (fd : ℕ) (type : EventType) (func : Option ℕ) (worker co : ℕ) (success : Bool) (s : Spec)
    (e : Epoller)
    → Shows s e
    → fd < 2 ^ 30
    → HasPlace fd s
    → Gives
        (add fd type (waiter_of func worker co) success s)
        (add_event fd type func worker co success e)
add_event-Gives fd type func worker co success s e v small place =
    let (w, here) = place_found fd s place in
    let v' = grow-Shows fd s e v small in
    let same =
      add_event_found fd type func worker co success e (event_of fd w)
        (shown_entry (widen fd s) (grow fd e) fd w v' here) in
    rw same (by_answer success w here v')
  where
    by_answer :
        (b : Bool) (w : Watch)
        → slot fd (widen fd s).watches ≡ some w
        → Shows (widen fd s) (grow fd e)
        → Gives
            (add fd type (waiter_of func worker co) b s)
            (add_at fd type func worker co b (event_of fd w) (grow fd e))
    by_answer true w here v' =
        rw (on_watch, here)
          (add_at-Gives (widen fd s) (grow fd e) fd type func worker co w (waiter type w) v' here
            refl)
    by_answer false w here v' = add_at-refused (widen fd s) (grow fd e) fd type func worker co w v'
