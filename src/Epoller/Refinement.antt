-- ===== src/Epoller/Refinement.antt =====
-- The operations of Epoller.antt on a table that represents a state of Epoller/Spec.antt.
use reyao.Common.{
  ℕ, ◌+◌, ◌-◌, ◌%◌, ◌^◌, ◌≤◌, ◌<◌, ◌≡◌, refl, sym, ap, ◌∙◌, arith, Bool, Option, none, some, List,
  [], ◌∷◌, ◌++◌, length, ok,
}
use reyao.Common.Slots.{slot, set_slot, slot_inside, length-set_slot, slot-set_slot_same}
use reyao.Epoller.{EventType, Epoller, fire, fire_if, one_more, one_less, put_event}
use reyao.Epoller.Spec.{
  Waiter, post_of, Watch, is_some, waiter, set_waiter, Spec, put_watch, hand_over, release,
}
use reyao.Epoller.Entries.{
  event_of, events_of, count, weight, slot-events_of, set_slot-events_of, count-set_slot,
  count_small, weight-waiter, weight-set_waiter, triggle_event-waiting, set_waiter_same,
}
use mathlib.Core.Option

-- The table is that of the watches, its size is an int, `pendingEvents_` is how many wait, and the tasks are the same.
pub record Shows (s : Spec) (e : Epoller) : Type 0 where
  pub events : e.io_events ≡ events_of 0 s.watches
  pub pending : e.pending_events ≡ count s.watches
  pub posts : e.posts ≡ s.posts
  pub small : length s.watches < 2 ^ 31

pub shown_slot :
    (s : Spec) (e : Epoller) (fd : ℕ)
    → Shows s e
    → slot fd e.io_events ≡ Option.map (event_of fd) (slot fd s.watches)
shown_slot s e fd v =
    ap (slot fd) v.events
    ∙ slot-events_of 0 fd s.watches
    ∙ (let z : 0 + fd ≡ fd = omega arith in ap (λ k. Option.map (event_of k) (slot fd s.watches)) z)

shown_set :
    (s : Spec) (e : Epoller) (fd : ℕ) (w : Watch)
    → Shows s e
    → set_slot fd (event_of fd w) e.io_events ≡ events_of 0 (set_slot fd w s.watches)
shown_set s e fd w v =
    ap (set_slot fd (event_of fd w)) v.events
    ∙ (let z : fd ≡ 0 + fd = omega arith in
        ap (λ k. set_slot fd (event_of k w) (events_of 0 s.watches)) z)
    ∙ set_slot-events_of 0 fd w s.watches

-- An entry is replaced, and the count follows.
pub put-Shows :
    (s : Spec) (e e' : Epoller) (fd : ℕ) (old w : Watch)
    → Shows s e
    → slot fd s.watches ≡ some old
    → e'.io_events ≡ set_slot fd (event_of fd w) e.io_events
    → e'.pending_events + weight old ≡ e.pending_events + weight w
    → (posts : List _) → e'.posts ≡ posts
    → Shows (record (put_watch fd w s) { posts = posts }) e'
put-Shows s e e' fd old w v here set n posts p = record {
  events = set ∙ shown_set s e fd w v;
  pending = omega (arith, n, count-set_slot fd old w s.watches here, v.pending);
  posts = p;
  small = omega (arith, length-set_slot fd w s.watches, v.small);
}

dec_lem : (n : ℕ) → 1 ≤ n → n < 2 ^ 64 → (n + 2 ^ 64 - 1) % 2 ^ 64 ≡ n - 1
dec_lem n h k = omega arith

inc_lem : (n : ℕ) → n + 1 < 2 ^ 64 → (n + 1) % 2 ^ 64 ≡ n + 1
inc_lem n h = omega arith

pub one_fewer :
    (s : Spec) (e : Epoller) (fd : ℕ) (type : EventType) (w : Watch) (x : Waiter)
    → Shows s e
    → slot fd s.watches ≡ some w
    → waiter type w ≡ some x
    → (one_less e).pending_events + weight w ≡ e.pending_events + weight (set_waiter type none w)
one_fewer s e fd type w x v here waits =
    let w' = set_waiter type none w in
    let fewer = weight-waiter type w x waits in
    let there : 1 ≤ e.pending_events =
      omega (arith, count-set_slot fd w w' s.watches here, v.pending) in
    omega (
      arith,
      there,
      dec_lem e.pending_events there (omega (arith, v.pending, v.small, count_small s.watches)),
    )

pub one_further :
    (s : Spec) (e : Epoller) (type : EventType) (w : Watch) (x : Waiter)
    → Shows s e
    → waiter type w ≡ none
    → (one_more e).pending_events + weight w
      ≡ e.pending_events + weight (set_waiter type (some x) w)
one_further s e type w x v free =
    let further = weight-set_waiter type w x free in
    omega
      (arith, inc_lem e.pending_events (omega (arith, v.pending, v.small, count_small s.watches)))

pub fire-waiting :
    (s : Spec) (e : Epoller) (fd : ℕ) (type : EventType) (w : Watch) (x : Waiter)
    → Shows s e
    → slot fd s.watches ≡ some w
    → waiter type w ≡ some x
    → (e' : Epoller) × (fire fd type (event_of fd w) e
        ≡ ok (event_of fd (set_waiter type none w), e'))
      × Shows (hand_over fd (set_waiter type none w) (some x) s) e'
unfolding fire
fire-waiting s e fd type w x v here waits =
    let w' = set_waiter type none w in
    let e' : Epoller =
      put_event fd (event_of fd w') (one_less (record e { posts = e.posts ++ post_of x ∷ [] })) in
    (
      e',
      simp (triggle_event-waiting type fd w x waits),
      put-Shows s e e' fd w w' v here refl (one_fewer s e fd type w x v here waits)
          (s.posts ++ post_of x ∷ []) (ap (◌++ post_of x ∷ []) v.posts),
    )

-- A type is triggered if somebody waits for it.
pub fire_if-waiting :
    (b : Bool) (s : Spec) (e : Epoller) (fd : ℕ) (type : EventType) (w : Watch) (o : Option Waiter)
    → Shows s e
    → slot fd s.watches ≡ some w
    → waiter type w ≡ o
    → b ≡ is_some o
    → (e' : Epoller) × (fire_if b fd type (event_of fd w) e
        ≡ ok (event_of fd (set_waiter type none w), e'))
      × Shows (release fd type w s) e'
unfolding fire_if
fire_if-waiting b s e fd type w (some x) v here waits t =
    rw (t, waits) (fire-waiting s e fd type w x v here waits)
fire_if-waiting b s e fd type w none v here waits t =
    (e, rw t (ap (λ u. ok (event_of fd u, e)) (sym (set_waiter_same type w waits))), rw waits v)

pub release-slot :
    (s : Spec) (fd : ℕ) (type : EventType) (w : Watch) (o : Option Waiter)
    → slot fd s.watches ≡ some w
    → waiter type w ≡ o
    → slot fd (release fd type w s).watches ≡ some (set_waiter type none w)
release-slot s fd type w (some x) here waits =
    rw waits
      (slot-set_slot_same fd (set_waiter type none w) s.watches (slot_inside fd w s.watches here))
release-slot s fd type w none here waits =
    rw waits (here ∙ ap some (sym (set_waiter_same type w waits)))
