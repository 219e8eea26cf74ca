-- ===== src/Epoller/Entries.antt =====
-- One entry of the table: the parts of the operations on the IOEvent of two waiters.
use reyao.Common.{
  ℕ, zero, suc, ◌+◌, ◌*◌, ◌≤◌, ◌≡◌, refl, sym, ap, ◌∙◌, arith, ◌||◌, Option, none, some, List, [],
  ◌∷◌, ◌++◌, if◌then◌else◌, length, replicate, ok,
}
use reyao.Common.Slots.{slot, set_slot}
use reyao.Epoller.{
  EventCtx, empty_ctx, Events, no_events, IoEvent, EventType, epollin, epollout, bit, bits_and,
  bits_not, any, arm, triggle_event, reset_event_ctx, fresh,
}
use reyao.Epoller.Spec.{
  Waiter, resumes, calls, waiter_of, post_of, Watch, no_watch, is_some, waiter, set_waiter,
}
use mathlib.Core.Option

abbrev pub ctx_of : Option Waiter → EventCtx
ctx_of none = empty_ctx
ctx_of (some (resumes worker co)) = record { worker = some worker; co = some co; func = none }
ctx_of (some (calls worker func)) = record { worker = some worker; co = none; func = some func }

abbrev pub types_of : Watch → Events
types_of w = record no_events { reading = is_some w.reader; writing = is_some w.writer }

abbrev pub event_of : ℕ → Watch → IoEvent
event_of fd w = record {
  read_event = ctx_of w.reader;
  write_event = ctx_of w.writer;
  types = types_of w;
  fd = fd;
}

pub has_type :
    (type : EventType) (w : Watch)
    → any (bits_and (types_of w) (bit type)) ≡ is_some (waiter type w)
unfolding any bits_and
has_type epollin w = ground arith
has_type epollout w = ground arith

pub has_types : (w : Watch) → any (types_of w) ≡ (is_some w.reader || is_some w.writer)
unfolding any
has_types w = ground arith

pub arm-free :
    (type : EventType) (func : Option ℕ) (worker co fd : ℕ) (w : Watch)
    → waiter type w ≡ none
    → arm type func worker co (event_of fd w)
      ≡ ok (event_of fd (set_waiter type (some (waiter_of func worker co)) w))
unfolding arm
arm-free epollin none worker co fd w h = rw h (ground arith)
arm-free epollin (some f) worker co fd w h = rw h (ground arith)
arm-free epollout none worker co fd w h = rw h (ground arith)
arm-free epollout (some f) worker co fd w h = rw h (ground arith)

pub triggle_event-waiting :
    (type : EventType) (fd : ℕ) (w : Watch) (x : Waiter)
    → waiter type w ≡ some x
    → triggle_event type (event_of fd w) ≡ ok (post_of x, event_of fd (set_waiter type none w))
unfolding triggle_event
triggle_event-waiting epollin fd w (resumes worker co) h = rw h (ground arith)
triggle_event-waiting epollin fd w (calls worker func) h = rw h (ground arith)
triggle_event-waiting epollout fd w (resumes worker co) h = rw h (ground arith)
triggle_event-waiting epollout fd w (calls worker func) h = rw h (ground arith)

pub reset_event_ctx-waiting :
    (type : EventType) (fd : ℕ) (w : Watch)
    → reset_event_ctx type
        (record (event_of fd w) { types = bits_and (types_of w) (bits_not (bit type)) })
      ≡ event_of fd (set_waiter type none w)
unfolding reset_event_ctx bits_and bits_not
reset_event_ctx-waiting epollin fd w = ground arith
reset_event_ctx-waiting epollout fd w = ground arith

pub set_waiter_same :
    (type : EventType) (w : Watch) → waiter type w ≡ none → set_waiter type none w ≡ w
set_waiter_same epollin w h = ap (λ x. record w { reader = x }) (sym h)
set_waiter_same epollout w h = ap (λ x. record w { writer = x }) (sym h)

-- The entries from `from` on.
abbrev pub events_of : ℕ → List Watch → List IoEvent
events_of from [] = []
events_of from (w ∷ ws) = event_of from w ∷ events_of (suc from) ws

pub length-events_of : (from : ℕ) (ws : List Watch) → length (events_of from ws) ≡ length ws
length-events_of from [] = refl
length-events_of from (w ∷ ws) = ap suc (length-events_of (suc from) ws)

pub slot-events_of :
    (from n : ℕ) (ws : List Watch)
    → slot n (events_of from ws) ≡ Option.map (event_of (from + n)) (slot n ws)
unfolding slot
slot-events_of from n [] = refl
slot-events_of from zero (w ∷ ws) =
    let e : from ≡ from + 0 = omega arith in ap (λ k. some (event_of k w)) e
slot-events_of from (suc n) (w ∷ ws) =
    let e : suc from + n ≡ from + suc n = omega arith in
    slot-events_of (suc from) n ws ∙ ap (λ k. Option.map (event_of k) (slot n ws)) e

pub set_slot-events_of :
    (from n : ℕ) (w : Watch) (ws : List Watch)
    → set_slot n (event_of (from + n) w) (events_of from ws) ≡ events_of from (set_slot n w ws)
unfolding set_slot
set_slot-events_of from n w [] = refl
set_slot-events_of from zero w (x ∷ xs) =
    let e : from + 0 ≡ from = omega arith in ap (λ k. event_of k w ∷ events_of (suc from) xs) e
set_slot-events_of from (suc n) w (x ∷ xs) =
    let e : from + suc n ≡ suc from + n = omega arith in
    ap (λ k. event_of from x ∷ set_slot n (event_of k w) (events_of (suc from) xs)) e
    ∙ ap (event_of from x ∷◌) (set_slot-events_of (suc from) n w xs)

pub fresh-events_of : (from n : ℕ) → fresh from n ≡ events_of from (replicate n no_watch)
unfolding fresh
fresh-events_of from zero = refl
fresh-events_of from (suc n) = ap (event_of from no_watch ∷◌) (fresh-events_of (suc from) n)

pub events_of-append :
    (from : ℕ) (ws xs : List Watch)
    → events_of from (ws ++ xs) ≡ events_of from ws ++ events_of (from + length ws) xs
events_of-append from [] xs = let e : from ≡ from + 0 = omega arith in ap (λ k. events_of k xs) e
events_of-append from (w ∷ ws) xs =
    let e : suc from + length ws ≡ from + suc (length ws) = omega arith in
    ap (event_of from w ∷◌) (events_of-append (suc from) ws xs)
    ∙ ap (λ k. event_of from w ∷ events_of (suc from) ws ++ events_of k xs) e

-- How many are waited for.
abbrev pub weight : Watch → ℕ
weight w = (if is_some w.reader then 1 else 0) + (if is_some w.writer then 1 else 0)

abbrev pub count : List Watch → ℕ
count [] = 0
count (w ∷ ws) = weight w + count ws

pub count-set_slot :
    (n : ℕ) (old w : Watch) (ws : List Watch)
    → slot n ws ≡ some old
    → count (set_slot n w ws) + weight old ≡ count ws + weight w
unfolding slot set_slot
count-set_slot n old w [] h = absurd (cc h)
count-set_slot zero old w (x ∷ xs) h =
    let same : weight x ≡ weight old = ap weight (cc h) in omega (arith, same)
count-set_slot (suc n) old w (x ∷ xs) h = omega (arith, count-set_slot n old w xs h)

pub count_small : (ws : List Watch) → count ws ≤ 2 * length ws
count_small [] = omega arith
count_small (w ∷ ws) = let few : weight w ≤ 2 = ground arith in omega (arith, few, count_small ws)

pub count-append : (ws xs : List Watch) → count (ws ++ xs) ≡ count ws + count xs
count-append [] xs = omega arith
count-append (w ∷ ws) xs = omega (arith, count-append ws xs)

pub count-no_watch : (n : ℕ) → count (replicate n no_watch) ≡ 0
count-no_watch zero = refl
count-no_watch (suc n) = omega (arith, count-no_watch n)

pub weight-waiter :
    (type : EventType) (w : Watch) (x : Waiter)
    → waiter type w ≡ some x
    → weight w ≡ suc (weight (set_waiter type none w))
weight-waiter epollin w x h = ground (arith, h)
weight-waiter epollout w x h = ground (arith, h)

pub weight-set_waiter :
    (type : EventType) (w : Watch) (x : Waiter)
    → waiter type w ≡ none
    → weight (set_waiter type (some x) w) ≡ suc (weight w)
weight-set_waiter epollin w x h = ground (arith, h)
weight-set_waiter epollout w x h = ground (arith, h)
