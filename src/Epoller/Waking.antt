-- ===== src/Epoller/Waking.antt =====
-- `handleAllEvent` and a round of `wait` on a table that represents its state.
use reyao.Common.{
  ℕ, ◌≡◌, refl, ap, ◌∙◌, arith, Bool, true, false, not, Option, none, some, List, [], ◌∷◌, ◌++◌,
  if◌then◌else◌, ok, Bool-cases, inl, inr, ◌||◌, err, fault, Outcome, ◌>>=◌,
}
use reyao.Common.Slots.{slot}
use reyao.Epoller.{
  Events, no_events, IoEvent, EventType, epollin, epollout, bits_and, bits_not, any, Epoller,
  fire_if, call_ctl,
}
use reyao.Epoller.Spec.{
  Waiter, Watch, is_some, waiter, set_waiter, Spec, release, release_if, on_watch,
}
use reyao.Epoller.Entries.{event_of, has_type, has_types, types_of}
use reyao.Epoller.Refinement.{Shows, fire-waiting, fire_if-waiting, release-slot}
use reyao.Epoller.{ctl_mod, ctl_del, epollet, handle_all_at, handle_all_event}
use reyao.Epoller.Spec.{handle_all}
use reyao.Epoller.Operations.{Gives, call_ctl-Shows, entry-Gives, shown_entry}
use reyao.Epoller.Refinement.{fire-waiting}
use reyao.Epoller.Spec.{arrive, arrive_all, is_ready}
use reyao.Epoller.{wake_at, wake, wake_all, wait, real_events, Report, awake, ready, timer_posts}
use reyao.Epoller.Entries.{types_of}

handle_all_at-refused :
    (s : Spec) (e : Epoller) (fd : ℕ) (w : Watch)
    → Shows s e
    → Gives (false, s) (handle_all_at fd false (event_of fd w) e)
unfolding handle_all_at
handle_all_at-refused s e fd w v = elim (Bool-cases (any (types_of w))) [
  | inl t ↦ simp t (_, refl, call_ctl-Shows s e _ fd _ v)
  | inr t ↦ simp t (e, refl, v)
]

handle_all_at-some :
    (s : Spec) (e : Epoller) (fd : ℕ) (w : Watch)
    → Shows s e
    → slot fd s.watches ≡ some w
    → (is_some w.reader || is_some w.writer) ≡ true
    → Gives (handle_all fd w s) (handle_all_at fd true (event_of fd w) e)
unfolding handle_all_at
handle_all_at-some s e fd w v here t =
    let called = call_ctl ctl_del fd no_events e in
    let (e1, f1, v1) =
      fire_if-waiting (is_some w.reader) s called fd epollin w w.reader
        (call_ctl-Shows s e _ fd _ v) here refl refl in
    let (e2, f2, v2) =
      fire_if-waiting (is_some w.writer) (release fd epollin w s) e1 fd epollout
        (set_waiter epollin none w) w.writer v1 (release-slot s fd epollin w w.reader here refl)
        refl refl in
    (
      e2,
      simp
          (
            has_types w,
            has_type epollin w,
            f1,
            has_type epollout (set_waiter epollin none w),
            f2,
            t,
          )
          refl,
      v2,
    )

handle_all_at-Gives :
    (s : Spec) (e : Epoller) (fd : ℕ) (w : Watch) (x y : Option Waiter)
    → Shows s e
    → slot fd s.watches ≡ some w
    → w.reader ≡ x
    → w.writer ≡ y
    → Gives (handle_all fd w s) (handle_all_at fd true (event_of fd w) e)
unfolding handle_all_at
handle_all_at-Gives s e fd w none none v here p q = simp (p, q) (e, refl, v)
handle_all_at-Gives s e fd w (some x) y v here p q =
    handle_all_at-some s e fd w v here (simp p refl)
handle_all_at-Gives s e fd w none (some y) v here p q =
    handle_all_at-some s e fd w v here (simp (p, q) refl)

-- `handleAllEvent` hands both waiters over.
pub handle_all_event-Gives :
    (fd : ℕ) (success : Bool) (s : Spec) (e : Epoller)
    → Shows s e
    → Gives (on_watch fd success (handle_all fd) s) (handle_all_event fd success e)
unfolding handle_all_event
handle_all_event-Gives fd success s e v =
    entry-Gives success s e fd (handle_all_at fd) (handle_all fd) v
      (λ w here. handle_all_at-Gives s e fd w w.reader w.writer v here refl refl)
      (λ w. handle_all_at-refused s e fd w v)

-- Only what is waited for is reported.
abbrev pub IsSound : Events → Watch → Type 0
IsSound reported w =
    (reported.reading ≡ true → is_some w.reader ≡ true)
    × (reported.writing ≡ true → is_some w.writer ≡ true)

or-false : (b : Bool) → (b || false) ≡ b
or-false true = refl
or-false false = refl

real_events-is_ready :
    (reported : Events) (w : Watch)
    → real_events reported (types_of w) ≡ record no_events {
      reading = is_ready epollin reported w;
      writing = is_ready epollout reported w;
    }
unfolding real_events
real_events-is_ready reported w = elim (Bool-cases (reported.error || reported.hang_up)) [
  | inl h ↦ simp h refl
  | inr h ↦ simp (h, or-false reported.reading, or-false reported.writing) refl
]

fire_if-ready :
    (b : Bool) (s : Spec) (e : Epoller) (fd : ℕ) (type : EventType) (w : Watch) (o : Option Waiter)
    → Shows s e
    → slot fd s.watches ≡ some w
    → waiter type w ≡ o
    → (b ≡ true → is_some o ≡ true)
    → (e' : Epoller) × (fire_if b fd type (event_of fd w) e
        ≡ ok (event_of fd (release_if b fd type w s).0, e'))
      × Shows (release_if b fd type w s).1 e'
unfolding fire_if
fire_if-ready false s e fd type w o v here waits sound = (e, refl, v)
fire_if-ready true s e fd type w none v here waits sound = absurd (cc (sound refl))
fire_if-ready true s e fd type w (some x) v here waits sound =
    rw waits (fire-waiting s e fd type w x v here waits)

-- Whether a report is acted upon.
acted :
    (a b : Bool) (w : Watch)
    → (a ≡ true → is_some w.reader ≡ true)
    → (b ≡ true → is_some w.writer ≡ true)
    → any (bits_and (types_of w) (record no_events { reading = a; writing = b })) ≡ (a || b)
unfolding any bits_and
acted false false w p q = ground arith
acted true b w p q = ground (arith, p refl)
acted false true w p q = ground (arith, q refl)

ready-waiting :
    (reported : Events) (w : Watch)
    → IsSound reported w
    → (is_ready epollin reported w ≡ true → is_some w.reader ≡ true)
      × (is_ready epollout reported w ≡ true → is_some w.writer ≡ true)
ready-waiting reported w (p, q) = (λ h. ground (arith, p), λ h. ground (arith, q))

-- The first type does not touch the second one.
pub release_if-slot :
    (b : Bool) (s : Spec) (fd : ℕ) (w : Watch)
    → slot fd s.watches ≡ some w
    → slot fd (release_if b fd epollin w s).1.watches ≡ some (release_if b fd epollin w s).0
release_if-slot true s fd w here = release-slot s fd epollin w w.reader here refl
release_if-slot false s fd w here = here

release_if-writer :
    (b : Bool) (s : Spec) (fd : ℕ) (w : Watch)
    → waiter epollout (release_if b fd epollin w s).0 ≡ w.writer
release_if-writer true s fd w = refl
release_if-writer false s fd w = refl

abbrev pub wakes : Bool → Bool → ℕ → Watch → Spec → Spec
wakes a b fd w s =
    let (w', s') = release_if a fd epollin w s in
    let (w'', s'') = release_if b fd epollout w' s' in s''

both-wakes :
    (a b : Bool) (s : Spec) (e : Epoller) (fd : ℕ) (w : Watch)
    → Shows s e
    → slot fd s.watches ≡ some w
    → (a ≡ true → is_some w.reader ≡ true)
    → (b ≡ true → is_some w.writer ≡ true)
    → (e' : Epoller) × ((do
      (left, e1) ← fire_if a fd epollin (event_of fd w) e
      (left', e2) ← fire_if b fd epollout left e1
      ok e2)
        ≡ ok e')
      × Shows (wakes a b fd w s) e'
both-wakes a b s e fd w v here p q =
    let (e1, f1, v1) = fire_if-ready a s e fd epollin w w.reader v here refl p in
    let next = release_if a fd epollin w s in
    let (e2, f2, v2) =
      fire_if-ready b next.1 e1 fd epollout next.0 w.writer v1 (release_if-slot a s fd w here)
        (release_if-writer a s fd w) q in
    (e2, simp (f1, f2) refl, v2)

-- The call of epoll_ctl for what is left.
abbrev pub rewatch : Bool → Bool → ℕ → Watch → Epoller → Epoller
rewatch a b fd w e =
    let left_events =
      bits_and (types_of w) (bits_not (record no_events { reading = a; writing = b })) in
    call_ctl (if any left_events then ctl_mod else ctl_del) fd (bits_and epollet left_events) e

pub wake_at-acts :
    (e : Epoller) (fd : ℕ) (reported : Events) (w : Watch) (a b : Bool)
    → IsSound reported w
    → is_ready epollin reported w ≡ a
    → is_ready epollout reported w ≡ b
    → wake_at fd reported (event_of fd w) e ≡ (
        if not (a || b) then ok e else (do
          (left, e1) ← fire_if a fd epollin (event_of fd w) (rewatch a b fd w e)
          (left', e2) ← fire_if b fd epollout left e1
          ok e2))
unfolding wake_at
wake_at-acts e fd reported w a b sound p q =
    let waits = ready-waiting reported w sound in
    simp
      (
        real_events-is_ready reported w,
        p,
        q,
        acted a b w (λ h. waits.0 (p ∙ h)) (λ h. waits.1 (q ∙ h)),
      )
      refl

pub woken :
    (s : Spec) (e : Epoller) (fd : ℕ) (reported : Events) (w : Watch) (a b : Bool)
    → Shows s e
    → slot fd s.watches ≡ some w
    → IsSound reported w
    → is_ready epollin reported w ≡ a
    → is_ready epollout reported w ≡ b
    → (e' : Epoller) × ((do
      (left, e1) ← fire_if a fd epollin (event_of fd w) (rewatch a b fd w e)
      (left', e2) ← fire_if b fd epollout left e1
      ok e2)
        ≡ ok e')
      × Shows (wakes a b fd w s) e'
woken s e fd reported w a b v here sound p q =
    let waits = ready-waiting reported w sound in
    both-wakes a b s (rewatch a b fd w e) fd w (call_ctl-Shows s e _ fd _ v) here
      (λ h. waits.0 (p ∙ h)) (λ h. waits.1 (q ∙ h))

wake_at-Shows :
    (s : Spec) (e : Epoller) (fd : ℕ) (reported : Events) (w : Watch) (a b : Bool)
    → Shows s e
    → slot fd s.watches ≡ some w
    → IsSound reported w
    → is_ready epollin reported w ≡ a
    → is_ready epollout reported w ≡ b
    → (e' : Epoller) × (wake_at fd reported (event_of fd w) e ≡ ok e') × Shows (wakes a b fd w s) e'
wake_at-Shows s e fd reported w false false v here sound p q =
    (e, wake_at-acts e fd reported w false false sound p q, v)
wake_at-Shows s e fd reported w false true v here sound p q =
    let (e', f, v') = woken s e fd reported w false true v here sound p q in
    (e', wake_at-acts e fd reported w false true sound p q ∙ f, v')
wake_at-Shows s e fd reported w true b v here sound p q =
    let (e', f, v') = woken s e fd reported w true b v here sound p q in
    (e', wake_at-acts e fd reported w true b sound p q ∙ f, v')

-- The kernel reports events of entries of the table, each only for what is waited for then.
abbrev pub AreSound : List Report → Spec → Type 0
AreSound [] s = Unit
AreSound (awake ∷ rs) s = AreSound rs s
AreSound (ready fd reported success ∷ rs) s =
    (w : Watch) × (slot fd s.watches ≡ some w)
    × IsSound reported w
    × AreSound rs (arrive fd reported w s)

pub wake_ready :
    (fd : ℕ) (reported : Events) (success : Bool) (e : Epoller) (event : IoEvent)
    → slot fd e.io_events ≡ some event
    → wake (ready fd reported success) e ≡ wake_at fd reported event e
unfolding wake
wake_ready fd reported success e event h =
    ap
      (λ (o : Option IoEvent). elim o [
        | none ↦ err fault
        | some event ↦ wake_at fd reported event e
      ])
      h

wake_awake : (e : Epoller) → wake awake e ≡ ok e
unfolding wake
wake_awake e = refl

pub wake_all-Shows :
    (rs : List Report) (s : Spec) (e : Epoller)
    → Shows s e
    → AreSound rs s
    → (e' : Epoller) × (wake_all rs e ≡ ok e') × Shows (arrive_all rs s) e'
unfolding wake_all
wake_all-Shows [] s e v sound = (e, refl, v)
wake_all-Shows (awake ∷ rs) s e v sound =
    let (e', f, v') = wake_all-Shows rs s e v sound in
    (e', ap (λ (o : Outcome Epoller). o >>= wake_all rs) (wake_awake e) ∙ f, v')
wake_all-Shows (ready fd reported success ∷ rs) s e v (w, here, fair, sound) =
    let (e1, f1, v1) =
      wake_at-Shows s e fd reported w (is_ready epollin reported w) (is_ready epollout reported w) v
        here fair refl refl in
    let (e2, f2, v2) = wake_all-Shows rs (arrive fd reported w s) e1 v1 sound in
    let first =
      wake_ready fd reported success e (event_of fd w) (shown_entry s e fd w v here) ∙ f1 in
    (e2, ap (λ (o : Outcome Epoller). o >>= wake_all rs) first ∙ f2, rw here v2)

-- The functions of the timers come before what the events release.
abbrev pub expire : ℕ → List ℕ → Spec → Spec
expire worker expired s = record s { posts = s.posts ++ timer_posts worker expired }

expire-Shows :
    (worker : ℕ) (expired : List ℕ) (s : Spec) (e : Epoller)
    → Shows s e
    → Shows
        (expire worker expired s)
        (record e { polling = false; posts = e.posts ++ timer_posts worker expired })
expire-Shows worker expired s e v = record {
  events = v.events;
  pending = v.pending;
  posts = ap (◌++ timer_posts worker expired) v.posts;
  small = v.small;
}

-- A round of `wait` hands over what is reported ready.
pub wait-Shows :
    (worker : ℕ) (expired : List ℕ) (reports : List Report) (s : Spec) (e : Epoller)
    → Shows s e
    → AreSound reports (expire worker expired s)
    → (e' : Epoller) × (wait worker expired reports e ≡ ok e')
      × Shows (arrive_all reports (expire worker expired s)) e'
unfolding wait
wait-Shows worker expired reports s e v sound =
    wake_all-Shows reports (expire worker expired s) _ (expire-Shows worker expired s e v) sound
