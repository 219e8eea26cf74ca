-- ===== src/Epoller/Wakeups.antt =====
-- What a round of `wait` asks epoll for.
use reyao.Common.{
  ℕ, ◌≡◌, refl, sym, ap, ◌∙◌, Bool, true, false, not, some, [], ◌∷◌, ◌++◌, if◌then◌else◌, ok, ◌||◌,
  err, Outcome, ◌>>=◌,
}
use reyao.Common.Slots.{slot}
use reyao.Epoller.{
  Events, no_events, IoEvent, EventType, epollin, epollout, bits_and, triggle_event, Epoller, fire,
  fire_if, call_ctl, one_less, put_event,
}
use reyao.Epoller.Spec.{Watch, Spec}
use reyao.Epoller.Entries.{event_of}
use reyao.Epoller.Refinement.{Shows}
use reyao.Epoller.{ready}
use reyao.Epoller.Spec.{arrive, is_ready}
use reyao.Epoller.Waking.{IsSound, woken, rewatch, wake_ready, wake_at-acts}
use reyao.Epoller.Operations.{shown_entry}
use reyao.Epoller.{wake, CtlOp}
use reyao.Worker.{Task}

-- Triggering calls epoll_ctl for nothing.
fire-ctls :
    (fd : ℕ) (type : EventType) (event left : IoEvent) (e e' : Epoller)
    → fire fd type event e ≡ ok (left, e')
    → e'.ctls ≡ e.ctls
unfolding fire
fire-ctls fd type event left e e' h = by_outcome (triggle_event type event) refl
  where
    by_outcome :
        (o : Outcome ((ℕ × Task) × IoEvent)) → triggle_event type event ≡ o → e'.ctls ≡ e.ctls
    by_outcome (ok (post, l)) t =
        let same : put_event fd l (one_less (record e { posts = e.posts ++ post ∷ [] })) ≡ e' =
          cc (t, h) in
        ap (λ x. x.ctls) (sym same)
    by_outcome (err r) t = absurd (cc (t, h))

fire_if-ctls :
    (b : Bool) (fd : ℕ) (type : EventType) (event left : IoEvent) (e e' : Epoller)
    → fire_if b fd type event e ≡ ok (left, e')
    → e'.ctls ≡ e.ctls
unfolding fire_if
fire_if-ctls true fd type event left e e' h = fire-ctls fd type event left e e' h
fire_if-ctls false fd type event left e e' h =
    let same : e ≡ e' = cc h in ap (λ x. x.ctls) (sym same)

fires-ctls :
    (a b : Bool) (fd : ℕ) (event : IoEvent) (e e' : Epoller)
    → (do
      (left, e1) ← fire_if a fd epollin event e
      (left', e2) ← fire_if b fd epollout left e1
      ok e2)
      ≡ ok e'
    → e'.ctls ≡ e.ctls
fires-ctls a b fd event e e' h = first (fire_if a fd epollin event e) refl h
  where
    second :
        (e1 : Epoller) (left : IoEvent)
        → e1.ctls ≡ e.ctls
        → (o : Outcome (IoEvent × Epoller)) → fire_if b fd epollout left e1 ≡ o
        → (o >>= λ (left', e2). ok e2) ≡ ok e'
        → e'.ctls ≡ e.ctls
    second e1 left k (ok (l, e2)) t h =
        let same : e2 ≡ e' = cc h in
        ap (λ x. x.ctls) (sym same) ∙ fire_if-ctls b fd epollout left l e1 e2 t ∙ k
    second e1 left k (err r) t h = absurd (cc h)

    first :
        (o : Outcome (IoEvent × Epoller))
        → fire_if a fd epollin event e ≡ o
        → (o >>= λ (left, e1). fire_if b fd epollout left e1 >>= λ (left', e2). ok e2) ≡ ok e'
        → e'.ctls ≡ e.ctls
    first (ok (l, e1)) t h =
        second e1 l (fire_if-ctls a fd epollin event l e e1 t) (fire_if b fd epollout l e1) refl h
    first (err r) t h = absurd (cc h)

rewatch-ctls :
    (a b : Bool) (fd : ℕ) (w : Watch) (e : Epoller)
    → (op : CtlOp) × ((rewatch a b fd w e).ctls
        ≡ e.ctls ++ (record { op = op; fd = fd; events = no_events }) ∷ [])
unfolding call_ctl bits_and
rewatch-ctls a b fd w e = (_, refl)

-- When a report of a descriptor is acted upon, `wait` asks epoll for no events of it at all, also
-- if the other type is still waited for.
pub wake-unwatches :
    (fd : ℕ) (reported : Events) (success : Bool) (s : Spec) (e : Epoller) (w : Watch)
    → Shows s e
    → slot fd s.watches ≡ some w
    → IsSound reported w
    → (is_ready epollin reported w || is_ready epollout reported w) ≡ true
    → (e' : Epoller) × (op : CtlOp) × (wake (ready fd reported success) e ≡ ok e')
      × Shows (arrive fd reported w s) e'
      × (e'.ctls ≡ e.ctls ++ (record { op = op; fd = fd; events = no_events }) ∷ [])
wake-unwatches fd reported success s e w v here sound some_ready =
    let a = is_ready epollin reported w in
    let b = is_ready epollout reported w in
    let (e', f, v') = woken s e fd reported w a b v here sound refl refl in
    let (op, asked) = rewatch-ctls a b fd w e in
    let found = wake_ready fd reported success e (event_of fd w) (shown_entry s e fd w v here) in
    let acts = wake_at-acts e fd reported w a b sound refl refl in
    (
      e',
      op,
      found ∙ acts ∙ if_ready _ _ _ _ some_ready f,
      v',
      fires-ctls a b fd (event_of fd w) (rewatch a b fd w e) e' f ∙ asked,
    )
  where
    if_ready :
        (t : Bool) (x y z : Outcome Epoller) → t ≡ true → y ≡ z → (if not t then x else y) ≡ z
    if_ready t x y z p q = simp p q
