-- ===== src/Epoller/Conservation.antt =====
-- A round of `wait` on the table of Epoller.antt: who waits and what is handed over.
use reyao.Common.{
  ℕ, zero, suc, ◌+◌, ◌≡◌, refl, ap, ◌∙◌, arith, Bool, true, false, Option, none, some, List, [],
  ◌∷◌, ◌++◌, ok,
}
use reyao.Common.Slots.{slot, set_slot}
use reyao.Epoller.{EventType, epollin, epollout, Epoller, wait, Report, awake, ready, timer_posts}
use reyao.Epoller.Spec.{
  Waiter, post_of, Watch, waiter, set_waiter, Spec, hand_over, release_if, arrive, arrive_all,
  is_ready,
}
use reyao.Epoller.Refinement.{Shows}
use reyao.Epoller.Waking.{wait-Shows, expire, AreSound, wakes, release_if-slot}
use reyao.Worker.{Task}

-- A test on a worker and the task that is handed to it.
abbrev pub Test : Type 0
Test = ℕ × Task → Bool

abbrev one : Bool → ℕ
one true = 1
one false = 0

-- How many tasks pass.
abbrev pub tasks_in : Test → List (ℕ × Task) → ℕ
tasks_in p [] = 0
tasks_in p (t ∷ ts) = one (p t) + tasks_in p ts

module _ (p : Test) where
  -- How many of the tasks that the waiters stand for pass.
  abbrev waiter_in : Option Waiter → ℕ
  waiter_in none = 0
  waiter_in (some x) = one (p (post_of x))

  abbrev watch_in : Watch → ℕ
  watch_in w = waiter_in w.reader + waiter_in w.writer

  abbrev pub watches_in : List Watch → ℕ
  watches_in [] = 0
  watches_in (w ∷ ws) = watch_in w + watches_in ws

  tasks_in-append :
      (ts us : List (ℕ × Task)) → tasks_in p (ts ++ us) ≡ tasks_in p ts + tasks_in p us
  tasks_in-append [] us = omega arith
  tasks_in-append (t ∷ ts) us = omega (arith, tasks_in-append ts us)

  watches_in-set_slot :
      (n : ℕ) (old w : Watch) (ws : List Watch)
      → slot n ws ≡ some old
      → watches_in (set_slot n w ws) + watch_in old ≡ watches_in ws + watch_in w
  unfolding slot set_slot
  watches_in-set_slot n old w [] h = absurd (cc h)
  watches_in-set_slot zero old w (x ∷ xs) h =
      let same : watch_in x ≡ watch_in old = ap watch_in (cc h) in omega (arith, same)
  watches_in-set_slot (suc n) old w (x ∷ xs) h = omega (arith, watches_in-set_slot n old w xs h)

  watch_in-waiter :
      (type : EventType) (w : Watch) (x : Waiter)
      → waiter type w ≡ some x
      → watch_in w ≡ one (p (post_of x)) + watch_in (set_waiter type none w)
  watch_in-waiter epollin w x h =
      let there : waiter_in w.reader ≡ one (p (post_of x)) = ap waiter_in h in omega (arith, there)
  watch_in-waiter epollout w x h =
      let there : waiter_in w.writer ≡ one (p (post_of x)) = ap waiter_in h in omega (arith, there)

  -- What is handed over and what waits.
  abbrev pool : Spec → ℕ
  pool s = tasks_in p s.posts + watches_in s.watches

  hand_over-pool :
      (s : Spec) (fd : ℕ) (type : EventType) (w : Watch) (o : Option Waiter)
      → slot fd s.watches ≡ some w
      → waiter type w ≡ o
      → pool (hand_over fd (set_waiter type none w) o s) ≡ pool s
  hand_over-pool s fd type w none here waits = refl
  hand_over-pool s fd type w (some x) here waits = omega (
    arith,
    tasks_in-append s.posts (post_of x ∷ []),
    watches_in-set_slot fd w (set_waiter type none w) s.watches here,
    watch_in-waiter type w x waits,
  )

  release_if-pool :
      (b : Bool) (s : Spec) (fd : ℕ) (type : EventType) (w : Watch)
      → slot fd s.watches ≡ some w
      → pool (release_if b fd type w s).1 ≡ pool s
  release_if-pool true s fd type w here = hand_over-pool s fd type w (waiter type w) here refl
  release_if-pool false s fd type w here = refl

  wakes-pool :
      (a b : Bool) (s : Spec) (fd : ℕ) (w : Watch)
      → slot fd s.watches ≡ some w
      → pool (wakes a b fd w s) ≡ pool s
  wakes-pool a b s fd w here =
      let next = release_if a fd epollin w s in
      release_if-pool b next.1 fd epollout next.0 (release_if-slot a s fd w here)
      ∙ release_if-pool a s fd epollin w here

  arrive_all-pool : (rs : List Report) (s : Spec) → AreSound rs s → pool (arrive_all rs s) ≡ pool s
  arrive_all-pool [] s sound = refl
  arrive_all-pool (awake ∷ rs) s sound = arrive_all-pool rs s sound
  arrive_all-pool (ready fd reported success ∷ rs) s (w, here, fair, sound) =
      rw (arrive_all, here)
        (arrive_all-pool rs (arrive fd reported w s) sound
          ∙ wakes-pool (is_ready epollin reported w) (is_ready epollout reported w) s fd w here)

-- A round of `wait` loses no waiter, hands none over twice, and hands each over to its own worker
-- as what it is: on a table that represents a state, with the kernel reporting only what is waited
-- for, for every test on workers and tasks, the number of the tasks handed over that pass it and of
-- the waiters whose tasks pass it, together, grows by the number of the expired timers' tasks that
-- pass it.
pub wait-conserves :
    (p : Test) (worker : ℕ) (expired : List ℕ) (reports : List Report) (s : Spec) (e : Epoller)
    → Shows s e
    → AreSound reports (expire worker expired s)
    → (e' : Epoller) × (s' : Spec) × (wait worker expired reports e ≡ ok e')
      × Shows s' e'
      × (tasks_in p e'.posts + watches_in p s'.watches
          ≡ tasks_in p e.posts + tasks_in p (timer_posts worker expired) + watches_in p s.watches)
wait-conserves p worker expired reports s e v sound =
    let (e', f, v') = wait-Shows worker expired reports s e v sound in
    (
      e',
      arrive_all reports (expire worker expired s),
      f,
      v',
      omega (
        arith,
        ap (tasks_in p) v'.posts,
        arrive_all-pool p reports (expire worker expired s) sound,
        tasks_in-append p s.posts (timer_posts worker expired),
        ap (tasks_in p) v.posts,
      ),
    )
