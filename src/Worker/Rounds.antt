-- ===== src/Worker/Rounds.antt =====
-- Worker.antt: the loop of a worker fails no assertion, takes the tasks in their order, and ends.
use reyao.Common.{
  subst, ℕ, suc, ◌≡◌, ◌≢◌, refl, sym, ap, ◌∙◌, arith, Bool, true, false, Option, none, some, List,
  [], ◌∷◌, ◌==◌, if◌then◌else◌, Outcome, ok, ◌>>=◌, Bool-cases, inl, inr, ◌⊎◌,
}
use reyao.Coroutine.{
  State, initial, running, suspended, done, except, Turn, yields, returns, throws, resume, reuse,
  turn_ends, let_go, may_destroy,
}
use reyao.Worker.{
  Worker, Task, run_task, run_branch, run_co, run_func, run_func_in, run_in, run_idle, live_co,
  kept, set_state, can_stop, idle_turn, is_live, one_turn,
}

-- Between two rounds no coroutine of the worker runs, and the one that functions run in has ended.
pub record IsResting (w : Worker) : Type 0 where
  pub at_rest : (c : ℕ) → w.states c ≢ running
  pub reusable : (c : ℕ) → w.co_func ≡ some c → is_live (w.states c) ≡ false
  pub idle_at_rest : w.idle_state ≢ running

-- A coroutine that does not run comes back from its turn, and does not run then.
resume_ok :
    (turn : Turn) (state : State)
    → state ≢ running
    → (state' : State) × (resume turn state ≡ ok state')
      × (state' ≢ running)
      × ((c' c : ℕ) → kept state' c ≡ some c' → is_live state' ≡ false)
unfolding resume turn_ends
resume_ok turn running h = absurd (h refl)
resume_ok (yields held) initial h = (suspended, refl, (λ p. cc p), λ c' c p. absurd (cc p))
resume_ok returns initial h = (done, refl, (λ p. cc p), λ c' c p. refl)
resume_ok throws initial h = (except, refl, (λ p. cc p), λ c' c p. refl)
resume_ok (yields held) suspended h = (suspended, refl, (λ p. cc p), λ c' c p. absurd (cc p))
resume_ok returns suspended h = (done, refl, (λ p. cc p), λ c' c p. refl)
resume_ok throws suspended h = (except, refl, (λ p. cc p), λ c' c p. refl)
resume_ok (yields held) done h = (suspended, refl, (λ p. cc p), λ c' c p. absurd (cc p))
resume_ok returns done h = (done, refl, (λ p. cc p), λ c' c p. refl)
resume_ok throws done h = (except, refl, (λ p. cc p), λ c' c p. refl)
resume_ok (yields held) except h = (suspended, refl, (λ p. cc p), λ c' c p. absurd (cc p))
resume_ok returns except h = (done, refl, (λ p. cc p), λ c' c p. refl)
resume_ok throws except h = (except, refl, (λ p. cc p), λ c' c p. refl)

-- A turn behind which the coroutine may be let go of: it has ended, or somebody else holds it.
abbrev pub IsHeld : Turn → Type 0
IsHeld turn = turn ≢ yields false

let_go_ok :
    (turn : Turn) (state state' : State)
    → IsHeld turn
    → resume turn state ≡ ok state'
    → let_go turn state' ≡ ok state'
unfolding let_go resume turn_ends may_destroy
let_go_ok (yields true) state state' h e = refl
let_go_ok (yields false) state state' h e = absurd (h refl)
let_go_ok returns running state' h e = absurd (cc e)
let_go_ok throws running state' h e = absurd (cc e)
let_go_ok returns initial state' h e = let p : done ≡ state' = cc e in rw (sym p) refl
let_go_ok returns suspended state' h e = let p : done ≡ state' = cc e in rw (sym p) refl
let_go_ok returns done state' h e = let p : done ≡ state' = cc e in rw (sym p) refl
let_go_ok returns except state' h e = let p : done ≡ state' = cc e in rw (sym p) refl
let_go_ok throws initial state' h e = let p : except ≡ state' = cc e in rw (sym p) refl
let_go_ok throws suspended state' h e = let p : except ≡ state' = cc e in rw (sym p) refl
let_go_ok throws done state' h e = let p : except ≡ state' = cc e in rw (sym p) refl
let_go_ok throws except state' h e = let p : except ≡ state' = cc e in rw (sym p) refl

one_turn_ok :
    (turn : Turn) (state : State)
    → IsHeld turn
    → state ≢ running
    → (state' : State) × (one_turn turn state ≡ ok state')
      × (state' ≢ running)
      × ((c' c : ℕ) → kept state' c ≡ some c' → is_live state' ≡ false)
unfolding one_turn
one_turn_ok turn state held h =
    let (state', e, still, over) = resume_ok turn state h in
    (
      state',
      ap (λ (o : Outcome State). o >>= let_go turn) e ∙ let_go_ok turn state state' held e,
      still,
      over,
    )

-- What a round does to the queue, besides the task that it takes.
pub record Rested (w : Worker) (o : Outcome (Bool × Worker)) : Type 0 where
  pub goes_on : Bool
  pub next : Worker
  pub ends : o ≡ ok (goes_on, next)
  pub resting : IsResting next
  pub queue : next.tasks ≡ w.tasks
  pub history : next.taken ≡ w.taken
  pub active : next.is_active ≡ w.is_active
  pub ended : next.idle_state ≡ done → (w.idle_state ≡ done) ⊎ (w.tasks ≡ [])
  pub looping : (goes_on ≡ true) ⊎ (w.idle_state ≡ done)

at_same :
    (w : Worker) (c n : ℕ) (state : State)
    → (n == c) ≡ true
    → (set_state c state w).states n ≡ state
at_same w c n state e = simp e refl

at_other :
    (w : Worker) (c n : ℕ) (state : State)
    → (n == c) ≡ false
    → (set_state c state w).states n ≡ w.states n
at_other w c n state e = simp e refl

set_state-at_rest :
    (w : Worker) (c : ℕ) (state : State)
    → ((c : ℕ) → w.states c ≢ running)
    → state ≢ running
    → (n : ℕ) → (set_state c state w).states n ≢ running
set_state-at_rest w c state h k n p = elim (Bool-cases (n == c)) [
  | inl e ↦ k (sym (at_same w c n state e) ∙ p)
  | inr e ↦ h n (sym (at_other w c n state e) ∙ p)
]

run_co-Rested :
    (turn : Turn) (c : ℕ) (w : Worker)
    → IsHeld turn
    → IsResting w
    → is_live (w.states c) ≡ true
    → Rested w (run_co turn c w)
unfolding run_co
run_co-Rested turn c w held v live =
    let (state', e, still, over) = one_turn_ok turn (w.states c) held (v.at_rest c) in
    record {
      goes_on = true;
      next = set_state c state' w;
      ends = simp e refl;
      resting = record {
        at_rest = set_state-at_rest w c state' v.at_rest still;
        reusable = λ n p. elim (Bool-cases (n == c)) [
          | inl q ↦
              let same : n ≡ c = ground arith in
              absurd (cc (sym live ∙ ap (λ m. is_live (w.states m)) (sym same) ∙ v.reusable n p))
          | inr q ↦ ap is_live (at_other w c n state' q) ∙ v.reusable n p
        ];
        idle_at_rest = v.idle_at_rest;
      };
      queue = refl;
      history = refl;
      active = refl;
      ended = inl;
      looping = inl refl;
    }

-- Functions run in a coroutine that has ended, or in a new one.
run_in-Rested :
    (turn : Turn) (c : ℕ) (state : State) (w : Worker)
    → IsHeld turn
    → IsResting w
    → state ≢ running
    → Rested w (run_in turn c state w)
unfolding run_in
run_in-Rested turn c state w held v rest =
    let (state', e, still, over) = one_turn_ok turn state held rest in
    record {
      goes_on = true;
      next = record (set_state c state' w) { co_func = kept state' c };
      ends = simp e refl;
      resting = record {
        at_rest = set_state-at_rest w c state' v.at_rest still;
        reusable = λ n p.
            let same : n ≡ c = kept_same state' c n p in
            let here : (n == c) ≡ true = ground arith in
            ap is_live (at_same w c n state' here) ∙ over n c p;
        idle_at_rest = v.idle_at_rest;
      };
      queue = refl;
      history = refl;
      active = refl;
      ended = inl;
      looping = inl refl;
    }
  where
    kept_same : (state : State) (c n : ℕ) → kept state c ≡ some n → n ≡ c
    kept_same suspended c n p = absurd (cc p)
    kept_same initial c n p = cc p
    kept_same running c n p = cc p
    kept_same done c n p = cc p
    kept_same except c n p = cc p

reuse_ok : (state : State) → is_live state ≡ false → reuse state ≡ ok initial
unfolding reuse
reuse_ok done h = refl
reuse_ok except h = refl
reuse_ok initial h = absurd (cc h)
reuse_ok running h = absurd (cc h)
reuse_ok suspended h = absurd (cc h)

run_func_in-Rested :
    (turn : Turn) (o : Option ℕ) (w : Worker)
    → IsHeld turn
    → IsResting w
    → w.co_func ≡ o
    → Rested w (run_func_in turn o w)
unfolding run_func_in
run_func_in-Rested turn (some c) w held v p =
    simp (reuse_ok (w.states c) (v.reusable c p))
      (run_in-Rested turn c initial w held v (λ h. cc h))
run_func_in-Rested turn none w held v p =
    let made = record w { last_id = suc w.last_id } in
    let fresh : IsResting made = record {
      at_rest = v.at_rest;
      reusable = v.reusable;
      idle_at_rest = v.idle_at_rest;
    } in
    let r = run_in-Rested turn (suc w.last_id) initial made held fresh (λ h. cc h) in
    record {
      goes_on = r.goes_on;
      next = r.next;
      ends = r.ends;
      resting = r.resting;
      queue = r.queue;
      history = r.history;
      active = r.active;
      ended = r.ended;
      looping = r.looping;
    }

run_idle-done :
    (expire : ℕ) (w : Worker)
    → IsResting w
    → w.idle_state ≡ done
    → Rested w (run_idle expire done w)
unfolding run_idle
run_idle-done expire w v p = record {
  goes_on = false;
  next = w;
  ends = refl;
  resting = v;
  queue = refl;
  history = refl;
  active = refl;
  ended = inl;
  looping = inr p;
}

-- `idle` ends only if there is no task.
stop_empty : (expire : ℕ) (w : Worker) → can_stop expire w ≡ true → w.tasks ≡ []
unfolding can_stop
stop_empty expire w h = no_tasks w.tasks refl
  where
    no_tasks : (ts : List Task) → w.tasks ≡ ts → ts ≡ []
    no_tasks [] p = refl
    no_tasks (t ∷ ts) p = absurd (ground (arith, p, h))

idle_ends :
    (b : Bool) (state state' : State)
    → resume (idle_turn b) state ≡ ok state'
    → state' ≡ done
    → b ≡ true
unfolding resume turn_ends
idle_ends true state state' h p = refl
idle_ends false running state' h p = absurd (cc h)
idle_ends false initial state' h p = absurd (cc (h, p))
idle_ends false suspended state' h p = absurd (cc (h, p))
idle_ends false done state' h p = absurd (cc (h, p))
idle_ends false except state' h p = absurd (cc (h, p))

pub idle_resumed :
    (expire : ℕ) (state : State) (w : Worker)
    → state ≢ done
    → run_idle expire state w ≡ (
        resume (idle_turn (can_stop expire w)) state >>= λ state'.
        ok (true, record w { idle_state = state'; idle = false }))
unfolding run_idle
idle_resumed expire done w h = absurd (h refl)
idle_resumed expire initial w h = refl
idle_resumed expire running w h = refl
idle_resumed expire suspended w h = refl
idle_resumed expire except w h = refl

run_idle-waits :
    (expire : ℕ) (w : Worker)
    → IsResting w
    → w.idle_state ≢ done
    → Rested w (run_idle expire w.idle_state w)
run_idle-waits expire w v p =
    let turn = idle_turn (can_stop expire w) in
    let (state', e, still, over) = resume_ok turn w.idle_state v.idle_at_rest in
    record {
      goes_on = true;
      next = record w { idle_state = state'; idle = false };
      ends =
          idle_resumed expire w.idle_state w p
          ∙ ap
              (λ (o : Outcome State).
                o >>= λ s. ok (true, record w { idle_state = s; idle = false }))
              e;
      resting = record { at_rest = v.at_rest; reusable = v.reusable; idle_at_rest = still };
      queue = refl;
      history = refl;
      active = refl;
      ended =
          λ q. inr (stop_empty expire w (idle_ends (can_stop expire w) w.idle_state state' e q));
      looping = inl refl;
    }

pub done_or_not : (state : State) → (state ≡ done) ⊎ (state ≢ done)
done_or_not done = inl refl
done_or_not initial = inr (λ h. cc h)
done_or_not running = inr (λ h. cc h)
done_or_not suspended = inr (λ h. cc h)
done_or_not except = inr (λ h. cc h)

pub run_idle-Rested :
    (expire : ℕ) (w : Worker) → IsResting w → Rested w (run_idle expire w.idle_state w)
run_idle-Rested expire w v = elim (done_or_not w.idle_state) [
  | inl p ↦ subst (λ s. Rested w (run_idle expire s w)) (sym p) (run_idle-done expire w v p)
  | inr p ↦ run_idle-waits expire w v p
]

pub run_task-Rested :
    (turn : Turn) (expire : ℕ) (t : Task) (w : Worker)
    → IsHeld turn
    → IsResting w
    → Rested w (run_task turn expire t w)
unfolding run_task live_co
run_task-Rested turn expire t w held v = by_branch (live_co t w) t.func (λ c. live_lem t.co c)
  where
    live_lem :
        (o : Option ℕ) (c : ℕ)
        → elim o [ none ↦ none | some c ↦ if is_live (w.states c) then some c else none ] ≡ some c
        → is_live (w.states c) ≡ true
    live_lem none c h = absurd (cc h)
    live_lem (some d) c h = elim (Bool-cases (is_live (w.states d))) [
      | inl e ↦ let same : d ≡ c = cc (simp e at h) in ap (λ n. is_live (w.states n)) (sym same) ∙ e
      | inr e ↦ absurd (cc (simp e at h))
    ]

    by_branch :
        (o f : Option ℕ)
        → ((c : ℕ) → o ≡ some c → is_live (w.states c) ≡ true)
        → Rested w (run_branch turn expire o f w)
    by_branch (some c) f live = unfold run_branch in run_co-Rested turn c w held v (live c refl)
    by_branch none (some f) live =
        unfold run_branch run_func in run_func_in-Rested turn w.co_func w held v refl
    by_branch none none live = unfold run_branch in run_idle-Rested expire w v
