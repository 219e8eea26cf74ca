-- ===== src/Scheduler/Turns.antt =====
-- Scheduler.antt: the workers take their turns.
use reyao.Common.{
  ℕ, zero, suc, ◌+◌, ◌%◌, ◌≡◌, ◌<◌, ◌≤◌, refl, sym, ap, ◌∙◌, arith, Option, none, some, List, [],
  ◌∷◌, length, take, drop, Outcome, ok, err, out_of_range, ◌>>=◌,
}
use native.Mathlib.Nat.{mod_self, mod-eq_of_lt}
use reyao.Common.Slots.{slot, slot_there}
use reyao.Scheduler.{Scheduler, get_next_worker}

-- `n` calls of `getNextWorker`.
abbrev pub next_workers : ℕ → Scheduler → Outcome (List ℕ × Scheduler)
next_workers zero s = ok ([], s)
next_workers (suc n) s = do
  (w, s') ← get_next_worker s
  (ws, s'') ← next_workers n s'
  ok (w ∷ ws, s'')

drop_at : (i w : ℕ) (ws : List ℕ) → slot i ws ≡ some w → drop i ws ≡ w ∷ drop (suc i) ws
unfolding slot
drop_at i w [] h = absurd (cc h)
drop_at zero w (x ∷ xs) h = ap (◌∷ xs) (cc h)
drop_at (suc i) w (x ∷ xs) h = drop_at i w xs h

get_next_worker_at :
    (s : Scheduler) (w : ℕ)
    → slot s.index s.workers ≡ some w
    → get_next_worker s ≡ ok (w, record s { index = (s.index + 1) % s.thread_num })
unfolding get_next_worker
get_next_worker_at s w h =
    ap
      (λ (o : Option ℕ). elim o as (λ x. Outcome (ℕ × Scheduler)) [
        | none ↦ err out_of_range
        | some w ↦ ok (w, record s { index = (s.index + 1) % s.thread_num })
      ])
      h

first_worker :
    (n i w : ℕ) (s : Scheduler) (ws : List ℕ) (s' : Scheduler)
    → slot i s.workers ≡ some w
    → next_workers n (record s { index = (i + 1) % s.thread_num }) ≡ ok (ws, s')
    → next_workers (suc n) (record s { index = i }) ≡ ok (w ∷ ws, s')
first_worker n i w s ws s' here rest =
    ap
      (λ (o : Outcome (ℕ × Scheduler)).
        o >>= λ (w, s1). next_workers n s1 >>= λ (ws, s2). ok (w ∷ ws, s2))
      (get_next_worker_at (record s { index = i }) w here)
    ∙ ap (λ (o : Outcome (List ℕ × Scheduler)). o >>= λ (ws, s2). ok (w ∷ ws, s2)) rest

-- Up to the last worker.
next_workers_from :
    (n i : ℕ) (s : Scheduler)
    → s.thread_num ≤ length s.workers
    → i + suc n ≡ s.thread_num
    → next_workers (suc n) (record s { index = i })
      ≡ ok (take (suc n) (drop i s.workers), record s { index = 0 })
next_workers_from zero i s all e =
    let (w, here) = slot_there i s.workers (omega (arith, all, e)) in
    let back : (i + 1) % s.thread_num ≡ 0 = ap (λ k. (i + 1) % k) (sym e) ∙ mod_self (i + 1) in
    first_worker 0 i w s [] (record s { index = 0 }) here
      (ap (λ k. ok ([], record s { index = k })) back)
    ∙ ap (λ xs. ok (take 1 xs, record s { index = 0 })) (sym (drop_at i w s.workers here))
next_workers_from (suc n) i s all e =
    let (w, here) = slot_there i s.workers (omega (arith, all, e)) in
    let step : (i + 1) % s.thread_num ≡ i + 1 = mod-eq_of_lt (omega (arith, e)) in
    let rest = next_workers_from n (suc i) s all (omega (arith, e)) in
    let same : (i + 1) % s.thread_num ≡ suc i = step ∙ omega arith in
    first_worker (suc n) i w s (take (suc n) (drop (suc i) s.workers)) (record s { index = 0 }) here
      (ap (λ k. next_workers (suc n) (record s { index = k })) same ∙ rest)
    ∙ ap (λ xs. ok (take (suc (suc n)) xs, record s { index = 0 }))
        (sym (drop_at i w s.workers here))

-- If there are as many workers as threadNum_, which is not 0, then from index 0 on threadNum_ calls
-- of getNextWorker give each worker once, in their order, and come back to index 0.
pub next_workers_lem :
    (s : Scheduler)
    → s.thread_num ≤ length s.workers
    → 0 < s.thread_num
    → next_workers s.thread_num (record s { index = 0 })
      ≡ ok (take s.thread_num s.workers, record s { index = 0 })
next_workers_lem s all some_thread = by_number s.thread_num refl some_thread
  where
    by_number :
        (n : ℕ)
        → s.thread_num ≡ n
        → 0 < n
        → next_workers n (record s { index = 0 }) ≡ ok (take n s.workers, record s { index = 0 })
    by_number zero e h = absurd (omega (arith, h))
    by_number (suc n) e h = next_workers_from n 0 s all (omega (arith, e))
