-- ===== src/Hook/Waiting.antt =====
-- Hook/Io.antt: `do_io` is the call that blocks, however often it is interrupted or has to wait.
use reyao.Common.{
  ℕ, zero, suc, ◌≡◌, ◌≢◌, refl, sym, ap, ◌∙◌, Bool, true, false, some, List, [], ◌∷◌, ◌++◌, length,
  map, replicate, append_assoc, append-nil,
}
use reyao.FdManager.{FdContext, Table, TimeoutType, get_fd_context, get_timeout}
use reyao.Hook.{
  Reply, value, interrupted, would_block, in_progress, failed, Effect, timer_added, timer_cancelled,
  event_added, suspended, End, answers, sets_errno, Attempt, call_again, start_timer, stop_timer,
  after, wait_for, attempt, retry, do_io, timed_out,
}

-- An answer that ends the loops of `do_io`.
abbrev pub IsFinal : Reply → Type 0
IsFinal r = (r ≢ interrupted) × (r ≢ would_block)

-- Calls that are interrupted `k` times and then answered.
abbrev pub replies : ℕ → Reply → List Reply
replies k r = replicate k interrupted ++ r ∷ []

-- An attempt that has to wait, and is resumed by its event or its timer.
abbrev pub blocked : Bool → ℕ → Attempt
blocked late k = record { replies = replies k would_block; added = true; cancelled = some late }

abbrev pub final : Reply → ℕ → Attempt
final r k = record { replies = replies k r; added = true; cancelled = some false }

-- What a wait does: a timer, if there is a timeout, the event, the suspension, and the end of the timer.
abbrev pub waited : ℕ → List Effect
waited timeout = start_timer timeout ++ event_added ∷ suspended ∷ stop_timer timeout

abbrev pub times : ℕ → List Effect → List Effect
times zero effects = []
times (suc n) effects = effects ++ times n effects

call_again-replies : (k : ℕ) (r : Reply) → r ≢ interrupted → call_again (replies k r) ≡ some r
unfolding call_again
call_again-replies zero (value n) h = refl
call_again-replies zero interrupted h = absurd (h refl)
call_again-replies zero would_block h = refl
call_again-replies zero in_progress h = refl
call_again-replies zero (failed n) h = refl
call_again-replies (suc k) r h = call_again-replies k r h

attempt-final :
    (timeout : ℕ) (a : Attempt) (r : Reply) (next : End × List Effect)
    → IsFinal r
    → attempt timeout a (some r) next ≡ (answers r, [])
unfolding attempt
attempt-final timeout a (value n) next h = refl
attempt-final timeout a interrupted next (h, k) = absurd (h refl)
attempt-final timeout a would_block next (h, k) = absurd (k refl)
attempt-final timeout a in_progress next h = refl
attempt-final timeout a (failed n) next h = refl

retry-final :
    (timeout k : ℕ) (r : Reply) (rest : List Attempt)
    → IsFinal r
    → retry timeout (final r k ∷ rest) ≡ (answers r, [])
unfolding retry
retry-final timeout k r rest (h, k') =
    ap (λ o. attempt timeout (final r k) o (retry timeout rest)) (call_again-replies k r h)
    ∙ attempt-final timeout (final r k) r (retry timeout rest) (h, k')

retry-blocked :
    (timeout k : ℕ) (late : Bool) (rest : List Attempt)
    → retry timeout (blocked late k ∷ rest) ≡ wait_for timeout true (some late) (retry timeout rest)
unfolding retry attempt
retry-blocked timeout k late rest =
    ap (λ o. attempt timeout (blocked late k) o (retry timeout rest))
      (call_again-replies k would_block (λ h. cc h))

retry_again :
    (timeout k : ℕ) (rest : List Attempt)
    → retry timeout (blocked false k ∷ rest) ≡ after (waited timeout) (retry timeout rest)
unfolding wait_for
retry_again timeout k rest = retry-blocked timeout k false rest

retry_waits :
    (timeout : ℕ) (ks : List ℕ) (last : Attempt) (end : End) (effects : List Effect)
    → retry timeout (last ∷ []) ≡ (end, effects)
    → retry timeout (map (blocked false) ks ++ last ∷ [])
      ≡ (end, times (length ks) (waited timeout) ++ effects)
retry_waits timeout [] last end effects h = h
retry_waits timeout (k ∷ ks) last end effects h =
    retry_again timeout k (map (blocked false) ks ++ last ∷ [])
    ∙ ap (after (waited timeout)) (retry_waits timeout ks last end effects h)
    ∙ ap (λ xs. (end, xs))
        (sym (append_assoc (waited timeout) (times (length ks) (waited timeout)) effects))

-- The timers that are started and that are cancelled.
abbrev pub started : List Effect → ℕ
started [] = 0
started (timer_added t ∷ effects) = suc (started effects)
started (timer_cancelled ∷ effects) = started effects
started (event_added ∷ effects) = started effects
started (suspended ∷ effects) = started effects

abbrev pub stopped : List Effect → ℕ
stopped [] = 0
stopped (timer_added t ∷ effects) = stopped effects
stopped (timer_cancelled ∷ effects) = suc (stopped effects)
stopped (event_added ∷ effects) = stopped effects
stopped (suspended ∷ effects) = stopped effects

-- A socket whose I/O the hook takes over.
pub record IsHooked (fd : ℕ) (table : Table) (c : FdContext) : Type 0 where
  pub entered : get_fd_context fd table ≡ some c
  pub opened : c.is_closed ≡ false
  pub sock : c.is_sock ≡ true
  pub blocking : c.is_user_nonblock ≡ false

pub do_io-retry :
    (fd : ℕ) (so : TimeoutType) (table : Table) (c : FdContext) (script : List Attempt)
    → IsHooked fd table c
    → do_io true fd so table script ≡ retry (get_timeout so c) script
unfolding do_io
do_io-retry fd so table c script h = simp (h.entered, h.opened, h.sock, h.blocking) refl

-- On a socket that the hook takes over, `do_io` is the call that blocks: whatever number of times
-- it is interrupted or would block, if every event can be added and wakes the coroutine in time, it
-- returns the first other answer; for every wait it starts one timer (if there is a timeout), adds
-- one event, suspends once, and cancels the timer.
pub do_io-waits :
    (fd : ℕ) (so : TimeoutType) (table : Table) (c : FdContext) (ks : List ℕ) (k : ℕ) (r : Reply)
    → IsHooked fd table c
    → IsFinal r
    → do_io true fd so table (map (blocked false) ks ++ final r k ∷ [])
      ≡ (answers r, times (length ks) (waited (get_timeout so c)))
do_io-waits fd so table c ks k r hooked is_final =
    do_io-retry fd so table c (map (blocked false) ks ++ final r k ∷ []) hooked
    ∙ retry_waits (get_timeout so c) ks (final r k) (answers r) []
        (retry-final (get_timeout so c) k r [] is_final)
    ∙ ap (λ xs. (answers r, xs)) (append-nil (times (length ks) (waited (get_timeout so c))))

-- If after any number of waits in time the timer of a wait comes first, `do_io` returns -1 with
-- ETIMEDOUT, and the timers are cancelled.
pub do_io-times_out :
    (fd : ℕ) (so : TimeoutType) (table : Table) (c : FdContext) (ks : List ℕ) (k : ℕ)
    → IsHooked fd table c
    → do_io true fd so table (map (blocked false) ks ++ blocked true k ∷ []) ≡ (
      sets_errno timed_out,
      times (length ks) (waited (get_timeout so c)) ++ waited (get_timeout so c),
    )
do_io-times_out fd so table c ks k hooked =
    do_io-retry fd so table c (map (blocked false) ks ++ blocked true k ∷ []) hooked
    ∙ retry_waits (get_timeout so c) ks (blocked true k) (sets_errno timed_out)
        (waited (get_timeout so c)) (unfold wait_for in retry-blocked (get_timeout so c) k true [])
