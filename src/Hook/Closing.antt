-- ===== src/Hook/Closing.antt =====
-- Hook/Io.antt: what `close` does to who waits for the descriptor.
use reyao.Common.{
  subst, ℕ, ◌≡◌, ◌≢◌, refl, ap, ◌∙◌, arith, Bool, true, false, none, some, ◌==◌, if◌then◌else◌, ok,
  Outcome, ◌>>=◌,
}
use reyao.Common.Slots.{slot}
use reyao.FdManager.{FdContext, Table, get_fd_context, del_fd}
use reyao.FdManager.Table.{get_fd_context-set_entry}
use reyao.Hook.{close, Pollers, handle_all_here}
use reyao.Hook.Options.{entered_passes}
use reyao.Epoller.{Epoller, epollin, epollout, handle_all_event}
use reyao.Epoller.Spec.{Spec, Watch, no_watch, set_waiter, release, handle_all, on_watch}
use reyao.Epoller.Refinement.{Shows, release-slot}
use reyao.Epoller.Waking.{handle_all_event-Gives}

del_fd_gone :
    (fd : ℕ) (table : Table) (c : FdContext)
    → get_fd_context fd table ≡ some c
    → get_fd_context fd (del_fd fd table) ≡ none
unfolding del_fd
del_fd_gone fd table c h =
    let passes = entered_passes fd table c h in
    let e : (fd == fd) ≡ true = ground arith in
    simp passes (
      get_fd_context-set_entry fd fd none table passes
      ∙ ap (λ b. if b then none else get_fd_context fd table) e)

-- Nobody waits once both have been handed over.
released-slot :
    (fd : ℕ) (s : Spec) (w : Watch)
    → slot fd s.watches ≡ some w
    → slot fd (handle_all fd w s).1.watches ≡ some no_watch
released-slot fd s w here =
    release-slot (release fd epollin w s) fd epollout (set_waiter epollin none w) w.writer
      (release-slot s fd epollin w w.reader here refl) refl

handles_all :
    (fd : ℕ) (s : Spec) (e : Epoller) (w : Watch)
    → Shows s e
    → slot fd s.watches ≡ some w
    → (b : Bool) × (e' : Epoller) × (handle_all_event fd true e ≡ ok (b, e'))
      × Shows (handle_all fd w s).1 e'
handles_all fd s e w v here =
    let (e', f, v') = handle_all_event-Gives fd true s e v in
    let same : on_watch fd true (handle_all fd) s ≡ handle_all fd w s = rw (on_watch, here) refl in
    (_, e', f, subst (λ p. Shows p.1 e') same v')

handled_here :
    (current fd : ℕ) (pollers : Pollers) (b : Bool) (e : Epoller)
    → handle_all_event fd true (pollers current) ≡ ok (b, e)
    → handle_all_here current fd true pollers ≡ ok (λ n. if n == current then e else pollers n)
unfolding handle_all_here
handled_here current fd pollers b e h =
    ap
      (λ (o : Outcome (Bool × Epoller)).
        o >>= λ (handled, e). ok (λ n. if n == current then e else pollers n))
      h

-- With the hook, `close` of a descriptor of the table, whose epoll_ctl succeeds, hands over the
-- waiters of it in the Epoller of the worker that runs, after which nobody waits for it there, and
-- the table of descriptors has forgotten it. The Epollers of the other workers are as they were:
-- who waits for the descriptor in one of them is not handed over.
pub close-forgets :
    (current fd : ℕ) (table : Table) (c : FdContext) (s : Spec) (pollers : Pollers) (w : Watch)
    → get_fd_context fd table ≡ some c
    → Shows s (pollers current)
    → slot fd s.watches ≡ some w
    → (pollers' : Pollers) × (close true current fd true table pollers
        ≡ ok (del_fd fd table, pollers'))
      × (get_fd_context fd (del_fd fd table) ≡ none)
      × Shows (handle_all fd w s).1 (pollers' current)
      × (slot fd (handle_all fd w s).1.watches ≡ some no_watch)
      × ((n : ℕ) → n ≢ current → pollers' n ≡ pollers n)
unfolding close
close-forgets current fd table c s pollers w h v here =
    let (b, e, f, v') = handles_all fd s (pollers current) w v here in
    let done = handled_here current fd pollers b e f in
    let same : (current == current) ≡ true = ground arith in
    (
      (λ n. if n == current then e else pollers n),
      simp (h, done) refl,
      del_fd_gone fd table c h,
      simp same v',
      released-slot fd s w here,
      (λ n other. let no : (n == current) ≡ false = ground arith in simp no refl),
    )
