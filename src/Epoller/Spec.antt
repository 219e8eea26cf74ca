-- ===== src/Epoller/Spec.antt =====
-- What an Epoller promises, without the representation: for each descriptor who waits to read and who
-- waits to write, and which tasks have been handed to workers.
use reyao.Common.{
  ℕ, ◌-◌, ◌*◌, ◌/◌, Bool, true, false, ◌&&◌, ◌||◌, Option, none, some, List, [], ◌∷◌, ◌++◌, leb,
  if◌then◌else◌, length, take, replicate,
}
use reyao.Common.Slots.{slot, set_slot}
use reyao.Worker.{Task}
use reyao.Epoller.{EventType, epollin, epollout, Events, Report, awake, ready}

-- A worker with the coroutine that it resumes, or the function that it calls.
pub data Waiter : Type 0 where
  resumes : ℕ → ℕ → Waiter
  calls : ℕ → ℕ → Waiter

abbrev pub waiter_of : Option ℕ → ℕ → ℕ → Waiter
waiter_of none worker co = resumes worker co
waiter_of (some func) worker co = calls worker func

abbrev pub post_of : Waiter → ℕ × Task
post_of (resumes worker co) = (worker, record { func = none; co = some co })
post_of (calls worker func) = (worker, record { func = some func; co = none })

pub record Watch : Type 0 where
  pub reader : Option Waiter
  pub writer : Option Waiter

abbrev pub no_watch : Watch
no_watch = record { reader = none; writer = none }

abbrev pub is_some : Option Waiter → Bool
is_some none = false
is_some (some x) = true

abbrev pub waiter : EventType → Watch → Option Waiter
waiter epollin w = w.reader
waiter epollout w = w.writer

abbrev pub set_waiter : EventType → Option Waiter → Watch → Watch
set_waiter epollin x w = record w { reader = x }
set_waiter epollout x w = record w { writer = x }

pub record Spec : Type 0 where
  pub watches : List Watch
  pub posts : List (ℕ × Task)

abbrev pub put_watch : ℕ → Watch → Spec → Spec
put_watch fd w s = record s { watches = set_slot fd w s.watches }

abbrev pub widen : ℕ → Spec → Spec
widen fd s =
    let old = length s.watches in
    if leb old fd
    then record s { watches = take (fd * 3 / 2) s.watches ++ replicate (fd * 3 / 2 - old) no_watch }
    else s

-- A waiter comes to a free place.
abbrev pub come : ℕ → EventType → Waiter → Watch → Option Waiter → Spec → Bool × Spec
come fd type x w none s = (true, put_watch fd (set_waiter type (some x) w) s)
come fd type x w (some y) s = (false, s)

-- The waiter of a type is forgotten.
abbrev pub forget : ℕ → EventType → Watch → Spec → Bool × Spec
forget fd type w s =
    if is_some (waiter type w) then (true, put_watch fd (set_waiter type none w) s) else (false, s)

-- The waiter of a type, if there is one, is handed to its worker.
abbrev pub hand_over : ℕ → Watch → Option Waiter → Spec → Spec
hand_over fd w none s = s
hand_over fd w (some x) s = record (put_watch fd w s) { posts = s.posts ++ post_of x ∷ [] }

abbrev pub release : ℕ → EventType → Watch → Spec → Spec
release fd type w s = hand_over fd (set_waiter type none w) (waiter type w) s

abbrev pub handle : ℕ → EventType → Watch → Spec → Bool × Spec
handle fd type w s = (is_some (waiter type w), release fd type w s)

-- Both are handed over, the reader first.
abbrev pub handle_all : ℕ → Watch → Spec → Bool × Spec
handle_all fd w s = (
  is_some w.reader || is_some w.writer,
  release fd epollout (set_waiter epollin none w) (release fd epollin w s),
)

-- What is reported ready; an error or a hang-up is everything that is waited for.
abbrev pub is_ready : EventType → Events → Watch → Bool
is_ready epollin reported w =
    reported.reading || ((reported.error || reported.hang_up) && is_some w.reader)
is_ready epollout reported w =
    reported.writing || ((reported.error || reported.hang_up) && is_some w.writer)

abbrev pub release_if : Bool → ℕ → EventType → Watch → Spec → Watch × Spec
release_if true fd type w s = (set_waiter type none w, release fd type w s)
release_if false fd type w s = (w, s)

abbrev pub arrive : ℕ → Events → Watch → Spec → Spec
arrive fd reported w s =
    let (w', s') = release_if (is_ready epollin reported w) fd epollin w s in
    let (w'', s'') = release_if (is_ready epollout reported w) fd epollout w' s' in s''

-- An operation that epoll refuses, and one on a descriptor without an entry, changes nothing.
abbrev pub on_watch : ℕ → Bool → (Watch → Spec → Bool × Spec) → Spec → Bool × Spec
on_watch fd false action s = (false, s)
on_watch fd true action s = elim (slot fd s.watches) [ none ↦ (false, s) | some w ↦ action w s ]

abbrev pub arrive_all : List Report → Spec → Spec
arrive_all [] s = s
arrive_all (awake ∷ rs) s = arrive_all rs s
arrive_all (ready fd reported success ∷ rs) s =
    arrive_all rs (elim (slot fd s.watches) [ none ↦ s | some w ↦ arrive fd reported w s ])
