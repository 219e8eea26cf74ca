-- ===== src/AsyncLog.antt =====
-- reyao/asynclog.h and asynclog.cc: the buffers of the asynchronous log. The text of the files is one
-- list of bytes, the rolling and the flushing of files are left out. A unique_ptr is an option.
pub mod Lines
mod Examples
use reyao.Common.{
  ℕ, zero, suc, ◌+◌, ◌-◌, ◌^◌, Option, none, some, List, [], ◌∷◌, ◌++◌, ltb, if◌then◌else◌, length,
  replicate, Outcome, ok, err, ◌>>=◌, fault,
}
use reyao.Common.Bytes.{Bytes}
use reyao.FixedBuffer.{FixedBuffer, avail, reset, written}
use reyao.FixedBuffer

abbrev pub buffer_size : ℕ
buffer_size = 4096

unfoldable pub new_buffer : FixedBuffer
new_buffer = record { bytes = replicate buffer_size 0; pos = 0 }

-- The members of AsyncLog, and the variables of `threadFunc`: `first` and `second`, the buffers that it
-- has taken over (`held`), and what it has written.
pub record AsyncLog : Type 0 where
  pub curr : Option FixedBuffer
  pub backup : Option FixedBuffer
  pub buffers : List FixedBuffer
  pub first : Option FixedBuffer
  pub second : Option FixedBuffer
  pub held : List FixedBuffer
  pub file : Bytes

abbrev pub or_else : Option FixedBuffer → Option FixedBuffer → Option FixedBuffer
or_else none b = b
or_else (some a) b = some a

abbrev pub or_new : Option FixedBuffer → FixedBuffer
or_new none = new_buffer
or_new (some a) = a

-- `append` with the current buffer.
unfoldable pub append_to : FixedBuffer → Bytes → AsyncLog → Outcome AsyncLog
append_to b xs a =
    if ltb (length xs) (avail b)
    then (do b' ← FixedBuffer.append b xs; ok (record a { curr = some b' }))
    else (do
      b' ← FixedBuffer.append (or_new a.backup) xs
      ok (record a { curr = some b'; backup = none; buffers = a.buffers ++ b ∷ [] }))

unfoldable pub append : Bytes → AsyncLog → Outcome AsyncLog
unfolding append_to
append xs a = elim a.curr as (λ x. Outcome AsyncLog) [
  | none ↦ err fault
  | some b ↦ append_to b xs a
]

-- The second buffer is moved to where there is no spare one.
abbrev pub left_over : Option FixedBuffer → Option FixedBuffer → Option FixedBuffer
left_over none second = none
left_over (some b) second = second

-- The critical section of `threadFunc`, with the current buffer.
unfoldable pub collect_from : FixedBuffer → AsyncLog → AsyncLog
collect_from b a = record a {
  curr = a.first;
  first = none;
  backup = or_else a.backup a.second;
  second = left_over a.backup a.second;
  buffers = [];
  held = a.buffers ++ b ∷ [];
}

unfoldable pub collect : AsyncLog → Outcome AsyncLog
unfolding collect_from
collect a = elim a.curr as (λ x. Outcome AsyncLog) [
  | none ↦ err fault
  | some b ↦ ok (collect_from b a)
]

abbrev pub text : List FixedBuffer → Bytes
text [] = []
text (b ∷ bs) = written b ++ text bs

-- The second buffer that is used again, or a new one.
abbrev pub second_of : List FixedBuffer → FixedBuffer
second_of [] = new_buffer
second_of (c ∷ bs) = reset c

-- The rest of the loop of `threadFunc`: the buffers are written, and used again.
unfoldable pub write_out : AsyncLog → List FixedBuffer → Outcome AsyncLog
write_out a [] = err fault
write_out a (b ∷ bs) = ok (record a {
  file = a.file ++ text (b ∷ bs);
  first = some (reset b);
  second = or_else a.second (some (second_of bs));
  held = [];
})

-- What the log thread does next.
abbrev pub turn_on : AsyncLog → List FixedBuffer → Outcome AsyncLog
turn_on a [] = collect a
turn_on a (b ∷ bs) = write_out a (b ∷ bs)

unfoldable pub thread_turn : AsyncLog → Outcome AsyncLog
thread_turn a = turn_on a a.held
