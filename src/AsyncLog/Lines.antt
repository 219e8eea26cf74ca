-- ===== src/AsyncLog/Lines.antt =====
-- AsyncLog.antt: every line that is appended reaches the files once, in its order.
use reyao.Common.{
  subst, ℕ, ◌-◌, ◌<◌, ◌≤◌, ◌≡◌, refl, sym, ap, ◌∙◌, arith, true, inl, inr, Option, none, some, List,
  [], ◌∷◌, ◌++◌, ltb, leb, if◌then◌else◌, length, take, length-replicate, Outcome, ok, err, ◌>>=◌,
  fault, Bool-cases, All, All-append, append_assoc, append-nil,
}
use reyao.Common.Bytes.{Bytes}
use reyao.Common.Words.{sub64_small}
use reyao.FixedBuffer.{FixedBuffer, avail, reset, written, IsValid, append_lem}
use reyao.FixedBuffer
use reyao.AsyncLog.{
  AsyncLog, buffer_size, new_buffer, or_else, left_over, or_new, append, append_to, collect,
  collect_from, text, second_of, write_out, turn_on, thread_turn,
}

-- A buffer of the log, and one that is empty.
abbrev pub IsSized : FixedBuffer → Type 0
IsSized b = IsValid b × (length b.bytes ≡ buffer_size)

abbrev pub IsFresh : FixedBuffer → Type 0
IsFresh b = IsSized b × (b.pos ≡ 0)

abbrev pub IsFreshIf : Option FixedBuffer → Type 0
IsFreshIf none = Unit
IsFreshIf (some b) = IsFresh b

-- There is a current buffer; the spare ones are empty; the log thread has its first one when it holds no
-- buffers to write.
pub record IsReady (a : AsyncLog) : Type 0 where
  pub current : (b : FixedBuffer) × (a.curr ≡ some b) × IsSized b
  pub spare : IsFreshIf a.backup
  pub waiting : All IsSized a.buffers
  pub own : a.held ≡ [] → (b : FixedBuffer) × (a.first ≡ some b) × IsFresh b
  pub other : IsFreshIf a.second
  pub writing : All IsSized a.held

reset-IsFresh : (b : FixedBuffer) → IsSized b → IsFresh (reset b)
reset-IsFresh b (v, n) = ((record { inside = omega arith; addressable = v.addressable }, n), refl)

pub new_buffer-IsFresh : IsFresh new_buffer
unfolding new_buffer
new_buffer-IsFresh =
    let n = length-replicate {A = ℕ} 4096 0 in
    ((record { inside = omega arith; addressable = omega (arith, n) }, n), refl)

or_new-IsFresh : (o : Option FixedBuffer) → IsFreshIf o → IsFresh (or_new o)
or_new-IsFresh none f = new_buffer-IsFresh
or_new-IsFresh (some b) f = f

-- All the text that has been appended.
abbrev pub current_text : Option FixedBuffer → Bytes
current_text none = []
current_text (some b) = written b

abbrev pub lines : AsyncLog → Bytes
lines a = a.file ++ (text a.held ++ (text a.buffers ++ current_text a.curr))

-- A line goes into a buffer that has room for it.
put_line :
    (b : FixedBuffer) (xs : Bytes)
    → IsSized b
    → length xs ≤ buffer_size - b.pos
    → (b' : FixedBuffer) × (FixedBuffer.append b xs ≡ ok b')
      × IsSized b'
      × (written b' ≡ written b ++ xs)
put_line b xs (v, n) fits =
    let (b', e, v', n', w) = append_lem b xs v in
    let yes : leb (length xs) (length b.bytes - b.pos) ≡ true = ground (arith, n) in
    (b', e, (v', n' ∙ n), w ∙ ap (λ t. if t then written b ++ xs else written b) yes)

avail-IsSized : (b : FixedBuffer) → IsSized b → avail b ≡ buffer_size - b.pos
unfolding avail
avail-IsSized b (v, n) =
    sub64_small (length b.bytes) b.pos v.inside (omega (arith, v.addressable))
    ∙ ap (λ k. k - b.pos) n

text-append : (bs cs : List FixedBuffer) → text (bs ++ cs) ≡ text bs ++ text cs
text-append [] cs = refl
text-append (b ∷ bs) cs =
    ap (written b ++◌) (text-append bs cs) ∙ sym (append_assoc (written b) (text bs) (text cs))

text-last : (bs : List FixedBuffer) (b : FixedBuffer) → text (bs ++ b ∷ []) ≡ text bs ++ written b
text-last bs b = text-append bs (b ∷ []) ∙ ap (text bs ++◌) (append-nil (written b))

written-IsFresh : (b : FixedBuffer) → b.pos ≡ 0 → written b ≡ []
written-IsFresh b h = ap (λ n. take n b.bytes) h

four : (f h b c xs : Bytes) → f ++ (h ++ (b ++ (c ++ xs))) ≡ (f ++ (h ++ (b ++ c))) ++ xs
four f h b c xs =
    ap (λ u. f ++ (h ++ u)) (sym (append_assoc b c xs))
    ∙ ap (f ++◌) (sym (append_assoc h (b ++ c) xs))
    ∙ sym (append_assoc f (h ++ (b ++ c)) xs)

-- What an operation makes of the log.
abbrev pub Logs : AsyncLog → Bytes → Outcome AsyncLog → Type 0
Logs a xs o = (a' : AsyncLog) × (o ≡ ok a') × IsReady a' × (lines a' ≡ lines a ++ xs)

append_to-Logs :
    (b : FixedBuffer) (xs : Bytes) (a : AsyncLog)
    → IsReady a
    → a.curr ≡ some b
    → IsSized b
    → length xs < buffer_size
    → Logs a xs (append_to b xs a)
unfolding append_to
append_to-Logs b xs a v here sized small = elim (Bool-cases (ltb (length xs) (avail b))) [
  | inl fits ↦
      let room = avail-IsSized b sized in
      let (b', e, sized', w) = put_line b xs sized (ground (arith, room)) in
      let whole : lines (record a { curr = some b' }) ≡ lines a ++ xs =
        ap (λ u. a.file ++ (text a.held ++ (text a.buffers ++ u))) w
        ∙ four a.file (text a.held) (text a.buffers) (written b) xs
        ∙ ap (λ o. (a.file ++ (text a.held ++ (text a.buffers ++ current_text o))) ++ xs)
            (sym here) in
      (
        record a { curr = some b' },
        simp (fits, e) refl,
        record {
          current = (b', refl, sized');
          spare = v.spare;
          waiting = v.waiting;
          own = v.own;
          other = v.other;
          writing = v.writing;
        },
        whole,
      )
  | inr full ↦
      let (fresh, empty) = or_new-IsFresh a.backup v.spare in
      let (b', e, sized', w) = put_line (or_new a.backup) xs fresh (omega (arith, empty)) in
      let next = record a { curr = some b'; backup = none; buffers = a.buffers ++ b ∷ [] } in
      let whole : lines next ≡ lines a ++ xs =
        ap (λ u. a.file ++ (text a.held ++ (text (a.buffers ++ b ∷ []) ++ u)))
          (w ∙ ap (◌++ xs) (written-IsFresh (or_new a.backup) empty))
        ∙ ap (λ u. a.file ++ (text a.held ++ (u ++ xs))) (text-last a.buffers b)
        ∙ ap (λ u. a.file ++ (text a.held ++ u)) (append_assoc (text a.buffers) (written b) xs)
        ∙ four a.file (text a.held) (text a.buffers) (written b) xs
        ∙ ap (λ o. (a.file ++ (text a.held ++ (text a.buffers ++ current_text o))) ++ xs)
            (sym here) in
      (
        next,
        simp (full, e) refl,
        record {
          current = (b', refl, sized');
          spare = tt;
          waiting = All-append IsSized a.buffers (b ∷ []) v.waiting (sized, tt);
          own = v.own;
          other = v.other;
          writing = v.writing;
        },
        whole,
      )
]

append-Logs :
    (xs : Bytes) (a : AsyncLog) → IsReady a → length xs < buffer_size → Logs a xs (append xs a)
unfolding append
append-Logs xs a v small =
    let (b, here, sized) = v.current in
    let same : append xs a ≡ append_to b xs a =
      ap
        (λ (o : Option FixedBuffer). elim o as (λ x. Outcome AsyncLog) [
          | none ↦ err fault
          | some b ↦ append_to b xs a
        ])
        here in
    subst (Logs a xs) (sym same) (append_to-Logs b xs a v here sized small)

abbrev pub Keeps : AsyncLog → Outcome AsyncLog → Type 0
Keeps a o = (a' : AsyncLog) × (o ≡ ok a') × IsReady a' × (lines a' ≡ lines a)

not_empty : (bs : List FixedBuffer) (b : FixedBuffer) → bs ++ b ∷ [] ≡ [] → ⊥
not_empty [] b h = cc h
not_empty (c ∷ bs) b h = cc h

-- What is collected is the text that was not collected yet.
collected :
    (f : Bytes) (bs : List FixedBuffer) (b c : FixedBuffer)
    → written c ≡ []
    → f ++ (text (bs ++ b ∷ []) ++ ([] ++ written c)) ≡ f ++ (text bs ++ written b)
collected f bs b c h =
    ap (λ u. f ++ (text (bs ++ b ∷ []) ++ u)) h
    ∙ ap (f ++◌) (append-nil (text (bs ++ b ∷ [])))
    ∙ ap (f ++◌) (text-last bs b)

or_else-IsFreshIf : (o p : Option FixedBuffer) → IsFreshIf o → IsFreshIf p → IsFreshIf (or_else o p)
or_else-IsFreshIf none p f g = g
or_else-IsFreshIf (some b) p f g = f

left_over-IsFreshIf : (o p : Option FixedBuffer) → IsFreshIf p → IsFreshIf (left_over o p)
left_over-IsFreshIf none p g = tt
left_over-IsFreshIf (some b) p g = g

collect_from-Keeps :
    (b c : FixedBuffer) (a : AsyncLog)
    → IsReady a
    → a.curr ≡ some b
    → IsSized b
    → a.held ≡ []
    → a.first ≡ some c
    → IsFresh c
    → IsReady (collect_from b a) × (lines (collect_from b a) ≡ lines a)
unfolding collect_from
collect_from-Keeps b c a v here sized idle own (fresh, empty) = (
  record {
    current = (c, own, fresh);
    spare = or_else-IsFreshIf a.backup a.second v.spare v.other;
    waiting = tt;
    own = λ h. absurd (not_empty a.buffers b h);
    other = left_over-IsFreshIf a.backup a.second v.other;
    writing = All-append IsSized a.buffers (b ∷ []) v.waiting (sized, tt);
  },
  ap (λ o. a.file ++ (text (a.buffers ++ b ∷ []) ++ ([] ++ current_text o))) own
      ∙ collected a.file a.buffers b c (written-IsFresh c empty)
      ∙ sym (
          ap (λ o. a.file ++ (text a.held ++ (text a.buffers ++ current_text o))) here
          ∙ ap (λ bs. a.file ++ (text bs ++ (text a.buffers ++ written b))) idle),
)

collect-Keeps : (a : AsyncLog) → IsReady a → a.held ≡ [] → Keeps a (collect a)
unfolding collect
collect-Keeps a v idle =
    let (b, here, sized) = v.current in
    let (c, own, fresh) = v.own idle in
    let (v', l) = collect_from-Keeps b c a v here sized idle own fresh in
    (
      collect_from b a,
      ap
          (λ (o : Option FixedBuffer). elim o as (λ x. Outcome AsyncLog) [
            | none ↦ err fault
            | some b ↦ ok (collect_from b a)
          ])
          here,
      v',
      l,
    )

second-IsFresh :
    (o : Option FixedBuffer) (bs : List FixedBuffer)
    → IsFreshIf o
    → All IsSized bs
    → IsFreshIf (or_else o (some (second_of bs)))
second-IsFresh (some b) bs f sized = f
second-IsFresh none [] f sized = new_buffer-IsFresh
second-IsFresh none (b ∷ bs) f (sized, rest) = reset-IsFresh b sized

write_out-Keeps :
    (a : AsyncLog) (b : FixedBuffer) (bs : List FixedBuffer)
    → IsReady a
    → a.held ≡ b ∷ bs
    → Keeps a (write_out a (b ∷ bs))
unfolding write_out
write_out-Keeps a b bs v h =
    let (sized, rest) = subst (All IsSized) h v.writing in
    (
      _,
      refl,
      record {
        current = v.current;
        spare = v.spare;
        waiting = v.waiting;
        own = λ q. (reset b, refl, reset-IsFresh b sized);
        other = second-IsFresh a.second bs v.other rest;
        writing = tt;
      },
      append_assoc a.file (text (b ∷ bs)) (text a.buffers ++ current_text a.curr)
          ∙ ap (λ x. a.file ++ (text x ++ (text a.buffers ++ current_text a.curr))) (sym h),
    )

turn_on-Keeps :
    (a : AsyncLog) (bs : List FixedBuffer) → IsReady a → a.held ≡ bs → Keeps a (turn_on a bs)
turn_on-Keeps a [] v h = collect-Keeps a v h
turn_on-Keeps a (b ∷ bs) v h = write_out-Keeps a b bs v h

thread_turn-Keeps : (a : AsyncLog) → IsReady a → Keeps a (thread_turn a)
unfolding thread_turn
thread_turn-Keeps a v = turn_on-Keeps a a.held v refl

-- What happens to the log: a line is appended, or the log thread goes on.
pub data Event : Type 0 where
  appends : Bytes → Event
  turns : Event

unfoldable pub happen : Event → AsyncLog → Outcome AsyncLog
happen (appends xs) a = append xs a
happen turns a = thread_turn a

unfoldable pub happen_all : List Event → AsyncLog → Outcome AsyncLog
happen_all [] a = ok a
happen_all (e ∷ es) a = happen e a >>= happen_all es

abbrev pub appended : List Event → Bytes
appended [] = []
appended (appends xs ∷ es) = xs ++ appended es
appended (turns ∷ es) = appended es

abbrev pub AreSmall : List Event → Type 0
AreSmall [] = Unit
AreSmall (appends xs ∷ es) = (length xs < buffer_size) × AreSmall es
AreSmall (turns ∷ es) = AreSmall es

-- The asynchronous log loses, repeats and reorders no line: from a log whose buffers are in order,
-- with the spare ones empty, whatever lines of less than 4096 bytes are appended and whenever the
-- log thread takes its turns in between, no null pointer is used, the log is in order again, and
-- what is in the files, the buffers that are being written, the full ones and the current one, in
-- this order, has grown exactly by the lines appended.
pub happen_all-Logs :
    (events : List Event) (a : AsyncLog)
    → IsReady a
    → AreSmall events
    → Logs a (appended events) (happen_all events a)
unfolding happen_all happen
happen_all-Logs [] a v small = (a, refl, v, sym (append-nil (lines a)))
happen_all-Logs (appends xs ∷ es) a v (small, rest) =
    let (a1, e1, v1, l1) = append-Logs xs a v small in
    let (a2, e2, v2, l2) = happen_all-Logs es a1 v1 rest in
    (
      a2,
      ap (λ (o : Outcome AsyncLog). o >>= happen_all es) e1 ∙ e2,
      v2,
      l2 ∙ ap (◌++ appended es) l1 ∙ append_assoc (lines a) xs (appended es),
    )
happen_all-Logs (turns ∷ es) a v rest =
    let (a1, e1, v1, l1) = thread_turn-Keeps a v in
    let (a2, e2, v2, l2) = happen_all-Logs es a1 v1 rest in
    (
      a2,
      ap (λ (o : Outcome AsyncLog). o >>= happen_all es) e1 ∙ e2,
      v2,
      l2 ∙ ap (◌++ appended es) l1,
    )
