-- ===== src/Timer/Invariant.antt =====
-- What every operation on the timers keeps: the set is in order, and its keys are the times of the
-- objects.
use reyao.Common.{
  ℕ, ◌+◌, ◌≡◌, ◌≢◌, refl, sym, ap, ◌∙◌, arith, Bool, true, none, some, List, [], ◌∷◌, ◌==◌,
  Bool-cases, All, inl, inr,
}
use reyao.Timer.{
  Key, Timer, TimeManager, key_less, key_eq, key_of, erase, has_key, put, write, add_timer, cancel,
  refresh, is_none,
}
use reyao.Timer.Order.{
  Before, IsSorted, insert-All, insert-IsSorted, erase-All, erase-IsSorted, key_less-false, All-map,
}

abbrev pub Coherent : (ℕ → Timer) → Key → Type 0
Coherent heap k = (heap k.id).expire ≡ k.expire

pub record IsValid (m : TimeManager) : Type 0 where
  pub sorted : IsSorted m.timers
  pub coherent : All (Coherent m.heap) m.timers

-- No timer of the set is at this address.
abbrev pub Absent : ℕ → List Key → Type 0
Absent id ks = All (λ k. k.id ≢ id) ks

pub write-other : (id i : ℕ) (t : Timer) (heap : ℕ → Timer) → i ≢ id → write id t heap i ≡ heap i
unfolding write
write-other id i t heap n = ground arith

pub write-same : (id : ℕ) (t : Timer) (heap : ℕ → Timer) → write id t heap id ≡ t
unfolding write
write-same id t heap = ground arith

pub Coherent-write :
    (id : ℕ) (t : Timer) (heap : ℕ → Timer) (ks : List Key)
    → Absent id ks
    → All (Coherent heap) ks
    → All (Coherent (write id t heap)) ks
Coherent-write id t heap [] n c = tt
Coherent-write id t heap (k ∷ ks) n c = (
  ap (λ x. x.expire) (write-other id k.id t heap (n.0)) ∙ c.0,
  Coherent-write id t heap ks (n.1) (c.1),
)

-- A write that leaves the time alone.
Coherent-same :
    (id : ℕ) (t : Timer) (heap : ℕ → Timer) (ks : List Key)
    → t.expire ≡ (heap id).expire
    → All (Coherent heap) ks
    → All (Coherent (write id t heap)) ks
Coherent-same id t heap ks e c = All-map (λ k h. here k ∙ h) ks c
  where
    here : (k : Key) → (write id t heap k.id).expire ≡ (heap k.id).expire
    here k = elim (Bool-cases (k.id == id)) [
      | inl q ↦
          let same : k.id ≡ id = ground arith in
          rw same (ap (λ x. x.expire) (write-same id t heap) ∙ e)
      | inr q ↦ ap (λ x. x.expire) (write-other id k.id t heap (ground arith))
    ]

key_eq-same : (a b : Key) → key_eq a b ≡ true → (a.expire ≡ b.expire) × (a.id ≡ b.id)
key_eq-same a b h = key_less-false a b (ground arith) (ground arith)

key_eq_refl : (a b : Key) → a.expire ≡ b.expire → a.id ≡ b.id → key_eq a b ≡ true
unfolding key_less
key_eq_refl a b e i = ground arith

-- Two keys of one object cannot stand in order.
pub Before-apart :
    (heap : ℕ → Timer) (a b : Key) → Coherent heap a → Coherent heap b → Before a b → b.id ≢ a.id
Before-apart heap a b ca cb h same =
    let equal : a.expire ≡ b.expire = sym ca ∙ ap (λ i. (heap i).expire) (sym same) ∙ cb in
    ground arith

pub All-apart :
    (heap : ℕ → Timer) (a : Key) (ks : List Key)
    → Coherent heap a
    → All (Coherent heap) ks
    → All (Before a) ks
    → Absent a.id ks
All-apart heap a [] ca cs bs = tt
All-apart heap a (k ∷ ks) ca cs bs =
    (Before-apart heap a k ca (cs.0) (bs.0), All-apart heap a ks ca (cs.1) (bs.1))

-- Once its key has been erased, the object is not in the set.
erase-Absent :
    (heap : ℕ → Timer) (key : Key) (ks : List Key)
    → Coherent heap key
    → IsSorted ks
    → All (Coherent heap) ks
    → Absent key.id (erase key ks)
unfolding erase
erase-Absent heap key [] ck s c = tt
erase-Absent heap key (k ∷ ks) ck s c = elim (Bool-cases (key_eq key k)) [
  | inl e ↦
      let same : key.id ≡ k.id = (key_eq-same key k e).1 in
      simp e (rw same (All-apart heap k ks (c.0) (c.1) (s.0)))
  | inr e ↦ simp e (
    (λ i.
        let equal : key.expire ≡ k.expire = sym ck ∙ ap (λ j. (heap j).expire) (sym i) ∙ c.0 in
        absurd (cc (key_eq_refl key k equal (sym i), e))),
    erase-Absent heap key ks ck (s.1) (c.1),
  )
]

pub put-IsValid :
    (id : ℕ) (t : Timer) (m : TimeManager) → IsValid m → Absent id m.timers → IsValid (put id t m)
unfolding put
put-IsValid id t m v n =
    let key : Key = record { expire = t.expire; id = id } in
    record {
      sorted = insert-IsSorted key m.timers v.sorted;
      coherent =
          insert-All (Coherent (write id t m.heap)) key m.timers
            (ap (λ x. x.expire) (write-same id t m.heap))
            (Coherent-write id t m.heap m.timers n v.coherent);
    }

erase-IsValid :
    (key : Key) (m : TimeManager) → IsValid m → IsValid (record m { timers = erase key m.timers })
erase-IsValid key m v = record {
  sorted = erase-IsSorted key m.timers v.sorted;
  coherent = erase-All (Coherent m.heap) key m.timers v.coherent;
}

-- The timer is taken out of the set and put in again.
pub reput-IsValid :
    (id : ℕ) (t : Timer) (m : TimeManager)
    → IsValid m
    → IsValid (put id t (record m { timers = erase (key_of m id) m.timers }))
reput-IsValid id t m v =
    put-IsValid id t (record m { timers = erase (key_of m id) m.timers })
      (erase-IsValid (key_of m id) m v)
      (erase-Absent m.heap (key_of m id) m.timers refl v.sorted v.coherent)

-- `needNotify_` and the calls of `timerInsertAtFront` do not matter.
pub noted-IsValid :
    (need : Bool) (n : ℕ) (m : TimeManager)
    → IsValid m
    → IsValid (record m { need_notify = need; notified = n })
noted-IsValid need n m v = record { sorted = v.sorted; coherent = v.coherent }

pub add_timer-IsValid :
    (now id interval func : ℕ) (recursive : Bool) (m : TimeManager)
    → Absent id m.timers
    → IsValid m
    → IsValid (add_timer now id interval func recursive m)
unfolding add_timer
add_timer-IsValid now id interval func recursive m n v =
    let t : Timer = record {
      recursive = recursive;
      interval = interval;
      expire = now + interval;
      func = some func;
    } in
    let p = put-IsValid id t m v n in record { sorted = p.sorted; coherent = p.coherent }

pub write-IsValid :
    (id : ℕ) (t : Timer) (m : TimeManager)
    → t.expire ≡ (m.heap id).expire
    → IsValid m
    → IsValid (record m { heap = write id t m.heap })
write-IsValid id t m e v = record {
  sorted = v.sorted;
  coherent = Coherent-same id t m.heap m.timers e v.coherent;
}

pub cancel-IsValid : (id : ℕ) (m : TimeManager) → IsValid m → IsValid (cancel id m).1
unfolding cancel
cancel-IsValid id m v = elim (Bool-cases (is_none (m.heap id).func)) [
  | inl e ↦ simp e v
  | inr e ↦
      let t : Timer = record (m.heap id) { func = none } in
      let w = write-IsValid id t m refl v in
      elim (Bool-cases (has_key (key_of m id) m.timers)) [
        | inl f ↦
            simp (e, f) (erase-IsValid (key_of m id) (record m { heap = write id t m.heap }) w)
        | inr f ↦ simp (e, f) w
      ]
]

pub refresh-IsValid : (now id : ℕ) (m : TimeManager) → IsValid m → IsValid (refresh now id m).1
unfolding refresh
refresh-IsValid now id m v = elim (Bool-cases (is_none (m.heap id).func)) [
  | inl e ↦ simp e v
  | inr e ↦ elim (Bool-cases (has_key (key_of m id) m.timers)) [
    | inl f ↦
        simp (e, f)
          (reput-IsValid id (record (m.heap id) { expire = now + (m.heap id).interval }) m v)
    | inr f ↦ simp (e, f) v
  ]
]
