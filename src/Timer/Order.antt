-- ===== src/Timer/Order.antt =====
-- The order of the set of timers: what keeps it, and what the search for the expired ones finds in it.
use reyao.Common.{
  ℕ, ◌≤◌, ◌<◌, ◌≡◌, refl, ap, arith, true, false, List, [], ◌∷◌, ◌++◌, ◌==◌, Bool-cases, All, ◌⊎◌,
  inl, inr,
}
use reyao.Timer.{Key, key_less, key_eq, insert, erase, skip_now, split}

abbrev pub Before : Key → Key → Type 0
Before a b = (a.expire < b.expire) ⊎ ((a.expire ≡ b.expire) × (a.id < b.id))

-- Each key is before all that follow it.
abbrev pub IsSorted : List Key → Type 0
IsSorted [] = Unit
IsSorted (k ∷ ks) = All (Before k) ks × IsSorted ks

pub key_less→Before : (a b : Key) → key_less a b ≡ true → Before a b
unfolding key_less
key_less→Before a b h = ground arith

pub key_less-false :
    (a b : Key)
    → key_less a b ≡ false
    → key_less b a ≡ false
    → (a.expire ≡ b.expire) × (a.id ≡ b.id)
unfolding key_less
key_less-false a b h k = ground arith

Before-trans : (a b c : Key) → Before a b → Before b c → Before a c
Before-trans a b c h k = ground arith

pub All-map : {P Q : Key → Type 0} → ((k : Key) → P k → Q k) → (ks : List Key) → All P ks → All Q ks
All-map f [] h = tt
All-map f (k ∷ ks) h = (f k (h.0), All-map f ks (h.1))

pub insert-All : (P : Key → Type 0) (k : Key) (ks : List Key) → P k → All P ks → All P (insert k ks)
unfolding insert
insert-All P k [] p h = (p, tt)
insert-All P k (x ∷ xs) p h = elim (Bool-cases (key_less k x)) [
  | inl e ↦ simp e (p, h)
  | inr e ↦ elim (Bool-cases (key_less x k)) [
    | inl f ↦ simp (e, f) (h.0, insert-All P k xs p (h.1))
    | inr f ↦ simp (e, f) h
  ]
]

pub insert-IsSorted : (k : Key) (ks : List Key) → IsSorted ks → IsSorted (insert k ks)
unfolding insert
insert-IsSorted k [] h = (tt, tt)
insert-IsSorted k (x ∷ xs) h = elim (Bool-cases (key_less k x)) [
  | inl e ↦
      let b = key_less→Before k x e in
      simp e ((b, All-map (λ y c. Before-trans k x y b c) xs (h.0)), h)
  | inr e ↦ elim (Bool-cases (key_less x k)) [
    | inl f ↦
        simp (e, f)
          (insert-All (Before x) k xs (key_less→Before x k f) (h.0), insert-IsSorted k xs (h.1))
    | inr f ↦ simp (e, f) h
  ]
]

pub erase-All : (P : Key → Type 0) (k : Key) (ks : List Key) → All P ks → All P (erase k ks)
unfolding erase
erase-All P k [] h = tt
erase-All P k (x ∷ xs) h = elim (Bool-cases (key_eq k x)) [
  | inl e ↦ simp e (h.1)
  | inr e ↦ simp e (h.0, erase-All P k xs (h.1))
]

pub erase-IsSorted : (k : Key) (ks : List Key) → IsSorted ks → IsSorted (erase k ks)
unfolding erase
erase-IsSorted k [] h = tt
erase-IsSorted k (x ∷ xs) h = elim (Bool-cases (key_eq k x)) [
  | inl e ↦ simp e (h.1)
  | inr e ↦ simp e (erase-All (Before x) k xs (h.0), erase-IsSorted k xs (h.1))
]

-- What the two searches of `expiredFunctions` divide the set into.
pub record Divided (now : ℕ) (keys : List Key) (parts : List Key × List Key) : Type 0 where
  pub whole : parts.0 ++ parts.1 ≡ keys
  pub expired : All (λ k. k.expire ≤ now) (parts.0)
  pub later : All (λ k. now < k.expire) (parts.1)
  pub sorted : IsSorted (parts.1)

above :
    (now : ℕ) (k : Key) (ks : List Key)
    → now < k.expire
    → All (Before k) ks
    → All (λ x. now < x.expire) ks
above now k ks h b = All-map (λ x c. ground arith) ks b

skip_now_lem :
    (now : ℕ) (ks : List Key)
    → IsSorted ks
    → All (λ k. now ≤ k.expire) ks
    → Divided now ks (skip_now now ks)
unfolding skip_now
skip_now_lem now [] s h = record { whole = refl; expired = tt; later = tt; sorted = tt }
skip_now_lem now (k ∷ ks) s h = elim (Bool-cases (k.expire == now)) [
  | inl e ↦
      let rest = skip_now_lem now ks (s.1) (h.1) in
      simp e (record {
        whole = ap (◌∷◌ k) rest.whole;
        expired = (ground arith, rest.expired);
        later = rest.later;
        sorted = rest.sorted;
      })
  | inr e ↦
      let here : now ≤ k.expire = h.0 in
      let more : now < k.expire = ground arith in
      simp e (record {
        whole = refl;
        expired = tt;
        later = (more, above now k ks more (s.0));
        sorted = s;
      })
]

pub split_lem : (now probe : ℕ) (ks : List Key) → IsSorted ks → Divided now ks (split now probe ks)
unfolding split
split_lem now probe [] s = record { whole = refl; expired = tt; later = tt; sorted = tt }
split_lem now probe (k ∷ ks) s =
    elim (Bool-cases (key_less k (record { expire = now; id = probe }))) [
      | inl e ↦
          let rest = split_lem now probe ks (s.1) in
          let b : Before k (record { expire = now; id = probe }) =
            key_less→Before k (record { expire = now; id = probe }) e in
          simp e (record {
            whole = ap (◌∷◌ k) rest.whole;
            expired = (ground arith, rest.expired);
            later = rest.later;
            sorted = rest.sorted;
          })
      | inr e ↦
          let here : now ≤ k.expire = not_before k e in
          simp e (skip_now_lem now (k ∷ ks) s (here, All-map (λ x c. ground arith) ks (s.0)))
    ]
  where
    not_before :
        (k : Key) → key_less k (record { expire = now; id = probe }) ≡ false → now ≤ k.expire
    not_before k h = unfold key_less in ground arith
