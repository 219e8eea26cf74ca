-- ===== src/Http/Headers/Laws.antt =====
-- The maps as dictionaries whose keys do not see case.
use reyao.Common.{
  ◌≡◌, refl, arith, Bool, true, false, not, ◌&&◌, ◌↔◌, inl, inr, [], ◌∷◌, All, Bool-cases,
}
use reyao.Common.Bytes.{Bytes}
use reyao.Util.{case_less, bytes_less, fold_case}
use reyao.Http.Headers.{StrMap, insert}

bytes_less_irrefl : (xs : Bytes) → bytes_less xs xs ≡ false
unfolding bytes_less
bytes_less_irrefl [] = refl
bytes_less_irrefl (x ∷ xs) = ground (arith, bytes_less_irrefl xs)

bytes_less_trans :
    (xs ys zs : Bytes) → bytes_less xs ys ≡ true → bytes_less ys zs ≡ true → bytes_less xs zs ≡ true
unfolding bytes_less
bytes_less_trans [] ys [] h k = k
bytes_less_trans [] ys (z ∷ zs) h k = refl
bytes_less_trans (x ∷ xs) [] zs h k = absurd (cc h)
bytes_less_trans (x ∷ xs) (y ∷ ys) [] h k = absurd (cc k)
bytes_less_trans (x ∷ xs) (y ∷ ys) (z ∷ zs) h k = ground (arith, bytes_less_trans xs ys zs)

-- Two texts of which neither is less are the same.
bytes_less-connected :
    (xs ys : Bytes) → bytes_less xs ys ≡ false → bytes_less ys xs ≡ false → xs ≡ ys
unfolding bytes_less
bytes_less-connected [] [] h k = refl
bytes_less-connected [] (y ∷ ys) h k = absurd (cc h)
bytes_less-connected (x ∷ xs) [] h k = absurd (cc k)
bytes_less-connected (x ∷ xs) (y ∷ ys) h k = ground (arith, bytes_less-connected xs ys)

abbrev pub same : Bytes → Bytes → Bool
same key k = not (case_less key k) && not (case_less k key)

-- The map's test for equal keys is equality of the folded keys.
pub same_iff : (key k : Bytes) → (same key k ≡ true) ↔ (fold_case key ≡ fold_case k)
same_iff key k = (to, from)
  where
    to : same key k ≡ true → fold_case key ≡ fold_case k
    to h =
        unfold case_less in
        bytes_less-connected (fold_case key) (fold_case k) (ground arith) (ground arith)

    from : fold_case key ≡ fold_case k → same key k ≡ true
    from e = unfold case_less in rw (e, bytes_less_irrefl (fold_case k))

-- The entries stand in the strict order of their folded keys.
abbrev pub IsSorted : StrMap → Type 0
IsSorted [] = Unit {0}
IsSorted ((k, v) ∷ m) = All (λ (e : Bytes × Bytes). case_less k e.0 ≡ true) m × IsSorted m

case_less_trans :
    (a b c : Bytes) → case_less a b ≡ true → case_less b c ≡ true → case_less a c ≡ true
unfolding case_less
case_less_trans a b c h k = bytes_less_trans (fold_case a) (fold_case b) (fold_case c) h k

All-less_trans :
    (a b : Bytes) (m : StrMap)
    → case_less a b ≡ true
    → All (λ (e : Bytes × Bytes). case_less b e.0 ≡ true) m
    → All (λ (e : Bytes × Bytes). case_less a e.0 ≡ true) m
All-less_trans a b [] h all = tt
All-less_trans a b (e ∷ m) h (p, all) = (case_less_trans a b e.0 h p, All-less_trans a b m h all)

All-less-insert :
    (a key val : Bytes) (m : StrMap)
    → case_less a key ≡ true
    → All (λ (e : Bytes × Bytes). case_less a e.0 ≡ true) m
    → All (λ (e : Bytes × Bytes). case_less a e.0 ≡ true) (insert key val m)
unfolding insert
All-less-insert a key val [] h all = (h, tt)
All-less-insert a key val ((k, v) ∷ m) h (p, all) = elim (Bool-cases (case_less key k)) [
  | inl before ↦ rw before (h, (p, all))
  | inr not_before ↦ elim (Bool-cases (case_less k key)) [
    | inl after ↦ rw (not_before, after) (p, All-less-insert a key val m h all)
    | inr equal ↦ rw (not_before, equal) (p, all)
  ]
]

-- `headers_[key] = val` keeps the keys of the map strictly in the order of `strcasecmp`.
pub insert-IsSorted : (key val : Bytes) (m : StrMap) → IsSorted m → IsSorted (insert key val m)
unfolding insert
insert-IsSorted key val [] h = (tt, tt)
insert-IsSorted key val ((k, v) ∷ m) (all, h) = elim (Bool-cases (case_less key k)) [
  | inl before ↦ rw before ((before, All-less_trans key k m before all), (all, h))
  | inr not_before ↦ elim (Bool-cases (case_less k key)) [
    | inl after ↦
        rw (not_before, after) (All-less-insert k key val m after all, insert-IsSorted key val m h)
    | inr equal ↦ rw (not_before, equal) (all, h)
  ]
]
