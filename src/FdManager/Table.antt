-- ===== src/FdManager/Table.antt =====
-- The table finds what has been put into it, except for the first two descriptors.
use reyao.Common.{
  ℕ, zero, suc, ◌+◌, ◌-◌, ◌*◌, ◌/◌, ◌≤◌, ◌<◌, ◌^◌, ◌≡◌, refl, sym, ap, ◌∙◌, arith, inl, inr, Bool,
  true, false, Option, none, some, [], ◌∷◌, ◌++◌, leb, ltb, ◌==◌, if◌then◌else◌, length, take,
  replicate, length-append, length-replicate, take_all, Bool-cases, ok, err, fault,
}
use reyao.Common.Ints.{int_leb, int_leb_small, int_leb_inside}
use reyao.FdManager.{FdContext, Table, entry, set_entry, get_fd_context, grow, add_fd, new_context}

pub entry-set_entry :
    (n j : ℕ) (x : Option FdContext) (t : Table)
    → n < length t
    → entry j (set_entry n x t) ≡ (if j == n then x else entry j t)
unfolding entry set_entry
entry-set_entry n j x [] h = absurd (omega arith)
entry-set_entry zero zero x (c ∷ cs) h = refl
entry-set_entry zero (suc j) x (c ∷ cs) h = let e : (suc j == 0) ≡ false = ground arith in simp e
entry-set_entry (suc n) zero x (c ∷ cs) h = let e : (0 == suc n) ≡ false = ground arith in simp e
entry-set_entry (suc n) (suc j) x (c ∷ cs) h =
    let e : (suc j == suc n) ≡ (j == n) = ground arith in
    entry-set_entry n j x cs (omega arith) ∙ ap (λ b. if b then x else entry j cs) (sym e)

length-set_entry : (n : ℕ) (x : Option FdContext) (t : Table) → length (set_entry n x t) ≡ length t
unfolding set_entry
length-set_entry n x [] = refl
length-set_entry zero x (c ∷ cs) = refl
length-set_entry (suc n) x (c ∷ cs) = ap suc (length-set_entry n x cs)

entry-replicate : (j k : ℕ) → entry j (replicate k none) ≡ none
unfolding entry
entry-replicate j zero = refl
entry-replicate zero (suc k) = refl
entry-replicate (suc j) (suc k) = entry-replicate j k

entry-append : (j k : ℕ) (t : Table) → entry j (t ++ replicate k none) ≡ entry j t
unfolding entry
entry-append j k [] = entry-replicate j k
entry-append zero k (c ∷ cs) = refl
entry-append (suc j) k (c ∷ cs) = entry-append j k cs

entry_out : (j : ℕ) (t : Table) → length t ≤ j → entry j t ≡ none
unfolding entry
entry_out j [] h = refl
entry_out zero (c ∷ cs) h = absurd (omega arith)
entry_out (suc j) (c ∷ cs) h = entry_out j cs (omega arith)

-- A descriptor that passes the test on the size is changed, and no other one.
pub get_fd_context-set_entry :
    (fd j : ℕ) (x : Option FdContext) (t : Table)
    → int_leb (length t) fd ≡ false
    → get_fd_context j (set_entry fd x t) ≡ (if j == fd then x else get_fd_context j t)
unfolding get_fd_context
get_fd_context-set_entry fd j x t h = elim (Bool-cases (int_leb (length t) j)) [
  | inl out ↦ elim (Bool-cases (j == fd)) [
    | inl same ↦
        let e : j ≡ fd = ground arith in absurd (cc (sym out ∙ ap (int_leb (length t)) e ∙ h))
    | inr other ↦ simp (length-set_entry fd x t, out, other) refl
  ]
  | inr here ↦
      simp (length-set_entry fd x t, here)
        (entry-set_entry fd j x t (int_leb_inside (length t) fd h))
]

get_fd_context-entry : (j : ℕ) (t : Table) → length t < 2 ^ 31 → get_fd_context j t ≡ entry j t
unfolding get_fd_context
get_fd_context-entry j t small =
    let exact = int_leb_small (length t) j small in
    elim (Bool-cases (leb (length t) j)) [
      | inl e ↦ simp (exact, e) (sym (entry_out j t (ground arith)))
      | inr e ↦ simp (exact, e)
    ]

-- The table behind `grow`, if it is not too large for an int.
grow_small :
    (fd : ℕ) (t : Table)
    → length t < 2 ^ 31
    → grow fd t ≡ (
        if leb (length t) fd
        then take (fd * 3 / 2) t ++ replicate (fd * 3 / 2 - length t) none
        else t)
unfolding grow
grow_small fd t small = simp (int_leb_small (length t) fd small) refl

entry-grow : (fd j : ℕ) (t : Table) → length t < 2 ^ 31 → entry j (grow fd t) ≡ entry j t
entry-grow fd j t small = elim (Bool-cases (leb (length t) fd)) [
  | inl e ↦
      let short : length t ≤ fd * 3 / 2 = ground arith in
      ap (entry j) (grow_small fd t small)
      ∙ simp (e, take_all (fd * 3 / 2) t short) (entry-append j (fd * 3 / 2 - length t) t)
  | inr e ↦ ap (entry j) (grow_small fd t small) ∙ simp e refl
]

length-grow :
    (fd : ℕ) (t : Table) → length t < 2 ^ 31 → length t ≤ fd → length (grow fd t) ≡ fd * 3 / 2
length-grow fd t small h =
    let n = fd * 3 / 2 in
    let short : length t ≤ n = omega (arith, h) in
    let grows : leb (length t) fd ≡ true = ground arith in
    let whole : length (take n t ++ replicate (n - length t) none) ≡ length t + (n - length t) =
      length-append (take n t) (replicate (n - length t) none)
      ∙ ap (λ k. k + length (replicate {A = Option FdContext} (n - length t) none))
          (ap length (take_all n t short))
      ∙ ap (λ k. length t + k) (length-replicate (n - length t) none) in
    ap length (grow_small fd t small) ∙ simp grows (omega (arith, whole, short))

grown_inside :
    (fd : ℕ) (t : Table)
    → length t < 2 ^ 31
    → 2 ≤ fd
    → fd < 2 ^ 30
    → (fd < length (grow fd t)) × (length (grow fd t) < 2 ^ 31)
grown_inside fd t small h k = elim (Bool-cases (leb (length t) fd)) [
  | inl e ↦
      let short : length t ≤ fd = ground arith in
      let long = length-grow fd t small short in (omega (arith, long), omega (arith, long))
  | inr e ↦
      let same : length (grow fd t) ≡ length t = ap length (grow_small fd t small) ∙ simp e refl in
      let long : fd < length t = ground arith in (omega (arith, same, long), omega (arith, same))
]

-- For a descriptor from 2 on and below 2^30, and a table of less than 2^31 entries, `addFd`
-- succeeds, and afterwards `getFdContext` finds the new context under this descriptor and under
-- every other what it found before; the table has less than 2^31 entries again.
pub get_fd_context-add_fd :
    (fd : ℕ) (sock : Bool) (t : Table)
    → 2 ≤ fd
    → fd < 2 ^ 30
    → length t < 2 ^ 31
    → (t' : Table) × (add_fd fd sock t ≡ ok t')
      × ((j : ℕ)
          → get_fd_context j t'
            ≡ (if j == fd then some (new_context fd sock) else get_fd_context j t))
      × (length t' < 2 ^ 31)
unfolding add_fd
get_fd_context-add_fd fd sock t h k small =
    let (long, fits) = grown_inside fd t small h k in
    let there : ltb fd (length (grow fd t)) ≡ true = ground (arith, long) in
    let new = some (new_context fd sock) in
    let passes : int_leb (length (grow fd t)) fd ≡ false =
      int_leb_small (length (grow fd t)) fd fits ∙ ground (arith, long) in
    (
      set_entry fd new (grow fd t),
      simp there,
      (λ j.
          get_fd_context-set_entry fd j new (grow fd t) passes
          ∙ ap (λ c. if j == fd then new else c)
              (get_fd_context-entry j (grow fd t) fits
                ∙ entry-grow fd j t small
                ∙ sym (get_fd_context-entry j t small))),
      omega (arith, length-set_entry fd new (grow fd t), fits),
    )

-- For descriptor 0 or 1 that a table of less than 2^31 entries has no place for, `addFd` writes
-- outside of the table.
pub add_fd_small :
    (fd : ℕ) (sock : Bool) (t : Table)
    → length t < 2 ^ 31
    → fd < 2
    → length t ≤ fd
    → add_fd fd sock t ≡ err fault
unfolding add_fd
add_fd_small fd sock t fits small short =
    let size = length-grow fd t fits short in
    let out : ltb fd (length (grow fd t)) ≡ false = ground (arith, size) in simp out
