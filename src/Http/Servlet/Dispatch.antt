-- ===== src/Http/Servlet/Dispatch.antt =====
-- Which servlet ServletDispatch chooses after its tables have changed.
use reyao.Common.{
  ◌≡◌, refl, sym, ap, ◌∙◌, subst, arith, Bool, true, false, none, some, [], ◌∷◌, ◌==◌,
  if◌then◌else◌, Bool-cases, inl, inr,
}
use mathlib.Core.Option
use reyao.Common.Bytes.{Bytes}
use reyao.Util.{bytes_eq}
use reyao.Http.Servlet.{
  ServletDispatch, Handler, Routes, route_of, remove_route, add_servlet, del_servlet, get_servlet,
  get_match_servlet, get_global_servlet,
}

pub bytes_eq_refl : (xs : Bytes) → bytes_eq xs xs ≡ true
unfolding bytes_eq
bytes_eq_refl [] = refl
bytes_eq_refl (x ∷ xs) = simp ((let e : (x == x) ≡ true = ground arith in e), bytes_eq_refl xs)

pub bytes_eq→≡ : (xs ys : Bytes) → bytes_eq xs ys ≡ true → xs ≡ ys
unfolding bytes_eq
bytes_eq→≡ [] [] h = refl
bytes_eq→≡ [] (y ∷ ys) h = absurd (cc h)
bytes_eq→≡ (x ∷ xs) [] h = absurd (cc h)
bytes_eq→≡ (x ∷ xs) (y ∷ ys) h = elim (Bool-cases (x == y)) [
  | inl e ↦ let same : x ≡ y = ground arith in rw (same, bytes_eq→≡ xs ys (simp e at h))
  | inr e ↦ absurd (cc (simp e at h))
]

-- One route for a uri, as in a map.
abbrev pub IsUnique : Routes → Type 0
IsUnique [] = Unit
IsUnique ((u, h) ∷ rs) = (route_of u rs ≡ none) × IsUnique rs

route_of-here :
    (uri u : Bytes) (h : Handler) (rs : Routes)
    → bytes_eq u uri ≡ true
    → route_of uri ((u, h) ∷ rs) ≡ some h
unfolding route_of
route_of-here uri u h rs e = simp e

route_of-there :
    (uri u : Bytes) (h : Handler) (rs : Routes)
    → bytes_eq u uri ≡ false
    → route_of uri ((u, h) ∷ rs) ≡ route_of uri rs
unfolding route_of
route_of-there uri u h rs e = simp e

remove-here :
    (uri u : Bytes) (h : Handler) (rs : Routes)
    → bytes_eq u uri ≡ true
    → remove_route uri ((u, h) ∷ rs) ≡ rs
unfolding remove_route
remove-here uri u h rs e = simp e

remove-there :
    (uri u : Bytes) (h : Handler) (rs : Routes)
    → bytes_eq u uri ≡ false
    → remove_route uri ((u, h) ∷ rs) ≡ (u, h) ∷ remove_route uri rs
unfolding remove_route
remove-there uri u h rs e = simp e

route_of-remove_other :
    (uri other : Bytes) (rs : Routes)
    → bytes_eq uri other ≡ false
    → route_of other (remove_route uri rs) ≡ route_of other rs
unfolding remove_route
route_of-remove_other uri other [] n = refl
route_of-remove_other uri other ((u, h) ∷ rs) n = elim (Bool-cases (bytes_eq u uri)) [
  | inl e ↦
      let same : u ≡ uri = bytes_eq→≡ u uri e in
      ap (route_of other) (remove-here uri u h rs e) ∙ sym (route_of-there other u h rs (rw same n))
  | inr e ↦ ap (route_of other) (remove-there uri u h rs e) ∙ elim (Bool-cases (bytes_eq u other)) [
    | inl o ↦ route_of-here other u h (remove_route uri rs) o ∙ sym (route_of-here other u h rs o)
    | inr o ↦
        route_of-there other u h (remove_route uri rs) o
        ∙ route_of-remove_other uri other rs n
        ∙ sym (route_of-there other u h rs o)
  ]
]

route_of-remove_same :
    (uri : Bytes) (rs : Routes) → IsUnique rs → route_of uri (remove_route uri rs) ≡ none
unfolding remove_route route_of
route_of-remove_same uri [] q = refl
route_of-remove_same uri ((u, h) ∷ rs) (q, qs) = elim (Bool-cases (bytes_eq u uri)) [
  | inl e ↦
      let same : u ≡ uri = bytes_eq→≡ u uri e in
      ap (route_of uri) (remove-here uri u h rs e) ∙ subst (λ v. route_of v rs ≡ none) same q
  | inr e ↦
      ap (route_of uri) (remove-there uri u h rs e)
      ∙ route_of-there uri u h (remove_route uri rs) e
      ∙ route_of-remove_same uri rs qs
]

remove_route-IsUnique : (uri : Bytes) (rs : Routes) → IsUnique rs → IsUnique (remove_route uri rs)
unfolding remove_route
remove_route-IsUnique uri [] q = tt
remove_route-IsUnique uri ((u, h) ∷ rs) (q, qs) = elim (Bool-cases (bytes_eq u uri)) [
  | inl e ↦ subst IsUnique (sym (remove-here uri u h rs e)) qs
  | inr e ↦
      subst IsUnique (sym (remove-there uri u h rs e))
        (route_of-remove_other uri u rs (differs u uri e) ∙ q, remove_route-IsUnique uri rs qs)
]
  where
    differs : (u uri : Bytes) → bytes_eq u uri ≡ false → bytes_eq uri u ≡ false
    differs u uri e = elim (Bool-cases (bytes_eq uri u)) [
      | inl o ↦
          let same : uri ≡ u = bytes_eq→≡ uri u o in
          absurd (cc (bytes_eq_refl u, subst (λ v. bytes_eq u v ≡ false) same e))
      | inr o ↦ o
    ]

-- If no uri is twice in the table of servlets, none is after `addServlet`.
pub add_servlet-IsUnique :
    (uri : Bytes) (h : Handler) (d : ServletDispatch)
    → IsUnique d.servlets
    → IsUnique (add_servlet uri h d).servlets
unfolding add_servlet
add_servlet-IsUnique uri h d q =
    (route_of-remove_same uri d.servlets q, remove_route-IsUnique uri d.servlets q)

pub del_servlet-IsUnique :
    (uri : Bytes) (d : ServletDispatch)
    → IsUnique d.servlets
    → IsUnique (del_servlet uri d).servlets
unfolding del_servlet
del_servlet-IsUnique uri d q = remove_route-IsUnique uri d.servlets q

module _ (fnmatch : Bytes → Bytes → Bool) where
  -- After `addServlet(uri, h)` the dispatch chooses `h` for that uri and for every other uri the
  -- servlet that it chose before, whatever `fnmatch` answers.
  pub match-add_servlet :
      (uri other : Bytes) (h : Handler) (d : ServletDispatch)
      → get_match_servlet fnmatch other (add_servlet uri h d)
        ≡ (if bytes_eq uri other then h else get_match_servlet fnmatch other d)
  unfolding get_match_servlet add_servlet get_servlet
  match-add_servlet uri other h d = elim (Bool-cases (bytes_eq uri other)) [
    | inl e ↦ simp e
    | inr e ↦ simp (e, route_of-remove_other uri other d.servlets e)
  ]

  -- If no uri is twice in the table, then after `delServlet(uri)` the dispatch chooses for that
  -- uri the first global servlet whose pattern matches, or else the default, and for every other
  -- uri the servlet that it chose before.
  pub match-del_servlet :
      (uri other : Bytes) (d : ServletDispatch)
      → IsUnique d.servlets
      → get_match_servlet fnmatch other (del_servlet uri d) ≡ (
          if bytes_eq uri other
          then Option.get_or (get_global_servlet fnmatch other d) d.default
          else get_match_servlet fnmatch other d)
  unfolding get_match_servlet del_servlet get_servlet
  match-del_servlet uri other d q = elim (Bool-cases (bytes_eq uri other)) [
    | inl e ↦
        let same : uri ≡ other = bytes_eq→≡ uri other e in
        let gone : route_of other (remove_route uri d.servlets) ≡ none =
          subst (λ v. route_of v (remove_route uri d.servlets) ≡ none) same
            (route_of-remove_same uri d.servlets q) in
        simp (gone, e)
    | inr e ↦ simp (e, route_of-remove_other uri other d.servlets e)
  ]
