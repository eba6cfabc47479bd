-- ===== src/Prisma/Laws.antt =====
-- What the assumptions on the Prisma client give for any table.
use base_api_nest_js.Base.{
  ◌≡◌, Bool, true, false, none, some, List, [], ◌∷◌, ◌++◌, map, arith, Option-cases, Bool-cases,
  Has-map, inl, inr, Has, All, All-Has, All-map, any, any-true,
}
use base_api_nest_js.Prisma.{Prisma, written}

module _ ⦃p : Prisma⦄ {R : Type 0} where
  pub find_Has : (test : R → Bool) (t : List R) (r : R) → p.find test t ≡ some r → Has r t
  find_Has test t r e = (p.find_some test t r e).0

  pub find_test : (test : R → Bool) (t : List R) (r : R) → p.find test t ≡ some r → test r ≡ true
  find_test test t r e = (p.find_some test t r e).1

  -- A query finds the row that alone fits it.
  pub find_only :
      (test : R → Bool) (t : List R) (r : R)
      → Has r t
      → test r ≡ true
      → All (λ s. test s ≡ true → s ≡ r) t
      → p.find test t ≡ some r
  find_only test t r m h only = elim (Option-cases (p.find test t)) [
    | inl missing ↦
        let off = All-Has (λ s. test s ≡ false) r t (p.find_none test t missing) m in
        absurd (ground arith)
    | inr (s, e) ↦
        let same = All-Has (λ s. test s ≡ true → s ≡ r) s t only (find_Has test t s e) in
        rw (e, same (find_test test t s e))
  ]

  -- A query that no row fits finds nothing.
  pub find_nothing :
      (test : R → Bool) (t : List R) → All (λ s. test s ≡ false) t → p.find test t ≡ none
  find_nothing test t off = elim (Option-cases (p.find test t)) [
    | inl missing ↦ missing
    | inr (s, e) ↦
        let no_s = All-Has (λ s. test s ≡ false) s t off (find_Has test t s e) in
        let yes_s = find_test test t s e in absurd (ground arith)
  ]

  pub update_Has :
      (test : R → Bool) (f : R → R) (t : List R) (r : R)
      → Has r t
      → test r ≡ true
      → p.update test f t ≡ some (map (written test f) t)
  update_Has test f t r m h = rw (p.update_lem test f t, any-true test r t m h)

  pub update_rows :
      (test : R → Bool) (f : R → R) (t t' : List R)
      → p.update test f t ≡ some t'
      → t' ≡ map (written test f) t
  update_rows test f t t' e = ground (arith, p.update_lem test f t)

  pub create_rows :
      (clash : R → R → Bool) (r : R) (t t' : List R)
      → p.create clash r t ≡ some t'
      → (any (clash r) t ≡ false) × (t' ≡ t ++ r ∷ [])
  create_rows clash r t t' e = ground (arith, p.create_lem clash r t)

  -- The row that an update by `key` wrote is what a query finds that only such a row fits.
  pub find_updated :
      (test key : R → Bool) (f : R → R) (t : List R) (r : R)
      → Has r t
      → key r ≡ true
      → test (f r) ≡ true
      → All (λ s. key s ≡ true → s ≡ r) t
      → ((s : R) → test s ≡ true → key s ≡ true)
      → p.find test (map (written key f) t) ≡ some (f r)
  find_updated test key f t r m own fits only by_key =
      let self : written key f r ≡ f r = ground arith in
      find_only test (map (written key f) t) (f r) (rw self at (Has-map (written key f) r t m)) fits
        (All-map (λ s. test s ≡ true → s ≡ f r) (written key f) t
          (λ s ms h. elim (Bool-cases (key s)) [
            | inl hit ↦
                let same : s ≡ r = All-Has (λ s. key s ≡ true → s ≡ r) s t only ms hit in
                rw same self
            | inr miss ↦
                let kept : written key f s ≡ s = ground arith in
                let yes_key = by_key s (rw kept at h) in absurd (ground arith)
          ]))
