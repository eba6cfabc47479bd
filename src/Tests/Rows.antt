-- ===== src/Tests/Rows.antt =====
-- A client of Prisma that keeps a table as a list: the assumptions on the client can be met.
use base_api_nest_js.Base.{
  ℕ, zero, suc, ◌-◌, ◌≤◌, ◌⊎◌, take, drop, ap, ◌∙◌, length, leb, ◌≡◌, refl, Bool, true, false, not,
  none, some, List, [], ◌∷◌, ◌++◌, map, if◌then◌else◌, any, filter, find, Has, All, arith,
  Bool-cases, inl, inr,
}
use base_api_nest_js.Prisma.{Prisma, written, at_most}

pub find_some_lem :
    {R : Type 0} (p : R → Bool) (t : List R) (r : R) → find p t ≡ some r → Has r t × (p r ≡ true)
find_some_lem p [] r e = cc
find_some_lem p (x ∷ t) r e = elim (Bool-cases (p x)) [
  | inl yes_x ↦ let same : x ≡ r = ground arith in (inl (ground arith), rw (← same) yes_x)
  | inr no_x ↦ let (m, h) = find_some_lem p t r (ground arith) in (inr m, h)
]

pub find_none_lem :
    {R : Type 0} (p : R → Bool) (t : List R) → find p t ≡ none → All (λ r. p r ≡ false) t
find_none_lem p [] e = tt
find_none_lem p (x ∷ t) e = ground (arith, find_none_lem p t)

-- The row goes before the rows that are older.
abbrev pub place : {R : Type 0} → (R → ℕ) → R → List R → List R
place date r [] = r ∷ []
place date r (x ∷ t) =
    let rest = place date r t in if leb (date x) (date r) then r ∷ x ∷ t else x ∷ rest

abbrev pub newest : {R : Type 0} → (R → ℕ) → List R → List R
newest date [] = []
newest date (x ∷ t) = place date x (newest date t)

later_place :
    {R : Type 0} (date : R → ℕ) (x y r : R) (t : List R)
    → (Has r (place date x t) → (r ≡ x) ⊎ Has r t)
    → Has r (y ∷ place date x t)
    → (r ≡ x) ⊎ Has r (y ∷ t)
later_place date x y r t ih (inl e) = inr (inl e)
later_place date x y r t ih (inr m) = elim (ih m) [ inl e ↦ inl e | inr m' ↦ inr (inr m') ]

kept_filter :
    {R : Type 0} (p : R → Bool) (x r : R) (t : List R)
    → p x ≡ true
    → (Has r (filter p t) → Has r t × (p r ≡ true))
    → Has r (x ∷ filter p t)
    → Has r (x ∷ t) × (p r ≡ true)
kept_filter p x r t kept ih (inl e) = (inl e, rw e kept)
kept_filter p x r t kept ih (inr m) = let (has, fits) = ih m in (inr has, fits)

Has-place :
    {R : Type 0} (date : R → ℕ) (x r : R) (t : List R) → Has r (place date x t) → (r ≡ x) ⊎ Has r t
Has-place date x r [] m = m
Has-place date x r (y ∷ t) m = elim (Bool-cases (leb (date y) (date x))) [
  | inl first ↦ rw first at m
  | inr later ↦ later_place date x y r t (Has-place date x r t) (rw later at m)
]

Has-newest : {R : Type 0} (date : R → ℕ) (r : R) (t : List R) → Has r (newest date t) → Has r t
Has-newest date r [] m = m
Has-newest date r (x ∷ t) m = elim (Has-place date x r (newest date t) m) [
  | inl here ↦ inl here
  | inr there ↦ inr (Has-newest date r t there)
]

Has-take : {R : Type 0} (n : ℕ) (r : R) (t : List R) → Has r (take n t) → Has r t
Has-take zero r t m = elim m [ ]
Has-take (suc n) r [] m = m
Has-take (suc n) r (x ∷ t) (inl e) = inl e
Has-take (suc n) r (x ∷ t) (inr m) = inr (Has-take n r t m)

pub length-take_le : {R : Type 0} (n : ℕ) (t : List R) → length (take n t) ≤ n
length-take_le zero t = omega arith
length-take_le (suc n) [] = omega arith
length-take_le (suc n) (x ∷ t) = omega (arith, length-take_le n t)

Has-filter :
    {R : Type 0} (p : R → Bool) (r : R) (t : List R) → Has r (filter p t) → Has r t × (p r ≡ true)
Has-filter p r [] m = elim m [ ]
Has-filter p r (x ∷ t) m = elim (Bool-cases (p x)) [
  | inl kept ↦ kept_filter p x r t kept (Has-filter p r t) (rw kept at m)
  | inr dropped ↦ let (has, fits) = Has-filter p r t (rw dropped at m) in (inr has, fits)
]

pub recent_Has_lem :
    {R : Type 0} (p : R → Bool) (date : R → ℕ) (n : ℕ) (t : List R) (r : R)
    → Has r (take n (newest date (filter p t)))
    → Has r t × (p r ≡ true)
recent_Has_lem p date n t r m =
    Has-filter p r t (Has-newest date r (filter p t) (Has-take n r (newest date (filter p t)) m))

Has-drop : {R : Type 0} (n : ℕ) (r : R) (t : List R) → Has r (drop n t) → Has r t
Has-drop zero r t m = m
Has-drop (suc n) r [] m = m
Has-drop (suc n) r (x ∷ t) m = inr (Has-drop n r t m)

length-drop : {R : Type 0} (n : ℕ) (t : List R) → length (drop n t) ≡ length t - n
length-drop zero t = omega arith
length-drop (suc n) [] = omega arith
length-drop (suc n) (x ∷ t) = omega (arith, length-drop n t)

length-take : {R : Type 0} (n : ℕ) (t : List R) → length (take n t) ≡ at_most n (length t)
length-take zero t = ground arith
length-take (suc n) [] = ground arith
length-take (suc n) (x ∷ t) = ground (arith, length-take n t)

length-place :
    {R : Type 0} (date : R → ℕ) (x : R) (t : List R) → length (place date x t) ≡ suc (length t)
length-place date x [] = refl
length-place date x (y ∷ t) = ground (arith, length-place date x t)

length-newest : {R : Type 0} (date : R → ℕ) (t : List R) → length (newest date t) ≡ length t
length-newest date [] = refl
length-newest date (x ∷ t) =
    omega (arith, length-newest date t, length-place date x (newest date t))

pub page_Has_lem :
    {R : Type 0} (p : R → Bool) (date : R → ℕ) (skip n : ℕ) (t : List R) (r : R)
    → Has r (take n (drop skip (newest date (filter p t))))
    → Has r t × (p r ≡ true)
page_Has_lem p date skip n t r m =
    let sorted = newest date (filter p t) in
    Has-filter p r t
      (Has-newest date r (filter p t) (Has-drop skip r sorted (Has-take n r (drop skip sorted) m)))

pub page_length_lem :
    {R : Type 0} (p : R → Bool) (date : R → ℕ) (skip n : ℕ) (t : List R)
    → length (take n (drop skip (newest date (filter p t))))
      ≡ at_most n (length (filter p t) - skip)
page_length_lem p date skip n t =
    length-take n (drop skip (newest date (filter p t)))
    ∙ ap (at_most n) (
        length-drop skip (newest date (filter p t))
        ∙ ap (λ k. k - skip) (length-newest date (filter p t)))

instance abbrev pub rows : Prisma
rows = record {
  find = λ p t. find p t;
  find_many = λ p t. filter p t;
  create = λ c r t. if any (c r) t then none else some (t ++ r ∷ []);
  create_many = λ new t. t ++ new;
  update = λ p f t. if any p t then some (map (written p f) t) else none;
  update_many = λ p f t. map (written p f) t;
  upsert = λ p f new t. if any p t then map (written p f) t else t ++ new ∷ [];
  delete_many = λ p t. filter (λ r. not (p r)) t;
  delete = λ p t. if any p t then some (filter (λ r. not (p r)) t) else none;
  recent = λ p date n t. take n (newest date (filter p t));
  page = λ p date skip n t. take n (drop skip (newest date (filter p t)));
  count = λ p t. length (filter p t);
  find_some = λ p t r e. find_some_lem p t r e;
  find_none = λ p t e. find_none_lem p t e;
  find_many_lem = λ p t. refl;
  create_lem = λ c r t. refl;
  create_many_lem = λ new t. refl;
  update_lem = λ p f t. refl;
  update_many_lem = λ p f t. refl;
  upsert_lem = λ p f new t. refl;
  delete_lem = λ p t. refl;
  delete_many_lem = λ p t. refl;
  recent_Has = λ p date n t r m. recent_Has_lem p date n t r m;
  recent_length = λ p date n t. length-take_le n (newest date (filter p t));
  page_Has = λ p date skip n t r m. page_Has_lem p date skip n t r m;
  page_length = λ p date skip n t. page_length_lem p date skip n t;
  count_lem = λ p t. refl;
}
