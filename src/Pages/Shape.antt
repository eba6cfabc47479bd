-- ===== src/Pages/Shape.antt =====
-- How many rows stand on each page.
use base_api_nest_js.Base.{
  ℕ, zero, suc, ◌+◌, ◌-◌, ◌*◌, ◌≤◌, ◌<◌, ◌≡◌, refl, ap, arith, List, [], ◌∷◌, map, filter, length,
  Bool,
}
use native.Mathlib.Nat.{div-add-mod', mod-lt, suc-mul}
use base_api_nest_js.Prisma.{Prisma, at_most}
use base_api_nest_js.Pages.{total_pages, skip_of, PaginationMeta, meta_of}

-- A page has no row beyond the last page; the last page has the rest, and any page before it is full.
pub record IsPage (rows : ℕ) (m : PaginationMeta) : Type 0 where
  pub bounded : rows ≤ m.limit
  pub full : m.page < m.total_pages → rows ≡ m.limit
  pub rest : m.page ≡ m.total_pages → rows + (m.page - 1) * m.limit ≡ m.total
  pub beyond : m.total_pages < m.page → rows ≡ 0

total_pages_bounds :
    (total limit : ℕ)
    → 1 ≤ limit
    → (total ≤ total_pages total limit * limit) × (total_pages total limit * limit < total + limit)
unfolding total_pages
total_pages_bounds total limit h =
    let whole = div-add-mod' (total + limit - 1) limit in
    let part = mod-lt (total + limit - 1) h in (omega arith, omega arith)

mul_step : (a b l : ℕ) → a < b → a * l + l ≤ b * l
mul_step a b l h = grind arith

mul_pred : (a l : ℕ) → 1 ≤ a → a * l ≡ (a - 1) * l + l
mul_pred zero l h = absurd (omega arith)
mul_pred (suc a) l h = let e : suc a - 1 ≡ a = omega arith in rw (e, suc-mul)

at_most_all : (n k : ℕ) → k ≤ n → at_most n k ≡ k
at_most_all n k h = ground arith

-- `rows` of the `total` rows are left at the page, which starts at row `skip`.
at_most-IsPage :
    (total limit page c : ℕ)
    → 1 ≤ page
    → total ≤ c * limit
    → c * limit < total + limit
    → IsPage
        (at_most limit (total - (page - 1) * limit))
        (record { page = page; limit = limit; total = total; total_pages = c })
at_most-IsPage total limit page c h below above = record {
  bounded = ground arith;
  full = λ more.
      let one = mul_step page c limit more in
      let two = mul_step (page - 1) page limit (omega arith) in ground arith;
  rest = λ last.
      let one = mul_pred page limit h in
      let same = ap (λ k. k * limit) last in
      let left = at_most_all limit (total - (page - 1) * limit) (omega arith) in omega arith;
  beyond = λ after.
      let one = mul_step c page limit after in
      let two = mul_pred page limit h in
      let left = at_most_all limit (total - (page - 1) * limit) (omega arith) in omega arith;
}

skip_of-IsPage :
    (total limit page : ℕ)
    → 1 ≤ page
    → 1 ≤ limit
    → IsPage (at_most limit (total - skip_of page limit)) (meta_of page limit total)
unfolding skip_of meta_of
skip_of-IsPage total limit page h k =
    let (below, above) = total_pages_bounds total limit k in
    at_most-IsPage total limit page (total_pages total limit) h below above

length-map : {A B : Type 0} (f : A → B) (xs : List A) → length (map f xs) ≡ length xs
length-map f [] = refl
length-map f (x ∷ xs) = ap suc (length-map f xs)

-- The answer that a use case makes of its query.
pub answer_IsPage :
    ⦃p : Prisma⦄ {R B : Type 0} (f : R → B) (test : R → Bool) (date : R → ℕ) (t : List R)
    (page limit : ℕ)
    → 1 ≤ page
    → 1 ≤ limit
    → IsPage
        (length (map f (p.page test date (skip_of page limit) limit t)))
        (meta_of page limit (p.count test t))
answer_IsPage ⦃p⦄ f test date t page limit h k =
    rw (length-map f (p.page test date (skip_of page limit) limit t), p.page_length, p.count_lem)
      (skip_of-IsPage (length (filter test t)) limit page h k)
