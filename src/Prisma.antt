-- ===== src/Prisma.antt =====
-- The Prisma client, which src/ calls and does not contain: its queries on the rows of one table.
pub mod Laws
use base_api_nest_js.Base.{
  ℕ, length, leb, ◌-◌, ◌≤◌, ◌≡◌, Bool, true, false, Option, none, some, List, [], ◌∷◌, ◌++◌, map,
  not, if◌then◌else◌, any, filter, Has, All,
}

-- The row after an update, if the update's filter fits it.
abbrev pub written {ℓ} : {R : Type ℓ} → (R → Bool) → (R → R) → R → R
written p f r = if p r then f r else r

-- The smaller of two numbers.
abbrev pub at_most : ℕ → ℕ → ℕ
at_most n k = if leb n k then n else k

-- `find` is findUnique and findFirst, which promise some row that fits; `update`, `delete` and
-- `create` throw (`none`) on a missing row and on a unique index that is hit; `recent` is findMany
-- with the latest rows first and at most so many of them; `upsert` updates the rows that fit, or
-- inserts the new one; `page` is findMany with the latest rows first, `skip` and `take`. Rows of one
-- date may come in any order.
pub record Prisma : Type 1 where
  pub find : {R : Type 0} → (R → Bool) → List R → Option R
  pub find_many : {R : Type 0} → (R → Bool) → List R → List R
  pub create : {R : Type 0} → (R → R → Bool) → R → List R → Option (List R)
  pub create_many : {R : Type 0} → List R → List R → List R
  pub update : {R : Type 0} → (R → Bool) → (R → R) → List R → Option (List R)
  pub update_many : {R : Type 0} → (R → Bool) → (R → R) → List R → List R
  pub upsert : {R : Type 0} → (R → Bool) → (R → R) → R → List R → List R
  pub delete_many : {R : Type 0} → (R → Bool) → List R → List R
  pub delete : {R : Type 0} → (R → Bool) → List R → Option (List R)
  pub recent : {R : Type 0} → (R → Bool) → (R → ℕ) → ℕ → List R → List R
  pub page : {R : Type 0} → (R → Bool) → (R → ℕ) → ℕ → ℕ → List R → List R
  pub count : {R : Type 0} → (R → Bool) → List R → ℕ
  pub find_some :
      {R : Type 0} (p : R → Bool) (t : List R) (r : R) → find p t ≡ some r → Has r t × (p r ≡ true)
  pub find_none :
      {R : Type 0} (p : R → Bool) (t : List R) → find p t ≡ none → All (λ r. p r ≡ false) t
  pub find_many_lem : {R : Type 0} (p : R → Bool) (t : List R) → find_many p t ≡ filter p t
  pub create_lem :
      {R : Type 0} (c : R → R → Bool) (r : R) (t : List R)
      → create c r t ≡ (if any (c r) t then none else some (t ++ r ∷ []))
  pub create_many_lem : {R : Type 0} (new t : List R) → create_many new t ≡ t ++ new
  pub update_lem :
      {R : Type 0} (p : R → Bool) (f : R → R) (t : List R)
      → update p f t ≡ (if any p t then some (map (written p f) t) else none)
  pub update_many_lem :
      {R : Type 0} (p : R → Bool) (f : R → R) (t : List R) → update_many p f t ≡ map (written p f) t
  pub upsert_lem :
      {R : Type 0} (p : R → Bool) (f : R → R) (new : R) (t : List R)
      → upsert p f new t ≡ (if any p t then map (written p f) t else t ++ new ∷ [])
  pub delete_many_lem :
      {R : Type 0} (p : R → Bool) (t : List R) → delete_many p t ≡ filter (λ r. not (p r)) t
  pub delete_lem :
      {R : Type 0} (p : R → Bool) (t : List R)
      → delete p t ≡ (if any p t then some (filter (λ r. not (p r)) t) else none)
  pub recent_Has :
      {R : Type 0} (p : R → Bool) (date : R → ℕ) (n : ℕ) (t : List R) (r : R)
      → Has r (recent p date n t)
      → Has r t × (p r ≡ true)
  pub recent_length :
      {R : Type 0} (p : R → Bool) (date : R → ℕ) (n : ℕ) (t : List R)
      → length (recent p date n t) ≤ n
  pub page_Has :
      {R : Type 0} (p : R → Bool) (date : R → ℕ) (skip n : ℕ) (t : List R) (r : R)
      → Has r (page p date skip n t)
      → Has r t × (p r ≡ true)
  pub page_length :
      {R : Type 0} (p : R → Bool) (date : R → ℕ) (skip n : ℕ) (t : List R)
      → length (page p date skip n t) ≡ at_most n (length (filter p t) - skip)
  pub count_lem : {R : Type 0} (p : R → Bool) (t : List R) → count p t ≡ length (filter p t)
