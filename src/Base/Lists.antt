-- ===== src/Base/Lists.antt =====
-- Lists measured by native numbers and searched by Boolean tests, under the library's names, and
-- predicates on lists by recursion.
use Prim.Native.Nat.{ℕ, zero, suc}
use mathlib.Core.Path.{◌≡◌, refl, ap}
use mathlib.Core.Bool.{Bool, true, false, ◌&&◌, ◌||◌}
use mathlib.Core.Logic.{◌≢◌, ◌↔◌, ◌⊎◌, inl, inr}
use mathlib.Core.List.{List, [], ◌∷◌, ◌++◌, map}
use mathlib.Core.Option.{Option, none, some}
use native.Mathlib.Omega.{arith}
use base_api_nest_js.Base.Tests.{if◌then◌else◌, Bool-cases, ◌==◌}
use Prim.Native.Char.{code}
use Prim.Native.String.{String}

module _ {ℓ} {A : Type ℓ} where
  abbrev pub length : List A → ℕ
  length [] = 0
  length (x ∷ xs) = suc (length xs)

  abbrev pub filter : (A → Bool) → List A → List A
  filter p [] = []
  filter p (x ∷ xs) = let rest = filter p xs in if p x then x ∷ rest else rest

  abbrev pub any : (A → Bool) → List A → Bool
  any p [] = false
  any p (x ∷ xs) = p x || any p xs

  abbrev pub all : (A → Bool) → List A → Bool
  all p [] = true
  all p (x ∷ xs) = p x && all p xs

  abbrev pub take : ℕ → List A → List A
  take zero xs = []
  take (suc n) [] = []
  take (suc n) (x ∷ xs) = x ∷ take n xs

  -- `Array.prototype.find`
  abbrev pub find : (A → Bool) → List A → Option A
  find p [] = none
  find p (x ∷ xs) = let rest = find p xs in if p x then some x else rest

-- `a` stands in the list (of rows, which are data of the lowest universe).
module _ {A : Type 0} where
  abbrev pub Has : A → List A → Type 0
  Has a [] = ⊥
  Has a (x ∷ xs) = (a ≡ x) ⊎ Has a xs

module _ {ℓ κ} {A : Type ℓ} (P : A → Type κ) where
  abbrev pub All : List A → Type κ
  All [] = Unit
  All (x ∷ xs) = P x × All xs

  pub All-append : (xs ys : List A) → All xs → All ys → All (xs ++ ys)
  All-append [] ys h k = k
  All-append (x ∷ xs) ys h k = (h.0, All-append xs ys h.1 k)

  pub All-filter : (p : A → Bool) (xs : List A) → All xs → All (filter p xs)
  All-filter p [] h = tt
  All-filter p (x ∷ xs) h = elim (Bool-cases (p x)) [
    | inl e ↦ rw e (h.0, All-filter p xs h.1)
    | inr e ↦ rw e (All-filter p xs h.1)
  ]

module _ {κ} {A : Type 0} (P : A → Type κ) where
  pub All-Has : (a : A) (xs : List A) → All P xs → Has a xs → P a
  All-Has a [] h m = elim m [ ]
  All-Has a (x ∷ xs) h (inl e) = rw e h.0
  All-Has a (x ∷ xs) h (inr m) = All-Has a xs h.1 m

  -- A predicate may be proved with the membership at hand.
  pub All-of_Has : (xs : List A) → ((a : A) → Has a xs → P a) → All P xs
  All-of_Has [] f = tt
  All-of_Has (x ∷ xs) f = (f x (inl refl), All-of_Has xs (λ a m. f a (inr m)))

module _ {κ} {A B : Type 0} (P : B → Type κ) (f : A → B) where
  pub All-map : (xs : List A) → ((a : A) → Has a xs → P (f a)) → All P (map f xs)
  All-map [] h = tt
  All-map (x ∷ xs) h = (h x (inl refl), All-map xs (λ a m. h a (inr m)))

module _ {A : Type 0} where
  pub any-false : (p : A → Bool) (xs : List A) → any p xs ≡ false → All (λ a. p a ≡ false) xs
  any-false p [] h = tt
  any-false p (x ∷ xs) h = ground (arith, any-false p xs)

  pub any-true : (p : A → Bool) (a : A) (xs : List A) → Has a xs → p a ≡ true → any p xs ≡ true
  any-true p a [] m h = elim m [ ]
  any-true p a (x ∷ xs) (inl e) h = rw (← e, h)
  any-true p a (x ∷ xs) (inr m) h = ground (arith, any-true p a xs m h)

  pub All-filter_test : (p : A → Bool) (xs : List A) → All (λ a. p a ≡ true) (filter p xs)
  All-filter_test p [] = tt
  All-filter_test p (x ∷ xs) = elim (Bool-cases (p x)) [
    | inl e ↦ rw e (e, All-filter_test p xs)
    | inr e ↦ rw e (All-filter_test p xs)
  ]

module _ {A B : Type 0} where
  pub Has-map : (f : A → B) (a : A) (xs : List A) → Has a xs → Has (f a) (map f xs)
  Has-map f a [] m = m
  Has-map f a (x ∷ xs) (inl e) = inl (ap f e)
  Has-map f a (x ∷ xs) (inr m) = inr (Has-map f a xs m)

module _ {A : Type 0} where
  pub Has-last : (a : A) (xs : List A) → Has a (xs ++ a ∷ [])
  Has-last a [] = inl refl
  Has-last a (x ∷ xs) = inr (Has-last a xs)

  pub Has-append : (a : A) (xs ys : List A) → Has a xs → Has a (xs ++ ys)
  Has-append a [] ys m = elim m [ ]
  Has-append a (x ∷ xs) ys (inl e) = inl e
  Has-append a (x ∷ xs) ys (inr m) = inr (Has-append a xs ys m)

module _ {κ} {A B C : Type 0} (P : C → Type κ) (g : B → C) (f : A → B) where
  pub All-map-map : (xs : List A) → ((a : A) → Has a xs → P (g (f a))) → All P (map g (map f xs))
  All-map-map [] h = tt
  All-map-map (x ∷ xs) h = (h x (inl refl), All-map-map xs (λ a m. h a (inr m)))

module _ {A : Type 0} where
  pub filter-Has :
      (test : A → Bool) (a : A) (xs : List A) → Has a xs → test a ≡ true → Has a (filter test xs)
  filter-Has test a [] m h = elim m [ ]
  filter-Has test a (x ∷ xs) (inl e) h = rw (← e, h) (inl refl)
  filter-Has test a (x ∷ xs) (inr m) h = elim (Bool-cases (test x)) [
    | inl kept ↦ rw kept (inr (filter-Has test a xs m h))
    | inr dropped ↦ rw dropped (filter-Has test a xs m h)
  ]

  pub length-Has : (a : A) (xs : List A) → Has a xs → length xs ≢ 0
  length-Has a [] m e = elim m [ ]
  length-Has a (x ∷ xs) m e = omega arith

module _ {A B C : Type 0} where
  pub map-map :
      (g : B → C) (f : A → B) (h : A → C) (xs : List A)
      → ((a : A) → g (f a) ≡ h a)
      → map g (map f xs) ≡ map h xs
  map-map g f h [] same = refl
  map-map g f h (x ∷ xs) same = rw (same x, map-map g f h xs same)

-- The codes of a text's characters.
abbrev pub codes : String → List ℕ
codes String.[] = []
codes (String.◌∷◌ c s) = code c ∷ codes s

module _ {ℓ} {A : Type ℓ} where
  abbrev pub get_elem? : List A → ℕ → Option A
  get_elem? [] i = none
  get_elem? (x ∷ xs) zero = some x
  get_elem? (x ∷ xs) (suc i) = get_elem? xs i

abbrev pub list_eq : List ℕ → List ℕ → Bool
list_eq [] [] = true
list_eq [] (y ∷ ys) = false
list_eq (x ∷ xs) [] = false
list_eq (x ∷ xs) (y ∷ ys) = x == y && list_eq xs ys

pub list_eq_iff : (xs ys : List ℕ) → (list_eq xs ys ≡ true) ↔ (xs ≡ ys)
list_eq_iff [] [] = ground arith
list_eq_iff [] (y ∷ ys) = ground arith
list_eq_iff (x ∷ xs) [] = ground arith
list_eq_iff (x ∷ xs) (y ∷ ys) = ground (arith, list_eq_iff xs ys)

module _ {A : Type 0} where
  abbrev pub drop : ℕ → List A → List A
  drop zero xs = xs
  drop (suc n) [] = []
  drop (suc n) (x ∷ xs) = drop n xs

  pub take-drop : (n : ℕ) (xs : List A) → take n xs ++ drop n xs ≡ xs
  take-drop zero xs = refl
  take-drop (suc n) [] = refl
  take-drop (suc n) (x ∷ xs) = ap (λ l. x ∷ l) (take-drop n xs)
