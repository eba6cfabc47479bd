-- ===== src/Slug/Wellformed.antt =====
-- The shape of what src/shared/utils/slugify.util.ts returns.
use base_api_nest_js.Base.{
  ℕ, zero, suc, ◌≤◌, ◌<◌, ◌≡◌, ◌≢◌, ◌⊎◌, refl, sym, ap, subst, inl, inr, arith, Bool, true, false,
  not, List, [], ◌∷◌, filter, take, between, is_space, length, All, Bool-cases, All-filter_test,
}
use base_api_nest_js.Slug.{
  drop_start, drop_end, attach, is_dash, is_accent, is_kept, is_separator, collapse, slugify,
}

-- A lowercase ASCII letter, a digit or a dash.
abbrev pub IsSlugChar : ℕ → Type 0
IsSlugChar x = ((97 ≤ x) × (x ≤ 122)) ⊎ ((48 ≤ x) × (x ≤ 57)) ⊎ (x ≡ 45)

-- Characters of a slug, no two dashes in a row, and no dash at the start after a dash.
abbrev pub IsDashed : Bool → List ℕ → Type 0
IsDashed after [] = Unit {0}
IsDashed after (x ∷ xs) = IsSlugChar x × (after ≡ true → x ≢ 45) × IsDashed (is_dash x) xs

abbrev pub EndsPlain : List ℕ → Type 0
EndsPlain [] = Unit {0}
EndsPlain (x ∷ []) = x ≢ 45
EndsPlain (x ∷ y ∷ ys) = EndsPlain (y ∷ ys)

IsDashed-weaken : (after : Bool) (xs : List ℕ) → IsDashed after xs → IsDashed false xs
IsDashed-weaken after [] h = tt
IsDashed-weaken after (x ∷ xs) h = (h.0, (λ e. absurd (cc e)), h.2)

-- The cases of a character that is kept and is no separator.
kept_char : (x : ℕ) → is_kept x ≡ true → is_separator x ≡ false → IsSlugChar x
kept_char x kept char = elim (Bool-cases (between 97 122 x)) [
  | inl letter ↦ inl (ground arith)
  | inr other ↦ elim (Bool-cases (between 48 57 x)) [
    | inl digit ↦ inr (inl (ground arith))
    | inr none ↦ absurd (ground arith)
  ]
]

no_dash : (x : ℕ) → is_separator x ≡ false → is_dash x ≡ false
no_dash x char = ground arith

not_dash : (x : ℕ) → is_dash x ≡ false → x ≢ 45
not_dash x char e = ground arith

collapse-IsDashed :
    (within : Bool) (xs : List ℕ)
    → All (λ x. is_kept x ≡ true) xs
    → IsDashed within (collapse within xs)
unfolding collapse
collapse-IsDashed within [] h = tt
collapse-IsDashed within (x ∷ xs) h = elim (Bool-cases (is_separator x)) [
  | inl sep ↦
      let ih = collapse-IsDashed true xs h.1 in
      elim (Bool-cases within) [
        | inl again ↦ rw (sep, again) ih
        | inr first ↦ rw (sep, first) (inr (inr refl), (λ e. absurd (cc e)), ih)
      ]
  | inr char ↦
      let ih = collapse-IsDashed false xs h.1 in
      let plain = no_dash x char in
      rw (char, plain) (kept_char x h.0 char, (λ _. not_dash x plain), ih)
]

drop_start-IsDashed : (xs : List ℕ) → IsDashed false xs → IsDashed true (drop_start is_dash xs)
unfolding drop_start
drop_start-IsDashed [] h = tt
drop_start-IsDashed (x ∷ xs) h = elim (Bool-cases (is_dash x)) [
  | inl dash ↦ rw dash (drop_start-IsDashed xs (IsDashed-weaken (is_dash x) xs h.2))
  | inr char ↦ rw char (h.0, (λ _. not_dash x char), h.2)
]

attach-IsDashed :
    (after dropped : Bool) (x : ℕ) (xs : List ℕ)
    → IsSlugChar x
    → (after ≡ true → x ≢ 45)
    → IsDashed (is_dash x) xs
    → IsDashed after (attach dropped x xs)
attach-IsDashed after true x [] c first h = tt
attach-IsDashed after false x [] c first h = (c, first, tt)
attach-IsDashed after dropped x (y ∷ ys) c first h = (c, first, h)

drop_end-IsDashed :
    (after : Bool) (xs : List ℕ) → IsDashed after xs → IsDashed after (drop_end is_dash xs)
unfolding drop_end
drop_end-IsDashed after [] h = tt
drop_end-IsDashed after (x ∷ xs) h =
    attach-IsDashed after (is_dash x) x (drop_end is_dash xs) h.0 h.1
      (drop_end-IsDashed (is_dash x) xs h.2)

take-IsDashed :
    (after : Bool) (n : ℕ) (xs : List ℕ) → IsDashed after xs → IsDashed after (take n xs)
take-IsDashed after zero xs h = tt
take-IsDashed after (suc n) [] h = tt
take-IsDashed after (suc n) (x ∷ xs) h = (h.0, h.1, take-IsDashed (is_dash x) n xs h.2)

attach-EndsPlain : (x : ℕ) (xs : List ℕ) → EndsPlain xs → EndsPlain (attach (is_dash x) x xs)
attach-EndsPlain x [] h = elim (Bool-cases (is_dash x)) [
  | inl dash ↦ rw dash tt
  | inr char ↦ rw char (not_dash x char)
]
attach-EndsPlain x (y ∷ ys) h = h

drop_end-EndsPlain : (xs : List ℕ) → EndsPlain (drop_end is_dash xs)
unfolding drop_end
drop_end-EndsPlain [] = tt
drop_end-EndsPlain (x ∷ xs) = attach-EndsPlain x (drop_end is_dash xs) (drop_end-EndsPlain xs)

take_short : (n : ℕ) (xs : List ℕ) → length (take n xs) < n → take n xs ≡ xs
take_short zero xs h = absurd (omega arith)
take_short (suc n) [] h = refl
take_short (suc n) (x ∷ xs) h = ap (λ l. x ∷ l) (take_short n xs (omega arith))

length-take_le : (n : ℕ) (xs : List ℕ) → length (take n xs) ≤ n
length-take_le zero xs = omega arith
length-take_le (suc n) [] = omega arith
length-take_le (suc n) (x ∷ xs) = omega (arith, length-take_le n xs)

-- A slug has at most 50 characters, all of them lowercase ASCII letters, digits or dashes. It does not
-- start with a dash, has no two dashes in a row, and does not end with a dash if it has fewer than 50
-- characters. `lower` and `nfd` are any functions on texts.
pub slugify-IsDashed :
    (lower nfd : List ℕ → List ℕ) (text : List ℕ)
    → (length (slugify lower nfd text) ≤ 50)
      × IsDashed true (slugify lower nfd text)
      × (length (slugify lower nfd text) < 50 → EndsPlain (slugify lower nfd text))
unfolding slugify
slugify-IsDashed lower nfd text =
    let trimmed = drop_end is_space (drop_start is_space (lower text)) in
    let plain = filter (λ x. not (is_accent x)) (nfd trimmed) in
    let dashed = collapse false (filter is_kept plain) in
    let inner = drop_start is_dash dashed in
    let shape =
      drop_start-IsDashed dashed
        (collapse-IsDashed false (filter is_kept plain) (All-filter_test is_kept plain)) in
    (
      length-take_le 50 (drop_end is_dash inner),
      take-IsDashed true 50 (drop_end is_dash inner) (drop_end-IsDashed true inner shape),
      (λ short.
          subst EndsPlain (sym (take_short 50 (drop_end is_dash inner) short))
            (drop_end-EndsPlain inner)),
    )
