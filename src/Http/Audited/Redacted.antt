-- ===== src/Http/Audited/Redacted.antt =====
-- What src/shared/interceptors/audit.interceptor.ts leaves of a value.
use base_api_nest_js.Base.{
  ℕ, ◌+◌, ◌≤◌, ◌<◌, ◌≡◌, inl, inr, refl, ap, arith, false, List, [], ◌∷◌, ◌++◌, length, take, codes,
  leb, Bool-cases, zero, suc,
}
use base_api_nest_js.Http.Json.{
  Json, Items, Fields, undefined, null, boolean, number, string, array, object, nil, cons, end,
  field,
}
use base_api_nest_js.Http.Audited.{
  truncation_suffix, truncate, redacted, is_sensitive, is_proto, add_field, sanitize,
  sanitize_items, sanitize_fields,
}
use base_api_nest_js.Http.Audited.Agreement.{IsSecret, is_sensitive-IsSecret}

-- No text is longer than 214 characters, and under a sensitive key stands the mark alone.
abbrev mutual
  pub IsClean : Json → Type 0
  IsClean (string s) = length s ≤ 214
  IsClean (array xs) = AllClean xs
  IsClean (object fs) = FieldsClean fs
  IsClean other = Unit {0}

  pub AllClean : Items → Type 0
  AllClean nil = Unit {0}
  AllClean (cons x xs) = IsClean x × AllClean xs

  pub FieldsClean : Fields → Type 0
  FieldsClean end = Unit {0}
  FieldsClean (field key v fs) = (IsSecret key → v ≡ redacted) × IsClean v × FieldsClean fs

length-take_le : (n : ℕ) (xs : List ℕ) → length (take n xs) ≤ n
length-take_le zero xs = omega arith
length-take_le (suc n) [] = omega arith
length-take_le (suc n) (x ∷ xs) = omega (arith, length-take_le n xs)

length-append : (xs ys : List ℕ) → length (xs ++ ys) ≡ length xs + length ys
length-append [] ys = omega arith
length-append (x ∷ xs) ys = omega (arith, length-append xs ys)

truncate-le : (s : List ℕ) → length (truncate s) ≤ 214
unfolding truncate
truncate-le s = elim (Bool-cases (leb (length s) 200)) [
  | inl short ↦ rw short (ground arith)
  | inr long ↦
      rw long
        (omega (arith, length-append (take 200 s) (codes truncation_suffix), length-take_le 200 s))
]

add_field-FieldsClean :
    (key : List ℕ) (v : Json) (fs : Fields)
    → IsClean v
    → FieldsClean fs
    → FieldsClean (add_field key v fs)
add_field-FieldsClean key v fs h t = elim (Bool-cases (is_sensitive key)) [
  | inl secret ↦ rw secret ((λ _. refl), omega arith, t)
  | inr shown ↦ elim (Bool-cases (is_proto key)) [
    | inl proto ↦ rw (shown, proto) t
    | inr own ↦ rw (shown, own) ((λ s. absurd (cc (is_sensitive-IsSecret key s))), h, t)
  ]
]

mutual
  unfolding sanitize

  clean : (v : Json) → IsClean (sanitize v)
  clean undefined = tt
  clean null = tt
  clean (boolean b) = tt
  clean (number n) = tt
  clean (string s) = truncate-le s
  clean (array xs) = items-AllClean xs
  clean (object fs) = fields-Clean fs

  items-AllClean : (xs : Items) → AllClean (sanitize_items xs)
  items-AllClean nil = tt
  items-AllClean (cons x xs) = (clean x, items-AllClean xs)

  fields-Clean : (fs : Fields) → FieldsClean (sanitize_fields fs)
  fields-Clean end = tt
  fields-Clean (field key v fs) =
      add_field-FieldsClean key (sanitize v) (sanitize_fields fs) (clean v) (fields-Clean fs)

take-take : (n : ℕ) (xs ys : List ℕ) → n ≤ length xs → take n (take n xs ++ ys) ≡ take n xs
take-take zero xs ys h = refl
take-take (suc n) [] ys h = absurd (omega arith)
take-take (suc n) (x ∷ xs) ys h = ap (λ l. x ∷ l) (take-take n xs ys (omega arith))

length-take : (n : ℕ) (xs : List ℕ) → n ≤ length xs → length (take n xs) ≡ n
length-take zero xs h = omega arith
length-take (suc n) [] h = absurd (omega arith)
length-take (suc n) (x ∷ xs) h = omega (arith, length-take n xs)

lt_of_leb : (a b : ℕ) → leb a b ≡ false → b < a
lt_of_leb a b h = ground arith

leb_of_lt : (a b : ℕ) → b < a → leb a b ≡ false
leb_of_lt a b h = ground arith

truncate-truncate : (s : List ℕ) → truncate (truncate s) ≡ truncate s
unfolding truncate
truncate-truncate s = elim (Bool-cases (leb (length s) 200)) [
  | inl short ↦ rw (short, short)
  | inr long ↦
      let above = lt_of_leb (length s) 200 long in
      let kept = length-take 200 s (omega arith) in
      let total = length-append (take 200 s) (codes truncation_suffix) in
      let still = leb_of_lt (length (take 200 s ++ codes truncation_suffix)) 200 (omega arith) in
      rw (long, still, take-take 200 s (codes truncation_suffix) (omega arith))
]

add_field_again :
    (key : List ℕ) (v w : Json) (fs gs : Fields)
    → sanitize v ≡ w
    → sanitize_fields fs ≡ gs
    → sanitize_fields (add_field key v fs) ≡ add_field key w gs
unfolding sanitize truncate
add_field_again key v w fs gs h t = elim (Bool-cases (is_sensitive key)) [
  | inl secret ↦ rw (secret, secret, t)
  | inr shown ↦ elim (Bool-cases (is_proto key)) [
    | inl proto ↦ rw (shown, proto, t)
    | inr own ↦ rw (shown, own, shown, own, h, t)
  ]
]

mutual
  unfolding sanitize truncate

  again : (v : Json) → sanitize (sanitize v) ≡ sanitize v
  again undefined = refl
  again null = refl
  again (boolean b) = refl
  again (number n) = refl
  again (string s) = ap string (truncate-truncate s)
  again (array xs) = ap array (items_again xs)
  again (object fs) = ap object (fields_again fs)

  items_again : (xs : Items) → sanitize_items (sanitize_items xs) ≡ sanitize_items xs
  items_again nil = refl
  items_again (cons x xs) = rw (again x, items_again xs)

  fields_again : (fs : Fields) → sanitize_fields (sanitize_fields fs) ≡ sanitize_fields fs
  fields_again end = refl
  fields_again (field key v fs) =
      add_field_again key (sanitize v) (sanitize v) (sanitize_fields fs) (sanitize_fields fs)
        (again v) (fields_again fs)

-- In a recorded value no text is longer than 214 characters, and what stands under a key that has one
-- of the listed words as a part, in whatever case and at whatever depth, is the mark; and recording a
-- recorded value changes nothing.
pub sanitize-IsClean : (v : Json) → IsClean (sanitize v) × (sanitize (sanitize v) ≡ sanitize v)
sanitize-IsClean v = (clean v, again v)
