-- ===== src/Password/Parts.antt =====
-- The searches of src/shared/utils/password-policy.util.ts, by the parts of a text.
use base_api_nest_js.Base.{
  starts_with, includes, ℕ, zero, suc, ◌≤◌, ◌≡◌, ◌↔◌, refl, sym, ap, ◌∙◌, arith, Bool, true, ◌&&◌,
  ==_iff, leb, List, [], ◌∷◌, ◌++◌, length, take, drop, take-drop,
}
use base_api_nest_js.Password.{any_window}
use base_api_nest_js.Password.Runs.{any_suffix_iff}

-- `needle` is a part of the text.
abbrev pub IsWithin : List ℕ → List ℕ → Type 0
IsWithin needle text = (before after : List ℕ) × (text ≡ before ++ (needle ++ after))

starts_with_iff :
    (needle xs : List ℕ)
    → (starts_with needle xs ≡ true) ↔ ((after : List ℕ) × (xs ≡ needle ++ after))
unfolding starts_with
starts_with_iff needle xs = (to needle xs, λ (after, e). rw e (from needle after))
  where
    to :
        (needle xs : List ℕ)
        → starts_with needle xs ≡ true
        → (after : List ℕ) × (xs ≡ needle ++ after)
    to [] xs h = (xs, refl)
    to (k ∷ ks) [] h = absurd (ground arith)
    to (k ∷ ks) (x ∷ xs) h =
        let (after, e) = to ks xs (ground arith) in
        let same = (==_iff k x).0 (ground arith) in
        (after, ap (λ l. x ∷ l) e ∙ ap (λ a. a ∷ (ks ++ after)) (sym same))

    from : (needle after : List ℕ) → starts_with needle (needle ++ after) ≡ true
    from [] after = refl
    from (k ∷ ks) after = let ih = from ks after in ground (arith, (==_iff k k).1 refl)

pub includes_iff : (needle text : List ℕ) → (includes needle text ≡ true) ↔ IsWithin needle text
includes_iff needle text = (
  (λ h.
      let (before, rest, e, start) = (any_suffix_iff (starts_with needle) text).0 h in
      let (after, e') = (starts_with_iff needle rest).0 start in
      (before, after, e ∙ ap (λ l. before ++ l) e')),
  (λ (before, after, e).
      (any_suffix_iff (starts_with needle) text).1
        (before, needle ++ after, e, (starts_with_iff needle _).1 (after, refl))),
)

take-append : (w after : List ℕ) → take (length w) (w ++ after) ≡ w
take-append [] after = refl
take-append (x ∷ w) after = ap (λ l. x ∷ l) (take-append w after)

length-append : (w after : List ℕ) → length w ≤ length (w ++ after)
length-append [] after = omega arith
length-append (x ∷ w) after = let ih = length-append w after in omega arith

length-take : (n : ℕ) (xs : List ℕ) → n ≤ length xs → length (take n xs) ≡ n
length-take zero xs h = refl
length-take (suc n) [] h = absurd (omega arith)
length-take (suc n) (x ∷ xs) h = ap suc (length-take n xs (omega arith))

-- A part of `n` characters that passes the test.
abbrev pub HasPart : ℕ → (List ℕ → Type 0) → List ℕ → Type 0
HasPart n P text = (part : List ℕ) × (length part ≡ n) × IsWithin part text × P part

pub any_window_iff :
    (n : ℕ) (test : List ℕ → Bool) (P : List ℕ → Type 0) (text : List ℕ)
    → ((w : List ℕ) → length w ≡ n → (test w ≡ true) ↔ P w)
    → (any_window n test text ≡ true) ↔ HasPart n P text
any_window_iff n test P text means = (to, from)
  where
    window : List ℕ → Bool
    window rest = leb n (length rest) && test (take n rest)

    to : any_window n test text ≡ true → HasPart n P text
    to h =
        let (before, rest, e, t) = (any_suffix_iff window text).0 h in
        let long : n ≤ length rest = ground arith in
        let passes : test (take n rest) ≡ true = ground arith in
        let size = length-take n rest long in
        (
          take n rest,
          size,
          (before, drop n rest, e ∙ ap (λ l. before ++ l) (sym (take-drop n rest))),
          (means (take n rest) size).0 passes,
        )

    from : HasPart n P text → any_window n test text ≡ true
    from (part, size, (before, after, e), h) =
        let long = length-append part after in
        let front = take-append part after in
        let front' : take n (part ++ after) ≡ part = rw size at front in
        let passes : test (take n (part ++ after)) ≡ true = rw front' ((means part size).1 h) in
        let cut : window (part ++ after) ≡ true = ground arith in
        (any_suffix_iff window text).1 (before, part ++ after, e, cut)
