-- ===== src/Password/Sequences.antt =====
-- What hasSequence of src/shared/utils/password-policy.util.ts finds.
use base_api_nest_js.Base.{
  ℕ, zero, suc, ◌+◌, ◌≡◌, ◌↔◌, ◌⊎◌, inl, inr, refl, ap, ◌∙◌, arith, Bool, true, false, ◌||◌, ==_iff,
  String, List, [], ◌∷◌, length, Bool-cases, Has, any, any-true, codes,
}
use base_api_nest_js.Password.{
  is_rising, is_falling, any_window, reverse, typed_in, keyboard_rows, has_keyboard_slice,
  has_sequence,
}
use base_api_nest_js.Password.Parts.{IsWithin, includes_iff, HasPart, any_window_iff}

-- n, n + 1, …
abbrev pub rising : ℕ → ℕ → List ℕ
rising zero x = []
rising (suc n) x = x ∷ rising n (x + 1)

-- So many codes down to `low`.
abbrev pub falling : ℕ → ℕ → List ℕ
falling zero low = []
falling (suc n) low = (low + n) ∷ falling n low

abbrev pub IsSequence : List ℕ → Type 0
IsSequence w = ((x : ℕ) × (w ≡ rising (length w) x)) ⊎ ((low : ℕ) × (w ≡ falling (length w) low))

rising_to : (x : ℕ) (xs : List ℕ) → is_rising (x ∷ xs) ≡ true → x ∷ xs ≡ rising (suc (length xs)) x
unfolding is_rising
rising_to x [] h = refl
rising_to x (y ∷ xs) h =
    let next : y ≡ x + 1 = (==_iff y (x + 1)).0 (ground arith) in
    let rest = rising_to y xs (ground arith) in
    ap (λ l. x ∷ l) (rest ∙ ap (λ k. rising (suc (length xs)) k) next)

rising_from : (n x : ℕ) → is_rising (rising n x) ≡ true
unfolding is_rising
rising_from zero x = refl
rising_from (suc zero) x = refl
rising_from (suc (suc n)) x =
    let ih = rising_from (suc n) (x + 1) in ground (arith, (==_iff (x + 1) (x + 1)).1 refl)

falling_to :
    (x : ℕ) (xs : List ℕ)
    → is_falling (x ∷ xs) ≡ true
    → (low : ℕ) × (x ≡ low + length xs) × (x ∷ xs ≡ falling (suc (length xs)) low)
unfolding is_falling
falling_to x [] h = (x, omega arith, ap (λ k. k ∷ []) (omega arith))
falling_to x (y ∷ xs) h =
    let above : x ≡ y + 1 = (==_iff x (y + 1)).0 (ground arith) in
    let (low, at, rest) = falling_to y xs (ground arith) in
    let here : x ≡ low + suc (length xs) = omega arith in
    (low, here, ap (λ l. x ∷ l) rest ∙ ap (λ k. k ∷ falling (suc (length xs)) low) here)

falling_from : (n low : ℕ) → is_falling (falling n low) ≡ true
unfolding is_falling
falling_from zero low = refl
falling_from (suc zero) low = refl
falling_from (suc (suc n)) low =
    let ih = falling_from (suc n) low in
    let above : low + suc n ≡ low + n + 1 = omega arith in
    let same = (==_iff (low + suc n) (low + n + 1)).1 above in ground arith

IsSequence-iff : (w : List ℕ) → ((is_rising w || is_falling w) ≡ true) ↔ IsSequence w
IsSequence-iff w = (to w, from)
  where
    to : (w : List ℕ) → (is_rising w || is_falling w) ≡ true → IsSequence w
    to [] h = inl (0, refl)
    to (x ∷ xs) h = elim (Bool-cases (is_rising (x ∷ xs))) [
      | inl up ↦ inl (x, rising_to x xs up)
      | inr flat ↦ let (low, at, e) = falling_to x xs (ground arith) in inr (low, e)
    ]

    from : IsSequence w → (is_rising w || is_falling w) ≡ true
    from (inl (x, e)) =
        let up : is_rising w ≡ true = ap is_rising e ∙ rising_from (length w) x in ground arith
    from (inr (low, e)) =
        let down : is_falling w ≡ true = ap is_falling e ∙ falling_from (length w) low in
        ground arith

pub any_iff :
    {A : Type 0} (test : A → Bool) (xs : List A)
    → (any test xs ≡ true) ↔ ((a : A) × Has a xs × (test a ≡ true))
any_iff {A} test xs = (to xs, λ (a, m, h). any-true test a xs m h)
  where
    to : (xs : List A) → any test xs ≡ true → (a : A) × Has a xs × (test a ≡ true)
    to [] h = absurd (ground arith)
    to (x ∷ xs) h = elim (Bool-cases (test x)) [
      | inl e ↦ (x, inl refl, e)
      | inr e ↦ let (a, m, t) = to xs (ground arith) in (a, inr m, t)
    ]

pub or_iff :
    {a b : Bool} {P Q : Type 0} → (a ≡ true) ↔ P → (b ≡ true) ↔ Q → ((a || b) ≡ true) ↔ (P ⊎ Q)
or_iff {a = true} p q = ((λ h. inl (p.0 refl)), (λ h. refl))
or_iff {a = false} p q =
    ((λ h. inr (q.0 h)), (λ h. elim h [ inl r ↦ absurd (ground (arith, p.1 r)) | inr r ↦ q.1 r ]))

typed_in_iff :
    (text slice : List ℕ)
    → (typed_in text slice ≡ true) ↔ (IsWithin slice text ⊎ IsWithin (reverse slice) text)
typed_in_iff text slice = or_iff (includes_iff slice text) (includes_iff (reverse slice) text)

-- `n` characters in a row of the keyboard, in either direction.
abbrev pub HasKeyboardSlice : ℕ → List ℕ → Type 0
HasKeyboardSlice n text =
    (row : String) × Has row keyboard_rows
    × HasPart n (λ slice. IsWithin slice text ⊎ IsWithin (reverse slice) text) (codes row)

abbrev pub HasSequence : ℕ → List ℕ → Type 0
HasSequence n text = HasPart n IsSequence text ⊎ HasKeyboardSlice n text

keyboard_iff :
    (n : ℕ) (text : List ℕ) → (has_keyboard_slice n text ≡ true) ↔ HasKeyboardSlice n text
keyboard_iff n text =
    let rows = any_iff (λ row. any_window n (typed_in text) (codes row)) keyboard_rows in
    let slices = λ (row : String).
      any_window_iff n (typed_in text)
        (λ slice. IsWithin slice text ⊎ IsWithin (reverse slice) text) (codes row)
        (λ w e. typed_in_iff text w) in
    (
      (λ h. let (row, m, e) = rows.0 h in (row, m, (slices row).0 e)),
      (λ (row, m, e). rows.1 (row, m, (slices row).1 e)),
    )

pub has_sequence_iff :
    (lower : List ℕ → List ℕ) (value : List ℕ) (n : ℕ)
    → (has_sequence lower value n ≡ true) ↔ HasSequence n (lower value)
unfolding has_sequence
has_sequence_iff lower value n =
    let parts =
      any_window_iff n (λ w. is_rising w || is_falling w) IsSequence (lower value)
        (λ w e. IsSequence-iff w) in
    let keys = keyboard_iff n (lower value) in or_iff parts keys
