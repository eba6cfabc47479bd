-- ===== src/Password/Runs.antt =====
-- hasRepeatedRun of src/shared/utils/password-policy.util.ts finds the runs that are too long, and no others.
use base_api_nest_js.Base.{
  any_suffix, ℕ, zero, suc, ◌+◌, ◌≤◌, ◌≡◌, ◌↔◌, inl, inr, refl, ap, ◌∙◌, arith, Bool, true, false,
  ◌||◌, ◌==◌, ==_iff, ltb, List, [], ◌∷◌, ◌++◌, if◌then◌else◌, Bool-cases,
}
use base_api_nest_js.Password.{repeated_loop, has_repeated_run}

-- A test holds at some place exactly if the text ends with a part that it holds of.
pub any_suffix_iff :
    (test : List ℕ → Bool) (xs : List ℕ)
    → (any_suffix test xs ≡ true)
      ↔ ((before rest : List ℕ) × (xs ≡ before ++ rest) × (test rest ≡ true))
unfolding any_suffix
any_suffix_iff test xs = (to xs, λ (before, rest, e, h). rw e (from before rest h))
  where
    to :
        (xs : List ℕ)
        → any_suffix test xs ≡ true
        → (before rest : List ℕ) × (xs ≡ before ++ rest) × (test rest ≡ true)
    to [] h = ([], [], refl, h)
    to (x ∷ xs) h = elim (Bool-cases (test (x ∷ xs))) [
      | inl here ↦ ([], x ∷ xs, refl, here)
      | inr later ↦
          let (before, rest, e, t) = to xs (ground arith) in
          (x ∷ before, rest, ap (λ l. x ∷ l) e, t)
    ]

    from : (before rest : List ℕ) → test rest ≡ true → any_suffix test (before ++ rest) ≡ true
    from [] [] h = h
    from [] (x ∷ rest) h = rw h refl
    from (x ∷ before) rest h = let ih = from before rest h in ground arith

abbrev pub replicate : ℕ → ℕ → List ℕ
replicate zero x = []
replicate (suc n) x = x ∷ replicate n x

-- How often `x` stands at the front of a text.
lead : ℕ → List ℕ → ℕ
lead x [] = 0
lead x (y ∷ ys) = let rest = lead x ys in if y == x then suc rest else 0

-- A run of more than `max` characters starts here.
starts_run : ℕ → List ℕ → Bool
starts_run max [] = false
starts_run max (x ∷ xs) = ltb max (suc (lead x xs))

repeated_loop_lem :
    (max prev count : ℕ) (xs : List ℕ)
    → 1 ≤ max
    → count ≤ max
    → repeated_loop max prev count xs
      ≡ (ltb max (count + lead prev xs) || any_suffix (starts_run max) xs)
unfolding repeated_loop any_suffix starts_run lead
repeated_loop_lem max prev count [] pos le = ground arith
repeated_loop_lem max prev count (x ∷ xs) pos le = elim (Bool-cases (x == prev)) [
  | inl same ↦ elim (Bool-cases (ltb max (suc count))) [
    | inl over ↦ ground arith
    | inr under ↦
        let ih = repeated_loop_lem max x (suc count) xs pos (ground arith) in
        let eq = (==_iff x prev).0 same in let leads = ap (λ k. lead k xs) eq in ground arith
  ]
  | inr differs ↦ let ih = repeated_loop_lem max x 1 xs pos pos in ground arith
]

lead-run :
    (n x : ℕ) (xs : List ℕ) → n ≤ lead x xs → (after : List ℕ) × (xs ≡ replicate n x ++ after)
unfolding lead
lead-run zero x xs h = (xs, refl)
lead-run (suc n) x [] h = absurd (omega arith)
lead-run (suc n) x (y ∷ ys) h = elim (Bool-cases (y == x)) [
  | inl same ↦
      let (after, e) = lead-run n x ys (ground arith) in
      (after, ap (λ k. k ∷ ys) ((==_iff y x).0 same) ∙ ap (λ l. x ∷ l) e)
  | inr other ↦ absurd (ground arith)
]

lead-replicate : (n x : ℕ) (after : List ℕ) → n ≤ lead x (replicate n x ++ after)
unfolding lead
lead-replicate zero x after = omega arith
lead-replicate (suc n) x after =
    let ih = lead-replicate n x after in let same = (==_iff x x).1 refl in ground arith

-- A character stands more than `max` times in a row.
abbrev pub HasRun : ℕ → List ℕ → Type 0
HasRun max value =
    (before : List ℕ) × (x : ℕ) × (after : List ℕ) × (value
      ≡ before ++ (replicate (suc max) x ++ after))

starts_run_iff :
    (max : ℕ) (rest : List ℕ)
    → (starts_run max rest ≡ true)
      ↔ ((x : ℕ) × (after : List ℕ) × (rest ≡ replicate (suc max) x ++ after))
unfolding starts_run
starts_run_iff max rest = (to rest, λ (x, after, e). rw e (from x after))
  where
    to :
        (rest : List ℕ)
        → starts_run max rest ≡ true
        → (x : ℕ) × (after : List ℕ) × (rest ≡ replicate (suc max) x ++ after)
    to [] h = absurd (ground arith)
    to (x ∷ xs) h =
        let (after, e) = lead-run max x xs (ground arith) in (x, after, ap (λ l. x ∷ l) e)

    from : (x : ℕ) (after : List ℕ) → starts_run max (replicate (suc max) x ++ after) ≡ true
    from x after = let long = lead-replicate max x after in ground arith

has_repeated_run-any_suffix :
    (max : ℕ) (value : List ℕ)
    → 1 ≤ max
    → has_repeated_run value max ≡ any_suffix (starts_run max) value
unfolding has_repeated_run any_suffix starts_run
has_repeated_run-any_suffix max [] pos = refl
has_repeated_run-any_suffix max (x ∷ xs) pos =
    let loop = repeated_loop_lem max x 1 xs pos pos in
    let count : 1 + lead x xs ≡ suc (lead x xs) = omega arith in rw count at loop

pub has_repeated_run_iff :
    (max : ℕ) (value : List ℕ) → 1 ≤ max → (has_repeated_run value max ≡ true) ↔ HasRun max value
has_repeated_run_iff max value pos = rw (has_repeated_run-any_suffix max value pos) (
  (λ h.
      let (before, rest, e, start) = (any_suffix_iff (starts_run max) value).0 h in
      let (x, after, run) = (starts_run_iff max rest).0 start in
      (before, x, after, e ∙ ap (λ l. before ++ l) run)),
  (λ (before, x, after, e).
      (any_suffix_iff (starts_run max) value).1
        (before, replicate (suc max) x ++ after, e, (starts_run_iff max _).1 (x, after, refl))),
)
