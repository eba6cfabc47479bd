-- ===== src/Auth/Totp/Window.antt =====
-- The codes of a secret: their shape, and which of them pass at a time.
use base_api_nest_js.Base.{
  ℕ, zero, suc, ◌+◌, ◌-◌, ◌*◌, ◌%◌, ◌^◌, ◌<◌, ◌≤◌, ◌≡◌, ◌↔◌, ◌⊎◌, refl, Bool, true, false, Option,
  some, List, [], ◌∷◌, ltb, ◌&&◌, ◌||◌, ◌==◌, arith, inl, inr, length, all, get_elem?, list_eq,
  list_eq_iff, Option-cases, Bool-cases, sym, ◌∙◌, ap,
}
use base_api_nest_js.Auth.Totp.{
  Hmac, base32_decode, big_endian, first_word, read_u32, padded, code_of, truncated, generate_code,
  counter_at, generate_token, is_digit, window, match_loop, verify_token,
}

first_word-some : (bytes : List ℕ) → 4 ≤ length bytes → (word : ℕ) × (first_word bytes ≡ some word)
first_word-some (a ∷ b ∷ c ∷ d ∷ rest) h = (((a * 256 + b) * 256 + c) * 256 + d, refl)
first_word-some [] h = absurd (omega arith)
first_word-some (a ∷ []) h = absurd (omega arith)
first_word-some (a ∷ b ∷ []) h = absurd (omega arith)
first_word-some (a ∷ b ∷ c ∷ []) h = absurd (omega arith)

read_u32-some :
    (offset : ℕ) (bytes : List ℕ)
    → offset + 4 ≤ length bytes
    → (word : ℕ) × (read_u32 offset bytes ≡ some word)
read_u32-some zero bytes h = first_word-some bytes h
read_u32-some (suc offset) [] h = absurd (omega arith)
read_u32-some (suc offset) (a ∷ rest) h = read_u32-some offset rest (omega arith)

get_elem?-some : (xs : List ℕ) (i : ℕ) → i < length xs → (x : ℕ) × (get_elem? xs i ≡ some x)
get_elem?-some [] i h = absurd (omega arith)
get_elem?-some (x ∷ xs) zero h = (x, refl)
get_elem?-some (x ∷ xs) (suc i) h = get_elem?-some xs i (omega arith)

-- The code of twenty bytes exists: the offset is at most fifteen.
truncated-some :
    (digest : List ℕ) → length digest ≡ 20 → (word : ℕ) × (truncated digest ≡ some (code_of word))
unfolding truncated
truncated-some digest h =
    let (last, el) = get_elem?-some digest (length digest - 1) (omega arith) in
    let (word, er) = read_u32-some (last % 16) digest (omega arith) in (word, ground arith)

generate_code-some :
    (h : Hmac) (secret : List ℕ) (counter : ℕ) {key : List ℕ}
    → base32_decode secret ≡ some key
    → counter < 2 ^ 64
    → (word : ℕ) × (generate_code h secret counter ≡ some (code_of word))
unfolding generate_code
generate_code-some h secret counter {key} e lt =
    let (word, et) = truncated-some (h.sha1 key (big_endian 8 counter)) (h.sha1_length key _) in
    let small : ltb counter (2 ^ 64) ≡ true = ground arith in (word, ground arith)

padded-digits : (k n : ℕ) → (all is_digit (padded k n) ≡ true) × (length (padded k n) ≡ k)
padded-digits zero n = (refl, refl)
padded-digits (suc k) n =
    let (digits, size) = padded-digits k n in (ground arith, omega (arith, size))

code_of_shape : (word : ℕ) → (all is_digit (code_of word) && length (code_of word) == 6) ≡ true
code_of_shape word = let (digits, size) = padded-digits 6 (word % 2 ^ 31 % 10 ^ 6) in rw digits refl

truncated_word :
    (digest : List ℕ) {code : List ℕ}
    → truncated digest ≡ some code
    → (word : ℕ) × (code ≡ code_of word)
unfolding truncated
truncated_word digest {code} e = elim (Option-cases (get_elem? digest (length digest - 1))) [
  | inl empty ↦ absurd (ground arith)
  | inr (last, el) ↦ elim (Option-cases (read_u32 (last % 16) digest)) [
    | inl outside ↦ absurd (ground arith)
    | inr (word, er) ↦ (word, ground arith)
  ]
]

-- A code that is generated has six characters, all of them digits.
generate_code_shape :
    (h : Hmac) (secret : List ℕ) (counter : ℕ) {code : List ℕ}
    → generate_code h secret counter ≡ some code
    → (all is_digit code && length code == 6) ≡ true
unfolding generate_code
generate_code_shape h secret counter {code} e = elim (Option-cases (base32_decode secret)) [
  | inl bad ↦ absurd (ground arith)
  | inr (key, ek) ↦ elim (Bool-cases (ltb counter (2 ^ 64))) [
    | inr large ↦ absurd (ground arith)
    | inl small ↦
        let (word, same) =
          truncated_word (h.sha1 key (big_endian 8 counter)) {code = code} (ground arith) in
        rw same (code_of_shape word)
  ]
]

match_loop_three :
    (h : Hmac) (secret token : List ℕ) (counter : ℕ) {x y z : List ℕ}
    → (counter == 0) ≡ false
    → generate_code h secret (counter - 1) ≡ some x
    → generate_code h secret counter ≡ some y
    → generate_code h secret (counter + 1) ≡ some z
    → match_loop h secret token (window counter) false
      ≡ some (list_eq z token || (list_eq y token || (list_eq x token || false)))
unfolding match_loop
match_loop_three h secret token counter later ex ey ez = ground arith

same_code :
    {o : Option (List ℕ)} {x token : List ℕ}
    → o ≡ some x
    → (o ≡ some token) ↔ (list_eq x token ≡ true)
same_code {o} {x} {token} e = ground (arith, list_eq_iff x token)

one_of :
    (x y z : Bool) → ((z || (y || (x || false))) ≡ true) ↔ ((x ≡ true) ⊎ (y ≡ true) ⊎ (z ≡ true))
one_of x y z = ground arith

verify_token_well_formed :
    (h : Hmac) (secret token : List ℕ) (time : ℕ)
    → verify_token h secret token time ≡ some true
    → (all is_digit token && length token == 6) ≡ true
unfolding verify_token
verify_token_well_formed h secret token time e = ground arith

verify_token_loop :
    (h : Hmac) (secret token : List ℕ) (time : ℕ)
    → (all is_digit token && length token == 6) ≡ true
    → verify_token h secret token time ≡ match_loop h secret token (window (counter_at time)) false
unfolding verify_token
verify_token_loop h secret token time six = ground arith

some_true : {a b : Bool} → some a ≡ some b → a ≡ b
some_true e = ground arith

-- For a secret in base 32 and a time from the first half minute on, a token passes just when it is
-- the secret's code of that time, of half a minute earlier or of half a minute later.
pub verify_token_iff :
    (h : Hmac) (secret token : List ℕ) (time : ℕ) {key : List ℕ}
    → base32_decode secret ≡ some key
    → 30000 ≤ time
    → time < 2 ^ 64
    → (verify_token h secret token time ≡ some true) ↔ (
        (generate_token h secret (time - 30000) ≡ some token)
        ⊎ (generate_token h secret time ≡ some token)
        ⊎ (generate_token h secret (time + 30000) ≡ some token))
unfolding generate_token
verify_token_iff h secret token time e late soon =
    let c = counter_at time in
    let before : counter_at (time - 30000) ≡ c - 1 = omega arith in
    let after : counter_at (time + 30000) ≡ c + 1 = omega arith in
    let (u, ex) = generate_code-some h secret (c - 1) e (omega arith) in
    let (v, ey) = generate_code-some h secret c e (omega arith) in
    let (w, ez) = generate_code-some h secret (c + 1) e (omega arith) in
    let loop = match_loop_three h secret token c (ground arith) ex ey ez in
    let x = same_code {token = token} ex in
    let y = same_code {token = token} ey in
    let z = same_code {token = token} ez in
    let some_one =
      one_of (list_eq (code_of u) token) (list_eq (code_of v) token) (list_eq (code_of w) token) in
    rw (before, after)
      (
        (λ passed.
            let six = verify_token_well_formed h secret token time passed in
            let hit =
              some_one.0
                (some_true (sym loop ∙ sym (verify_token_loop h secret token time six) ∙ passed)) in
            elim hit [
              | inl m ↦ inl (x.1 m)
              | inr (inl m) ↦ inr (inl (y.1 m))
              | inr (inr m) ↦ inr (inr (z.1 m))
            ]),
        (λ given. elim given [
          | inl g ↦
              verify_token_loop h secret token time (generate_code_shape h secret (c - 1) g)
              ∙ loop
              ∙ ap some (some_one.1 (inl (x.0 g)))
          | inr (inl g) ↦
              verify_token_loop h secret token time (generate_code_shape h secret c g)
              ∙ loop
              ∙ ap some (some_one.1 (inr (inl (y.0 g))))
          | inr (inr g) ↦
              verify_token_loop h secret token time (generate_code_shape h secret (c + 1) g)
              ∙ loop
              ∙ ap some (some_one.1 (inr (inr (z.0 g))))
        ]),
      )
