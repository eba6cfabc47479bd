-- ===== src/Password.antt =====
-- The password policy: src/shared/utils/password-policy.util.ts. A text is the list of its UTF-16 codes, and
-- `lower` is String.prototype.toLowerCase.
pub mod Runs
pub mod Parts
pub mod Sequences
pub mod Accepted
use base_api_nest_js.Base.{
  any_suffix, includes, ℕ, zero, suc, ◌+◌, ◌≤◌, String, Bool, true, false, not, ◌&&◌, ◌||◌, ◌==◌,
  ltb, leb, Option, none, some, List, [], ◌∷◌, ◌++◌, if◌then◌else◌, filter, length, take, any, all,
  codes, list_eq, map, between, is_space,
}

-- PASSWORD_POLICY
abbrev pub min_length : ℕ
min_length = 12

abbrev pub max_length : ℕ
max_length = 128

abbrev pub max_repeated_char : ℕ
max_repeated_char = 3

abbrev pub min_sequence_flagged : ℕ
min_sequence_flagged = 4

abbrev pub min_similar_substring : ℕ
min_similar_substring = 4

abbrev pub common_passwords : List String
common_passwords =
    "password" ∷ "password1" ∷ "password123" ∷ "p@ssw0rd" ∷ "p@ssword123" ∷ "qwerty" ∷ "qwerty123"
    ∷ "qwertyuiop" ∷ "123456" ∷ "12345678" ∷ "123456789" ∷ "1234567890" ∷ "iloveyou" ∷ "admin"
    ∷ "admin123" ∷ "administrator" ∷ "welcome" ∷ "welcome1" ∷ "letmein" ∷ "monkey" ∷ "dragon"
    ∷ "master" ∷ "sunshine" ∷ "changeme" ∷ "changeme123" ∷ "abc123" ∷ "football" ∷ "baseball"
    ∷ "superman" ∷ []

abbrev pub keyboard_rows : List String
keyboard_rows = "qwertyuiop" ∷ "asdfghjkl" ∷ "zxcvbnm" ∷ "1234567890" ∷ []

pub record PasswordContext : Type 0 where
  pub email : Option (List ℕ)
  pub name : Option (List ℕ)

-- The classes of the regular expressions.
abbrev pub is_upper : ℕ → Bool
is_upper k = between 65 90 k

abbrev pub is_lower : ℕ → Bool
is_lower k = between 97 122 k

abbrev pub is_digit : ℕ → Bool
is_digit k = between 48 57 k

abbrev pub is_special : ℕ → Bool
is_special k = not (is_upper k || is_lower k || is_digit k)

-- The loop of hasRepeatedRun: the character before, the count, and the rest.
unfoldable pub repeated_loop : ℕ → ℕ → ℕ → List ℕ → Bool
repeated_loop max prev count [] = false
repeated_loop max prev count (x ∷ xs) =
    let longer = repeated_loop max x (suc count) xs in
    let fresh = repeated_loop max x 1 xs in
    if x == prev then (if ltb max (suc count) then true else longer) else fresh

unfoldable pub has_repeated_run : List ℕ → ℕ → Bool
has_repeated_run [] max = false
has_repeated_run (x ∷ xs) max = repeated_loop max x 1 xs

-- The inner loop of hasSequence, for `asc`: each code is one more than the code before.
unfoldable pub is_rising : List ℕ → Bool
is_rising [] = true
is_rising (x ∷ []) = true
is_rising (x ∷ y ∷ xs) = y == x + 1 && is_rising (y ∷ xs)

-- The same for `desc`.
unfoldable pub is_falling : List ℕ → Bool
is_falling [] = true
is_falling (x ∷ []) = true
is_falling (x ∷ y ∷ xs) = x == y + 1 && is_falling (y ∷ xs)

-- A test of the `min_len` characters at some place.
abbrev pub any_window : ℕ → (List ℕ → Bool) → List ℕ → Bool
any_window min_len test xs =
    any_suffix (λ rest. leb min_len (length rest) && test (take min_len rest)) xs

unfoldable pub reverse : List ℕ → List ℕ
reverse [] = []
reverse (x ∷ xs) = reverse xs ++ x ∷ []

abbrev pub typed_in : List ℕ → List ℕ → Bool
typed_in lowered slice = includes slice lowered || includes (reverse slice) lowered

abbrev pub has_keyboard_slice : ℕ → List ℕ → Bool
has_keyboard_slice min_len lowered =
    any (λ row. any_window min_len (typed_in lowered) (codes row)) keyboard_rows

-- `split('@')[0]`
unfoldable pub local_part : List ℕ → List ℕ
local_part [] = []
local_part (x ∷ xs) = let rest = local_part xs in if x == 64 then [] else x ∷ rest

-- The parts of `split(/\s+/)` that are not empty; `word` is what was read of the part.
unfoldable pub words_from : List ℕ → List ℕ → List (List ℕ)
words_from word [] = word ∷ []
words_from word (x ∷ xs) =
    let next = words_from [] xs in
    let same = words_from (word ++ x ∷ []) xs in if is_space x then word ∷ next else same

abbrev pub not_empty : List ℕ → Bool
not_empty [] = false
not_empty (x ∷ xs) = true

-- The messages of the tests that hold.
unfoldable pub reported : List (Bool × String) → List String
reported [] = []
reported ((failed, message) ∷ rest) =
    let others = reported rest in if failed then message ∷ others else others

module _ (lower : List ℕ → List ℕ) where
  unfoldable pub has_sequence : List ℕ → ℕ → Bool
  has_sequence value min_len =
      let lowered = lower value in
      any_window min_len (λ w. is_rising w || is_falling w) lowered
      || has_keyboard_slice min_len lowered

  unfoldable pub email_tokens : Option (List ℕ) → List (List ℕ)
  email_tokens none = []
  email_tokens (some []) = []
  email_tokens (some (x ∷ xs)) = filter not_empty (lower (local_part (x ∷ xs)) ∷ [])

  unfoldable pub name_tokens : Option (List ℕ) → List (List ℕ)
  name_tokens none = []
  name_tokens (some []) = []
  name_tokens (some (x ∷ xs)) = filter not_empty (words_from [] (lower (x ∷ xs)))

  unfoldable pub matches_context : List ℕ → PasswordContext → ℕ → Bool
  matches_context password ctx min_len =
      any (λ token. leb min_len (length token) && includes token (lower password))
        (email_tokens ctx.email ++ name_tokens ctx.name)

  abbrev pub is_common : List ℕ → Bool
  is_common password = any (λ common. list_eq (codes common) (lower password)) common_passwords

  unfoldable pub validate_password_policy : List ℕ → PasswordContext → List String
  validate_password_policy password ctx = reported (
      (ltb (length password) min_length, "Password must be at least 12 characters")
      ∷ (ltb max_length (length password), "Password must be at most 128 characters")
      ∷ (not (any is_upper password), "Password must contain at least one uppercase letter")
      ∷ (not (any is_lower password), "Password must contain at least one lowercase letter")
      ∷ (not (any is_digit password), "Password must contain at least one number")
      ∷ (not (any is_special password), "Password must contain at least one special character")
      ∷ (any is_space password, "Password must not contain whitespace")
      ∷ (is_common password, "Password is too common")
      ∷ (
        has_repeated_run password max_repeated_char,
        "Password must not contain the same character more than 3 times in a row",
      )
      ∷ (
        has_sequence password min_sequence_flagged,
        "Password must not contain ascending, descending, or keyboard sequences",
      )
      ∷ (
        matches_context password ctx min_similar_substring,
        "Password must not contain your name or email",
      )
      ∷ [])
