-- ===== src/Slug.antt =====
-- Slugs: src/shared/utils/slugify.util.ts, on the UTF-16 codes of a text. `lower` and `nfd` are
-- String.prototype.toLowerCase and the normalization that separates accents from their letters.
pub mod Wellformed
use base_api_nest_js.Base.{
  ℕ, Bool, true, false, not, ◌&&◌, ◌||◌, ◌==◌, List, [], ◌∷◌, if◌then◌else◌, filter, take, between,
  is_space,
}

-- A text without the characters of a class at its start.
unfoldable pub drop_start : (ℕ → Bool) → List ℕ → List ℕ
drop_start p [] = []
drop_start p (x ∷ xs) = let rest = drop_start p xs in if p x then rest else x ∷ xs

abbrev pub attach : Bool → ℕ → List ℕ → List ℕ
attach dropped x [] = if dropped then [] else x ∷ []
attach dropped x (y ∷ ys) = x ∷ y ∷ ys

-- A text without the characters of a class at its end.
unfoldable pub drop_end : (ℕ → Bool) → List ℕ → List ℕ
drop_end p [] = []
drop_end p (x ∷ xs) = attach (p x) x (drop_end p xs)

abbrev pub is_dash : ℕ → Bool
is_dash x = x == 45

-- [\u0300-\u036f]
abbrev pub is_accent : ℕ → Bool
is_accent x = between 768 879 x

-- [a-z0-9\s-]
abbrev pub is_kept : ℕ → Bool
is_kept x = between 97 122 x || between 48 57 x || is_space x || is_dash x

-- [\s_-]
abbrev pub is_separator : ℕ → Bool
is_separator x = is_space x || x == 95 || is_dash x

-- `replace(/[\s_-]+/g, '-')`; the first argument says whether the character before was in the class.
unfoldable pub collapse : Bool → List ℕ → List ℕ
collapse within [] = []
collapse within (x ∷ xs) =
    let rest = collapse (is_separator x) xs in
    if is_separator x then (if within then rest else 45 ∷ rest) else x ∷ rest

unfoldable pub slugify : (lower nfd : List ℕ → List ℕ) → List ℕ → List ℕ
unfolding drop_start drop_end collapse is_space
slugify lower nfd text =
    let trimmed = drop_end is_space (drop_start is_space (lower text)) in
    let plain = filter (λ x. not (is_accent x)) (nfd trimmed) in
    let dashed = collapse false (filter is_kept plain) in
    take 50 (drop_end is_dash (drop_start is_dash dashed))
