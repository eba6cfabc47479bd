-- ===== src/Base/Texts.antt =====
-- Searches in texts, which are lists of their codes.
use Prim.Native.Nat.{ℕ}
use mathlib.Core.Bool.{Bool, true, false, ◌&&◌, ◌||◌}
use mathlib.Core.List.{List, [], ◌∷◌}
use base_api_nest_js.Base.Tests.{◌==◌}
use base_api_nest_js.Base.Lists.{list_eq}

-- A test at some place of a text, on the rest of the text from there.
unfoldable pub any_suffix : (List ℕ → Bool) → List ℕ → Bool
any_suffix test [] = test []
any_suffix test (x ∷ xs) = test (x ∷ xs) || any_suffix test xs

unfoldable pub starts_with : List ℕ → List ℕ → Bool
starts_with [] xs = true
starts_with (k ∷ ks) [] = false
starts_with (k ∷ ks) (x ∷ xs) = k == x && starts_with ks xs

-- String.prototype.includes
abbrev pub includes : List ℕ → List ℕ → Bool
includes needle text = any_suffix (starts_with needle) text

-- String.prototype.endsWith
abbrev pub ends_with : List ℕ → List ℕ → Bool
ends_with needle text = any_suffix (list_eq needle) text
