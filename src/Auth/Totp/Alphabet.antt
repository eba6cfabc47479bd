-- ===== src/Auth/Totp/Alphabet.antt =====
-- The alphabet of base 32 by a table, and one step of the decoder on a character of it.
use base_api_nest_js.Base.{
  is_space, ℕ, zero, suc, ◌+◌, ◌-◌, ◌*◌, ◌/◌, ◌%◌, ◌^◌, ◌<◌, ◌≡◌, refl, Bool, true, false, Option,
  none, some, List, [], ◌∷◌, map, filter, not, ◌&&◌, ◌==◌, ltb, leb, opt_eq, arith, inl, inr,
  ==_iff, All, All-append, Bool-cases,
}
use base_api_nest_js.Auth.Totp.{
  char_at, index_of, drain, encode_loop, to_upper, strip_padding, cleaned, prepend, decode_loop,
}

-- A test of every number below the bound.
abbrev all_below : ℕ → (ℕ → Bool) → Bool
all_below zero test = true
all_below (suc n) test = test n && all_below n test

all_below_sound :
    (n : ℕ) (test : ℕ → Bool) (x : ℕ) → all_below n test ≡ true → x < n → test x ≡ true
all_below_sound zero test x h lt = absurd (omega arith)
all_below_sound (suc n) test x h lt = ground (arith, all_below_sound n test x)

-- What the code relies on of the character at an index: it is found there, and the cleaning of the
-- input keeps it.
abbrev is_plain : ℕ → Bool
is_plain c = to_upper c == c && not (is_space c) && not (c == 61)

abbrev sound_at : ℕ → Bool
sound_at i = opt_eq (index_of (char_at i)) (some i) && is_plain (char_at i)

table : all_below 32 sound_at ≡ true
unfolding char_at index_of is_space
table = refl

opt_eq-some : (a : Option ℕ) (b : ℕ) → opt_eq a (some b) ≡ true → a ≡ some b
opt_eq-some none b h = ground arith
opt_eq-some (some a) b h = ground arith

and_true : (a b : Bool) → (a && b) ≡ true → (a ≡ true) × (b ≡ true)
and_true a b h = ground arith

pub index_of-char_at : (i : ℕ) → i < 32 → index_of (char_at i) ≡ some i
index_of-char_at i lt =
    opt_eq-some (index_of (char_at i)) i (and_true _ _ (all_below_sound 32 sound_at i table lt)).0

char_at-plain : (i : ℕ) → i < 32 → is_plain (char_at i) ≡ true
char_at-plain i lt = (and_true _ _ (all_below_sound 32 sound_at i table lt)).1

abbrev pub IsPlain : List ℕ → Type 0
IsPlain cs = All (λ c. is_plain c ≡ true) cs

plain-strip_padding : (cs : List ℕ) → IsPlain cs → strip_padding cs ≡ cs
plain-strip_padding [] h = refl
plain-strip_padding (c ∷ cs) h = ground (arith, plain-strip_padding cs h.1, h.0)

plain-to_upper : (cs : List ℕ) → IsPlain cs → map to_upper cs ≡ cs
plain-to_upper [] h = refl
plain-to_upper (c ∷ cs) h = ground (arith, plain-to_upper cs h.1, h.0, ==_iff (to_upper c) c)

plain-filter : (cs : List ℕ) → IsPlain cs → filter (λ c. not (is_space c)) cs ≡ cs
plain-filter [] h = refl
plain-filter (c ∷ cs) h = ground (arith, plain-filter cs h.1, h.0)

-- The cleaning of the input changes nothing of a text over the alphabet.
pub cleaned-IsPlain : (cs : List ℕ) → IsPlain cs → cleaned cs ≡ cs
cleaned-IsPlain cs h = rw (plain-to_upper cs h, plain-strip_padding cs h, plain-filter cs h) refl

pub drain-IsPlain : (bits value : ℕ) → IsPlain (drain bits value).0
unfolding drain
drain-IsPlain zero value = tt
drain-IsPlain (suc zero) value = tt
drain-IsPlain (suc (suc zero)) value = tt
drain-IsPlain (suc (suc (suc zero))) value = tt
drain-IsPlain (suc (suc (suc (suc zero)))) value = tt
drain-IsPlain (suc (suc (suc (suc (suc bits))))) value =
    (char_at-plain (value / 2 ^ bits % 32) (grind arith), drain-IsPlain bits value)

pub encode_loop-IsPlain : (bytes : List ℕ) (bits value : ℕ) → IsPlain (encode_loop bytes bits value)
unfolding encode_loop
encode_loop-IsPlain [] bits value = elim (Bool-cases (ltb 0 bits)) [
  | inl some_left ↦
      rw some_left (char_at-plain (value * 2 ^ (5 - bits) % 2 ^ 32 % 32) (omega arith), tt)
  | inr none_left ↦ rw none_left tt
]
encode_loop-IsPlain (byte ∷ bytes) bits value =
    let shifted = (value * 256 + byte) % 2 ^ 32 in
    All-append (λ c. is_plain c ≡ true) (drain (bits + 8) shifted).0
      (encode_loop bytes (drain (bits + 8) shifted).1 shifted) (drain-IsPlain (bits + 8) shifted)
      (encode_loop-IsPlain bytes (drain (bits + 8) shifted).1 shifted)

-- A character that completes no byte, and one that does.
pub decode_loop_short :
    (c i : ℕ) (cs : List ℕ) (bits value : ℕ)
    → index_of c ≡ some i
    → leb 8 (bits + 5) ≡ false
    → decode_loop (c ∷ cs) bits value ≡ decode_loop cs (bits + 5) ((value * 32 + i) % 2 ^ 32)
unfolding decode_loop
decode_loop_short c i cs bits value found wide = rw (found, wide, decode_loop) refl

pub decode_loop_full :
    (c i : ℕ) (cs : List ℕ) (bits value : ℕ)
    → index_of c ≡ some i
    → leb 8 (bits + 5) ≡ true
    → decode_loop (c ∷ cs) bits value
      ≡ prepend
          ((value * 32 + i) % 2 ^ 32 / 2 ^ (bits + 5 - 8) % 256)
          (decode_loop cs (bits + 5 - 8) ((value * 32 + i) % 2 ^ 32))
unfolding decode_loop
decode_loop_full c i cs bits value found wide = ground arith
