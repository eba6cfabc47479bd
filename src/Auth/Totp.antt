-- ===== src/Auth/Totp.antt =====
-- One-time codes: src/modules/auth/services/totp.util.ts. A text is the list of its characters'
-- codes, all of them ASCII, and a buffer the list of its bytes; a 32-bit value is its bit pattern.
pub mod Alphabet
pub mod RoundTrip
pub mod Window
use base_api_nest_js.Base.{
  is_space, ℕ, zero, suc, ◌+◌, ◌-◌, ◌*◌, ◌/◌, ◌%◌, ◌^◌, Bool, true, false, Option, none, some, List,
  [], ◌∷◌, ◌++◌, map, not, ◌&&◌, ◌||◌, ltb, leb, ◌==◌, filter, length, all, codes, get_elem?,
  list_eq, if◌then◌else◌, ◌≡◌, ◌<◌, All,
}

abbrev pub base32_alphabet : List ℕ
base32_alphabet = codes "ABCDEFGHIJKLMNOPQRSTUVWXYZ234567"

-- `BASE32_ALPHABET[i]` for an index in range.
unfoldable pub char_at : ℕ → ℕ
char_at i = elim (get_elem? base32_alphabet i) [ none ↦ 0 | some c ↦ c ]

-- `while (bits >= 5)`: the characters that it writes, and the bits that are left.
unfoldable pub drain : ℕ → ℕ → List ℕ × ℕ
drain (suc (suc (suc (suc (suc bits))))) value =
    let (out, left) = drain bits value in (char_at (value / 2 ^ bits % 32) ∷ out, left)
drain bits value = ([], bits)

unfoldable pub encode_loop : List ℕ → ℕ → ℕ → List ℕ
unfolding drain
encode_loop [] bits value =
    if ltb 0 bits then char_at (value * 2 ^ (5 - bits) % 2 ^ 32 % 32) ∷ [] else []
encode_loop (byte ∷ bytes) bits value =
    let shifted = (value * 256 + byte) % 2 ^ 32 in
    let (out, left) = drain (bits + 8) shifted in out ++ encode_loop bytes left shifted

unfoldable pub base32_encode : List ℕ → List ℕ
unfolding encode_loop
base32_encode bytes = encode_loop bytes 0 0

-- `BASE32_ALPHABET.indexOf`, and the search from a position `i` on.
abbrev pub index_from : ℕ → ℕ → List ℕ → Option ℕ
index_from i c [] = none
index_from i c (d ∷ ds) = let rest = index_from (i + 1) c ds in if c == d then some i else rest

unfoldable pub index_of : ℕ → Option ℕ
index_of c = index_from 0 c base32_alphabet

abbrev pub to_upper : ℕ → ℕ
to_upper c = if leb 97 c && leb c 122 then c - 32 else c

-- `.replace(/=+$/, '')`
abbrev pub strip_padding : List ℕ → List ℕ
strip_padding [] = []
strip_padding (c ∷ cs) =
    let rest = strip_padding cs in if c == 61 && length rest == 0 then [] else c ∷ rest

abbrev pub cleaned : List ℕ → List ℕ
cleaned input = filter (λ c. not (is_space c)) (strip_padding (map to_upper input))

abbrev pub prepend : ℕ → Option (List ℕ) → Option (List ℕ)
prepend byte none = none
prepend byte (some bytes) = some (byte ∷ bytes)

-- The rest of the loop's body for a character with an index, which `more` follows.
unfoldable pub decode_loop : List ℕ → ℕ → ℕ → Option (List ℕ)
decode_loop [] bits value = some []
decode_loop (c ∷ cs) bits value = elim (index_of c) [
  | none ↦ none
  | some i ↦
      let shifted = (value * 32 + i) % 2 ^ 32 in
      let short = decode_loop cs (bits + 5) shifted in
      let full =
        prepend (shifted / 2 ^ (bits + 5 - 8) % 256) (decode_loop cs (bits + 5 - 8) shifted) in
      if leb 8 (bits + 5) then full else short
]

-- `none` is the error that a character outside the alphabet throws.
unfoldable pub base32_decode : List ℕ → Option (List ℕ)
unfolding decode_loop
base32_decode input = decode_loop (cleaned input) 0 0

-- HMAC-SHA1 of the crypto module: a key and a message give twenty bytes.
pub record Hmac : Type 0 where
  pub sha1 : List ℕ → List ℕ → List ℕ
  pub sha1_length : (key message : List ℕ) → length (sha1 key message) ≡ 20
  pub sha1_bytes : (key message : List ℕ) → All (λ b. b < 256) (sha1 key message)

abbrev pub step_seconds : ℕ
step_seconds = 30

-- `writeBigUInt64BE`
abbrev pub big_endian : ℕ → ℕ → List ℕ
big_endian zero n = []
big_endian (suc k) n = (n / 256 ^ k % 256) ∷ big_endian k n

-- `readUInt32BE`, which throws out of range.
abbrev pub first_word : List ℕ → Option ℕ
first_word (a ∷ b ∷ c ∷ d ∷ rest) = some (((a * 256 + b) * 256 + c) * 256 + d)
first_word bytes = none

abbrev pub read_u32 : ℕ → List ℕ → Option ℕ
read_u32 zero bytes = first_word bytes
read_u32 (suc offset) [] = none
read_u32 (suc offset) (a ∷ rest) = read_u32 offset rest

-- `String(n).padStart(6, '0')` for a number of at most six digits.
abbrev pub padded : ℕ → ℕ → List ℕ
padded zero n = []
padded (suc k) n = (48 + n / 10 ^ k % 10) ∷ padded k n

abbrev pub code_of : ℕ → List ℕ
code_of word = padded 6 (word % 2 ^ 31 % 10 ^ 6)

-- From the digest on: `none` is an error of `readUInt32BE`.
unfoldable pub truncated : List ℕ → Option (List ℕ)
truncated digest = elim (get_elem? digest (length digest - 1)) [
  | none ↦ none
  | some last ↦ elim (read_u32 (last % 16) digest) [ none ↦ none | some word ↦ some (code_of word) ]
]

unfoldable pub generate_code : Hmac → List ℕ → ℕ → Option (List ℕ)
generate_code h secret counter = elim (base32_decode secret) [
  | none ↦ none
  | some key ↦ elim (ltb counter (2 ^ 64)) [
    | false ↦ none
    | true ↦ truncated (h.sha1 key (big_endian 8 counter))
  ]
]

abbrev pub counter_at : ℕ → ℕ
counter_at time = time / 1000 / step_seconds

unfoldable pub generate_token : Hmac → List ℕ → ℕ → Option (List ℕ)
generate_token h secret time = generate_code h secret (counter_at time)

abbrev pub is_digit : ℕ → Bool
is_digit c = leb 48 c && leb c 57

-- The counters of the loop over the window: the one before 0 is out of range.
abbrev pub window : ℕ → List (Option ℕ)
window counter =
    (if counter == 0 then none else some (counter - 1)) ∷ some counter ∷ some (counter + 1) ∷ []

abbrev pub code_at : Hmac → List ℕ → Option ℕ → Option (List ℕ)
code_at h secret none = none
code_at h secret (some counter) = generate_code h secret counter

-- The loop goes on after a match; an error of a later code is thrown all the same.
unfoldable pub match_loop : Hmac → List ℕ → List ℕ → List (Option ℕ) → Bool → Option Bool
match_loop h secret token [] matched = some matched
match_loop h secret token (c ∷ cs) matched = elim (code_at h secret c) [
  | none ↦ none
  | some candidate ↦ match_loop h secret token cs (list_eq candidate token || matched)
]

-- `none` is an error that is thrown, of a secret that is no base 32 or in the first half minute.
unfoldable pub verify_token : Hmac → List ℕ → List ℕ → ℕ → Option Bool
unfolding match_loop
verify_token h secret token time =
    if not (all is_digit token && length token == 6)
    then some false
    else match_loop h secret token (window (counter_at time)) false
