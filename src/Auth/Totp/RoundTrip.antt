-- ===== src/Auth/Totp/RoundTrip.antt =====
-- Base 32 read back. After some bytes the encoder holds `e` bits that it has not written, and the
-- decoder the other `8 - e` of the same byte.
use base_api_nest_js.Base.{
  ℕ, ◌+◌, ◌-◌, ◌*◌, ◌/◌, ◌%◌, ◌^◌, ◌<◌, ◌≡◌, refl, true, false, some, List, [], ◌∷◌, leb, arith,
  All, ◌∙◌, ap,
}
use base_api_nest_js.Auth.Totp.{
  char_at, encode_loop, base32_encode, prepend, decode_loop, base32_decode,
}
use base_api_nest_js.Auth.Totp.Alphabet.{
  index_of-char_at, decode_loop_short, decode_loop_full, cleaned-IsPlain, encode_loop-IsPlain,
}

abbrev pub IsBytes : List ℕ → Type 0
IsBytes bytes = All (λ b. b < 256) bytes

-- The encoder's `value` and the decoder's `seen` hold the two parts of the byte.
record Splits (e byte value seen : ℕ) : Type 0 where
  is_byte : byte < 256
  low : value % 2 ^ e ≡ byte % 2 ^ e
  high : seen % 2 ^ (8 - e) ≡ byte / 2 ^ e

short :
    (i : ℕ) (cs : List ℕ) (bits seen : ℕ)
    → i < 32
    → leb 8 (bits + 5) ≡ false
    → decode_loop (char_at i ∷ cs) bits seen ≡ decode_loop cs (bits + 5) ((seen * 32 + i) % 2 ^ 32)
short i cs bits seen lt wide =
    decode_loop_short (char_at i) i cs bits seen (index_of-char_at i lt) wide

full :
    (i byte : ℕ) (cs : List ℕ) (bits seen : ℕ)
    → i < 32
    → leb 8 (bits + 5) ≡ true
    → (seen * 32 + i) % 2 ^ 32 / 2 ^ (bits + 5 - 8) % 256 ≡ byte
    → decode_loop (char_at i ∷ cs) bits seen
      ≡ prepend byte (decode_loop cs (bits + 5 - 8) ((seen * 32 + i) % 2 ^ 32))
full i byte cs bits seen lt wide e =
    rw e at (decode_loop_full (char_at i) i cs bits seen (index_of-char_at i lt) wide)

decode_loop_end : (bits seen : ℕ) → decode_loop [] bits seen ≡ some []
unfolding decode_loop
decode_loop_end bits seen = refl

mutual
  unfolding encode_loop

  after_0 :
      (bytes : List ℕ) (value seen : ℕ)
      → IsBytes bytes
      → decode_loop (encode_loop bytes 0 value) 0 seen ≡ some bytes
  after_0 [] value seen h = decode_loop_end 0 seen
  after_0 (b ∷ bytes) value seen (hb, h) =
      let v = (value * 256 + b) % 2 ^ 32 in
      let i = v / 2 ^ 3 % 32 in
      short i (encode_loop bytes 3 v) 0 seen (omega arith) refl
      ∙ after_3 bytes b v ((seen * 32 + i) % 2 ^ 32) h
          (record { is_byte = hb; low = omega arith; high = omega arith })

  after_1 :
      (bytes : List ℕ) (byte value seen : ℕ)
      → IsBytes bytes
      → Splits 1 byte value seen
      → decode_loop (encode_loop bytes 1 value) 7 seen ≡ some (byte ∷ bytes)
  after_1 [] byte value seen h s =
      let i = value * 2 ^ 4 % 2 ^ 32 % 32 in
      full i byte [] 7 seen (omega arith) refl (omega (arith, s.low, s.high, s.is_byte))
      ∙ ap (prepend byte) (decode_loop_end _ _)
  after_1 (b ∷ bytes) byte value seen (hb, h) s =
      let v = (value * 256 + b) % 2 ^ 32 in
      let i = v / 2 ^ 4 % 32 in
      let seen' = (seen * 32 + i) % 2 ^ 32 in
      full i byte (encode_loop bytes 4 v) 7 seen (omega arith) refl
        (omega (arith, s.low, s.high, s.is_byte))
      ∙ ap (prepend byte) (
          after_4 bytes b v (seen') h
            (record { is_byte = hb; low = omega arith; high = omega arith }))

  after_2 :
      (bytes : List ℕ) (byte value seen : ℕ)
      → IsBytes bytes
      → Splits 2 byte value seen
      → decode_loop (encode_loop bytes 2 value) 6 seen ≡ some (byte ∷ bytes)
  after_2 [] byte value seen h s =
      let i = value * 2 ^ 3 % 2 ^ 32 % 32 in
      full i byte [] 6 seen (omega arith) refl (omega (arith, s.low, s.high, s.is_byte))
      ∙ ap (prepend byte) (decode_loop_end _ _)
  after_2 (b ∷ bytes) byte value seen (hb, h) s =
      let v = (value * 256 + b) % 2 ^ 32 in
      let i = v / 2 ^ 5 % 32 in
      let seen' = (seen * 32 + i) % 2 ^ 32 in
      let j = v / 2 ^ 0 % 32 in
      full i byte (char_at j ∷ encode_loop bytes 0 v) 6 seen (omega arith) refl
        (omega (arith, s.low, s.high, s.is_byte))
      ∙ ap (prepend byte) (
          full j b (encode_loop bytes 0 v) 3 seen' (omega arith) refl (omega arith)
          ∙ ap (prepend b) (after_0 bytes v ((seen' * 32 + j) % 2 ^ 32) h))

  after_3 :
      (bytes : List ℕ) (byte value seen : ℕ)
      → IsBytes bytes
      → Splits 3 byte value seen
      → decode_loop (encode_loop bytes 3 value) 5 seen ≡ some (byte ∷ bytes)
  after_3 [] byte value seen h s =
      let i = value * 2 ^ 2 % 2 ^ 32 % 32 in
      full i byte [] 5 seen (omega arith) refl (omega (arith, s.low, s.high, s.is_byte))
      ∙ ap (prepend byte) (decode_loop_end _ _)
  after_3 (b ∷ bytes) byte value seen (hb, h) s =
      let v = (value * 256 + b) % 2 ^ 32 in
      let i = v / 2 ^ 6 % 32 in
      let seen' = (seen * 32 + i) % 2 ^ 32 in
      let j = v / 2 ^ 1 % 32 in
      full i byte (char_at j ∷ encode_loop bytes 1 v) 5 seen (omega arith) refl
        (omega (arith, s.low, s.high, s.is_byte))
      ∙ ap (prepend byte) (
          short j (encode_loop bytes 1 v) 2 seen' (omega arith) refl
          ∙ after_1 bytes b v ((seen' * 32 + j) % 2 ^ 32) h
              (record { is_byte = hb; low = omega arith; high = omega arith }))

  after_4 :
      (bytes : List ℕ) (byte value seen : ℕ)
      → IsBytes bytes
      → Splits 4 byte value seen
      → decode_loop (encode_loop bytes 4 value) 4 seen ≡ some (byte ∷ bytes)
  after_4 [] byte value seen h s =
      let i = value * 2 ^ 1 % 2 ^ 32 % 32 in
      full i byte [] 4 seen (omega arith) refl (omega (arith, s.low, s.high, s.is_byte))
      ∙ ap (prepend byte) (decode_loop_end _ _)
  after_4 (b ∷ bytes) byte value seen (hb, h) s =
      let v = (value * 256 + b) % 2 ^ 32 in
      let i = v / 2 ^ 7 % 32 in
      let seen' = (seen * 32 + i) % 2 ^ 32 in
      let j = v / 2 ^ 2 % 32 in
      full i byte (char_at j ∷ encode_loop bytes 2 v) 4 seen (omega arith) refl
        (omega (arith, s.low, s.high, s.is_byte))
      ∙ ap (prepend byte) (
          short j (encode_loop bytes 2 v) 1 seen' (omega arith) refl
          ∙ after_2 bytes b v ((seen' * 32 + j) % 2 ^ 32) h
              (record { is_byte = hb; low = omega arith; high = omega arith }))

-- What `base32Encode` writes of a buffer, `base32Decode` reads back.
pub base32_decode-base32_encode :
    (bytes : List ℕ) → IsBytes bytes → base32_decode (base32_encode bytes) ≡ some bytes
unfolding base32_decode base32_encode
base32_decode-base32_encode bytes h =
    rw (cleaned-IsPlain (encode_loop bytes 0 0) (encode_loop-IsPlain bytes 0 0))
      (after_0 bytes 0 0 h)
