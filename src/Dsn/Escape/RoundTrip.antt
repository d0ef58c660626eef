-- ===== src/Dsn/Escape/RoundTrip.antt =====
-- `unescape` undoes `escape`, and what `escape` leaves out.
use go_oci.Prelude.{
  ℕ, ◌+◌, ◌*◌, ◌/◌, ◌%◌, ◌<◌, ◌≡◌, refl, ap, ◌∙◌, Bool, true, false, ◌&&◌, none, [], ◌∷◌, ◌++◌,
  Bytes, IsBytes, ◌==◌, Bool-cases, ok, ◌>>=◌, inl, inr, arith,
}
use go_oci.Dsn.Byte.{Encoding, path, is_query, is_hex, unhex, should_escape}
use go_oci.Dsn.Byte.Special.{percent_escaped}
use go_oci.Dsn.Byte.Table.{all_below, all_below_sound}
use go_oci.Dsn.Escape.{unescape, escape}
use go_oci.Dsn.Escape.Decode.{unescape-decode, decode_ok}
use go_oci.Dsn.Escape.Encode.{escape-encode}
use go_oci.Dsn.Escape.Spec.{bad_escape, plain, meaning, upper_hex, encode_byte, encode}

bad_escape-cons : (c : ℕ) (s : Bytes) → (c == b'%') ≡ false → bad_escape (c ∷ s) ≡ bad_escape s
unfolding bad_escape
bad_escape-cons c [] h = rw h
bad_escape-cons c (a ∷ []) h = rw h
bad_escape-cons c (a ∷ b ∷ s) h = rw h

meaning-cons :
    (mode : Encoding) (c : ℕ) (s : Bytes)
    → (c == b'%') ≡ false
    → meaning mode (c ∷ s) ≡ plain mode c ∷ meaning mode s
unfolding meaning
meaning-cons mode c [] h = refl
meaning-cons mode c (a ∷ []) h = refl
meaning-cons mode c (a ∷ b ∷ s) h = rw h

-- What `escape` writes for a byte is read back as that byte.
abbrev is_read_back : ℕ → Bool
is_read_back c =
    is_hex (upper_hex (c / 16))
    && is_hex (upper_hex (c % 16))
    && unhex (upper_hex (c / 16)) * 16 + unhex (upper_hex (c % 16)) == c

hex_table : all_below 256 is_read_back ≡ true
unfolding is_hex unhex upper_hex
hex_table = refl

not_percent : (mode : Encoding) (c : ℕ) → should_escape c mode ≡ false → (c == b'%') ≡ false
not_percent mode c h = ground (arith, percent_escaped mode)

not_plus : (mode : Encoding) (c : ℕ) → should_escape c mode ≡ false → plain mode c ≡ c
unfolding should_escape plain
not_plus path c h = ground arith
not_plus _ c h = ground arith

plus_is_space :
    (mode : Encoding) (c : ℕ) → (c == b' ' && is_query mode) ≡ true → plain mode b'+' ≡ c
unfolding plain
plus_is_space mode c e = ground arith

bad_escape-hex :
    (c : ℕ) (s : Bytes)
    → c < 256
    → bad_escape (b'%' ∷ upper_hex (c / 16) ∷ upper_hex (c % 16) ∷ s) ≡ bad_escape s
unfolding bad_escape
bad_escape-hex c s h = ground (arith, all_below_sound 256 is_read_back c hex_table h)

meaning-hex :
    (mode : Encoding) (c : ℕ) (s : Bytes)
    → c < 256
    → meaning mode (b'%' ∷ upper_hex (c / 16) ∷ upper_hex (c % 16) ∷ s) ≡ c ∷ meaning mode s
unfolding meaning
meaning-hex mode c s h = ground (arith, all_below_sound 256 is_read_back c hex_table h)

bad_escape-encode_byte :
    (mode : Encoding) (c : ℕ) (s : Bytes)
    → c < 256
    → bad_escape (encode_byte mode c ++ s) ≡ bad_escape s
unfolding encode_byte
bad_escape-encode_byte mode c s h = elim (Bool-cases (c == b' ' && is_query mode)) [
  | inl e ↦ rw e (bad_escape-cons b'+' s refl)
  | inr e ↦ elim (Bool-cases (should_escape c mode)) [
    | inl x ↦ rw (e, x) (bad_escape-hex c s h)
    | inr x ↦ rw (e, x) (bad_escape-cons c s (not_percent mode c x))
  ]
]

meaning-encode_byte :
    (mode : Encoding) (c : ℕ) (s : Bytes)
    → c < 256
    → meaning mode (encode_byte mode c ++ s) ≡ c ∷ meaning mode s
unfolding encode_byte
meaning-encode_byte mode c s h = elim (Bool-cases (c == b' ' && is_query mode)) [
  | inl e ↦
      rw e (meaning-cons mode b'+' s refl ∙ ap (λ x. x ∷ meaning mode s) (plus_is_space mode c e))
  | inr e ↦ elim (Bool-cases (should_escape c mode)) [
    | inl x ↦ rw (e, x) (meaning-hex mode c s h)
    | inr x ↦
        rw (e, x)
          (meaning-cons mode c s (not_percent mode c x)
            ∙ ap (λ y. y ∷ meaning mode s) (not_plus mode c x))
  ]
]

pub bad_escape-encode :
    (s : Bytes) (mode : Encoding) → IsBytes s → bad_escape (encode s mode) ≡ none
unfolding encode bad_escape
bad_escape-encode [] mode h = refl
bad_escape-encode (c ∷ s) mode (hc, hs) =
    bad_escape-encode_byte mode c _ hc ∙ bad_escape-encode s mode hs

pub meaning-encode : (s : Bytes) (mode : Encoding) → IsBytes s → meaning mode (encode s mode) ≡ s
unfolding encode meaning
meaning-encode [] mode h = refl
meaning-encode (c ∷ s) mode (hc, hs) =
    meaning-encode_byte mode c _ hc ∙ ap (◌∷◌ c) (meaning-encode s mode hs)

pub unescape-encode :
    (s : Bytes) (mode : Encoding) → IsBytes s → unescape (encode s mode) mode ≡ ok s
unescape-encode s mode h =
    unescape-decode (encode s mode) mode
    ∙ decode_ok (encode s mode) mode (bad_escape-encode s mode h)
    ∙ ap ok (meaning-encode s mode h)

-- For every string of bytes and in every mode, `escape` succeeds and `unescape` gives the string
-- back.
pub unescape-escape :
    (s : Bytes) (mode : Encoding) → IsBytes s → (escape s mode >>= λ t. unescape t mode) ≡ ok s
unescape-escape s mode h = rw (escape-encode s mode h) (unescape-encode s mode h)
