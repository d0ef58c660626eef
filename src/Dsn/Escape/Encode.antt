-- ===== src/Dsn/Escape/Encode.antt =====
-- `escape` against its specification: on bytes the buffer has exactly the size that is written.
use go_oci.Prelude.{
  ℕ, ◌+◌, ◌*◌, ◌/◌, ◌%◌, ◌<◌, ◌≤◌, bit_and, ◌≡◌, refl, sym, ap, ◌∙◌, Bool, true, false, ◌&&◌, [],
  ◌∷◌, ◌++◌, append-nil, append_assoc, Bytes, length, replicate, length-append, IsBytes, ◌==◌,
  Bool-cases, ok, ◌>>=◌, inl, inr, arith,
}
use go_oci.Dsn.Byte.{Encoding, is_query, should_escape}
use go_oci.Dsn.Byte.Special.{space_escaped}
use go_oci.Dsn.Byte.Table.{all_below, all_below_sound}
use go_oci.Dsn.Escape.{Escaped, put, count_escaped, hex_digit, write, escape}
use go_oci.Dsn.Escape.Decode.{put_behind, put_next}
use go_oci.Dsn.Escape.Spec.{upper_hex, encode_byte, encode}

nibble_table : all_below 256 (λ c. bit_and c 15 == c % 16) ≡ true
nibble_table = refl

low_nibble : (c : ℕ) → c < 256 → bit_and c 15 ≡ c % 16
low_nibble c h = ground (arith, all_below_sound 256 (λ x. bit_and x 15 == x % 16) c nibble_table h)

abbrev is_digit : ℕ → Bool
is_digit k = elim (hex_digit k) [ ok d ↦ d == upper_hex k | _ ↦ false ]

digit_table : all_below 16 is_digit ≡ true
unfolding hex_digit upper_hex
digit_table = refl

hex_digit-upper_hex : (k : ℕ) → k < 16 → hex_digit k ≡ ok (upper_hex k)
hex_digit-upper_hex k h = ground (arith, all_below_sound 16 is_digit k digit_table h)

-- One byte that is written as three.
put_hex :
    (f : Bytes → ℕ → Escaped Bytes) (done rest : Bytes) (c : ℕ)
    → c < 256
    → (do
      t₁ ← put (done ++ 0 ∷ 0 ∷ 0 ∷ rest) (length done) b'%'
      high ← hex_digit (c / 16)
      t₂ ← put t₁ (length done + 1) high
      low ← hex_digit (bit_and c 15)
      t₃ ← put t₂ (length done + 2) low
      f t₃ (length done + 3))
      ≡ f
          ((done ++ b'%' ∷ upper_hex (c / 16) ∷ upper_hex (c % 16) ∷ []) ++ rest)
          (length (done ++ b'%' ∷ upper_hex (c / 16) ∷ upper_hex (c % 16) ∷ []))
put_hex f done rest c h =
    let high = upper_hex (c / 16) in
    let low = upper_hex (c % 16) in
    rw (
      put_behind done [] (0 ∷ 0 ∷ rest) 0 b'%' (length done) (omega arith),
      hex_digit-upper_hex (c / 16) (omega arith),
      put_behind done (b'%' ∷ []) (0 ∷ rest) 0 high (length done + 1) (omega arith),
      low_nibble c h,
      hex_digit-upper_hex (c % 16) (omega arith),
      put_behind done (b'%' ∷ high ∷ []) rest 0 low (length done + 2) (omega arith),
      length-append done (b'%' ∷ high ∷ low ∷ []),
      append_assoc,
    )

-- The bytes that a loop still has to count, of each kind.
count_escaped-encode :
    (mode : Encoding) (s : Bytes) (sp hx : ℕ)
    → length (encode s mode) + 2 * hx ≡ length s + 2 * (count_escaped mode s sp hx).1
unfolding count_escaped encode encode_byte
count_escaped-encode mode [] sp hx = omega arith
count_escaped-encode mode (c ∷ s) sp hx = ground (
  arith,
  count_escaped-encode mode s (sp + 1) hx,
  count_escaped-encode mode s sp (hx + 1),
  count_escaped-encode mode s sp hx,
)

count_escaped_mono :
    (mode : Encoding) (s : Bytes) (sp hx : ℕ)
    → (sp ≤ (count_escaped mode s sp hx).0) × (hx ≤ (count_escaped mode s sp hx).1)
unfolding count_escaped
count_escaped_mono mode [] sp hx = omega arith
count_escaped_mono mode (c ∷ s) sp hx = ground (
  arith,
  count_escaped_mono mode s (sp + 1) hx,
  count_escaped_mono mode s sp (hx + 1),
  count_escaped_mono mode s sp hx,
)

-- Where nothing was counted, nothing is to be escaped.
encode_self :
    (mode : Encoding) (s : Bytes)
    → (count_escaped mode s 0 0).0 ≡ 0
    → (count_escaped mode s 0 0).1 ≡ 0
    → encode s mode ≡ s
unfolding count_escaped encode encode_byte
encode_self mode [] hs hh = refl
encode_self mode (c ∷ s) hs hh = ground (
  arith,
  encode_self mode s,
  count_escaped_mono mode s 1 0,
  count_escaped_mono mode s 0 1,
  space_escaped mode,
)

write_lem :
    (mode : Encoding) (s done : Bytes)
    → IsBytes s
    → write mode s (done ++ replicate (length (encode s mode)) 0) (length done)
      ≡ ok (done ++ encode s mode)
unfolding write encode encode_byte
write_lem mode [] done h = rw append-nil
write_lem mode (c ∷ s) done (hc, hs) = elim (Bool-cases (c == b' ' && is_query mode)) [
  | inl e ↦ rw e (
      put_next (write mode s) done (replicate (length (encode s mode)) 0) 0 b'+'
      ∙ write_lem mode s (done ++ b'+' ∷ []) hs
      ∙ ap ok (append_assoc done _ _))
  | inr e ↦ elim (Bool-cases (should_escape c mode)) [
    | inl x ↦
        rw (e, x)
          (put_hex (write mode s) done (replicate (length (encode s mode)) 0) c hc
            ∙ write_lem mode s (done ++ b'%' ∷ upper_hex (c / 16) ∷ upper_hex (c % 16) ∷ []) hs
            ∙ ap ok (append_assoc done _ _))
    | inr x ↦
        rw (e, x)
          (put_next (write mode s) done (replicate (length (encode s mode)) 0) 0 c
            ∙ write_lem mode s (done ++ c ∷ []) hs
            ∙ ap ok (append_assoc done _ _))
  ]
]

-- On every string of bytes `escape` never panics: it returns the string escaped byte by byte.
pub escape-encode : (s : Bytes) (mode : Encoding) → IsBytes s → escape s mode ≡ ok (encode s mode)
unfolding escape
escape-encode s mode h =
    elim (Bool-cases ((count_escaped mode s 0 0).0 == 0 && (count_escaped mode s 0 0).1 == 0)) [
      | inl clean ↦ rw clean (ap ok (sym (encode_self mode s (ground arith) (ground arith))))
      | inr dirty ↦
          let size : length s + 2 * (count_escaped mode s 0 0).1 ≡ length (encode s mode) =
            omega (arith, count_escaped-encode mode s 0 0) in
          rw (dirty, size) (write_lem mode s [] h)
    ]
