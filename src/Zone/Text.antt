-- ===== src/Zone/Text.antt =====
-- The zone text that `timeToOCIDateTime` hands to OCI.
use go_oci.Prelude.{
  ℕ, ◌+◌, ◌/◌, ◌%◌, ◌<◌, ◌≡◌, refl, ap, ◌∙◌, [], ◌∷◌, ◌++◌, Bytes, arith, Bool-cases, if-true,
  if-false, ==→eq, ltb→lt, ltb, ◌==◌, inl, inr,
}
use go_oci.Prelude.Int.{ℤ}
use go_oci.Zone.{append_small_int, zone_text, sign_of}

pair_after : (s : Bytes) {a b c d : ℕ} → a ≡ c → b ≡ d → s ++ a ∷ b ∷ [] ≡ s ++ c ∷ d ∷ []
pair_after s e e' = rw (e, e')

two_digits :
    (s : Bytes) (n : ℕ) → n < 100 → append_small_int s n ≡ s ++ (48 + n / 10) ∷ (48 + n % 10) ∷ []
unfolding append_small_int
two_digits s n h = elim (Bool-cases (n == 0)) [
  | inl z ↦
      let z' = ==→eq n 0 z in if-true z _ _ ∙ pair_after s (omega (arith, z')) (omega (arith, z'))
  | inr nz ↦ if-false nz _ _ ∙ elim (Bool-cases (ltb n 10)) [
    | inl l ↦
        let l' = ltb→lt n 10 l in
        if-true l _ _ ∙ pair_after s (omega (arith, l')) (omega (arith, l'))
    | inr g ↦ if-false g _ _ ∙ pair_after s (omega (arith, h)) (omega (arith, h))
  ]
]

joined :
    (s : Bytes) (a b c d e : ℕ)
    → ((s ++ a ∷ b ∷ []) ++ c ∷ []) ++ d ∷ e ∷ [] ≡ s ++ a ∷ b ∷ c ∷ d ∷ e ∷ []
joined [] a b c d e = refl
joined (x ∷ s) a b c d e = ap (◌∷◌ x) (joined s a b c d e)

-- For an offset of less than 100 hours the zone is a sign and the two digits each of the hours and
-- of the minutes, with a colon between them: six bytes, as many as OCI is told to read. The
-- seconds of the offset are dropped.
pub zone_text_lem :
    (offset : ℤ)
    → (sign_of offset).1 < 360000
    → zone_text offset
      ≡ (sign_of offset).0
        ++ (48 + (sign_of offset).1 / 3600 / 10)
          ∷ (48 + (sign_of offset).1 / 3600 % 10)
          ∷ 58
          ∷ (48 + (sign_of offset).1 % 3600 / 60 / 10)
          ∷ (48 + (sign_of offset).1 % 3600 / 60 % 10)
          ∷ []
unfolding zone_text
zone_text_lem offset h =
    let (s, n) = sign_of offset in
    two_digits (append_small_int s (n / 3600) ++ 58 ∷ []) (n % 3600 / 60) (omega (arith, h))
    ∙ ap (λ t. (t ++ 58 ∷ []) ++ (48 + n % 3600 / 60 / 10) ∷ (48 + n % 3600 / 60 % 10) ∷ [])
        (two_digits s (n / 3600) (omega (arith, h)))
    ∙ joined s _ _ _ _ _
