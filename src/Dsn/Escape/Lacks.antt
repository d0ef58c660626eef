-- ===== src/Dsn/Escape/Lacks.antt =====
-- The bytes that no escaped string holds.
use go_oci.Prelude.{
  ℕ, ◌≡◌, Bool, true, not, ◌&&◌, [], ◌∷◌, Bytes, All-append, IsBytes, Lacks, ◌==◌, arith,
}
use go_oci.Dsn.Byte.{Encoding}
use go_oci.Dsn.Byte.Table.{all_below, all_below_sound}
use go_oci.Dsn.Escape.Spec.{encode_byte, encode}

abbrev pub lacks : ℕ → Bytes → Bool
lacks b [] = true
lacks b (c ∷ s) = not (c == b) && lacks b s

lacks-Lacks : (b : ℕ) (s : Bytes) → lacks b s ≡ true → Lacks b s
lacks-Lacks b [] h = tt
lacks-Lacks b (c ∷ s) h = ground (arith, lacks-Lacks b s)

-- No byte is written with `b` in it.
abbrev pub NeverWrites : Encoding → ℕ → Type 0
NeverWrites mode b = all_below 256 (λ c. lacks b (encode_byte mode c)) ≡ true

pub encode-Lacks :
    (mode : Encoding) (b : ℕ) (s : Bytes) → NeverWrites mode b → IsBytes s → Lacks b (encode s mode)
unfolding encode
encode-Lacks mode b [] never h = tt
encode-Lacks mode b (c ∷ s) never (hc, hs) =
    All-append (λ x. x ≡ b → ⊥) (encode_byte mode c) (encode s mode)
      (lacks-Lacks b _ (all_below_sound 256 (λ x. lacks b (encode_byte mode x)) c never hc))
      (encode-Lacks mode b s never hs)
