-- ===== src/Statement/Placeholders.antt =====
-- What `placeholders` makes of a text.
use go_oci.Prelude.{
  ℕ, ◌+◌, ◌≡◌, refl, ap, ◌∙◌, List, [], ◌∷◌, ◌++◌, Bytes, All, Lacks, if-false, ne→==,
}
use go_oci.Prelude.Int.{pos}
use go_oci.Zone.{format_int}
use go_oci.Statement.Prepare.{number_marks, placeholders}

-- Texts with a question mark between each two.
abbrev pub marked : Bytes → List Bytes → Bytes
marked p [] = p
marked p (q ∷ qs) = p ++ b'?' ∷ marked q qs

-- The same texts with the numbers that follow between them.
abbrev pub numbered : ℕ → Bytes → List Bytes → Bytes
numbered n p [] = p
numbered n p (q ∷ qs) = p ++ b':' ∷ (format_int (pos (n + 1)) ++ numbered (n + 1) q qs)

number_marks-append :
    (n : ℕ) (p s : Bytes) → Lacks b'?' p → number_marks n (p ++ s) ≡ p ++ number_marks n s
unfolding number_marks
number_marks-append n [] s h = refl
number_marks-append n (c ∷ p) s (h, hs) =
    if-false (ne→== c b'?' h) _ _ ∙ ap (◌∷◌ c) (number_marks-append n p s hs)

number_marks_self : (n : ℕ) (p : Bytes) → Lacks b'?' p → number_marks n p ≡ p
unfolding number_marks
number_marks_self n [] h = refl
number_marks_self n (c ∷ p) (h, hs) =
    if-false (ne→== c b'?' h) _ _ ∙ ap (◌∷◌ c) (number_marks_self n p hs)

number_marks-marked :
    (n : ℕ) (p : Bytes) (qs : List Bytes)
    → Lacks b'?' p
    → All (Lacks b'?') qs
    → number_marks n (marked p qs) ≡ numbered n p qs
unfolding number_marks
number_marks-marked n p [] h _ = number_marks_self n p h
number_marks-marked n p (q ∷ qs) h (hq, hs) =
    number_marks-append n p (b'?' ∷ marked q qs) h
    ∙ ap (λ t. p ++ b':' ∷ (format_int (pos (n + 1)) ++ t)) (number_marks-marked (n + 1) q qs hq hs)

-- A text in which the question marks stand between pieces without one: `placeholders` keeps the
-- pieces, and puts `:1`, `:2` and so on in place of the marks, in their order.
pub placeholders-marked :
    (p : Bytes) (qs : List Bytes)
    → Lacks b'?' p
    → All (Lacks b'?') qs
    → placeholders (marked p qs) ≡ numbered 0 p qs
unfolding placeholders
placeholders-marked p qs h hs = number_marks-marked 0 p qs h hs
