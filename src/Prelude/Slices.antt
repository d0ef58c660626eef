-- ===== src/Prelude/Slices.antt =====
-- Prefixes and suffixes of byte slices.
use Prim.Native.Nat.{ℕ, zero, suc, ◌+◌, ◌-◌, ◌≤◌}
use mathlib.Core.Path.{◌≡◌, refl, ap, sym, ◌∙◌}
use mathlib.Core.List.{[], ◌∷◌, ◌++◌}
use native.Mathlib.Omega.{arith}
use go_oci.Prelude.Lists.{Bytes, length, take, drop}

not_le : {n : ℕ} → ¬ suc n ≤ 0
not_le h = omega (arith, h)

pub take-length : (n : ℕ) (s : Bytes) → length s ≤ n → take n s ≡ s
take-length zero [] h = refl
take-length zero (x ∷ s) h = absurd (not_le h)
take-length (suc n) [] h = refl
take-length (suc n) (x ∷ s) h = ap (◌∷◌ x) (take-length n s (omega (arith, h)))

pub drop-length : (n : ℕ) (s : Bytes) → length s ≤ n → drop n s ≡ []
drop-length zero [] h = refl
drop-length zero (x ∷ s) h = absurd (not_le h)
drop-length (suc n) [] h = refl
drop-length (suc n) (x ∷ s) h = drop-length n s (omega (arith, h))

pub length-take : (n : ℕ) (s : Bytes) → n ≤ length s → length (take n s) ≡ n
length-take zero s h = refl
length-take (suc n) [] h = omega (arith, h)
length-take (suc n) (x ∷ s) h = ap suc (length-take n s (omega (arith, h)))

pub length-drop : (n : ℕ) (s : Bytes) → length (drop n s) ≡ length s - n
length-drop zero s = omega arith
length-drop (suc n) [] = omega arith
length-drop (suc n) (x ∷ s) = length-drop n s ∙ omega arith

suc-add : (n m : ℕ) → suc (n + m) ≡ suc n + m
suc-add n m = omega arith

pub drop-drop : (m n : ℕ) (s : Bytes) → drop m (drop n s) ≡ drop (n + m) s
drop-drop m zero s = ap (λ k. drop k s) (omega arith)
drop-drop m (suc n) [] =
    drop-length m [] (omega arith) ∙ sym (drop-length (suc n + m) [] (omega arith))
drop-drop m (suc n) (x ∷ s) = drop-drop m n s ∙ ap (λ k. drop k (x ∷ s)) (suc-add n m)

-- A prefix that is taken from a list whose start it is.
pub take-append_split :
    (s t c : Bytes) → take (length t) c ≡ t → take (length (s ++ t)) (s ++ c) ≡ s ++ t
take-append_split [] t c h = h
take-append_split (x ∷ s) t c h = ap (◌∷◌ x) (take-append_split s t c h)

pub take-take : (n : ℕ) (s : Bytes) → take n (take n s) ≡ take n s
take-take zero s = refl
take-take (suc n) [] = refl
take-take (suc n) (x ∷ s) = ap (◌∷◌ x) (take-take n s)

pub take-append-drop : (n : ℕ) (s : Bytes) → take n s ++ drop n s ≡ s
take-append-drop zero s = refl
take-append-drop (suc n) [] = refl
take-append-drop (suc n) (x ∷ s) = ap (◌∷◌ x) (take-append-drop n s)
