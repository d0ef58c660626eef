-- ===== src/Dsn/Split/Laws.antt =====
-- What `split` and `splitRight` promise for a separator of any length.
use go_oci.Prelude.{
  ℕ, suc, ◌+◌, ◌≤◌, ◌≡◌, ◌≢◌, ◌⊎◌, inl, inr, refl, ap, true, some, Option-cases, Bool-cases, subst,
  [], ◌∷◌, ◌++◌, Bytes, length, take, drop, arith,
}
use go_oci.Dsn.Text.{has_prefix, index, last_index}
use go_oci.Dsn.Split.{split, split_right}

has_prefix-append : (c u : Bytes) → has_prefix (c ++ u) c ≡ true
unfolding has_prefix
has_prefix-append [] [] = refl
has_prefix-append [] (a ∷ u) = refl
has_prefix-append (b ∷ c) u = ground (arith, has_prefix-append c u)

has_prefix-drop : (s c : Bytes) → has_prefix s c ≡ true → s ≡ c ++ drop (length c) s
unfolding has_prefix
has_prefix-drop [] [] h = refl
has_prefix-drop (a ∷ s) [] h = refl
has_prefix-drop [] (b ∷ c) h = cc
has_prefix-drop (a ∷ s) (b ∷ c) h = ground (arith, has_prefix-drop s c)

-- A position at which the separator stands, with the two pieces around it.
abbrev Cuts : Bytes → Bytes → ℕ → Type 0
Cuts s c i = (s ≡ take i s ++ (c ++ drop (i + length c) s)) × (length (take i s) ≡ i)

Cuts-zero : (s c : Bytes) → has_prefix s c ≡ true → Cuts s c 0
Cuts-zero s c h =
    let e : 0 + length c ≡ length c = omega arith in rw e (has_prefix-drop s c h, refl)

Cuts-suc : (a : ℕ) (s c : Bytes) (i : ℕ) → Cuts s c i → Cuts (a ∷ s) c (suc i)
Cuts-suc a s c i (h, l) =
    let e : suc i + length c ≡ suc (i + length c) = omega arith in rw e (ap (◌∷◌ a) h, ap suc l)

index-Cuts : (s c : Bytes) (i : ℕ) → index s c ≡ some i → Cuts s c i
unfolding index
index-Cuts [] c i h = elim (Bool-cases (has_prefix [] c)) [
  | inl p ↦ let z : 0 ≡ i = ground arith in subst (λ k. Cuts [] c k) z (Cuts-zero [] c p)
  | inr p ↦ absurd (ground arith)
]
index-Cuts (a ∷ s) c i h = elim (Bool-cases (has_prefix (a ∷ s) c)) [
  | inl p ↦ let z : 0 ≡ i = ground arith in subst (λ k. Cuts (a ∷ s) c k) z (Cuts-zero (a ∷ s) c p)
  | inr p ↦ elim (Option-cases (index s c)) [
    | inl e ↦ absurd (ground arith)
    | inr (j, e) ↦
        let z : suc j ≡ i = ground arith in
        subst (λ k. Cuts (a ∷ s) c k) z (Cuts-suc a s c j (index-Cuts s c j e))
  ]
]

last_index-Cuts : (s c : Bytes) (i : ℕ) → last_index s c ≡ some i → Cuts s c i
unfolding last_index
last_index-Cuts [] c i h = elim (Bool-cases (has_prefix [] c)) [
  | inl p ↦ let z : 0 ≡ i = ground arith in subst (λ k. Cuts [] c k) z (Cuts-zero [] c p)
  | inr p ↦ absurd (ground arith)
]
last_index-Cuts (a ∷ s) c i h = elim (Option-cases (last_index s c)) [
  | inr (j, e) ↦
      let z : suc j ≡ i = ground arith in
      subst (λ k. Cuts (a ∷ s) c k) z (Cuts-suc a s c j (last_index-Cuts s c j e))
  | inl e ↦ elim (Bool-cases (has_prefix (a ∷ s) c)) [
    | inl p ↦
        let z : 0 ≡ i = ground arith in subst (λ k. Cuts (a ∷ s) c k) z (Cuts-zero (a ∷ s) c p)
    | inr p ↦ absurd (ground arith)
  ]
]

index_here : (s c : Bytes) → has_prefix s c ≡ true → index s c ≡ some 0
unfolding index
index_here [] c p = rw p
index_here (a ∷ s) c p = rw p

index-le : (t c u : Bytes) → (i : ℕ) × (index (t ++ (c ++ u)) c ≡ some i) × (i ≤ length t)
unfolding index
index-le [] c u = (0, index_here (c ++ u) c (has_prefix-append c u), omega arith)
index-le (a ∷ t) c u = elim (Bool-cases (has_prefix (a ∷ (t ++ (c ++ u))) c)) [
  | inl p ↦ (0, index_here _ c p, omega arith)
  | inr p ↦ let (i, e, l) = index-le t c u in (suc i, rw (p, e), omega arith)
]

last_index-exists : (s c : Bytes) → has_prefix s c ≡ true → (i : ℕ) × (last_index s c ≡ some i)
unfolding last_index
last_index-exists [] c p = (0, rw p)
last_index-exists (a ∷ s) c p = elim (Option-cases (last_index s c)) [
  | inl e ↦ (0, rw (e, p))
  | inr (j, e) ↦ (suc j, rw e)
]

le-last_index : (t c u : Bytes) → (i : ℕ) × (last_index (t ++ (c ++ u)) c ≡ some i) × (length t ≤ i)
unfolding last_index
le-last_index [] c u =
    let (i, e) = last_index-exists (c ++ u) c (has_prefix-append c u) in (i, e, omega arith)
le-last_index (a ∷ t) c u = let (i, e, l) = le-last_index t c u in (suc i, rw e, omega arith)

-- The separator occurs nowhere.
abbrev pub Absent : Bytes → Bytes → Type 0
Absent c s = (t u : Bytes) → s ≢ t ++ (c ++ u)

-- The two pieces of a string that is cut at the first, or at the last, occurrence.
abbrev pub IsCut : Bytes → Bytes → Bytes × Bytes → Type 0
IsCut s c pieces = s ≡ pieces.0 ++ (c ++ pieces.1)

-- `split` returns the string and "" exactly when the separator does not occur in it. Else its
-- two results are the pieces around an occurrence, and no other occurrence stands further left.
split_lem :
    (s c : Bytes)
    → (Absent c s × (split s c ≡ (s, [])))
      ⊎ (IsCut s c (split s c)
          × ((t u : Bytes) → s ≡ t ++ (c ++ u) → length (split s c).0 ≤ length t))
unfolding split
split_lem s c = elim (Option-cases (index s c)) [
  | inl e ↦
      inl (
        (λ t u h. let (i, found, _) = index-le t c u in cc (found, e, ap (λ x. index x c) h)),
        rw e,
      )
  | inr (i, e) ↦
      let (cut, size) = index-Cuts s c i e in
      inr (
        rw e cut,
        λ t u h.
            let (j, found, bound) = index-le t c u in
            let same : j ≡ i = cc (found, e, ap (λ x. index x c) h) in rw e (omega arith),
      )
]

-- `splitRight` returns the string and "" exactly when the separator does not occur in it. Else its
-- two results are the pieces around an occurrence, and no other occurrence stands further right.
split_right_lem :
    (s c : Bytes)
    → (Absent c s × (split_right s c ≡ (s, [])))
      ⊎ (IsCut s c (split_right s c)
          × ((t u : Bytes) → s ≡ t ++ (c ++ u) → length t ≤ length (split_right s c).0))
unfolding split_right
split_right_lem s c = elim (Option-cases (last_index s c)) [
  | inl e ↦ inl (
    (λ t u h. let (i, found, _) = le-last_index t c u in cc (found, e, ap (λ x. last_index x c) h)),
    rw e,
  )
  | inr (i, e) ↦
      let (cut, size) = last_index-Cuts s c i e in
      inr (
        rw e cut,
        λ t u h.
            let (j, found, bound) = le-last_index t c u in
            let same : j ≡ i = cc (found, e, ap (λ x. last_index x c) h) in rw e (omega arith),
      )
]
