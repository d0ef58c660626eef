-- ===== src/Dsn/Split/Cut.antt =====
-- Where a separator of one byte cuts a string.
use go_oci.Prelude.{
  ℕ, suc, ◌+◌, ◌≡◌, refl, true, ◌||◌, none, some, [], ◌∷◌, ◌++◌, Bytes, length, drop,
  take-append_length, Lacks, get_elem?, ◌==◌, arith,
}
use go_oci.Dsn.Text.{has_prefix, index, last_index, index_any}
use go_oci.Dsn.Split.{cut_at, split, split_right}

index-append : (b : ℕ) (t u : Bytes) → Lacks b t → index (t ++ b ∷ u) (b ∷ []) ≡ some (length t)
unfolding index has_prefix
index-append b [] u h = ground arith
index-append b (a ∷ t) u (ha, ht) = ground (arith, index-append b t u ht)

index-none : (b : ℕ) (t : Bytes) → Lacks b t → index t (b ∷ []) ≡ none
unfolding index has_prefix
index-none b [] h = refl
index-none b (a ∷ t) (ha, ht) = ground (arith, index-none b t ht)

last_index-none : (b : ℕ) (t : Bytes) → Lacks b t → last_index t (b ∷ []) ≡ none
unfolding last_index has_prefix
last_index-none b [] h = refl
last_index-none b (a ∷ t) (ha, ht) = ground (arith, last_index-none b t ht)

last_index-append :
    (b : ℕ) (t u : Bytes) → Lacks b u → last_index (t ++ b ∷ u) (b ∷ []) ≡ some (length t)
unfolding last_index has_prefix
last_index-append b [] u h = ground (arith, last_index-none b u h)
last_index-append b (a ∷ t) u h = ground (arith, last_index-append b t u h)

pub index_any-append :
    (x y b : ℕ) (t u : Bytes)
    → Lacks x t
    → Lacks y t
    → (b == x || b == y) ≡ true
    → index_any (t ++ b ∷ u) x y ≡ some (length t)
unfolding index_any
index_any-append x y b [] u hx hy h = ground arith
index_any-append x y b (a ∷ t) u (ax, hx) (ay, hy) h =
    ground (arith, index_any-append x y b t u hx hy h)

pub index_any-none : (x y : ℕ) (t : Bytes) → Lacks x t → Lacks y t → index_any t x y ≡ none
unfolding index_any
index_any-none x y [] hx hy = refl
index_any-none x y (a ∷ t) (ax, hx) (ay, hy) = ground (arith, index_any-none x y t hx hy)

pub get_elem?-append_length : (t u : Bytes) (b : ℕ) → get_elem? (t ++ b ∷ u) (length t) ≡ some b
get_elem?-append_length [] u b = refl
get_elem?-append_length (a ∷ t) u b = get_elem?-append_length t u b

pub drop_behind : (t u : Bytes) (b : ℕ) → drop (length t + 1) (t ++ b ∷ u) ≡ u
drop_behind [] u b = refl
drop_behind (a ∷ t) u b =
    let e : suc (length t) + 1 ≡ suc (length t + 1) = omega arith in rw e (drop_behind t u b)

cut_at-length : (b : ℕ) (t u : Bytes) → cut_at (t ++ b ∷ u) (b ∷ []) (some (length t)) ≡ (t, u)
cut_at-length b t u = rw (take-append_length t (b ∷ u), drop_behind t u b)

-- A string without the separator before a first one is cut there.
pub split-append : (b : ℕ) (t u : Bytes) → Lacks b t → split (t ++ b ∷ u) (b ∷ []) ≡ (t, u)
unfolding split
split-append b t u h = rw (index-append b t u h) (cut_at-length b t u)

pub split_right-append :
    (b : ℕ) (t u : Bytes) → Lacks b u → split_right (t ++ b ∷ u) (b ∷ []) ≡ (t, u)
unfolding split_right
split_right-append b t u h = rw (last_index-append b t u h) (cut_at-length b t u)

pub split_right_none : (b : ℕ) (t : Bytes) → Lacks b t → split_right t (b ∷ []) ≡ (t, [])
unfolding split_right
split_right_none b t h = rw (last_index-none b t h)
