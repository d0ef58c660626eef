-- ===== src/Source/Total.antt =====
-- `ParseDSN` never panics: every `v[0]` has a first value.
use go_oci.Prelude.{
  ℕ, suc, ◌≡◌, ◌≢◌, refl, ◌||◌, ◌==◌, Bool-cases, Option-cases, inl, inr, Option, none, some, List,
  [], ◌∷◌, ◌++◌, Bytes, codes, arith, ok, Outcome, ◌>>=◌, fail, panic, All, map_fail, get_elem?,
  equal,
}
use go_oci.Dsn.Byte.{Encoding, user_password, host}
use go_oci.Dsn.Escape.{Escaped, unescape}
use go_oci.Dsn.Escape.Decode.{unescape-decode}
use go_oci.Dsn.Escape.Spec.{bad_escape as first_bad, unless_bad, decode}
use go_oci.Dsn.Query.{Parsed, parse_query}
use go_oci.Dsn.Query.Pieces.{pieces, keep, visit, visit_all, parse_query_into-visit_all}
use go_oci.Dsn.Split.{split, split_right, authority_at, parse_authority}
use go_oci.Dsn.Text.{index_any}
use go_oci.Dsn.Values.{Table, insert, values_of, append_value}
use go_oci.Source.{
  Dsn, DsnError, unfinished, bad_escape, apply_param, apply_params, trim_scheme, parse_account,
  parse_target, parse_parts, parse_dsn,
}

-- Every key has a value.
abbrev pub HaveValues : Table → Type 0
HaveValues = All (λ e. e.1 ≢ [])

insert-HaveValues :
    (k : Bytes) (vs : List Bytes) (m : Table) → vs ≢ [] → HaveValues m → HaveValues (insert k vs m)
unfolding insert
insert-HaveValues k vs [] ne h = (ne, tt)
insert-HaveValues k vs ((j, ws) ∷ m) ne (hj, h) = elim (Bool-cases (equal j k)) [
  | inl e ↦ rw e (ne, h)
  | inr e ↦ rw e (hj, insert-HaveValues k vs m ne h)
]

concat-ne-nil : (vs : List Bytes) (v : Bytes) → vs ++ v ∷ [] ≢ []
concat-ne-nil [] v = cc
concat-ne-nil (w ∷ vs) v = cc

visit-HaveValues : (acc : Parsed) (p : Bytes) → HaveValues acc.0 → HaveValues (visit acc p).0
unfolding visit
visit-HaveValues (m, err) p h = elim (Bool-cases (equal p [])) [
  | inl e ↦ rw e h
  | inr e ↦ rw e (keep-HaveValues m err (first_bad _) (first_bad _) _ _ h)
]
  where
    keep-HaveValues :
        (m : Table) (err : Option Bytes) (e d : Option Bytes) (k v : Bytes)
        → HaveValues m
        → HaveValues (keep (m, err) e d k v).0
    keep-HaveValues m err (some e) d k v h = h
    keep-HaveValues m err none (some d) k v h = h
    keep-HaveValues m err none none k v h =
        unfold append_value in insert-HaveValues k _ m (concat-ne-nil (values_of k m) v) h

visit_all-HaveValues :
    (ps : List Bytes) (acc : Parsed) → HaveValues acc.0 → HaveValues (visit_all acc ps).0
unfolding visit_all
visit_all-HaveValues [] acc h = h
visit_all-HaveValues (p ∷ ps) acc h =
    visit_all-HaveValues ps (visit acc p) (visit-HaveValues acc p h)

-- The function returns, with a value or with an error of its own.
abbrev pub Returns {ℓ} : {A : Type ℓ} → Outcome DsnError A → Type 0
Returns (ok a) = Unit
Returns (fail e) = e ≢ unfinished
Returns panic = ⊥

Returns-bind {ℓ κ} :
    {A : Type ℓ} {B : Type κ} (m : Outcome DsnError A) (f : A → Outcome DsnError B)
    → Returns m
    → ((a : A) → m ≡ ok a → Returns (f a))
    → Returns (m >>= f)
Returns-bind (ok a) f hm hf = hf a refl
Returns-bind (fail e) f hm hf = hm
Returns-bind panic f hm hf = hm

-- An operation of dsn.go that does not panic returns.
Returns-map_fail :
    {A : Type 0} (m : Escaped A) → m ≢ panic → Returns (map_fail {F = DsnError} bad_escape m)
Returns-map_fail (ok a) h = tt
Returns-map_fail (fail e) h = cc
Returns-map_fail panic h = h refl

unless_bad-ne-panic {ℓ} : {A : Type ℓ} (o : Option Bytes) (a : A) → unless_bad o a ≢ panic
unless_bad-ne-panic none a = cc
unless_bad-ne-panic (some e) a = cc

unescape-ne-panic : (s : Bytes) (mode : Encoding) → unescape s mode ≢ panic
unfolding decode
unescape-ne-panic s mode = rw (unescape-decode s mode) (unless_bad-ne-panic (first_bad s) _)

get_elem?-index_any :
    (s : Bytes) (x y i : ℕ) → index_any s x y ≡ some i → (b : ℕ) × (get_elem? s i ≡ some b)
unfolding index_any
get_elem?-index_any [] x y i h = absurd (cc)
get_elem?-index_any (a ∷ s) x y i h = elim (Bool-cases (a == x || a == y)) [
  | inl e ↦ let z : 0 ≡ i = ground arith in (a, rw (← z))
  | inr e ↦ elim (Option-cases (index_any s x y)) [
    | inl f ↦ absurd (ground arith)
    | inr (j, f) ↦
        let z : suc j ≡ i = ground arith in
        let (b, g) = get_elem?-index_any s x y j f in (b, rw (← z) g)
  ]
]

-- Two escaped strings, decoded one after the other.
both-ne-panic :
    (a b : Escaped Bytes)
    → a ≢ panic
    → b ≢ panic
    → ◌≢◌ {A = Escaped (Bytes × Bytes)} (do user ← a; pass ← b; ok (user, pass)) panic
both-ne-panic (ok u) (ok p) ha hb = cc
both-ne-panic (ok u) (fail e) ha hb = cc
both-ne-panic (ok u) panic ha hb = absurd (hb refl)
both-ne-panic (fail e) b ha hb = cc
both-ne-panic panic b ha hb = absurd (ha refl)

-- `authority[i:i+1]` is in range, so that `parseAuthority` does not panic.
parse_authority-ne-panic : (s : Bytes) → parse_authority s ≢ panic
unfolding parse_authority authority_at
parse_authority-ne-panic s = elim (Option-cases (index_any s b':' b'/')) [
  | inl e ↦
      rw (e, authority_at)
        (one-ne-panic (unescape s user_password) (unescape-ne-panic s user_password))
  | inr (i, e) ↦
      let (b, g) = get_elem?-index_any s b':' b'/' i e in
      rw (e, authority_at, g)
        (both-ne-panic _ _ (unescape-ne-panic (split s (b ∷ [])).0 user_password)
          (unescape-ne-panic (split s (b ∷ [])).1 user_password))
]
  where
    one-ne-panic :
        (a : Escaped Bytes)
        → a ≢ panic
        → ◌≢◌ {A = Escaped (Bytes × Bytes)} (a >>= λ user. ok (user, [])) panic
    one-ne-panic (ok u) h = cc
    one-ne-panic (fail e) h = cc
    one-ne-panic panic h = absurd (h refl)

module _ {Location : Type 0} (utc : Location) (load_location : Bytes → Option Location) where
  apply_param-Returns :
      (k : Bytes) (vs : List Bytes) (d : Dsn Location)
      → vs ≢ []
      → Returns (apply_param utc load_location k vs d)
  unfolding apply_param
  apply_param-Returns k [] d h = absurd (h refl)
  apply_param-Returns k (v ∷ vs) d h = ground arith

  apply_params-Returns :
      (m : Table) (d : Dsn Location) → HaveValues m → Returns (apply_params utc load_location m d)
  unfolding apply_params
  apply_params-Returns [] d h = tt
  apply_params-Returns ((k, vs) ∷ m) d (hk, h) =
      Returns-bind (apply_param utc load_location k vs d) _ (apply_param-Returns k vs d hk)
        (λ d' _. apply_params-Returns m d' h)

  parse_account-Returns : (s : Bytes) → Returns (parse_account utc load_location s)
  unfolding parse_account
  parse_account-Returns s = elim (Bool-cases (equal s [])) [
    | inl e ↦ rw e tt
    | inr e ↦ rw e (Returns-map_fail (parse_authority s) (parse_authority-ne-panic s))
  ]

  parse_target-Returns :
      (s : Bytes) (account : Bytes × Bytes) → Returns (parse_target utc load_location s account)
  unfolding parse_target parse_query
  parse_target-Returns s account =
      let rest = split_right s (codes "?") in
      Returns-bind (map_fail bad_escape (unescape rest.0 host)) _
        (Returns-map_fail (unescape rest.0 host) (unescape-ne-panic rest.0 host))
        (λ connect _. rw (parse_query_into-visit_all [] rest.1) (
          apply_params-Returns (visit_all ([], none) (pieces rest.1)).0 _
            (visit_all-HaveValues (pieces rest.1) ([], none) tt)))

  -- `ParseDSN` returns for every string: with a data source name, or with an error of its own. It
  -- never panics, neither on an index out of range in the escapes and the authority nor on the
  -- `v[0]` of a parameter, and the loop over the query ends.
  pub parse_dsn-Returns : (s : Bytes) → Returns (parse_dsn utc load_location s)
  unfolding parse_dsn parse_parts
  parse_dsn-Returns s = elim (Bool-cases (equal s [])) [
    | inl e ↦ rw e (cc)
    | inr e ↦
        let parts = split_right (trim_scheme s) (codes "@") in
        rw e (
          Returns-bind (parse_account utc load_location parts.0) _ (parse_account-Returns parts.0)
            (λ account _. parse_target-Returns parts.1 account))
  ]
