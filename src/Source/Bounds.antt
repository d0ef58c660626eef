-- ===== src/Source/Bounds.antt =====
-- The three numbers of a data source name fit into a `ub4`.
use go_oci.Prelude.{
  ℕ, ◌+◌, ◌-◌, ◌*◌, ◌<◌, ◌^◌, ◌≡◌, Option, List, some, [], ◌∷◌, Bytes, arith, ok, equal, map_fail,
  Bool-cases, Option-cases, bind-eq-ok, inl, inr, codes,
}
use go_oci.Dsn.Values.{Table}
use go_oci.Source.{
  Dsn, bad_escape, unfinished, apply_loc, apply_param, apply_params, initial, trim_scheme,
  parse_account, parse_target, parse_parts, parse_dsn,
}
use go_oci.Dsn.Byte.{host}
use go_oci.Dsn.Escape.{unescape}
use go_oci.Dsn.Split.{split_right}
use go_oci.Dsn.Query.{Unfinished, parse_query}
use go_oci.Source.Number.{parse_digits, parse_uint32}

parse_digits-lt : (s : Bytes) (n m : ℕ) → n < 2 ^ 32 → parse_digits n s ≡ some m → m < 2 ^ 32
unfolding parse_digits
parse_digits-lt [] n m h e = ground arith
parse_digits-lt (c ∷ s) n m h e = ground (arith, parse_digits-lt s (n * 10 + (c - b'0')) m)

parse_uint32-lt : (s : Bytes) (m : ℕ) → parse_uint32 s ≡ some m → m < 2 ^ 32
unfolding parse_uint32
parse_uint32-lt [] m e = cc
parse_uint32-lt (c ∷ s) m e = parse_digits-lt (c ∷ s) 0 m (omega arith) e

module _ {Location : Type 0} where
  pub record FitsUb4 (dsn : Dsn Location) : Type 0 where
    pub rows : dsn.prefetch_rows < 2 ^ 32
    pub memory : dsn.prefetch_memory < 2 ^ 32
    pub cache : dsn.stmt_cache_size < 2 ^ 32

module _ {Location : Type 0} (utc : Location) (load_location : Bytes → Option Location) where
  apply_param-FitsUb4 :
      (k : Bytes) (vs : List Bytes) (d d' : Dsn Location)
      → FitsUb4 d
      → apply_param utc load_location k vs d ≡ ok d'
      → FitsUb4 d'
  unfolding apply_param apply_loc
  apply_param-FitsUb4 k [] d d' f e = ground arith
  apply_param-FitsUb4 k (v ∷ vs) d d' f e = elim (Option-cases (parse_uint32 v)) [
    | inl bad ↦ ground arith
    | inr (m, good) ↦ ground (arith, parse_uint32-lt v m good)
  ]

  apply_params-FitsUb4 :
      (m : Table) (d d' : Dsn Location)
      → FitsUb4 d
      → apply_params utc load_location m d ≡ ok d'
      → FitsUb4 d'
  unfolding apply_params
  apply_params-FitsUb4 [] d d' f e = ground arith
  apply_params-FitsUb4 ((k, vs) ∷ m) d d' f e =
      let (d₁, one, rest) = bind-eq-ok (apply_param utc load_location k vs d) _ e in
      apply_params-FitsUb4 m d₁ d' (apply_param-FitsUb4 k vs d d₁ f one) rest

  parse_target-FitsUb4 :
      (s : Bytes) (account : Bytes × Bytes) (dsn : Dsn Location)
      → parse_target utc load_location s account ≡ ok dsn
      → FitsUb4 dsn
  unfolding parse_target initial
  parse_target-FitsUb4 s account dsn e =
      let rest = split_right s (codes "?") in
      let (connect, e₁, e₂) = bind-eq-ok (map_fail bad_escape (unescape rest.0 host)) _ e in
      let (parsed, e₃, e₄) =
        bind-eq-ok (map_fail (λ (x : Unfinished). unfinished) (parse_query rest.1)) _ e₂ in
      apply_params-FitsUb4 parsed.0
        (record (initial utc load_location) {
          username = account.0;
          password = account.1;
          connect = connect;
        })
        dsn (record { rows = omega arith; memory = omega arith; cache = omega arith }) e₄

  parse_parts-FitsUb4 :
      (s : Bytes) (dsn : Dsn Location) → parse_parts utc load_location s ≡ ok dsn → FitsUb4 dsn
  unfolding parse_parts
  parse_parts-FitsUb4 s dsn e =
      let parts = split_right (trim_scheme s) (codes "@") in
      let (account, _, e₁) = bind-eq-ok (parse_account utc load_location parts.0) _ e in
      parse_target-FitsUb4 parts.1 account dsn e₁

  -- Whatever the string, the three numbers that `ParseDSN` returns are below 2^32, so that none
  -- wraps around when it is converted to a `ub4`.
  pub parse_dsn-FitsUb4 :
      (s : Bytes) (dsn : Dsn Location) → parse_dsn utc load_location s ≡ ok dsn → FitsUb4 dsn
  unfolding parse_dsn
  parse_dsn-FitsUb4 s dsn e = elim (Bool-cases (equal s [])) [
    | inl empty ↦ absurd (ground arith)
    | inr some_text ↦ parse_parts-FitsUb4 s dsn (rw some_text at e)
  ]
