-- ===== src/Source/Meaning.antt =====
-- What one parameter of a data source name changes, and that two parameters of different names can
-- trade places.
use go_oci.Prelude.{
  ℕ, Bool, true, ◌≡◌, ◌≢◌, ◌⊎◌, inl, inr, sym, ap, ◌∙◌, Option, List, [], ◌∷◌, Bytes, codes, equal,
  if◌then◌else◌, Outcome, ok, ◌>>=◌, bind-eq-ok, arith, equal_iff,
}
use go_oci.Source.{
  Dsn, DsnError, OperationMode, TransactionMode, invalid_loc, invalid_isolation, invalid_questionph,
  invalid_prefetch_rows, invalid_prefetch_memory, invalid_as, invalid_stmt_cache_size, first,
  required, isolation_mode, as_mode, apply_param,
}
use go_oci.Source.Number.{parse_bool, parse_uint32}

-- What a parameter changes: one field, or nothing.
data Change (Location : Type 0) : Type 0 where
  keep : Change Location
  set_loc : Location → Change Location
  set_isolation : TransactionMode → Change Location
  set_questionph : Bool → Change Location
  set_prefetch_rows set_prefetch_memory set_cache_size : ℕ → Change Location
  set_as : OperationMode → Change Location

module _ {Location : Type 0} where
  abbrev change : Change Location → Dsn Location → Dsn Location
  change keep dsn = dsn
  change (set_loc l) dsn = record dsn { time_location = l }
  change (set_isolation m) dsn = record dsn { transaction_mode = m }
  change (set_questionph b) dsn = record dsn { enable_qm_placeholders = b }
  change (set_prefetch_rows n) dsn = record dsn { prefetch_rows = n }
  change (set_prefetch_memory n) dsn = record dsn { prefetch_memory = n }
  change (set_cache_size n) dsn = record dsn { stmt_cache_size = n }
  change (set_as m) dsn = record dsn { operation_mode = m }

  abbrev key_of : Change Location → Bytes
  key_of keep = []
  key_of (set_loc l) = codes "loc"
  key_of (set_isolation m) = codes "isolation"
  key_of (set_questionph b) = codes "questionph"
  key_of (set_prefetch_rows n) = codes "prefetch_rows"
  key_of (set_prefetch_memory n) = codes "prefetch_memory"
  key_of (set_cache_size n) = codes "stmt_cache_size"
  key_of (set_as m) = codes "as"

  change_comm :
      (a b : Change Location) (dsn : Dsn Location)
      → (a ≡ keep) ⊎ (b ≡ keep) ⊎ (key_of a ≢ key_of b)
      → change a (change b dsn) ≡ change b (change a dsn)
  change_comm a b dsn h = ground arith

  -- What a parameter means by itself.
  abbrev loc_change : (Bytes → Option Location) → List Bytes → Outcome DsnError (Change Location)
  loc_change load_location [] = ok keep
  loc_change load_location (v ∷ vs) =
      required invalid_loc v (load_location v) >>= λ l. ok (set_loc l)

module _ {Location : Type 0} (load_location : Bytes → Option Location) where
  meaning : Bytes → List Bytes → Outcome DsnError (Change Location)
  meaning k vs =
      if equal k (codes "loc")
      then loc_change load_location vs
      else if equal k (codes "isolation")
      then (first vs >>= λ v.
          required invalid_isolation v (isolation_mode v) >>= λ m. ok (set_isolation m))
      else if equal k (codes "questionph")
      then (first vs >>= λ v.
          required invalid_questionph v (parse_bool v) >>= λ b. ok (set_questionph b))
      else if equal k (codes "prefetch_rows")
      then (first vs >>= λ v.
          required invalid_prefetch_rows v (parse_uint32 v) >>= λ n. ok (set_prefetch_rows n))
      else if equal k (codes "prefetch_memory")
      then (first vs >>= λ v.
          required invalid_prefetch_memory v (parse_uint32 v) >>= λ n. ok (set_prefetch_memory n))
      else if equal k (codes "as")
      then (first vs >>= λ v. required invalid_as v (as_mode v) >>= λ m. ok (set_as m))
      else if equal k (codes "stmt_cache_size")
      then (first vs >>= λ v.
          required invalid_stmt_cache_size v (parse_uint32 v) >>= λ n. ok (set_cache_size n))
      else ok keep

  -- A parameter changes what it means, whatever the data source name is so far.
  apply_param-meaning :
      (utc : Location) (k : Bytes) (vs : List Bytes) (dsn : Dsn Location)
      → apply_param utc load_location k vs dsn ≡ (meaning k vs >>= λ c. ok (change c dsn))
  unfolding apply_param meaning
  apply_param-meaning utc k vs dsn = ground arith

  -- The test of a key.
  key_is : (k s : Bytes) → equal k s ≡ true → s ≡ k
  key_is k s h = sym ((equal_iff k s).0 h)

  -- It changes the field of its key.
  meaning-key_of :
      (k : Bytes) (vs : List Bytes) (c : Change Location)
      → meaning k vs ≡ ok c
      → (c ≡ keep) ⊎ (key_of c ≡ k)
  unfolding meaning
  meaning-key_of k [] c h = ground arith
  meaning-key_of k (v ∷ vs) c h = ground (
    arith,
    key_is k (codes "loc"),
    key_is k (codes "isolation"),
    key_is k (codes "questionph"),
    key_is k (codes "prefetch_rows"),
    key_is k (codes "prefetch_memory"),
    key_is k (codes "as"),
    key_is k (codes "stmt_cache_size"),
  )

  -- The changes of two parameters of different names can trade places.
  keys_differ :
      (a b : Bytes × List Bytes) (c e : Change Location)
      → a.0 ≢ b.0
      → meaning a.0 a.1 ≡ ok c
      → meaning b.0 b.1 ≡ ok e
      → (c ≡ keep) ⊎ (e ≡ keep) ⊎ (key_of c ≢ key_of e)
  keys_differ a b c e different h g = elim (meaning-key_of a.0 a.1 c h) [
    | inl same ↦ inl same
    | inr k ↦ elim (meaning-key_of b.0 b.1 e g) [
      | inl same ↦ inr (inl same)
      | inr l ↦ inr (inr (λ same. different (sym k ∙ same ∙ l)))
    ]
  ]

  meaning-apply_param :
      (utc : Location) (k : Bytes) (vs : List Bytes) (c : Change Location) (d : Dsn Location)
      → meaning k vs ≡ ok c
      → apply_param utc load_location k vs d ≡ ok (change c d)
  meaning-apply_param utc k vs c d h =
      apply_param-meaning utc k vs d ∙ ap (λ m. m >>= λ x. ok (change x d)) h

  apply_param-change :
      (utc : Location) (k : Bytes) (vs : List Bytes) (d d' : Dsn Location)
      → apply_param utc load_location k vs d ≡ ok d'
      → (c : Change Location) × (meaning k vs ≡ ok c) × (change c d ≡ d')
  apply_param-change utc k vs d d' h =
      let (c, one, two) =
        bind-eq-ok (meaning k vs) (λ x. ok (change x d))
          (sym (apply_param-meaning utc k vs d) ∙ h) in
      (c, one, cc)

  pub apply_param_comm :
      (utc : Location) (a b : Bytes × List Bytes) (d d₁ d₂ : Dsn Location)
      → a.0 ≢ b.0
      → apply_param utc load_location a.0 a.1 d ≡ ok d₁
      → apply_param utc load_location b.0 b.1 d₁ ≡ ok d₂
      → (apply_param utc load_location b.0 b.1 d >>= λ d'. apply_param utc load_location a.0 a.1 d')
        ≡ ok d₂
  apply_param_comm utc a b d d₁ d₂ different one two =
      let (c, h, p) = apply_param-change utc a.0 a.1 d d₁ one in
      let (e, g, q) = apply_param-change utc b.0 b.1 d₁ d₂ two in
      ap (λ m. m >>= λ d'. apply_param utc load_location a.0 a.1 d')
        (meaning-apply_param utc b.0 b.1 e d g)
      ∙ meaning-apply_param utc a.0 a.1 c (change e d) h
      ∙ ap ok (change_comm c e d (keys_differ a b c e different h g) ∙ ap (change e) p ∙ q)
