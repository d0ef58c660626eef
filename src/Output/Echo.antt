-- ===== src/Output/Echo.antt =====
-- A `sql.Out` that the statement leaves as it was: what goes in comes out.
use native.Mathlib.Omega.{pow_step}
use go_oci.Prelude.{
  ℕ, zero, suc, ◌-◌, ◌*◌, ◌/◌, ◌%◌, ◌^◌, ◌<◌, ◌≤◌, ◌≡◌, refl, ap, ◌∙◌, Bool, true, false, some,
  ◌++◌, Bytes, length, take-append_length, length-append, if-false, le→ltb-false, Outcome, ok,
  ◌>>=◌, arith,
}
use go_oci.Prelude.Int.{ℤ, pos, negsuc, signed, residue}
use go_oci.Oci.{Sword, Sqlt}
use go_oci.Column.Fetch.{little_endian}
use go_oci.Binds.Values.{
  le_bytes, GoValue, integer, float, Input, Bind, Script, prepare, prepared, out_bind,
}
use go_oci.Output.{
  Dest, float64, string_dest, int_dest, float64_dest, bool_dest, bytes_dest, Written, int, Cell,
  get_uint64, to_int, read_dest, go_bytes,
}
use go_oci.Output.Null.{go_bytes_lem}

little_endian-le_bytes : (k n : ℕ) → n < 256 ^ k → little_endian (le_bytes k n) ≡ n
little_endian-le_bytes zero n h = omega (arith, h)
little_endian-le_bytes (suc k) n h =
    let rest =
      little_endian-le_bytes k (n / 256) (smaller (256 ^ k) (256 ^ suc k) h (pow_step 256 k)) in
    omega (arith, rest)
  where
    smaller : (p q : ℕ) → n < q → q ≡ 256 * p → n / 256 < p
    smaller p q h e = omega (arith, h, e)

-- An integer of `w` bits.
pub InRange : ℕ → ℤ → Type 0
InRange w (pos n) = n < 2 ^ (w - 1)
InRange w (negsuc n) = n < 2 ^ (w - 1)

-- The destinations and the values that `ConvertValue` makes of them, with what is written if the
-- statement changes nothing.
pub data Answers : Dest → GoValue → Written → Type 0 where
  text : (b : Bytes) → length b ≤ 32767 → Answers string_dest (GoValue.string b) (Written.string b)
  slice :
      (b : Bytes) → length b ≤ 32767 → Answers bytes_dest (GoValue.bytes b) (Written.bytes (some b))
  flag : (b : Bool) → Answers bool_dest (GoValue.bool b) (Written.bool b)
  double : (n : ℕ) → n < 2 ^ 64 → Answers float64_dest (float 8 n) (float64 n)
  int8 : (n : ℤ) → InRange 8 n → Answers (int_dest 8) (integer (some 8) n) (int n)
  int16 : (n : ℤ) → InRange 16 n → Answers (int_dest 16) (integer (some 8) n) (int n)
  int32 : (n : ℤ) → InRange 32 n → Answers (int_dest 32) (integer (some 8) n) (int n)
  int64 : (n : ℤ) → InRange 64 n → Answers (int_dest 64) (integer (some 8) n) (int n)

InRange-mono : (v w : ℕ) (n : ℤ) → 2 ^ (v - 1) ≤ 2 ^ (w - 1) → InRange v n → InRange w n
unfolding InRange
InRange-mono v w (pos n) le h = omega (arith, le, h)
InRange-mono v w (negsuc n) le h = omega (arith, le, h)

residue_bound : (n : ℤ) → InRange 64 n → residue (256 ^ 8) n < 256 ^ 8
unfolding residue InRange
residue_bound (pos n) h = omega (arith, h)
residue_bound (negsuc n) h = omega (arith, h)

to_int-residue8 : (n : ℤ) → InRange 8 n → to_int 8 (residue (256 ^ 8) n) ≡ n
unfolding residue InRange signed
to_int-residue8 (pos n) h = ground (arith, h)
to_int-residue8 (negsuc n) h = ground (arith, h)

to_int-residue64 : (n : ℤ) → InRange 64 n → to_int 64 (residue (256 ^ 8) n) ≡ n
unfolding residue InRange signed
to_int-residue64 (pos n) h = ground (arith, h)
to_int-residue64 (negsuc n) h = ground (arith, h)

to_int-residue16 : (n : ℤ) → InRange 16 n → to_int 16 (residue (256 ^ 8) n) ≡ n
unfolding residue InRange signed
to_int-residue16 (pos n) h = ground (arith, h)
to_int-residue16 (negsuc n) h = ground (arith, h)

to_int-residue32 : (n : ℤ) → InRange 32 n → to_int 32 (residue (256 ^ 8) n) ≡ n
unfolding residue InRange signed
to_int-residue32 (pos n) h = ground (arith, h)
to_int-residue32 (negsuc n) h = ground (arith, h)

-- The bind's buffer, length and indicator as the statement has left them, which is as they were; the
-- block may be longer than what was put into it.
abbrev pub untouched : Bind → Bytes → Outcome Sword Bytes → Cell
untouched b rest lob = record {
  has_buffer = true;
  data_type = b.data_type;
  indicator = b.indicator;
  length = b.length;
  memory = b.content ++ rest;
  lob_read = lob;
}

abbrev pub given : GoValue → Input
given v = record { value = v; is_out = true; is_in = true; is_nil = false }

module _ (rest : Bytes) (lob : Outcome Sword Bytes) where
  prefix_read : (b : Bytes) → go_bytes (length b) (b ++ rest) ≡ ok b
  prefix_read b =
      go_bytes_lem (length b) (b ++ rest) (omega (arith, length-append b rest))
      ∙ ap ok (take-append_length b rest)

  wrapped_read : (b : Bytes) → length b ≤ 32767 → go_bytes (length b % 2 ^ 16) (b ++ rest) ≡ ok b
  wrapped_read b h = ap (λ n. go_bytes n (b ++ rest)) (whole (length b) h) ∙ prefix_read b
    where
      whole : (n : ℕ) → n ≤ 32767 → n % 2 ^ 16 ≡ n
      whole n h = omega (arith, h)

  get_uint64-le_bytes : (n : ℕ) → n < 256 ^ 8 → get_uint64 (le_bytes 8 n ++ rest) ≡ ok n
  get_uint64-le_bytes n h =
      ap (λ m. m >>= λ b. ok (little_endian b)) (prefix_read (le_bytes 8 n))
      ∙ ap ok (little_endian-le_bytes 8 n h)

  integer_read :
      (w : ℕ) (n : ℤ)
      → InRange 64 n
      → to_int w (residue (256 ^ 8) n) ≡ n
      → (get_uint64 (le_bytes 8 (residue (256 ^ 8) n) ++ rest) >>= λ m. ok (int (to_int w m)))
        ≡ ok (int n)
  integer_read w n h e =
      ap (λ m. m >>= λ k. ok (int (to_int w k)))
        (get_uint64-le_bytes (residue (256 ^ 8) n) (residue_bound n h))
      ∙ ap (λ k. ok (int k)) e

  -- For a `sql.Out` with `In` set that points to a string or a byte slice of at most 32767 bytes, a
  -- `bool`, a `float64`, or a signed integer of fixed size: the type switch of `bindValues` makes a bind
  -- of its value, and if the statement leaves the bind as it was, `outputBoundParameters` writes the
  -- same value to the destination.
  pub read_dest-prepare :
      (d : Dest) (v : GoValue) (w : Written) (s : Script)
      → Answers d v w
      → (b : Bind) × (prepare (given v) s v ≡ prepared b)
        × (read_dest d (untouched b rest lob) ≡ ok w)
  unfolding prepare read_dest
  read_dest-prepare d v w s (text b h) = (
    out_bind Sqlt.chr b true,
    if-false (le→ltb-false h) _ _,
    ap (λ m. m >>= λ t. ok (Written.string t)) (wrapped_read b h),
  )
  read_dest-prepare d v w s (slice b h) = (
    out_bind Sqlt.bin b true,
    if-false (le→ltb-false h) _ _,
    ap (λ m. (m >>= λ t. ok (some t)) >>= λ t. ok (Written.bytes t)) (wrapped_read b h),
  )
  read_dest-prepare d v w s (flag true) = (_, refl, refl)
  read_dest-prepare d v w s (flag false) = (_, refl, refl)
  read_dest-prepare d v w s (double n h) =
      (_, refl, ap (λ m. m >>= λ k. ok (float64 k)) (get_uint64-le_bytes n h))
  read_dest-prepare d v w s (int8 n h) =
      (_, refl, integer_read 8 n (InRange-mono 8 64 n (omega arith) h) (to_int-residue8 n h))
  read_dest-prepare d v w s (int16 n h) =
      (_, refl, integer_read 16 n (InRange-mono 16 64 n (omega arith) h) (to_int-residue16 n h))
  read_dest-prepare d v w s (int32 n h) =
      (_, refl, integer_read 32 n (InRange-mono 32 64 n (omega arith) h) (to_int-residue32 n h))
  read_dest-prepare d v w s (int64 n h) = (_, refl, integer_read 64 n h (to_int-residue64 n h))
