-- ===== src/Binds/Sizes.antt =====
-- The sizes that OCI is given for a bind, against the block it is given.
use go_oci.Prelude.{
  ℕ, zero, suc, ◌+◌, ◌/◌, ◌^◌, ◌≤◌, ◌≡◌, inl, inr, refl, sym, ap, Bool, true, false, not, ◌&&◌,
  Option, none, some, [], ◌∷◌, Bytes, length, ltb, if◌then◌else◌, if-both, if-true, if-false, subst,
  Bool-cases, arith,
}
use go_oci.Prelude.Int.{pos, negsuc, residue}
use go_oci.Oci.{Sqlt}
use go_oci.Column.{Allocation, malloc, descriptor_alloc, stmt_handle_alloc}
use go_oci.Binds.Values.{
  GoValue, nil_value, bytes, time, string, integer, float, bool, other, Input, Bind, Script,
  Prepared, prepared, broken, prepare, prepare_lob, in_bind, out_bind, number_bind, le_bytes,
  is_success,
}

-- What OCI may read and write of a block, by the allocation: within a block of bytes the content, the
-- largest size and the length, which is that of the content unless the value is null. For a
-- descriptor the size of a pointer; nothing where there is no buffer.
SizesFit : Option Allocation → Bind → Type 0
SizesFit none b = b.max_size ≡ 0
SizesFit (some (malloc n)) b =
    (length b.content ≤ n)
    × (b.max_size ≤ n)
    × (b.length ≤ b.max_size)
    × (b.indicator ≡ pos 0 → b.length ≡ length b.content)
SizesFit (some (descriptor_alloc d)) b = (b.max_size ≡ 8) × (b.length ≡ 8)
SizesFit (some stmt_handle_alloc) b = ⊥

pub IsSized : Prepared → Type 0
IsSized (prepared b) = SizesFit b.pbuf b
IsSized (broken e a) = Unit

-- Numbers have at most eight bytes, and the text of a value of another type is no longer than the text
-- that goes into a block.
abbrev pub IsBindable : GoValue → Type 0
IsBindable (integer (some k) n) = k ≤ 8
IsBindable (float k n) = k ≤ 8
IsBindable (other b) = length b ≤ 32767
IsBindable _ = Unit

in_bind-IsSized :
    (t : Sqlt) (size : ℕ) (b : Bytes)
    → length b ≤ 32767
    → length b ≤ size
    → IsSized (prepared (in_bind t size b))
unfolding IsSized SizesFit
in_bind-IsSized t size b h k = (k, omega (arith, h, k), omega (arith, h), λ _. omega (arith, h))

out_bind-IsSized :
    (t : Sqlt) (b : Bytes) (given : Bool)
    → length b ≤ 32767
    → IsSized (prepared (out_bind t b given))
unfolding IsSized SizesFit
out_bind-IsSized t b true h =
    (omega (arith, h), omega arith, omega (arith, h), λ _. omega (arith, h))
out_bind-IsSized t b false h = (omega (arith, h), omega arith, omega arith, λ e. absurd (no e))
  where
    no : ¬ negsuc 0 ≡ pos 0
    no e = cc

number_bind-IsSized :
    (i : Input) (t : Sqlt) (b : Bytes) → length b ≤ 8 → IsSized (prepared (number_bind i t b))
unfolding IsSized SizesFit
number_bind-IsSized i t b h =
    (omega (arith, h), omega (arith, h), omega (arith, h), λ _. omega (arith, h))

length-le_bytes : (k n : ℕ) → length (le_bytes k n) ≡ k
length-le_bytes zero n = refl
length-le_bytes (suc k) n = ap suc (length-le_bytes k (n / 256))

prepare_lob-IsSized : (t : Sqlt) (b : Bytes) (s : Script) → IsSized (prepare_lob t b s)
unfolding IsSized SizesFit
prepare_lob-IsSized t b s = if-both IsSized (not (is_success s.lob_alloc)) tt (
    if-both IsSized (not (is_success s.lob_create)) tt
      (if-both IsSized (not (is_success s.lob_write)) tt (refl, refl)))

-- Bytes of either kind: a large object past 32767, else a block.
either-IsSized :
    (b : Bytes) (x y : Prepared)
    → IsSized x
    → (length b ≤ 32767 → IsSized y)
    → IsSized (if ltb 32767 (length b) then x else y)
either-IsSized b x y h k = elim (Bool-cases (ltb 32767 (length b))) [
  | inl big ↦ subst IsSized (sym (if-true big _ _)) h
  | inr small ↦ subst IsSized (sym (if-false small _ _)) (k (in_range small))
]
  where
    in_range : {n : ℕ} → ltb 32767 n ≡ false → n ≤ 32767
    in_range h = ground arith

chosen-IsSized :
    (c : Bool) (x y : Bind)
    → IsSized (prepared x)
    → IsSized (prepared y)
    → IsSized (prepared (if c then x else y))
chosen-IsSized true x y h k = h
chosen-IsSized false x y h k = k

-- For every value, whether it goes in or out, where numbers have at most eight bytes and the text of a
-- value of no other type at most 32767: what the type switch makes of it fits its buffer. The bytes
-- put into a block, and the largest size that OCI is given, are within the block; the length is within
-- the largest size; and the length of a value that is not null is that of its bytes, so that it does
-- not wrap around in a `ub2`.
pub prepare-IsSized :
    (i : Input) (s : Script) (v : GoValue) → IsBindable v → IsSized (prepare i s v)
unfolding prepare IsSized SizesFit
prepare-IsSized i s nil_value h = refl
prepare-IsSized i s (bytes b) h = either-IsSized b _ _ (prepare_lob-IsSized Sqlt.blob b s) (λ k.
    chosen-IsSized i.is_out _ _ (out_bind-IsSized Sqlt.bin b (i.is_in && not i.is_nil) k)
      (in_bind-IsSized Sqlt.bin (length b) b k (omega arith)))
prepare-IsSized i s time h =
    if-both IsSized (not (is_success s.time_alloc)) tt
      (if-both IsSized (not (is_success s.time_construct)) tt (refl, refl))
prepare-IsSized i s (string b) h = either-IsSized b _ _ (prepare_lob-IsSized Sqlt.clob b s) (λ k.
    chosen-IsSized i.is_out _ _ (out_bind-IsSized Sqlt.chr b (i.is_in && not i.is_nil) k)
      (in_bind-IsSized Sqlt.afc (length b + 1) b k (omega arith)))
prepare-IsSized i s (integer none n) h = tt
prepare-IsSized i s (integer (some k) n) h =
    number_bind-IsSized i Sqlt.int (le_bytes k (residue (256 ^ k) n))
      (omega (arith, h, length-le_bytes k (residue (256 ^ k) n)))
prepare-IsSized i s (float k n) h =
    number_bind-IsSized i Sqlt.bdouble (le_bytes k n) (omega (arith, h, length-le_bytes k n))
prepare-IsSized i s (bool true) h = number_bind-IsSized i Sqlt.int (1 ∷ []) (omega arith)
prepare-IsSized i s (bool false) h = number_bind-IsSized i Sqlt.int (0 ∷ []) (omega arith)
prepare-IsSized i s (other b) h =
    chosen-IsSized i.is_out _ _ refl (in_bind-IsSized Sqlt.afc (length b + 1) b h (omega arith))
