-- ===== src/Output/Null.antt =====
-- Null values, and reads inside of a block.
use go_oci.Prelude.{
  ℕ, zero, suc, ◌≤◌, ◌≡◌, refl, Bool, true, false, Bytes, length, take, if◌then◌else◌, if-false,
  le→ltb-false, Outcome, ok, fail, panic, ◌>>=◌,
}
use go_oci.Prelude.Int.{ℤ, pos, negsuc}
use go_oci.Output.{
  Dest, null_string_dest, null_int64_dest, null_float64_dest, null_bool_dest, Written, null_string,
  null_int64, null_float64, null_bool, OutputError, Cell, go_bytes, get_uint64, padded,
  read_null_string, is_null, read_bool, read_dest,
}

-- The destinations with a flag `Valid`, and the flag that is written.
abbrev pub IsNullable : Dest → Type 0
IsNullable null_string_dest = Unit
IsNullable null_int64_dest = Unit
IsNullable null_float64_dest = Unit
IsNullable null_bool_dest = Unit
IsNullable _ = ⊥

abbrev pub HasFlag : Bool → Outcome OutputError Written → Type 0
HasFlag b (ok (null_string s v)) = v ≡ b
HasFlag b (ok (null_int64 n v)) = v ≡ b
HasFlag b (ok (null_float64 n v)) = v ≡ b
HasFlag b (ok (null_bool x v)) = v ≡ b
HasFlag b (ok _) = ⊥
HasFlag b (fail e) = Unit
HasFlag b panic = Unit

bind_flag :
    {A : Type 0} (b : Bool) (m : Outcome OutputError A) (f : A → Written)
    → ((a : A) → HasFlag b (ok (f a)))
    → HasFlag b (m >>= λ a. ok (f a))
bind_flag b (ok a) f h = h a
bind_flag b (fail e) f h = tt
bind_flag b panic f h = tt

null_string_flag :
    (i : ℤ) (c : Cell) → HasFlag (if is_null i then false else true) (read_null_string i c)
unfolding read_null_string
null_string_flag (pos zero) c = bind_flag true (go_bytes c.length c.memory) _ (λ a. refl)
null_string_flag (pos (suc n)) c = bind_flag true (padded (suc n) c) _ (λ a. refl)
null_string_flag (negsuc zero) c = refl
null_string_flag (negsuc (suc zero)) c = bind_flag true (go_bytes c.length c.memory) _ (λ a. refl)
null_string_flag (negsuc (suc (suc n))) c = tt

choose_flag :
    (b : Bool) (x y : Outcome OutputError Written)
    → HasFlag false x
    → HasFlag true y
    → HasFlag (if b then false else true) (if b then x else y)
choose_flag true x y h k = h
choose_flag false x y h k = k

-- A destination that can be null is marked as not valid exactly when the indicator is -1, whatever
-- the buffer holds, where no error is returned.
read_dest-HasFlag :
    (d : Dest) (c : Cell)
    → IsNullable d
    → HasFlag (if is_null c.indicator then false else true) (read_dest d c)
unfolding read_dest
read_dest-HasFlag null_string_dest c h = null_string_flag c.indicator c
read_dest-HasFlag null_int64_dest c h =
    choose_flag (is_null c.indicator) _ _ refl (bind_flag true (get_uint64 c.memory) _ (λ n. refl))
read_dest-HasFlag null_float64_dest c h =
    choose_flag (is_null c.indicator) _ _ refl (bind_flag true (get_uint64 c.memory) _ (λ n. refl))
read_dest-HasFlag null_bool_dest c h =
    choose_flag (is_null c.indicator) _ _ refl (bind_flag true (read_bool c.memory) _ (λ b. refl))
read_dest-HasFlag _ c h = absurd h

pub go_bytes_lem : (n : ℕ) (m : Bytes) → n ≤ length m → go_bytes n m ≡ ok (take n m)
go_bytes_lem n m h = if-false (le→ltb-false h) _ _
