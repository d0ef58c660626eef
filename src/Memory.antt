-- ===== src/Memory.antt =====
-- c_helpers.go: the copies between Go and C memory. A block of C memory is the list of its bytes, as
-- they are before the copy; a write or a read past its end is `none`.
pub mod Copies
use go_oci.Prelude.{
  ℕ, suc, ◌+◌, ◌-◌, Bool, true, false, Option, none, some, [], ◌++◌, Bytes, length, take, drop, set,
  ltb, ◌==◌, if◌then◌else◌,
}

-- `copy(pp[:], b)`, where the type of `pp` knows nothing of the size of the block.
unfoldable pub copy_in : Bytes → Bytes → Option Bytes
copy_in block b = if ltb (length block) (length b) then none else some (b ++ drop (length b) block)

-- `pp[i] = 0`
unfoldable pub put_zero : ℕ → Option Bytes → Option Bytes
put_zero i none = none
put_zero i (some block) = if ltb i (length block) then some (set block i 0) else none

-- The block that `malloc` returns, of the size that it is asked for.
module _ (malloc : ℕ → Bytes) where
  -- `cByte`
  unfoldable pub c_byte : Bytes → Option Bytes
  unfolding copy_in
  c_byte b = copy_in (malloc (length b)) b

  -- `cByteN`
  unfoldable pub c_byte_n : Bytes → ℕ → Option Bytes
  unfolding copy_in
  c_byte_n b size = copy_in (malloc size) b

  -- `cString`
  unfoldable pub c_string : Bytes → Option Bytes
  unfolding copy_in put_zero
  c_string s = put_zero (length s) (copy_in (malloc (length s + 1)) s)

  -- `cStringN`
  unfoldable pub c_string_n : Bytes → ℕ → Option Bytes
  unfolding copy_in put_zero
  c_string_n s size =
      put_zero (if ltb (length s) size then length s else size - 1) (copy_in (malloc size) s)

-- `cGoStringN`
unfoldable pub c_go_string_n : Bytes → ℕ → Option Bytes
c_go_string_n block size =
    if size == 0 then some [] else if ltb (length block) size then none else some (take size block)
