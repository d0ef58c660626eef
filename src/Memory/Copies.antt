-- ===== src/Memory/Copies.antt =====
-- What the copies into C memory leave in the blocks, and what is read back.
use go_oci.Prelude.{
  ℕ, zero, suc, ◌+◌, ◌<◌, ◌≤◌, ◌≡◌, refl, ap, ◌∙◌, Bool, true, some, [], ◌∷◌, ◌++◌, append-nil,
  Bytes, length, drop, set, set-append_length, take-append_length, length-append, ltb, ◌==◌,
  if-true, if-false, le→ltb-false, lt→ltb, ne→==, arith,
}
use go_oci.Prelude.Slices.{drop-length, length-drop}
use go_oci.Memory.{copy_in, put_zero, c_byte, c_string, c_string_n, c_go_string_n}

copy_in_lem :
    (block b : Bytes)
    → length b ≤ length block
    → copy_in block b ≡ some (b ++ drop (length b) block)
unfolding copy_in
copy_in_lem block b h = if-false (le→ltb-false h) _ _

-- What follows a byte of a block.
drop_cons : (n : ℕ) (s : Bytes) → n < length s → (x : ℕ) × (drop n s ≡ x ∷ drop (suc n) s)
drop_cons n [] h = absurd (omega (arith, h))
drop_cons zero (x ∷ s) h = (x, refl)
drop_cons (suc n) (x ∷ s) h = drop_cons n s (omega (arith, h))

put_zero_lem :
    (s block : Bytes)
    → length s < length block
    → put_zero (length s) (some (s ++ drop (length s) block))
      ≡ some (s ++ 0 ∷ drop (suc (length s)) block)
unfolding put_zero
put_zero_lem s block h =
    let (x, e) = drop_cons (length s) block h in
    if-true (inside s (drop (length s) block) (omega (arith, h, length-drop (length s) block))) _ _
    ∙ ap some (
        ap (λ t. set (s ++ t) (length s) 0) e
        ∙ set-append_length s (drop (suc (length s)) block) x 0)
  where
    inside : (s t : Bytes) → 0 < length t → ltb (length s) (length (s ++ t)) ≡ true
    inside s t h = let k = length-append s t in ground (arith, h, k)

module _ (malloc : ℕ → Bytes) where
  -- `malloc` gives blocks of the size that it is asked for.
  abbrev pub IsSized : Type 0
  IsSized = (n : ℕ) → length (malloc n) ≡ n

  -- `cString` writes within its block, whose content is the string with a byte 0 behind it; and
  -- `cGoStringN` with the length of the string reads the string back.
  c_go_string_n-c_string :
      (s : Bytes)
      → IsSized
      → (c_string malloc s ≡ some (s ++ 0 ∷ [])) × (c_go_string_n (s ++ 0 ∷ []) (length s) ≡ some s)
  unfolding c_string c_go_string_n
  c_go_string_n-c_string s sized = (
    ap (put_zero (length s)) (copy_in_lem block s (omega (arith, big)))
        ∙ put_zero_lem s block (omega (arith, big))
        ∙ ap (λ t. some (s ++ 0 ∷ t)) (drop-length (suc (length s)) block (omega (arith, big))),
    reads (length s == 0) s refl,
  )
    where
      block : Bytes
      block = malloc (length s + 1)

      big : length block ≡ length s + 1
      big = sized (length s + 1)

      reads :
          (b : Bool) (s : Bytes)
          → (length s == 0) ≡ b
          → c_go_string_n (s ++ 0 ∷ []) (length s) ≡ some s
      reads b [] e = refl
      reads b (x ∷ s) e =
          let fits : length (x ∷ s) ≤ length ((x ∷ s) ++ 0 ∷ []) =
            omega (arith, length-append (x ∷ s) (0 ∷ [])) in
          if-false (ne→== (suc (length s)) 0 (λ h. omega (arith, h))) _ _
          ∙ if-false (le→ltb-false fits) _ _
          ∙ ap some (take-append_length (x ∷ s) (0 ∷ []))

  -- `cByte` writes within its block, whose content is the bytes.
  c_byte_lem : (b : Bytes) → IsSized → c_byte malloc b ≡ some b
  unfolding c_byte
  c_byte_lem b sized =
      copy_in_lem (malloc (length b)) b (omega (arith, sized (length b)))
      ∙ ap some (
          ap (λ t. b ++ t)
            (drop-length (length b) (malloc (length b)) (omega (arith, sized (length b))))
          ∙ append-nil b)

  -- For a string that is shorter than the block, `cStringN` writes within its block, which then has the
  -- string and a byte 0 in front, and keeps its size.
  c_string_n_lem :
      (s : Bytes) (size : ℕ)
      → IsSized
      → length s < size
      → (rest : Bytes) × (c_string_n malloc s size ≡ some (s ++ 0 ∷ rest))
        × (length (s ++ 0 ∷ rest) ≡ size)
  unfolding c_string_n
  c_string_n_lem s size sized h = (
    drop (suc (length s)) (malloc size),
    ap (λ n. put_zero n (copy_in (malloc size) s)) (if-true (lt→ltb _ _ h) _ _)
        ∙ ap (put_zero (length s)) (copy_in_lem (malloc size) s (omega (arith, h, sized size)))
        ∙ put_zero_lem s (malloc size) (omega (arith, h, sized size)),
    omega (
      arith,
      h,
      sized size,
      length-append s (0 ∷ drop (suc (length s)) (malloc size)),
      length-drop (suc (length s)) (malloc size),
    ),
  )
