-- ===== src/Lob/Order.antt =====
-- The order in which `ociLobWrite` announces its pieces, and that it comes to an end.
use go_oci.Prelude.{
  ℕ, zero, suc, ◌+◌, ◌<◌, ◌≤◌, ◌≡◌, ◌≢◌, ◌⊎◌, inl, inr, refl, sym, ap, subst, Bool, true, false,
  List, [], ◌∷◌, Bytes, length, ltb, leb, if◌then◌else◌, arith, Bool-cases, if-true, if-false,
  ltb→lt,
}
use go_oci.Oci.{Sword}
use go_oci.Lob.{
  one_piece, first_piece, next_piece, last_piece, Chunk, End, done, failed, out_of_fuel, goes_on,
  after, next_chunk, write_loop, first_chunk, lob_write,
}
use go_oci.Lob.Write.{AllGoOn, write_loop-done, write_loop-more}

-- Pieces that continue a write: next pieces, and the last.
pub data Continues : List Chunk → Type 0 where
  last : (c : Chunk) → c.piece ≡ last_piece → Continues (c ∷ [])
  next : (c : Chunk) {cs : List Chunk} → c.piece ≡ next_piece → Continues cs → Continues (c ∷ cs)

-- The pieces of a whole write: one, or a first piece and those that continue it.
pub data InOrder : List Chunk → Type 0 where
  one : (c : Chunk) → c.piece ≡ one_piece → InOrder (c ∷ [])
  first : (c : Chunk) {cs : List Chunk} → c.piece ≡ first_piece → Continues cs → InOrder (c ∷ cs)

module _ (size : ℕ) (reply : ℕ → Sword × ℕ) where
  -- The piece of the next call tells whether the bytes end with it.
  next_chunk-piece :
      (w start : ℕ) (b bytes : Bytes)
      → ((length bytes ≤ start + size)
          × ((next_chunk size reply w start b bytes).piece ≡ last_piece))
        ⊎ ((start + size < length bytes)
            × ((next_chunk size reply w start b bytes).piece ≡ next_piece))
  unfolding next_chunk
  next_chunk-piece w start b bytes = elim (Bool-cases (ltb (start + size) (length bytes))) [
    | inl h ↦ inr (ltb→lt _ _ h, ap (λ (c : Chunk). c.piece) (if-true h _ _))
    | inr h ↦ inl (not_ltb→le h, ap (λ (c : Chunk). c.piece) (if-false h _ _))
  ]
    where
      not_ltb→le : {m n : ℕ} → ltb m n ≡ false → n ≤ m
      not_ltb→le h = ground arith

  write_loop-Continues :
      (fuel i start : ℕ) (w : ℕ) (b bytes : Bytes)
      → AllGoOn size reply
      → 0 < size
      → length bytes < fuel + start
      → start ≤ length bytes
      → Continues
          (write_loop size reply fuel i start (next_chunk size reply w start b bytes) bytes).0
  write_loop-Continues zero i start w b bytes good some_size enough inside =
      absurd (omega (arith, inside, enough))
  write_loop-Continues (suc fuel) i start w b bytes good some_size enough inside =
      elim (next_chunk-piece w start b bytes) [
        | inl (h, e) ↦
            subst (λ r. Continues r.0)
              (sym (write_loop-done size reply fuel i start _ bytes good h)) (last _ e)
        | inr (h, e) ↦
            subst (λ r. Continues r.0)
              (sym (write_loop-more size reply fuel i start _ bytes good h))
              (next _ e (
                write_loop-Continues fuel (suc i) (start + size) (reply i).1 _ bytes good some_size
                  (omega (arith, enough, some_size)) (omega (arith, h))))
      ]

  first_chunk-piece :
      (b bytes : Bytes)
      → ((length bytes ≤ size) × ((first_chunk size reply b bytes).piece ≡ one_piece))
        ⊎ ((size < length bytes) × ((first_chunk size reply b bytes).piece ≡ first_piece))
  unfolding first_chunk
  first_chunk-piece b bytes = elim (Bool-cases (leb (length bytes) size)) [
    | inl h ↦ inl (leb→le h, ap (λ (c : Chunk). c.piece) (if-true h _ _))
    | inr h ↦ inr (not_leb→lt h, ap (λ (c : Chunk). c.piece) (if-false h _ _))
  ]
    where
      leb→le : {m n : ℕ} → leb m n ≡ true → m ≤ n
      leb→le h = ground arith

      not_leb→lt : {m n : ℕ} → leb m n ≡ false → n < m
      not_leb→lt h = ground arith

  -- With an OCI that accepts every piece, `ociLobWrite` announces one piece, or a first piece, next
  -- pieces and a last piece, in this order, for a buffer size that is not 0.
  pub lob_write-InOrder :
      (buffer bytes : Bytes)
      → AllGoOn size reply
      → 0 < size
      → InOrder (lob_write size reply (suc (length bytes)) buffer bytes).0
  unfolding lob_write
  lob_write-InOrder buffer bytes good some_size = elim (first_chunk-piece buffer bytes) [
    | inl (h, e) ↦
        subst (λ r. InOrder r.0)
          (sym (write_loop-done size reply _ 0 0 _ bytes good (omega (arith, h)))) (one _ e)
    | inr (h, e) ↦
        subst (λ r. InOrder r.0)
          (sym (write_loop-more size reply _ 0 0 _ bytes good (omega (arith, h))))
          (first _ e (
            write_loop-Continues (length bytes) 1 (0 + size) (reply 0).1 _ bytes good some_size
              (omega (arith, some_size)) (omega (arith, h))))
  ]

  unless :
      (x y : Bool) (r : Sword) (c : Chunk) (rest : List Chunk × End)
      → (y ≡ false → rest.1 ≢ out_of_fuel)
      → (if x then (if y then (c ∷ [], done) else after c rest) else (c ∷ [], failed r)).1
        ≢ out_of_fuel
  unless true true r c rest h e = cc
  unless true false r c rest h e = h refl e
  unless false y r c rest h e = cc

  write_loop-returns :
      (fuel i start : ℕ) (c : Chunk) (bytes : Bytes)
      → 0 < size
      → length bytes < fuel + start
      → start ≤ length bytes
      → (write_loop size reply fuel i start c bytes).1 ≢ out_of_fuel
  unfolding write_loop
  write_loop-returns zero i start c bytes some_size enough inside =
      absurd (omega (arith, inside, enough))
  write_loop-returns (suc fuel) i start c bytes some_size enough inside =
      unless (goes_on (reply i).0) (leb (length bytes) (start + size)) (reply i).0 c _ (λ more.
        write_loop-returns fuel (suc i) (start + size) _ bytes some_size
          (omega (arith, enough, some_size)) (inside' more))
    where
      inside' : {m n : ℕ} → leb m n ≡ false → n ≤ m
      inside' h = ground arith

  -- Whatever OCI replies, the loop of `ociLobWrite` ends within as many rounds as there are bytes
  -- and one, for a buffer size that is not 0.
  pub lob_write-returns :
      (buffer bytes : Bytes)
      → 0 < size
      → (lob_write size reply (suc (length bytes)) buffer bytes).1 ≢ out_of_fuel
  unfolding lob_write
  lob_write-returns buffer bytes some_size =
      write_loop-returns (suc (length bytes)) 0 0 _ bytes some_size (omega arith) (omega arith)
