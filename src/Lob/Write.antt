-- ===== src/Lob/Write.antt =====
-- What `ociLobWrite` hands to OCI.
use go_oci.Prelude.{
  ℕ, zero, suc, ◌+◌, ◌<◌, ◌≤◌, ◌≡◌, ◌⊎◌, inl, inr, refl, sym, ap, subst, ◌∙◌, true, false, List, [],
  ◌∷◌, ◌++◌, append-nil, Bytes, length, take, drop, length-append, take-append_length, ltb, leb,
  arith, Bool-cases, if-true, if-false,
}
use go_oci.Prelude.Slices.{
  take-length, drop-length, length-take, length-drop, drop-drop, take-append_split, take-take,
  take-append-drop,
}
use go_oci.Oci.{Sword}
use go_oci.Lob.{
  next_chunk, copy, Chunk, End, done, goes_on, after, write_loop, first_chunk, lob_write,
}

-- The bytes of the calls' buffers, one after the other.
abbrev pub sent : List Chunk → Bytes
sent [] = []
sent (c ∷ cs) = c.buffer ++ sent cs

length-copy : (d s : Bytes) → length (copy d s) ≡ length d
length-copy [] s = ap length (drop-length (length s) [] (omega arith))
length-copy (x ∷ d) [] = refl
length-copy (x ∷ d) (y ∷ s) = ap suc (length-copy d s)

-- A buffer of the fixed size that starts with what fits of the bytes.
record Carries (size : ℕ) (rest buffer : Bytes) : Type 0 where
  tail : Bytes
  starts : buffer ≡ take size rest ++ tail
  fits : length buffer ≡ size

copy-Carries :
    (size : ℕ) (b s rest : Bytes)
    → length b ≡ size
    → take size s ≡ take size rest
    → Carries size rest (copy b s)
copy-Carries size b s rest h e = record {
  tail = drop (length s) b;
  starts = ap (λ n. take n s ++ drop (length s) b) h ∙ ap (λ t. t ++ drop (length s) b) e;
  fits = length-copy b s ∙ h;
}

-- The amount of the first call.
abbrev pub announced : List Chunk → ℕ
announced [] = 0
announced (c ∷ cs) = c.amount

-- The calls announce the bytes, and hand over as many as they announce.
abbrev pub IsWritten : Bytes → List Chunk × End → Type 0
IsWritten bytes r =
    (r.1 ≡ done) × (announced r.0 ≡ length bytes) × (take (announced r.0) (sent r.0) ≡ bytes)

-- What a loop has sent when it is over.
abbrev Delivers : Bytes → List Chunk × End → Type 0
Delivers rest r = (r.1 ≡ done) × (take (length rest) (sent r.0) ≡ rest)

module _ (size : ℕ) (reply : ℕ → Sword × ℕ) where
  next_chunk-Carries :
      (w start : ℕ) (b bytes : Bytes)
      → length b ≡ size
      → Carries size (drop start bytes) (next_chunk size reply w start b bytes).buffer
  unfolding next_chunk
  next_chunk-Carries w start b bytes h = elim (Bool-cases (ltb (start + size) (length bytes))) [
    | inl more ↦
        subst (λ (c : Chunk). Carries size (drop start bytes) c.buffer) (sym (if-true more _ _))
          (copy-Carries size b _ _ h (take-take size (drop start bytes)))
    | inr last ↦
        subst (λ (c : Chunk). Carries size (drop start bytes) c.buffer) (sym (if-false last _ _))
          (copy-Carries size b _ _ h refl)
  ]

  all_of :
      {rest buffer : Bytes}
      → length rest ≤ size
      → Carries size rest buffer
      → take (length rest) (buffer ++ []) ≡ rest
  all_of {rest} {buffer} h k =
      ap (take (length rest))
        (append-nil buffer ∙ k.starts ∙ ap (λ t. t ++ k.tail) (take-length size rest h))
      ∙ take-append_length rest k.tail

  part_of :
      (rest buffer more : Bytes)
      → size ≤ length rest
      → Carries size rest buffer
      → take (length (drop size rest)) more ≡ drop size rest
      → take (length rest) (buffer ++ more) ≡ rest
  part_of rest buffer more h k e =
      let empty = no_tail k.tail (
        omega (
          arith,
          ap length k.starts,
          k.fits,
          length-take size rest h,
          length-append (take size rest) k.tail,
        )) in
      let whole = take-append-drop size rest in
      let here = k.starts ∙ ap (λ t. take size rest ++ t) empty ∙ append-nil (take size rest) in
      subst (λ r. take (length r) (buffer ++ more) ≡ r) whole
        (ap (λ b. take (length (take size rest ++ drop size rest)) (b ++ more)) here
          ∙ take-append_split (take size rest) (drop size rest) more e)
    where
      no_tail : (t : Bytes) → length t ≡ 0 → t ≡ []
      no_tail [] h = refl
      no_tail (x ∷ t) h = absurd (omega (arith, h))

  -- Every reply lets the loop go on.
  abbrev pub AllGoOn : Type 0
  AllGoOn = (i : ℕ) → goes_on ((reply i).0) ≡ true

  pub write_loop-done :
      (fuel i start : ℕ) (c : Chunk) (bytes : Bytes)
      → AllGoOn
      → length bytes ≤ start + size
      → write_loop size reply (suc fuel) i start c bytes ≡ (c ∷ [], done)
  unfolding write_loop
  write_loop-done fuel i start c bytes good h = if-true (good i) _ _ ∙ if-true (le→leb h) _ _
    where
      le→leb : {m n : ℕ} → m ≤ n → leb m n ≡ true
      le→leb h = ground (arith, h)

  pub write_loop-more :
      (fuel i start : ℕ) (c : Chunk) (bytes : Bytes)
      → AllGoOn
      → start + size < length bytes
      → write_loop size reply (suc fuel) i start c bytes
        ≡ after c (
            write_loop size reply fuel
              (suc i)
              (start + size)
              (next_chunk size reply (reply i).1 (start + size) c.buffer bytes)
              bytes)
  unfolding write_loop
  write_loop-more fuel i start c bytes good h = if-true (good i) _ _ ∙ if-false (lt→leb h) _ _
    where
      lt→leb : {m n : ℕ} → m < n → leb n m ≡ false
      lt→leb h = ground (arith, h)

  continue :
      (start : ℕ) (c : Chunk) (bytes : Bytes) (later : List Chunk × End)
      → start + size < length bytes
      → Carries size (drop start bytes) c.buffer
      → Delivers (drop (start + size) bytes) later
      → Delivers (drop start bytes) (after c later)
  continue start c bytes later h k (e, rest) = (
    e,
    part_of (drop start bytes) c.buffer (sent later.0) (omega (arith, h, length-drop start bytes)) k
        (subst (λ r. take (length r) (sent later.0) ≡ r) (sym (drop-drop size start bytes)) rest),
  )

  write_loop-Delivers :
      (fuel i start : ℕ) (c : Chunk) (bytes : Bytes)
      → AllGoOn
      → 0 < size
      → start ≤ length bytes
      → length bytes < fuel + start
      → Carries size (drop start bytes) c.buffer
      → Delivers (drop start bytes) (write_loop size reply fuel i start c bytes)
  write_loop-Delivers zero i start c bytes good some_size inside enough k =
      absurd (omega (arith, inside, enough))
  write_loop-Delivers (suc fuel) i start c bytes good some_size inside enough k =
      elim (split_at (length bytes) (start + size)) [
        | inl h ↦
            subst (Delivers (drop start bytes)) (sym (write_loop-done fuel i start c bytes good h))
              (refl, all_of (omega (arith, h, length-drop start bytes)) k)
        | inr h ↦
            subst (Delivers (drop start bytes)) (sym (write_loop-more fuel i start c bytes good h))
              (continue start c bytes
                (write_loop size reply fuel (suc i) (start + size)
                  (next_chunk size reply (reply i).1 (start + size) c.buffer bytes) bytes)
                h k
                (write_loop-Delivers fuel (suc i) (start + size)
                  (next_chunk size reply (reply i).1 (start + size) c.buffer bytes) bytes good
                  some_size (omega (arith, h)) (omega (arith, enough, some_size))
                  (next_chunk-Carries (reply i).1 (start + size) c.buffer bytes k.fits)))
      ]
    where
      split_at : (m n : ℕ) → (m ≤ n) ⊎ (n < m)
      split_at m n = ground arith

  first_chunk-Carries :
      (buffer bytes : Bytes)
      → length buffer ≡ size
      → Carries size bytes (first_chunk size reply buffer bytes).buffer
  unfolding first_chunk
  first_chunk-Carries buffer bytes h = elim (Bool-cases (leb (length bytes) size)) [
    | inl whole ↦
        subst (λ (c : Chunk). Carries size bytes c.buffer) (sym (if-true whole _ _))
          (copy-Carries size buffer _ _ h refl)
    | inr more ↦
        subst (λ (c : Chunk). Carries size bytes c.buffer) (sym (if-false more _ _))
          (copy-Carries size buffer _ _ h (take-take size bytes))
  ]

  -- What the first call of the loop announces.
  write_loop-announced :
      (fuel i start : ℕ) (c : Chunk) (bytes : Bytes)
      → AllGoOn
      → announced ((write_loop size reply (suc fuel) i start c bytes).0) ≡ c.amount
  write_loop-announced fuel i start c bytes good = elim (split_at (length bytes) (start + size)) [
    | inl h ↦ ap (λ r. announced r.0) (write_loop-done fuel i start c bytes good h)
    | inr h ↦ ap (λ r. announced r.0) (write_loop-more fuel i start c bytes good h)
  ]
    where
      split_at : (m n : ℕ) → (m ≤ n) ⊎ (n < m)
      split_at m n = ground arith

  first_chunk-amount :
      (buffer bytes : Bytes) → (first_chunk size reply buffer bytes).amount ≡ length bytes
  unfolding first_chunk
  first_chunk-amount buffer bytes = elim (Bool-cases (leb (length bytes) size)) [
    | inl h ↦ ap (λ (c : Chunk). c.amount) (if-true h _ _)
    | inr h ↦ ap (λ (c : Chunk). c.amount) (if-false h _ _)
  ]

  -- With a buffer of the fixed size, which is not 0, and an OCI that accepts every piece, the loop
  -- of `ociLobWrite` ends without an error within as many rounds as there are bytes and one; the
  -- amount that its first call announces is the number of the bytes, and the first so many bytes of
  -- the buffers that it has handed over, one after the other, are the bytes.
  pub lob_write-Delivers :
      (buffer bytes : Bytes)
      → AllGoOn
      → 0 < size
      → length buffer ≡ size
      → IsWritten bytes (lob_write size reply (suc (length bytes)) buffer bytes)
  unfolding lob_write
  lob_write-Delivers buffer bytes good some_size h =
      let c = first_chunk size reply buffer bytes in
      let (ends, whole) =
        write_loop-Delivers (suc (length bytes)) 0 0 c bytes good some_size (omega arith)
          (omega arith) (first_chunk-Carries buffer bytes h) in
      let w = write_loop size reply (suc (length bytes)) 0 0 c bytes in
      let amount =
        write_loop-announced (length bytes) 0 0 c bytes good ∙ first_chunk-amount buffer bytes in
      (ends, amount, subst (λ n. take n (sent w.0) ≡ bytes) (sym amount) whole)
