-- ===== src/Lob/Read.antt =====
-- What `ociLobRead` returns.
use go_oci.Prelude.{
  ℕ, zero, suc, ◌+◌, ◌<◌, ◌≤◌, ◌≡◌, refl, sym, ap, subst, ◌∙◌, false, Bool, List, replicate, [],
  ◌∷◌, ◌++◌, append-nil, append_assoc, Bytes, length, take, arith, ltb, if◌then◌else◌,
}
use go_oci.Oci.{Sword}
use go_oci.Lob.{
  Piece, first_piece, next_piece, Ask, asks_for, piece_after, after_ask, End, failed, out_of_range,
  goes_on, end_of, Reply, needs_data, read_loop, lob_read,
}

module _ (reply : ℕ → Reply) where
  -- The bytes of `n` replies, from the one with an index on.
  abbrev pub received : ℕ → ℕ → Bytes
  received i zero = []
  received i (suc n) = take (reply i).count (reply i).content ++ received (suc i) n

  -- No reply claims more bytes than its buffer has.
  abbrev pub CountsFit : Type 0
  CountsFit = (i : ℕ) → (reply i).count ≤ length (reply i).content

  -- The bytes of the reply that ends the loop.
  abbrev pub final : Reply → Bytes
  final r = if goes_on r.result then take r.count r.content else []

  le→ltb : {m n : ℕ} → m ≤ n → ltb n m ≡ false
  le→ltb h = ground (arith, h)

  -- The round that ends the loop, for each result that does.
  finish :
      (a : Ask) (r : Sword) (b : Bool) (buffer piece : Bytes) (rest : List Ask × Bytes × End)
      → b ≡ false
      → needs_data r ≡ false
      → (if if goes_on r then b else false
          then (a ∷ [], buffer, out_of_range)
          else if needs_data r
          then rest
          else (a ∷ [], (if goes_on r then buffer ++ piece else buffer), end_of r))
        ≡ (a ∷ [], buffer ++ (if goes_on r then piece else []), end_of r)
  finish a Sword.success b buffer piece rest e h = rw e
  finish a Sword.need_data b buffer piece rest e h = absurd cc
  finish a r b buffer piece rest e h = ap (λ s. (a ∷ [], s, failed r)) (sym (append-nil buffer))

  add_zero : (i : ℕ) → i + 0 ≡ i
  add_zero i = omega arith

  zero_add : (i : ℕ) → i ≡ 0 + i
  zero_add i = omega arith

  add_suc : (i k : ℕ) → i + suc k ≡ suc i + k
  add_suc i k = omega arith

  -- The calls of the loop, the bytes before the last reply with it, and how the loop ends.
  abbrev closed_by : List Ask → Bytes → Reply → List Ask × Bytes × End
  closed_by asks p r = (asks, p ++ final r, end_of r.result)

  ending :
      {m n : ℕ} {p : Bytes}
      → (asks : List Ask) → m ≡ n
      → (q : Bytes) → p ≡ q
      → closed_by asks p (reply m) ≡ closed_by asks q (reply n)
  ending {m} {n} asks h q e =
      ap (λ p. closed_by asks p (reply m)) e ∙ ap (λ k. closed_by asks q (reply k)) h

  step :
      (fuel i : ℕ) (piece : Piece) (buffer : Bytes)
      → CountsFit
      → (reply i).result ≡ Sword.need_data
      → read_loop reply (suc fuel) i piece buffer
        ≡ after_ask (asks_for piece) (
            read_loop reply fuel
              (suc i)
              (piece_after piece)
              (buffer ++ take (reply i).count (reply i).content))
  unfolding read_loop
  step fuel i piece buffer fit h = rw (h, le→ltb (fit i))

  stop :
      (fuel i : ℕ) (piece : Piece) (buffer : Bytes)
      → CountsFit
      → needs_data (reply i).result ≡ false
      → read_loop reply (suc fuel) i piece buffer ≡ closed_by (asks_for piece ∷ []) buffer (reply i)
  unfolding read_loop
  stop fuel i piece buffer fit h =
      finish (asks_for piece) (reply i).result _ buffer _ _ (le→ltb (fit i)) h

  -- The calls of a loop of so many rounds and one.
  unfoldable rounds : Piece → ℕ → List Ask
  rounds piece zero = asks_for piece ∷ []
  rounds piece (suc n) = asks_for piece ∷ rounds (piece_after piece) n

  read_loop-received :
      (n i : ℕ) (piece : Piece) (buffer : Bytes)
      → CountsFit
      → ((k : ℕ) → k < n → (reply (i + k)).result ≡ Sword.need_data)
      → needs_data (reply (i + n)).result ≡ false
      → read_loop reply (suc n) i piece buffer
        ≡ closed_by (rounds piece n) (buffer ++ received i n) (reply (i + n))
  unfolding rounds
  read_loop-received zero i piece buffer fit more over =
      stop 0 i piece buffer fit (subst (λ k. needs_data (reply k).result ≡ false) (add_zero i) over)
      ∙ ending (asks_for piece ∷ []) (sym (add_zero i)) (buffer ++ []) (sym (append-nil buffer))
  read_loop-received (suc n) i piece buffer fit more over =
      let content = take (reply i).count (reply i).content in
      step (suc n) i piece buffer fit
        (subst (λ k. (reply k).result ≡ Sword.need_data) (add_zero i) (more 0 (omega arith)))
      ∙ ap (after_ask (asks_for piece)) (
          read_loop-received n (suc i) (piece_after piece) (buffer ++ content) fit
            (λ k h.
              subst (λ j. (reply j).result ≡ Sword.need_data) (add_suc i k)
                (more (suc k) (omega (arith, h))))
            (subst (λ k. needs_data (reply k).result ≡ false) (add_suc i n) over))
      ∙ ending (rounds piece (suc n)) (sym (add_suc i n))
          (buffer ++ (content ++ received (suc i) n))
          (append_assoc buffer content (received (suc i) n))

  rounds-next :
      (n : ℕ) → rounds next_piece n ≡ asks_for next_piece ∷ replicate n (asks_for next_piece)
  unfolding rounds
  rounds-next zero = refl
  rounds-next (suc n) = ap (◌∷◌ (asks_for next_piece)) (rounds-next n)

  rounds-first :
      (n : ℕ) → rounds first_piece n ≡ asks_for first_piece ∷ replicate n (asks_for next_piece)
  unfolding rounds
  rounds-first zero = refl
  rounds-first (suc n) = ap (◌∷◌ (asks_for first_piece)) (rounds-next n)

  -- When OCI asks to go on `n` times and then does not, and never claims more bytes than the buffer
  -- has, the loop of `ociLobRead` ends after one round more. It has asked for the first piece once
  -- and then `n` times for the next piece, each time with 0 as the number of bytes. It returns the
  -- bytes of those replies, in order, and of the last one if that succeeded, and the error of the
  -- last result.
  pub lob_read-received :
      (n : ℕ)
      → CountsFit
      → ((k : ℕ) → k < n → (reply k).result ≡ Sword.need_data)
      → needs_data (reply n).result ≡ false
      → lob_read reply Sword.success (suc n) ≡ (
        asks_for first_piece ∷ replicate n (asks_for next_piece),
        received 0 n ++ final (reply n),
        end_of (reply n).result,
      )
  unfolding lob_read
  lob_read-received n fit more over =
      read_loop-received n 0 first_piece [] fit
        (λ k h. subst (λ j. (reply j).result ≡ Sword.need_data) (zero_add k) (more k h))
        (subst (λ k. needs_data (reply k).result ≡ false) (zero_add n) over)
      ∙ ending (rounds first_piece n) (sym (zero_add n)) (received 0 n) refl
      ∙ ap (λ asks. closed_by asks (received 0 n) (reply n)) (rounds-first n)
