-- ===== src/Lob.antt =====
-- Large objects: connection.go's `ociLobWrite` and `ociLobRead`, which move the bytes in pieces
-- through a buffer of a fixed size. What OCI does is a parameter: its reply to each call.
pub mod Write
pub mod Order
pub mod Read
use go_oci.Prelude.{
  ℕ, zero, suc, ◌+◌, Bool, true, false, List, [], ◌∷◌, ◌++◌, Bytes, length, take, drop, ltb, leb,
  if◌then◌else◌,
}
use go_oci.Oci.{Sword}

-- `OCI_ONE_PIECE`, `OCI_FIRST_PIECE`, `OCI_NEXT_PIECE` and `OCI_LAST_PIECE`.
pub data Piece : Type 0 where
  one_piece first_piece next_piece last_piece : Piece

-- `copy(dst, src)`
abbrev pub copy : Bytes → Bytes → Bytes
copy dst src = take (length dst) src ++ drop (length src) dst

-- A call of `OCILobWrite2`: the amount, the piece, and the bytes of the buffer.
pub record Chunk : Type 0 where
  pub amount : ℕ
  pub piece : Piece
  pub buffer : Bytes

-- How a loop ends; the result of OCI stands for the error that `getError` makes of it.
pub data End : Type 0 where
  done : End
  failed : Sword → End
  out_of_range : End
  out_of_fuel : End

-- The results with which `OCILobWrite2` asks for more or is done.
abbrev pub goes_on : Sword → Bool
goes_on Sword.success = true
goes_on Sword.need_data = true
goes_on _ = false

-- A call put before the calls that follow it.
abbrev pub after : Chunk → List Chunk × End → List Chunk × End
after c (cs, e) = (c ∷ cs, e)

-- `size` is `lobBufferSize`; `reply i` is the result of the call with index `i` and the amount
-- that the call leaves in `writeBytes`.
module _ (size : ℕ) (reply : ℕ → Sword × ℕ) where
  -- The call after one that ends at `start`: the next or the last piece.
  unfoldable pub next_chunk : ℕ → ℕ → Bytes → Bytes → Chunk
  next_chunk written start buffer bytes =
      if ltb (start + size) (length bytes)
      then record {
        amount = written;
        piece = next_piece;
        buffer = copy buffer (take size (drop start bytes));
      }
      else record { amount = written; piece = last_piece; buffer = copy buffer (drop start bytes) }

  -- The loop of `ociLobWrite`: the calls that it makes and how it ends.
  unfoldable pub write_loop : ℕ → ℕ → ℕ → Chunk → Bytes → List Chunk × End
  write_loop zero i start c bytes = ([], out_of_fuel)
  write_loop (suc fuel) i start c bytes =
      let (result, written) = reply i in
      let rest =
        write_loop fuel (suc i) (start + size) (next_chunk written (start + size) c.buffer bytes)
          bytes in
      if goes_on result
      then (if leb (length bytes) (start + size) then (c ∷ [], done) else after c rest)
      else (c ∷ [], failed result)

  -- The piece and the buffer of the first call.
  unfoldable pub first_chunk : Bytes → Bytes → Chunk
  first_chunk buffer bytes =
      if leb (length bytes) size
      then record { amount = length bytes; piece = one_piece; buffer = copy buffer bytes }
      else record {
        amount = length bytes;
        piece = first_piece;
        buffer = copy buffer (take size bytes);
      }

  -- `ociLobWrite`, on a buffer from the pool.
  unfoldable pub lob_write : ℕ → Bytes → Bytes → List Chunk × End
  lob_write fuel buffer bytes = write_loop fuel 0 0 (first_chunk buffer bytes) bytes

-- `reply i` is the result of the call of `OCILobRead2` with index `i`, the number of bytes read and
-- the bytes of the buffer after it.
pub record Reply : Type 0 where
  pub result : Sword
  pub count : ℕ
  pub content : Bytes

abbrev pub needs_data : Sword → Bool
needs_data Sword.need_data = true
needs_data _ = false

-- `getError`, as how the function ends.
abbrev pub end_of : Sword → End
end_of Sword.success = done
end_of r = failed r

-- A call of `OCILobRead2`: the number of bytes to read, and the piece.
pub record Ask : Type 0 where
  pub amount : ℕ
  pub piece : Piece

-- The call of a round for a piece, whose number of bytes is set to 0 before each round.
abbrev pub asks_for : Piece → Ask
asks_for p = record { amount = 0; piece = p }

-- The piece of the next round.
abbrev pub piece_after : Piece → Piece
piece_after first_piece = next_piece
piece_after p = p

-- A call put before the calls that follow it.
abbrev pub after_ask : Ask → List Ask × Bytes × End → List Ask × Bytes × End
after_ask a (asks, bytes, e) = (a ∷ asks, bytes, e)

module _ (reply : ℕ → Reply) where
  -- The loop of `ociLobRead`: the calls that it makes, the bytes it has, and how it ends.
  unfoldable pub read_loop : ℕ → ℕ → Piece → Bytes → List Ask × Bytes × End
  read_loop zero i piece buffer = ([], buffer, out_of_fuel)
  read_loop (suc fuel) i piece buffer =
      let ask = asks_for piece in
      let r = reply i in
      let buffer' = if goes_on r.result then buffer ++ take r.count r.content else buffer in
      let rest = read_loop fuel (suc i) (piece_after piece) buffer' in
      if (if goes_on r.result then ltb (length r.content) r.count else false)
      then (ask ∷ [], buffer, out_of_range)
      else if needs_data r.result
      then after_ask ask rest
      else (ask ∷ [], buffer', end_of r.result)

  -- `ociLobRead`, given the result of `OCILobCharSetForm`.
  unfoldable pub lob_read : Sword → ℕ → List Ask × Bytes × End
  lob_read Sword.success fuel = read_loop fuel 0 first_piece []
  lob_read r fuel = ([], [], failed r)
