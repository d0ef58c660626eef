-- ===== src/Defines/Shared.antt =====
-- rows.go, c_helpers.go: the defines of a cursor's rows. `Rows.Next` hands out a `Rows` whose defines
-- are `subDefines` of an entry of the outer rows: both see one array, in which `freeDefines` sets the
-- pointers to nil. `Close` of any of them may come first, and may be called again.
pub mod Parts
pub mod Once
use go_oci.Prelude.{
  ℕ, zero, suc, Bool, true, false, Option, none, some, List, [], ◌∷◌, ◌++◌, if◌then◌else◌,
}
use go_oci.Blocks.{Block, Entry, blocks_of}

-- An array of defines: each with its own pointers, whether `subDefines` is set, and the array that it
-- is or was set to, which the rows that were handed out still see.
pub data Array : Type 0 where
  end_of_array : Array
  define : Entry → Bool → Array → Array → Array

-- The pointers set to nil.
abbrev pub emptied : Entry → Entry
emptied e = record { index = e.index; counters = false; buffer = none }

-- `freeDefines`: the array after it.
unfoldable pub free_array : Array → Array
free_array end_of_array = end_of_array
free_array (define e linked subs rest) =
    let freed = free_array subs in
    define (emptied e) false (if linked then freed else subs) (free_array rest)

-- The blocks that it gives back.
unfoldable pub freed_array : Array → List Block
freed_array end_of_array = []
freed_array (define e linked subs rest) =
    let freed = freed_array subs in
    ((if linked then freed else []) ++ blocks_of e) ++ freed_array rest

-- The rows that see the array below the entries of a path: the outer rows for the empty path.
unfoldable pub free_at : List ℕ → Array → Array
unfolding free_array
free_at [] a = free_array a
free_at (i ∷ p) end_of_array = end_of_array
free_at (zero ∷ p) (define e linked subs rest) = define e linked (free_at p subs) rest
free_at (suc i ∷ p) (define e linked subs rest) = define e linked subs (free_at (i ∷ p) rest)

unfoldable pub freed_at : List ℕ → Array → List Block
unfolding freed_array
freed_at [] a = freed_array a
freed_at (i ∷ p) end_of_array = []
freed_at (zero ∷ p) (define e linked subs rest) = freed_at p subs
freed_at (suc i ∷ p) (define e linked subs rest) = freed_at (i ∷ p) rest

-- A `Rows` that the application has: the array it sees, and `closed`.
pub record Handle : Type 0 where
  pub path : List ℕ
  pub closed : Bool

-- The outer rows, the rows handed out by `Next`, and the defines that they share.
pub record System : Type 0 where
  pub defines : Array
  pub closed : Bool
  pub handles : List Handle

-- The handles after `Close` of the one with an index, and the path if it was open.
abbrev pub path_of : Handle → Option (List ℕ)
path_of h = if h.closed then none else some h.path

unfoldable pub close_handle : ℕ → List Handle → Option (List ℕ) × List Handle
close_handle k [] = (none, [])
close_handle zero (h ∷ hs) = (path_of h, record h { closed = true } ∷ hs)
close_handle (suc k) (h ∷ hs) = let (p, hs') = close_handle k hs in (p, h ∷ hs')

-- Which rows are closed: the outer ones, or the ones with an index.
pub data Which : Type 0 where
  outer : Which
  inner : ℕ → Which

abbrev pub free_path : Option (List ℕ) → Array → Array × List Block
free_path none a = (a, [])
free_path (some p) a = (free_at p a, freed_at p a)

-- `Rows.Close`, with the blocks that it gives back.
unfoldable pub close : Which → System → System × List Block
unfolding free_at freed_at close_handle
close outer s =
    if s.closed
    then (s, [])
    else (record s { defines = free_at [] s.defines; closed = true }, freed_at [] s.defines)
close (inner k) s =
    let (p, hs) = close_handle k s.handles in
    let (a, bs) = free_path p s.defines in (record s { defines = a; handles = hs }, bs)

-- Any sequence of calls of `Close`.
unfoldable pub closes : List Which → System → System × List Block
unfolding close
closes [] s = (s, [])
closes (w ∷ ws) s = let (s₁, bs) = close w s in let (s₂, more) = closes ws s₁ in (s₂, bs ++ more)

-- The blocks that the pointers in the array hold.
unfoldable pub live : Array → List Block
live end_of_array = []
live (define e linked subs rest) = (live subs ++ blocks_of e) ++ live rest
