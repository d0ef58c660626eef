-- ===== src/Defines/Shared/Once.antt =====
-- Whatever the order of the calls of `Close`, each block is given back once.
use mathlib.Core.List.{Perm}
use mathlib.Core.List.Perm
use go_oci.Prelude.{
  Bool-cases, if-both, if-tested, inl, inr, ℕ, zero, suc, ◌≡◌, refl, sym, subst, Bool, true, false,
  Option, none, some, List, [], ◌∷◌, ◌++◌, if◌then◌else◌,
}
use go_oci.Blocks.{Block, blocks_of}
use go_oci.Defines.Shared.Parts.{
  Parts, Parts-append, none_left, all_left, Parts-before, Parts-behind, Parts-then,
}
use go_oci.Defines.Shared.{
  Array, Handle, end_of_array, define, free_array, freed_array, free_at, freed_at, free_path,
  System, Which, outer, inner, close, closes, close_handle, live,
}

free_array-Parts : (a : Array) → Parts (live a) (freed_array a) (live (free_array a))
unfolding free_array freed_array live
free_array-Parts end_of_array = all_left []
free_array-Parts (define e true subs rest) =
    Parts-append (Parts-append (free_array-Parts subs) (none_left (blocks_of e)))
      (free_array-Parts rest)
free_array-Parts (define e false subs rest) =
    Parts-append (Parts-append (all_left (live subs)) (none_left (blocks_of e)))
      (free_array-Parts rest)

free_at-Parts : (p : List ℕ) (a : Array) → Parts (live a) (freed_at p a) (live (free_at p a))
unfolding free_at freed_at live
free_at-Parts [] a = free_array-Parts a
free_at-Parts (i ∷ p) end_of_array = all_left []
free_at-Parts (zero ∷ p) (define e linked subs rest) =
    Parts-before (Parts-before (free_at-Parts p subs) (blocks_of e)) (live rest)
free_at-Parts (suc i ∷ p) (define e linked subs rest) =
    Parts-behind (live subs ++ blocks_of e) (free_at-Parts (i ∷ p) rest)

-- An array that an entry does not point to any more holds nothing.
unfoldable pub IsLinked : Array → Type 0
IsLinked end_of_array = Unit
IsLinked (define e linked subs rest) =
    (linked ≡ false → live subs ≡ []) × IsLinked subs × IsLinked rest

append-empty : (x y : List Block) → x ++ y ≡ [] → y ≡ []
append-empty [] y h = h
append-empty (b ∷ x) y h = absurd cc

-- Nothing comes of nothing.
stays_empty : {l x y : List Block} → Parts l x y → l ≡ [] → y ≡ []
stays_empty {x = x} {y} p h =
    append-empty x y (sym (Perm.nil-eq (subst (λ k. Perm k (x ++ y)) h p.perm)))

free_array-live : (a : Array) → IsLinked a → live (free_array a) ≡ []
unfolding free_array live IsLinked
free_array-live end_of_array l = refl
free_array-live (define e true subs rest) (h, ls, lr) =
    rw (free_array-live subs ls, free_array-live rest lr)
free_array-live (define e false subs rest) (h, ls, lr) = rw (h refl, free_array-live rest lr)

free_array-IsLinked : (a : Array) → IsLinked a → IsLinked (free_array a)
unfolding free_array IsLinked
free_array-IsLinked end_of_array l = l
free_array-IsLinked (define e true subs rest) (h, ls, lr) =
    ((λ n. free_array-live subs ls), free_array-IsLinked subs ls, free_array-IsLinked rest lr)
free_array-IsLinked (define e false subs rest) (h, ls, lr) = (h, ls, free_array-IsLinked rest lr)

free_at-IsLinked : (p : List ℕ) (a : Array) → IsLinked a → IsLinked (free_at p a)
unfolding free_at IsLinked
free_at-IsLinked [] a l = free_array-IsLinked a l
free_at-IsLinked (i ∷ p) end_of_array l = l
free_at-IsLinked (zero ∷ p) (define e linked subs rest) (h, ls, lr) =
    ((λ n. stays_empty (free_at-Parts p subs) (h n)), free_at-IsLinked p subs ls, lr)
free_at-IsLinked (suc i ∷ p) (define e linked subs rest) (h, ls, lr) =
    (h, ls, free_at-IsLinked (i ∷ p) rest lr)

-- Once the outer rows are closed nothing is held.
record Kept (s : System) : Type 0 where
  linked : IsLinked s.defines
  closed : s.closed ≡ true → live s.defines ≡ []

record Closing (s t : System) (freed : List Block) : Type 0 where
  parts : Parts (live s.defines) freed (live t.defines)
  kept : Kept t
  stays : s.closed ≡ true → t.closed ≡ true

free_path-Parts :
    (p : Option (List ℕ)) (a : Array) → Parts (live a) (free_path p a).1 (live (free_path p a).0)
free_path-Parts none a = all_left (live a)
free_path-Parts (some p) a = free_at-Parts p a

free_path-IsLinked : (p : Option (List ℕ)) (a : Array) → IsLinked a → IsLinked (free_path p a).0
free_path-IsLinked none a l = l
free_path-IsLinked (some p) a l = free_at-IsLinked p a l

close-Closing : (w : Which) (s : System) → Kept s → Closing s (close w s).0 (close w s).1
unfolding close
close-Closing (inner k) s h =
    let p = (close_handle k s.handles).0 in
    let parts = free_path-Parts p s.defines in
    record {
      parts = parts;
      kept = record {
        linked = free_path-IsLinked p s.defines h.linked;
        closed = λ c. stays_empty parts (h.closed c);
      };
      stays = λ c. c;
    }
close-Closing outer s h =
    let P : System × List Block → Type 0 = λ r. Closing s r.0 r.1 in
    if-both P s.closed (record { parts = all_left (live s.defines); kept = h; stays = λ c. c })
      (record {
        parts = free_array-Parts s.defines;
        kept = record {
          linked = free_array-IsLinked s.defines h.linked;
          closed = λ c. free_array-live s.defines h.linked;
        };
        stays = λ c. refl;
      })

closes-Closing : (ws : List Which) (s : System) → Kept s → Closing s (closes ws s).0 (closes ws s).1
unfolding closes
closes-Closing [] s h = record { parts = all_left (live s.defines); kept = h; stays = λ c. c }
closes-Closing (w ∷ ws) s h =
    let one = close-Closing w s h in
    let more = closes-Closing ws (close w s).0 one.kept in
    record {
      parts = Parts-then one.parts more.parts;
      kept = more.kept;
      stays = λ c. more.stays (one.stays c);
    }

-- Whether the outer rows are among those that are closed.
abbrev pub has_outer : List Which → Bool
has_outer [] = false
has_outer (outer ∷ ws) = true
has_outer (inner k ∷ ws) = has_outer ws

close-outer : (s : System) → (close outer s).0.closed ≡ true
unfolding close
close-outer s = elim (Bool-cases s.closed) [ inl c ↦ rw c refl | inr c ↦ rw c refl ]

closes-has_outer :
    (ws : List Which) (s : System) → Kept s → has_outer ws ≡ true → (closes ws s).0.closed ≡ true
unfolding closes
closes-has_outer [] s h e = absurd cc
closes-has_outer (outer ∷ ws) s h e =
    (closes-Closing ws (close outer s).0 (close-Closing outer s h).kept).stays (close-outer s)
closes-has_outer (inner k ∷ ws) s h e =
    closes-has_outer ws (close (inner k) s).0 (close-Closing (inner k) s h).kept e

-- The outer rows and the rows of cursors that `Next` has handed out, in whatever order and however
-- often `Close` is called on any of them, where an array that no entry points to holds nothing: what
-- is given back and what is held at the end is together, block for block, what was held before, so that
-- no block is given back twice; once the outer rows are among those closed nothing is held.
pub closes-perm :
    (ws : List Which) (a : Array) (hs : List Handle)
    → IsLinked a
    → (let (s, freed) = closes ws (record { defines = a; closed = false; handles = hs }) in
        Perm (live a) (freed ++ (if has_outer ws then [] else live s.defines)))
closes-perm ws a hs l =
    let s : System = record { defines = a; closed = false; handles = hs } in
    let h : Kept s = record { linked = l; closed = λ c. absurd cc } in
    let done = closes-Closing ws s h in
    let left : List Block = live (closes ws s).0.defines in
    let nothing : (if has_outer ws then [] else left) ≡ left =
      if-tested (λ x. x ≡ left) (has_outer ws)
        (λ e. sym (done.kept.closed (closes-has_outer ws s h e))) (λ e. refl) in
    subst (λ x. Perm (live a) ((closes ws s).1 ++ x)) (sym nothing) done.parts.perm
