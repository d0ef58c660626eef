-- ===== src/Defines/Shared/Parts.antt =====
-- Lists of blocks of which some are given back and the others are left.
use mathlib.Core.List.{Perm, perm_append_comm}
use mathlib.Core.List.Perm
use go_oci.Prelude.{◌≡◌, sym, subst, List, [], ◌++◌, append-nil, append_assoc}
use go_oci.Blocks.{Block}

same : {l k : List Block} → l ≡ k → Perm l k
same {l} e = subst (Perm l) e (Perm.refl l)

-- The middle two of four lists trade places.
exchange : (a b c d : List Block) → Perm ((a ++ b) ++ (c ++ d)) ((a ++ c) ++ (b ++ d))
exchange a b c d =
    Perm.trans (same (append_assoc a b (c ++ d)))
      (Perm.trans (Perm.append_left a inner_two) (same (sym (append_assoc a c (b ++ d)))))
  where
    inner_two : Perm (b ++ (c ++ d)) (c ++ (b ++ d))
    inner_two =
        Perm.trans (same (sym (append_assoc b c d)))
          (Perm.trans (Perm.append_right d (perm_append_comm b c)) (same (append_assoc c b d)))

-- Blocks that are given back, and those that are left.
pub record Parts (l freed left : List Block) : Type 0 where
  pub perm : Perm l (freed ++ left)

pub Parts-append :
    {l l' x x' y y' : List Block}
    → Parts l x y
    → Parts l' x' y'
    → Parts (l ++ l') (x ++ x') (y ++ y')
Parts-append {x = x} {x'} {y} {y'} p q = record {
  perm = Perm.trans (Perm.append p.perm q.perm) (exchange x y x' y');
}

pub none_left : (l : List Block) → Parts l l []
none_left l = record { perm = same (sym (append-nil l)) }

pub all_left : (l : List Block) → Parts l [] l
all_left l = record { perm = Perm.refl l }

pub Parts-before : {l x y : List Block} → Parts l x y → (k : List Block) → Parts (l ++ k) x (y ++ k)
Parts-before {x = x} {y} p k = record {
  perm = Perm.trans (Perm.append_right k p.perm) (same (append_assoc x y k));
}

pub Parts-behind : {l x y : List Block} → (k : List Block) → Parts l x y → Parts (k ++ l) x (k ++ y)
Parts-behind {x = x} {y} k p = record {
  perm = Perm.trans (Perm.append_left k p.perm) (exchange [] k x y);
}

pub Parts-then : {l x y x' z : List Block} → Parts l x y → Parts y x' z → Parts l (x ++ x') z
Parts-then {x = x} {x' = x'} {z} p q = record {
  perm =
      Perm.trans p.perm (Perm.trans (Perm.append_left x q.perm) (same (sym (append_assoc x x' z))));
}
