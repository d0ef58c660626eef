-- ===== src/Defines/Free.antt =====
-- What `freeDefines` gives back.
use go_oci.Prelude.{ℕ, ◌≡◌, refl, ap, ◌∙◌, some, List, ◌++◌, append_assoc}
use go_oci.Blocks.{Event, Block, replay, free_entry, blocks_of}
use go_oci.Blocks.Laws.{IsFreeable, replay_then, replay-free_entry}
use go_oci.Defines.{
  Tree, Forest, node, leaf, branch, free_tree, free_defines, blocks_of_tree, blocks_of_forest,
}

unfoldable mutual
  -- Every buffer in the defines is freed by the function that undoes its allocation.
  pub AreFreeableIn : Tree → Type 0
  AreFreeableIn (node e subs) = IsFreeable e.buffer × AreFreeable subs

  pub AreFreeable : Forest → Type 0
  AreFreeable leaf = Unit
  AreFreeable (branch t ts) = AreFreeableIn t × AreFreeable ts

two_parts :
    (es fs : List Event) (xs ys rest : List Block) (ps : List ℕ)
    → replay es (record { blocks = xs ++ (ys ++ rest); params = ps })
      ≡ some (record { blocks = ys ++ rest; params = ps })
    → replay fs (record { blocks = ys ++ rest; params = ps })
      ≡ some (record { blocks = rest; params = ps })
    → replay (es ++ fs) (record { blocks = (xs ++ ys) ++ rest; params = ps })
      ≡ some (record { blocks = rest; params = ps })
two_parts es fs xs ys rest ps h k =
    ap (λ bs. replay (es ++ fs) (record { blocks = bs; params = ps })) (append_assoc xs ys rest)
    ∙ replay_then es fs _ _ h
    ∙ k

mutual
  unfolding free_tree blocks_of_tree AreFreeableIn replay

  replay-free_tree :
      (t : Tree) (rest : List Block) (ps : List ℕ)
      → AreFreeableIn t
      → replay (free_tree t) (record { blocks = blocks_of_tree t ++ rest; params = ps })
        ≡ some (record { blocks = rest; params = ps })
  replay-free_tree (node e subs) rest ps (he, hs) =
      two_parts (free_defines subs) (free_entry e) (blocks_of_forest subs) (blocks_of e) rest ps
        (replay-free_defines subs (blocks_of e ++ rest) ps hs) (replay-free_entry e rest ps he)

  pub replay-free_defines :
      (ts : Forest) (rest : List Block) (ps : List ℕ)
      → AreFreeable ts
      → replay (free_defines ts) (record { blocks = blocks_of_forest ts ++ rest; params = ps })
        ≡ some (record { blocks = rest; params = ps })
  replay-free_defines leaf rest ps h = refl
  replay-free_defines (branch t ts) rest ps (ht, hts) =
      two_parts (free_tree t) (free_defines ts) (blocks_of_tree t) (blocks_of_forest ts) rest ps
        (replay-free_tree t (blocks_of_forest ts ++ rest) ps ht)
        (replay-free_defines ts rest ps hts)
