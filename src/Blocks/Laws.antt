-- ===== src/Blocks/Laws.antt =====
-- What freeing an entry does to what is held.
use go_oci.Prelude.{
  ℕ, ◌≡◌, refl, ap, ◌∙◌, Bool, true, false, Option, none, some, List, [], ◌∷◌, ◌++◌, ◌==◌, inl, inr,
  Option-cases, arith,
}
use go_oci.Oci.{Sqlt, Descriptor}
use go_oci.Column.{Allocation, descriptor_alloc, Release, descriptor_free, free_buffer}
use go_oci.Column.Buffers.{Undoes, by_free, by_descriptor_free}
use go_oci.Blocks.{
  Event, Block, Held, undoes, remove, record_event, and_then, replay, Entry, free_entry, blocks_of,
}

pub replay-append :
    (es fs : List Event) (h : Held) → replay (es ++ fs) h ≡ and_then (replay es h) (replay fs)
unfolding replay
replay-append [] fs h = refl
replay-append (e ∷ es) fs h = elim (Option-cases (record_event e h)) [
  | inl none_left ↦ rw none_left (refl)
  | inr (h', e') ↦ rw e' (replay-append es fs h')
]

pub replay_then :
    (es fs : List Event) (h h' : Held) → replay es h ≡ some h' → replay (es ++ fs) h ≡ replay fs h'
replay_then es fs h h' e = replay-append es fs h ∙ ap (λ o. and_then o (replay fs)) e

pub Undoes-undoes : {r : Release} {a : Allocation} → Undoes r a → undoes r a ≡ true
Undoes-undoes (by_free n e e') = rw (e, e') (refl)
Undoes-undoes (by_descriptor_free d e e') = rw (e, e') (itself d)
  where
    itself : (d : Descriptor) → undoes (descriptor_free d) (descriptor_alloc d) ≡ true
    itself Descriptor.lob = refl
    itself Descriptor.timestamp = refl
    itself Descriptor.timestamp_tz = refl
    itself Descriptor.timestamp_ltz = refl
    itself Descriptor.interval_ds = refl
    itself Descriptor.interval_ym = refl
    itself Descriptor.htype_stmt = refl

-- The buffer of an entry, if there is one, is freed by the function that undoes its allocation.
abbrev pub IsFreeable : Option (Sqlt × Allocation) → Type 0
IsFreeable none = Unit
IsFreeable (some (t, a)) = undoes (free_buffer t) a ≡ true

pub index_same : (i : ℕ) → (i == i) ≡ true
index_same i = ground arith

-- Freeing an entry gives back all that it owns.
pub replay-free_entry :
    (e : Entry) (rest : List Block) (ps : List ℕ)
    → IsFreeable e.buffer
    → replay (free_entry e) (record { blocks = blocks_of e ++ rest; params = ps })
      ≡ some (record { blocks = rest; params = ps })
unfolding replay free_entry remove
replay-free_entry e rest ps h = by_fields e.index e.counters e.buffer h
  where
    by_fields :
        (i : ℕ) (c : Bool) (b : Option (Sqlt × Allocation))
        → IsFreeable b
        → replay (free_entry (record { index = i; counters = c; buffer = b })) (record {
          blocks = blocks_of (record { index = i; counters = c; buffer = b }) ++ rest;
          params = ps;
        })
          ≡ some (record { blocks = rest; params = ps })
    by_fields i true (some (t, a)) h = rw (index_same i, h, index_same i, index_same i) (refl)
    by_fields i false (some (t, a)) h = rw (index_same i, h) (refl)
    by_fields i true none h = rw (index_same i, index_same i) (refl)
    by_fields i false none h = refl
