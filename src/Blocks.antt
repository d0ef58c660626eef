-- ===== src/Blocks.antt =====
-- The blocks and descriptors that an entry of a list of defines or of binds owns, and the sequences
-- of calls that keep order in them: what is given back is held, and is given back by the function
-- that undoes the one it came from.
pub mod Laws
use go_oci.Prelude.{
  ℕ, Bool, true, false, ◌&&◌, Option, none, some, List, [], ◌∷◌, ◌++◌, ◌==◌, if◌then◌else◌, length,
}
use go_oci.Oci.{Sqlt, Descriptor}
use go_oci.Column.{
  Allocation, malloc, descriptor_alloc, stmt_handle_alloc, Release, free, descriptor_free,
  free_buffer,
}

-- The pointers `length`, `indicator` and `pbuf` of an entry.
pub data Slot : Type 0 where
  length_slot indicator_slot buffer_slot : Slot

-- What is obtained and given back: a pointer of the entry with an index, and the descriptor of the
-- parameter with an index.
pub data Event : Type 0 where
  obtained : ℕ → Slot → Allocation → Event
  given_back : ℕ → Slot → Release → Event
  got_param : ℕ → Event
  freed_param : ℕ → Event

pub record Block : Type 0 where
  pub entry : ℕ
  pub slot : Slot
  pub allocation : Allocation

-- What is held: blocks, the first obtained first, and parameters, the last obtained first.
pub record Held : Type 0 where
  pub blocks : List Block
  pub params : List ℕ

abbrev pub same_slot : Slot → Slot → Bool
same_slot length_slot length_slot = true
same_slot indicator_slot indicator_slot = true
same_slot buffer_slot buffer_slot = true
same_slot _ _ = false

abbrev pub same_descriptor : Descriptor → Descriptor → Bool
same_descriptor Descriptor.lob Descriptor.lob = true
same_descriptor Descriptor.timestamp Descriptor.timestamp = true
same_descriptor Descriptor.timestamp_tz Descriptor.timestamp_tz = true
same_descriptor Descriptor.timestamp_ltz Descriptor.timestamp_ltz = true
same_descriptor Descriptor.interval_ds Descriptor.interval_ds = true
same_descriptor Descriptor.interval_ym Descriptor.interval_ym = true
same_descriptor Descriptor.htype_stmt Descriptor.htype_stmt = true
same_descriptor _ _ = false

-- Whether a function gives back what another returned.
abbrev pub undoes : Release → Allocation → Bool
undoes free (malloc n) = true
undoes (descriptor_free d) (descriptor_alloc d') = same_descriptor d d'
undoes _ _ = false

abbrev pub add_front : Block → Option (List Block) → Option (List Block)
add_front b none = none
add_front b (some bs) = some (b ∷ bs)

-- Without the block of a pointer, if the function gives it back.
pub remove : ℕ → Slot → Release → List Block → Option (List Block)
remove i s r [] = none
remove i s r (b ∷ bs) =
    let rest = remove i s r bs in
    if same_slot s b.slot && i == b.entry
    then (if undoes r b.allocation then some bs else none)
    else add_front b rest

abbrev pub with_blocks : Held → Option (List Block) → Option Held
with_blocks h none = none
with_blocks h (some bs) = some (record h { blocks = bs })

-- The descriptors of parameters are freed in the reverse order.
abbrev pub pop : ℕ → List ℕ → List Block → Option Held
pop i [] bs = none
pop i (j ∷ js) bs = if i == j then some (record { blocks = bs; params = js }) else none

abbrev pub record_event : Event → Held → Option Held
record_event (obtained i s a) h =
    some (record h { blocks = h.blocks ++ record { entry = i; slot = s; allocation = a } ∷ [] })
record_event (given_back i s r) h = with_blocks h (remove i s r h.blocks)
record_event (got_param i) h = some (record h { params = i ∷ h.params })
record_event (freed_param i) h = pop i h.params h.blocks

abbrev pub and_then : Option Held → (Held → Option Held) → Option Held
and_then none f = none
and_then (some h) f = f h

-- What is held after calls, or nothing where a call is out of order.
unfoldable pub replay : List Event → Held → Option Held
unfolding remove
replay [] h = some h
replay (e ∷ es) h = and_then (record_event e h) (replay es)

-- An entry of `defines` or `binds` as far as it owns something: whether `length` and `indicator` are
-- allocated, and if `pbuf` is not nil, the type that it is freed by and what it was obtained by.
pub record Entry : Type 0 where
  pub index : ℕ
  pub counters : Bool
  pub buffer : Option (Sqlt × Allocation)

abbrev pub free_pbuf : ℕ → Option (Sqlt × Allocation) → List Event
free_pbuf i none = []
free_pbuf i (some (t, a)) = given_back i buffer_slot (free_buffer t) ∷ []

abbrev pub free_counters : ℕ → Bool → List Event
free_counters i false = []
free_counters i true = given_back i length_slot free ∷ given_back i indicator_slot free ∷ []

-- The body of the loops of `freeDefines` and `freeBinds`, but for the defines below an entry.
unfoldable pub free_entry : Entry → List Event
free_entry e = free_pbuf e.index e.buffer ++ free_counters e.index e.counters

-- `C.malloc(C.sizeof_ub2)` and `C.malloc(C.sizeof_sb2)`
unfoldable pub obtain_counters : ℕ → List Event
obtain_counters i = obtained i length_slot (malloc 2) ∷ obtained i indicator_slot (malloc 2) ∷ []

abbrev pub pbuf_blocks : ℕ → Option (Sqlt × Allocation) → List Block
pbuf_blocks i none = []
pbuf_blocks i (some (t, a)) = record { entry = i; slot = buffer_slot; allocation = a } ∷ []

abbrev pub counter_blocks : ℕ → Bool → List Block
counter_blocks i false = []
counter_blocks i true =
    record { entry = i; slot = length_slot; allocation = malloc 2 }
    ∷ record { entry = i; slot = indicator_slot; allocation = malloc 2 }
    ∷ []

-- What an entry owns.
abbrev pub blocks_of : Entry → List Block
blocks_of e = counter_blocks e.index e.counters ++ pbuf_blocks e.index e.buffer
