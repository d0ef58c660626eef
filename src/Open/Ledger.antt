-- ===== src/Open/Ledger.antt =====
-- What a connection holds of OCI, and which sequences of calls keep order in it: nothing is obtained
-- twice or released twice, a call is given only what is held, and nothing is released that
-- something held still needs.
use go_oci.Prelude.{
  ℕ, Bool, true, false, not, ◌&&◌, ◌||◌, Option, none, some, List, [], ◌∷◌, ◌==◌, if◌then◌else◌,
  ◌++◌, ◌≡◌, refl, inl, inr, Option-cases,
}

-- The handles, the attachment to a server, a session that has begun, and the three C strings that
-- `Open` makes.
pub data Resource : Type 0 where
  env error server attached service session begun trans : Resource
  connect_string username_string password_string : Resource

-- The attributes that `Open` sets.
pub data Attribute : Type 0 where
  server username password session stmt_cache_size trans : Attribute

pub data Event : Type 0 where
  obtained released : Resource → Event
  sets : Attribute → Event

abbrev rank : Resource → ℕ
rank Resource.env = 0
rank Resource.error = 1
rank Resource.server = 2
rank Resource.attached = 3
rank Resource.service = 4
rank Resource.session = 5
rank Resource.begun = 6
rank Resource.trans = 7
rank Resource.connect_string = 8
rank Resource.username_string = 9
rank Resource.password_string = 10

abbrev holds : Resource → List Resource → Bool
holds r [] = false
holds r (s ∷ ss) = rank r == rank s || holds r ss

abbrev hold_all : List Resource → List Resource → Bool
hold_all [] held = true
hold_all (r ∷ rs) held = holds r held && hold_all rs held

abbrev remove : Resource → List Resource → List Resource
remove r [] = []
remove r (s ∷ ss) = if rank r == rank s then ss else s ∷ remove r ss

-- What the calls are given that obtain the resource or that end it, other than itself.
abbrev pub needs : Resource → List Resource
needs Resource.env = []
needs Resource.attached = Resource.server ∷ Resource.error ∷ []
needs Resource.begun = Resource.service ∷ Resource.error ∷ Resource.session ∷ Resource.attached ∷ []
needs Resource.connect_string = []
needs Resource.username_string = []
needs Resource.password_string = []
needs _ = Resource.env ∷ []

-- What the call is given that sets the attribute.
abbrev pub needs_to_set : Attribute → List Resource
needs_to_set Attribute.server = Resource.service ∷ Resource.server ∷ Resource.error ∷ []
needs_to_set Attribute.username = Resource.session ∷ Resource.error ∷ []
needs_to_set Attribute.password = Resource.session ∷ Resource.error ∷ []
needs_to_set Attribute.session = Resource.service ∷ Resource.begun ∷ Resource.error ∷ []
needs_to_set Attribute.stmt_cache_size = Resource.service ∷ Resource.error ∷ []
needs_to_set Attribute.trans = Resource.service ∷ Resource.trans ∷ Resource.error ∷ []

-- Something that is held needs the resource.
abbrev is_needed : Resource → List Resource → Bool
is_needed r [] = false
is_needed r (s ∷ ss) = holds r (needs s) || is_needed r ss

pub record_event : Event → List Resource → Option (List Resource)
record_event (Event.obtained r) held =
    if hold_all (needs r) held && not (holds r held) then some (r ∷ held) else none
record_event (Event.released r) held =
    if holds r held && not (is_needed r held) then some (remove r held) else none
record_event (Event.sets a) held = if hold_all (needs_to_set a) held then some held else none

abbrev pub and_then :
    Option (List Resource) → (List Resource → Option (List Resource)) → Option (List Resource)
and_then none f = none
and_then (some held) f = f held

-- What is held after calls, or nothing where a call is out of order.
unfoldable pub replay : List Event → List Resource → Option (List Resource)
unfolding record_event
replay [] held = some held
replay (e ∷ es) held = and_then (record_event e held) (replay es)

pub replay-append :
    (es fs : List Event) (held : List Resource)
    → replay (es ++ fs) held ≡ and_then (replay es held) (replay fs)
unfolding replay
replay-append [] fs held = refl
replay-append (e ∷ es) fs held = elim (Option-cases (record_event e held)) [
  | inl h ↦ rw h (refl)
  | inr (held', h) ↦ rw h (replay-append es fs held')
]
