-- ===== src/Open/Reaching.antt =====
-- oci8.go: the stages of `Open` in their order, each with what it holds.
use go_oci.Prelude.{◌≡◌, refl, Bool, true, false, List, [], ◌∷◌, ◌++◌}
use go_oci.Open.Steps
use go_oci.Open.Steps.{
  Replies, Opening, Progress, OpenError, with_env, has_info, ◌then◌, steps, clean_up,
}
use go_oci.Open.Ledger.{Resource, Attribute, Event, replay}
use go_oci.Open.Stages.{At, at, Reaches, then-Reaches, acquire-At, begin-At, set-At, go_on}

-- No call that obtains something, but for `OCISessionBegin`, replies `OCI_SUCCESS_WITH_INFO`, which
-- `Open` takes as an error although the call was done.
pub record NoInfo (r : Replies) : Type 0 where
  pub env_create : has_info r.env_create ≡ false
  pub error_alloc : has_info r.error_alloc ≡ false
  pub server_alloc : has_info r.server_alloc ≡ false
  pub server_attach : has_info r.server_attach ≡ false
  pub service_alloc : has_info r.service_alloc ≡ false
  pub session_alloc : has_info r.session_alloc ≡ false
  pub trans_alloc : has_info r.trans_alloc ≡ false

-- The variables after each of the calls that change them.
abbrev pub with_error : Opening
with_error = record with_env { error_handle = true }

abbrev pub with_server : Opening
with_server = record with_error { server = true }

abbrev pub with_attach : Opening
with_attach = record with_server { done_server_attach = true }

abbrev pub with_service : Opening
with_service = record with_attach { service = true }

abbrev pub with_session : Opening
with_session = record with_service { user_session = true }

abbrev pub with_begun : Opening
with_begun = record with_session { done_session_begin = true }

abbrev pub with_trans : Opening
with_trans = record with_begun { tx_handle = true }

-- What is held after each of them, the last obtained first.
abbrev strings_held : List Resource
strings_held =
    Resource.password_string ∷ Resource.username_string ∷ Resource.connect_string ∷ Resource.error
    ∷ Resource.env ∷ []

abbrev server_held : List Resource
server_held = Resource.attached ∷ Resource.server ∷ strings_held

abbrev session_held : List Resource
session_held = Resource.session ∷ Resource.service ∷ server_held

abbrev pub all_held : List Resource
all_held = Resource.trans ∷ Resource.begun ∷ session_held

module _ (r : Replies) where
  alloc_error-At :
      (o : Opening)
      → At with_env (Resource.env ∷ []) o
      → Reaches
          (NoInfo r)
          (At with_error (Resource.error ∷ Resource.env ∷ []))
          (Steps.alloc_error r o)
  unfolding Steps.alloc_error replay clean_up
  alloc_error-At o (at l h) =
      acquire-At (NoInfo r) r.error_alloc Resource.error _ with_env with_error (λ p. p.error_alloc)
        refl refl _ (at l h)

  make_strings-At :
      (o : Opening)
      → At with_error (Resource.error ∷ Resource.env ∷ []) o
      → Reaches (NoInfo r) (At with_error strings_held) (Progress.going (Steps.make_strings o))
  unfolding Reaches Steps.make_strings replay
  make_strings-At o (at l h) =
      let c = Event.obtained Resource.connect_string ∷ [] in
      let u = Event.obtained Resource.username_string ∷ [] in
      let p = Event.obtained Resource.password_string ∷ [] in
      at _ (go_on ((l ++ c) ++ u) p (go_on (l ++ c) u (go_on l c h)))

  alloc_server-At :
      (o : Opening)
      → At with_error strings_held o
      → Reaches
          (NoInfo r)
          (At with_server (Resource.server ∷ strings_held))
          (Steps.alloc_server r o)
  unfolding Steps.alloc_server replay clean_up
  alloc_server-At o (at l h) =
      acquire-At (NoInfo r) r.server_alloc Resource.server _ with_error with_server
        (λ p. p.server_alloc) refl refl _ (at l h)

  attach-At :
      (o : Opening)
      → At with_server (Resource.server ∷ strings_held) o
      → Reaches (NoInfo r) (At with_attach server_held) (Steps.attach r o)
  unfolding Steps.attach replay clean_up
  attach-At o (at l h) =
      acquire-At (NoInfo r) r.server_attach Resource.attached _ with_server with_attach
        (λ p. p.server_attach) refl refl _ (at l h)

  alloc_service-At :
      (o : Opening)
      → At with_attach server_held o
      → Reaches
          (NoInfo r)
          (At with_service (Resource.service ∷ server_held))
          (Steps.alloc_service r o)
  unfolding Steps.alloc_service replay clean_up
  alloc_service-At o (at l h) =
      acquire-At (NoInfo r) r.service_alloc Resource.service _ with_attach with_service
        (λ p. p.service_alloc) refl refl _ (at l h)

  alloc_session-At :
      (o : Opening)
      → At with_service (Resource.service ∷ server_held) o
      → Reaches (NoInfo r) (At with_session session_held) (Steps.alloc_session r o)
  unfolding Steps.alloc_session replay clean_up
  alloc_session-At o (at l h) =
      acquire-At (NoInfo r) r.session_alloc Resource.session _ with_service with_session
        (λ p. p.session_alloc) refl refl _ (at l h)

  begin_session-At :
      (o : Opening)
      → At with_session session_held o
      → Reaches (NoInfo r) (At with_begun (Resource.begun ∷ session_held)) (Steps.begin_session r o)
  unfolding Steps.begin_session replay clean_up
  begin_session-At o (at l h) =
      begin-At (NoInfo r) r.session_begin Resource.begun _ with_session with_begun refl refl _
        (at l h)

  alloc_trans-At :
      (o : Opening)
      → At with_begun (Resource.begun ∷ session_held) o
      → Reaches (NoInfo r) (At with_trans all_held) (Steps.alloc_trans r o)
  unfolding Steps.alloc_trans replay clean_up
  alloc_trans-At o (at l h) =
      acquire-At (NoInfo r) r.trans_alloc Resource.trans _ with_begun with_trans
        (λ p. p.trans_alloc) refl refl _ (at l h)

  set_credentials-At :
      (named : Bool) (o : Opening)
      → At with_session session_held o
      → Reaches (NoInfo r) (At with_session session_held) (Steps.set_credentials named r o)
  unfolding Reaches Steps.set_credentials replay clean_up
  set_credentials-At true o a =
      then-Reaches (NoInfo r) (At with_session session_held) (At with_session session_held) _ _
        (set-At (NoInfo r) Attribute.username Steps.username_attribute r.set_username with_session
          refl refl o a)
        (set-At (NoInfo r) Attribute.password Steps.password_attribute r.set_password with_session
          refl refl)
  set_credentials-At false o a = a

  set_cache-At :
      (cached : Bool) (o : Opening)
      → At with_begun (Resource.begun ∷ session_held) o
      → Reaches
          (NoInfo r)
          (At with_begun (Resource.begun ∷ session_held))
          (Steps.set_cache cached r o)
  unfolding Reaches Steps.set_cache replay clean_up
  set_cache-At true o a =
      set-At (NoInfo r) Attribute.stmt_cache_size Steps.stmt_cache_size r.set_cache_size with_begun
        refl refl o a
  set_cache-At false o a = a

  -- A stage after the stages before it.
  next_stage :
      {fl : Opening} {held : List Resource} (fl' : Opening) (held' : List Resource) (p : Progress)
      (f : Opening → Progress)
      → Reaches (NoInfo r) (At fl held) p
      → ((o : Opening) → At fl held o → Reaches (NoInfo r) (At fl' held') (f o))
      → Reaches (NoInfo r) (At fl' held') (p then f)
  next_stage fl' held' p f a b = then-Reaches (NoInfo r) (At _ _) (At _ _) p f a b

  -- `Open` reaches its end with all that a connection holds and the three C strings, or it has failed
  -- and nothing is left, unless a call that was done was taken as an error.
  pub steps-Reaches :
      (named cached : Bool) → Reaches (NoInfo r) (At with_trans all_held) (steps named cached r)
  unfolding steps replay clean_up
  steps-Reaches named cached =
      let s0 = alloc_error-At with_env (at (Event.obtained Resource.env ∷ []) refl) in
      let s1 = next_stage with_error strings_held _ _ s0 make_strings-At in
      let s2 = next_stage with_server (Resource.server ∷ strings_held) _ _ s1 alloc_server-At in
      let s3 = next_stage with_attach server_held _ _ s2 attach-At in
      let s4 = next_stage with_service (Resource.service ∷ server_held) _ _ s3 alloc_service-At in
      let s5 = next_stage with_service (Resource.service ∷ server_held) _ _ s4 (
        set-At (NoInfo r) Attribute.server Steps.server_context r.set_server with_service refl
          refl) in
      let s6 = next_stage with_session session_held _ _ s5 alloc_session-At in
      let s7 = next_stage with_session session_held _ _ s6 (set_credentials-At named) in
      let s8 = next_stage with_begun (Resource.begun ∷ session_held) _ _ s7 begin_session-At in
      let s9 = next_stage with_begun (Resource.begun ∷ session_held) _ _ s8 (
        set-At (NoInfo r) Attribute.session Steps.authentication_context r.set_session with_begun
          refl refl) in
      let s10 =
        next_stage with_begun (Resource.begun ∷ session_held) _ _ s9 (set_cache-At cached) in
      let s11 = next_stage with_trans all_held _ _ s10 alloc_trans-At in
      let s12 = next_stage with_trans all_held _ _ s11 (
        set-At (NoInfo r) Attribute.trans Steps.service_context r.set_trans with_trans refl refl) in
      s12
