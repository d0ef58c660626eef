-- ===== src/Open/Steps.antt =====
-- oci8.go: the calls of `Open` in their order, and the deferred function that cleans up.
use go_oci.Prelude.{Bool, true, false, ◌||◌, List, [], ◌∷◌, ◌++◌}
use go_oci.Oci.{Sword}
use go_oci.Source.{DsnError}
use go_oci.Open.Ledger.{Resource, Attribute, Event}

-- What an error of `Open` says: the text in front of it, if there is one.
pub data Stage : Type 0 where
  server_handle service_handle server_context user_session_handle username_attribute : Stage
  password_attribute authentication_context stmt_cache_size transaction_handle : Stage
  service_context : Stage

pub data OpenError : Type 0 where
  dsn_error : DsnError → OpenError
  env_create_error error_handle_error : OpenError
  oci_error : Sword → OpenError
  wrapped : Stage → Sword → OpenError

-- The results of the calls of OCI, in the order in which they are made.
pub record Replies : Type 0 where
  pub env_create : Sword
  pub error_alloc : Sword
  pub server_alloc : Sword
  pub server_attach : Sword
  pub service_alloc : Sword
  pub set_server : Sword
  pub session_alloc : Sword
  pub set_username : Sword
  pub set_password : Sword
  pub session_begin : Sword
  pub set_session : Sword
  pub set_cache_size : Sword
  pub trans_alloc : Sword
  pub set_trans : Sword

-- The variables that the deferred function looks at: which handles are not nil, and which of the
-- flags are set, with the calls that were made, the first one first.
pub record Opening : Type 0 where
  pub error_handle : Bool
  pub server : Bool
  pub service : Bool
  pub user_session : Bool
  pub tx_handle : Bool
  pub done_server_attach : Bool
  pub done_session_begin : Bool
  pub log : List Event

pub data Progress : Type 0 where
  going : Opening → Progress
  failed : OpenError → Opening → Progress

infixl 5 ◌then◌
abbrev pub ◌then◌ : Progress → (Opening → Progress) → Progress
going o then f = f o
failed e o then f = failed e o

-- `result == C.OCI_SUCCESS`, and the test of `OCISessionBegin`.
abbrev pub is_success : Sword → Bool
is_success Sword.success = true
is_success _ = false

abbrev pub has_info : Sword → Bool
has_info Sword.success_with_info = true
has_info _ = false

abbrev pub is_success_or_info : Sword → Bool
is_success_or_info r = is_success r || has_info r

-- A call that goes well changes the variables, and one that does not ends `Open`.
abbrev pub called : Bool → OpenError → Opening → Opening → Progress
called true e o o' = going o'
called false e o o' = failed e o

abbrev pub logged : Event → Opening → Opening
logged e o = record o { log = o.log ++ e ∷ [] }

abbrev pub when : Bool → Event → List Event
when true e = e ∷ []
when false e = []

-- What OCI has obtained after its reply: `OCI_SUCCESS` and `OCI_SUCCESS_WITH_INFO` both say that the
-- call was done, whatever the code makes of them.
abbrev pub replied : Sword → Resource → Opening → Opening
replied r x o = record o { log = o.log ++ when (is_success_or_info r) (Event.obtained x) }

-- The calls up to the environment handle are not undone by the deferred function.
abbrev pub with_env : Opening
with_env = record {
  error_handle = false;
  server = false;
  service = false;
  user_session = false;
  tx_handle = false;
  done_server_attach = false;
  done_session_begin = false;
  log = Event.obtained Resource.env ∷ [];
}

-- The zero value.
abbrev pub no_handles : Opening
no_handles = record with_env { log = [] }

unfoldable pub alloc_error : Replies → Opening → Progress
alloc_error r o =
    let o' = replied r.error_alloc Resource.error o in
    called (is_success r.error_alloc) error_handle_error o' (record o' { error_handle = true })

unfoldable pub alloc_server : Replies → Opening → Progress
alloc_server r o =
    let o' = replied r.server_alloc Resource.server o in
    called (is_success r.server_alloc) (wrapped server_handle r.server_alloc) o'
      (record o' { server = true })

unfoldable pub attach : Replies → Opening → Progress
attach r o =
    let o' = replied r.server_attach Resource.attached o in
    called (is_success r.server_attach) (oci_error r.server_attach) o'
      (record o' { done_server_attach = true })

unfoldable pub alloc_service : Replies → Opening → Progress
alloc_service r o =
    let o' = replied r.service_alloc Resource.service o in
    called (is_success r.service_alloc) (wrapped service_handle r.service_alloc) o'
      (record o' { service = true })

-- `ociAttrSet`, which changes no variable.
unfoldable pub set_attribute : Attribute → Stage → Sword → Opening → Progress
set_attribute a s r o =
    called (is_success r) (wrapped s r) (logged (Event.sets a) o) (logged (Event.sets a) o)

unfoldable pub alloc_session : Replies → Opening → Progress
alloc_session r o =
    let o' = replied r.session_alloc Resource.session o in
    called (is_success r.session_alloc) (wrapped user_session_handle r.session_alloc) o'
      (record o' { user_session = true })

unfoldable pub begin_session : Replies → Opening → Progress
begin_session r o =
    let o' = replied r.session_begin Resource.begun o in
    called (is_success_or_info r.session_begin) (oci_error r.session_begin) o'
      (record o' { done_session_begin = true })

unfoldable pub alloc_trans : Replies → Opening → Progress
alloc_trans r o =
    let o' = replied r.trans_alloc Resource.trans o in
    called (is_success r.trans_alloc) (wrapped transaction_handle r.trans_alloc) o'
      (record o' { tx_handle = true })

-- `if len(dsn.Username) > 0`
unfoldable pub set_credentials : Bool → Replies → Opening → Progress
unfolding set_attribute
set_credentials true r o =
    set_attribute Attribute.username username_attribute r.set_username o
    then set_attribute Attribute.password password_attribute r.set_password
set_credentials false r o = going o

-- `if dsn.stmtCacheSize > 0`
unfoldable pub set_cache : Bool → Replies → Opening → Progress
unfolding set_attribute
set_cache true r o = set_attribute Attribute.stmt_cache_size stmt_cache_size r.set_cache_size o
set_cache false r o = going o

-- The three calls of `cString`.
unfoldable pub make_strings : Opening → Opening
make_strings o = logged (Event.obtained Resource.password_string) (
    logged (Event.obtained Resource.username_string)
      (logged (Event.obtained Resource.connect_string) o))

-- From the error handle on.
unfoldable pub steps : Bool → Bool → Replies → Progress
unfolding make_strings alloc_error alloc_server attach alloc_service set_attribute alloc_session
    set_credentials begin_session set_cache alloc_trans
steps named cached r =
    alloc_error r with_env
    then (λ o. going (make_strings o))
    then alloc_server r
    then attach r
    then alloc_service r
    then set_attribute Attribute.server server_context r.set_server
    then alloc_session r
    then set_credentials named r
    then begin_session r
    then set_attribute Attribute.session authentication_context r.set_session
    then set_cache cached r
    then alloc_trans r
    then set_attribute Attribute.trans service_context r.set_trans

-- The frees of the C strings, which are deferred once the error handle is there, the last first.
abbrev pub string_frees : Opening → List Event
string_frees o =
    when o.error_handle (Event.released Resource.password_string)
    ++ when o.error_handle (Event.released Resource.username_string)
    ++ when o.error_handle (Event.released Resource.connect_string)

abbrev pub free_strings : Opening → Opening
free_strings o = record o { log = o.log ++ string_frees o }

-- The deferred function after an error.
unfoldable pub clean_up : Opening → List Event
clean_up o =
    when o.done_session_begin (Event.released Resource.begun)
    ++ when o.done_server_attach (Event.released Resource.attached)
    ++ when o.tx_handle (Event.released Resource.trans)
    ++ when o.user_session (Event.released Resource.session)
    ++ when o.service (Event.released Resource.service)
    ++ when o.server (Event.released Resource.server)
    ++ when o.error_handle (Event.released Resource.error)
    ++ Event.released Resource.env ∷ []
