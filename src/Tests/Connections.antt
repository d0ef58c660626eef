-- ===== src/Tests/Connections.antt =====
-- Inputs for the life of a connection.
use go_oci.Prelude.{◌≡◌, refl, true, [], ◌++◌, Bytes, Option, some, codes, ok, equal}
use go_oci.Oci.{Sword}
use go_oci.Source.{
  parse_dsn, parse_parts, parse_account, parse_target, apply_params, apply_param, initial,
}
use go_oci.Dsn.Split.{split, split_right, authority_at, parse_authority}
use go_oci.Dsn.Text.{has_prefix, last_index, index, index_any}
use go_oci.Dsn.Values.{lookup, insert, append_value, values_of}
use go_oci.Dsn.Escape.{unescape}
use go_oci.Dsn.Query.{parse_query}
use go_oci.Open.{Connection, connection, open_dsn, open_driver, close}
use go_oci.Open.Steps.{Replies, steps, with_env}
use go_oci.Open.Ledger.{replay}
use go_oci.Open.Balance.{LeavesOpened, open_driver-Leaves, close-open_driver}

-- A location is its name, and every name is known.
abbrev known : Bytes → Option Bytes
known s = some s

abbrev all_well : Replies
all_well = record {
  env_create = Sword.success;
  error_alloc = Sword.success;
  server_alloc = Sword.success;
  server_attach = Sword.success;
  service_alloc = Sword.success;
  set_server = Sword.success;
  session_alloc = Sword.success;
  set_username = Sword.success;
  set_password = Sword.success;
  session_begin = Sword.success_with_info;
  set_session = Sword.success;
  set_cache_size = Sword.success;
  trans_alloc = Sword.success;
  set_trans = Sword.success;
}

-- The password is wrong.
abbrev refused : Replies
refused = record all_well { session_begin = Sword.oci_error }

abbrev login : Bytes
login = codes "scott:tiger@db"

abbrev scott : Connection Bytes
scott =
    connection
      (record (initial (codes "UTC") known) {
        username = codes "scott";
        password = codes "tiger";
        connect = codes "db";
      })
      (record with_env {
        error_handle = true;
        server = true;
        service = true;
        user_session = true;
        tx_handle = true;
        done_server_attach = true;
        done_session_begin = true;
        log = (open_driver (codes "UTC") known all_well login).calls;
      })

scott_opens : (open_driver (codes "UTC") known all_well login).result ≡ ok scott
unfolding open_driver open_dsn steps parse_dsn parse_parts parse_account parse_target apply_params
    apply_param initial split_right last_index has_prefix parse_authority authority_at split index
    index_any unescape parse_query append_value values_of insert lookup equal
scott_opens = refl

open_driver-Leaves_example : LeavesOpened (open_driver (codes "UTC") known refused login)
open_driver-Leaves_example = open_driver-Leaves (codes "UTC") known refused login (record {
  env_create = refl;
  error_alloc = refl;
  server_alloc = refl;
  server_attach = refl;
  service_alloc = refl;
  session_alloc = refl;
  trans_alloc = refl;
})

close-open_driver_example :
    (replay
        ((open_driver (codes "UTC") known all_well login).calls
          ++ (close Sword.success Sword.oci_error scott).1)
        []
      ≡ some [])
    × ((close Sword.oci_error Sword.oci_error (close Sword.success Sword.oci_error scott).0).1 ≡ [])
    × ((close Sword.oci_error Sword.oci_error (close Sword.success Sword.oci_error scott).0).2
        ≡ Sword.success)
close-open_driver_example =
    close-open_driver (codes "UTC") known all_well login scott Sword.success Sword.oci_error
      Sword.oci_error Sword.oci_error scott_opens
