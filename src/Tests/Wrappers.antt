-- ===== src/Tests/Wrappers.antt =====
-- Inputs for the functions that make one call of OCI.
use go_oci.Prelude.{◌≡◌, ◌↔◌, false, [], codes, ok, arith}
use go_oci.Prelude.Int.{pos}
use go_oci.Oci.{Sword, Sqlt}
use go_oci.Conn.{Diagnostic}
use go_oci.Wrapper.{Handles, BindStruct, Request, Reply, error_of, handle_alloc, bind_argument}
use go_oci.Wrapper.Binding.{Binds, bind_argument-Binds}

abbrev quiet : Diagnostic
quiet = record { result = Sword.no_data; code = pos 0; text = [] }

-- Handles are allocated, descriptors are not.
abbrev reply : Request → Reply
reply (handle_alloc env type size asked) = record {
  result = Sword.success;
  diagnostic = quiet;
  size = 0;
  handle = 4096;
  buffer = 8192;
}
reply q = record {
  result = Sword.invalid_handle;
  diagnostic = quiet;
  size = 0;
  handle = 0;
  buffer = 0;
}

abbrev handles : Handles
handles = record { env = 1; svc = 2; err = 3 }

abbrev bind : BindStruct
bind = record { pbuf = 64; max_size = 8; data_type = Sqlt.int; indicator = 80; length = 82 }

bind_argument-Binds_example :
    (q : Request) × Binds handles 5 false 0 (codes "id") bind q
    × (bind_argument reply handles 5 false 0 (codes "id") bind ≡ error_of (reply q))
    × ((bind_argument reply handles 5 false 0 (codes "id") bind ≡ ok tt)
        ↔ ((reply q).result ≡ Sword.success))
bind_argument-Binds_example =
    bind_argument-Binds reply handles 5 false 0 (codes "id") bind (omega arith)
