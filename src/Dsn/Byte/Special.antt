-- ===== src/Dsn/Byte/Special.antt =====
-- How `shouldEscape` treats the bytes that mean something to the parser of a data source name.
use go_oci.Prelude.{◌≡◌, refl, true}
use go_oci.Dsn.Byte.{Encoding, path, host, user_password, query_component, should_escape}

pub percent_escaped : (mode : Encoding) → should_escape b'%' mode ≡ true
unfolding should_escape
percent_escaped path = refl
percent_escaped host = refl
percent_escaped user_password = refl
percent_escaped query_component = refl

pub space_escaped : (mode : Encoding) → should_escape b' ' mode ≡ true
unfolding should_escape
space_escaped path = refl
space_escaped host = refl
space_escaped user_password = refl
space_escaped query_component = refl
