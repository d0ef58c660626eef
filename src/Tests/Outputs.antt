-- ===== src/Tests/Outputs.antt =====
-- Inputs for the type switches of binds and of outputs.
use go_oci.Prelude.{◌≡◌, true, false, [], ◌∷◌, codes, ok, arith}
use go_oci.Binds.Values.{GoValue, prepare, prepared, Input, Bind}
use go_oci.Binds.Sizes.{IsSized, prepare-IsSized}
use go_oci.Output.{Written, string_dest, read_dest}
use go_oci.Output.Echo.{untouched, given, text, read_dest-prepare}
use go_oci.Tests.Statements.{number}

abbrev out_string : Input
out_string = record {
  value = GoValue.string (codes "abc");
  is_out = true;
  is_in = true;
  is_nil = false;
}

prepare-IsSized_example : IsSized (prepare out_string number (GoValue.string (codes "abc")))
prepare-IsSized_example = prepare-IsSized out_string number (GoValue.string (codes "abc")) tt

read_dest-prepare_example :
    (b : Bind) × (prepare
        (given (GoValue.string (codes "abc")))
        number
        (GoValue.string (codes "abc"))
      ≡ prepared b)
    × (read_dest string_dest (untouched b (0 ∷ []) (ok [])) ≡ ok (Written.string (codes "abc")))
read_dest-prepare_example =
    read_dest-prepare (0 ∷ []) (ok []) string_dest (GoValue.string (codes "abc"))
      (Written.string (codes "abc")) number (text (codes "abc") (omega arith))
