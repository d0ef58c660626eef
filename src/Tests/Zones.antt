-- ===== src/Tests/Zones.antt =====
-- Inputs for time zones.
use go_oci.Prelude.{◌≡◌, refl, codes}
use go_oci.Prelude.Int.{ℤ, negsuc}
use go_oci.Zone.{zone_text, zone_name, format_int, append_small_int}

-- Half an hour behind three hours behind.
abbrev newfoundland : ℤ
newfoundland = negsuc 12599

zone_text-newfoundland : zone_text newfoundland ≡ codes "-03:30"
unfolding zone_text append_small_int
zone_text-newfoundland = refl

-- Minutes behind are named with a sign of their own.
zone_name-newfoundland : zone_name (negsuc 2) (negsuc 29) ≡ codes "-3:0-30"
unfolding zone_name format_int
zone_name-newfoundland = refl
