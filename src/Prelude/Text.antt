-- ===== src/Prelude/Text.antt =====
-- Functions of Go's strings package over native texts, which are measured in bytes.
use Prim.Native.Nat.{zero, ◌-◌}
use Prim.Native.String.{String, len, slice}
use mathlib.Core.Bool.{Bool, ◌&&◌}
use text.Mathlib.Text.{◌==◌, starts_with}
use dependecy_graph_auditor.Prelude.Tests.{leb, if◌then◌else◌}

abbrev pub has_prefix : String → String → Bool
has_prefix s t = starts_with s t

unfoldable pub has_suffix : String → String → Bool
has_suffix s t = leb (len t) (len s) && slice s (len s - len t) (len s) == t

unfoldable pub trim_prefix : String → String → String
trim_prefix s t = if has_prefix s t then slice s (len t) (len s) else s

unfoldable pub trim_suffix : String → String → String
unfolding has_suffix
trim_suffix s t = if has_suffix s t then slice s zero (len s - len t) else s
