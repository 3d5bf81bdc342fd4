-- ===== src/Prelude/Text.antt =====
-- The tests of Rust's `str` that kernel names go through.
use Prim.Native.Nat.{◌-◌}
use Prim.Native.String.{String, len, slice}
use mathlib.Core.Bool.{Bool, ◌&&◌}
use text.Mathlib.Text.{◌==◌ as str_eq, find?}
use tensor_ash.Prelude.Tests.{leb, is_some}

unfoldable pub contains_text : String → String → Bool
contains_text s t = is_some (find? s t)

unfoldable pub ends_with : String → String → Bool
ends_with s t = leb (len t) (len s) && str_eq (slice s (len s - len t) (len s)) t
