-- ===== src/Base/Strings.antt =====
-- Texts that the code compares or answers as they are: paths, headers and messages.
use Prim.Native.String.{String, ◌++◌}
use mathlib.Core.Bool.{Bool, true}
use mathlib.Core.Path.{◌≡◌}
use mathlib.Core.Logic.{◌↔◌}
use text.Mathlib.TextEquality.{eq_iff}
use text.Mathlib.Text.{◌==◌, starts_with}

abbrev pub text_eq : String → String → Bool
text_eq s t = s == t

abbrev pub text_append : String → String → String
text_append s t = s ++ t

abbrev pub text_starts_with : String → String → Bool
text_starts_with s t = starts_with s t

pub text_eq_iff : (s t : String) → (text_eq s t ≡ true) ↔ (s ≡ t)
text_eq_iff s t = eq_iff s t
