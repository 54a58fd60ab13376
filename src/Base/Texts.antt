-- ===== src/Base/Texts.antt =====
-- Texts that differ, and lists of texts.
use mathlib.Core.Path.{◌≡◌}
use mathlib.Core.Logic.{◌≢◌}
use mathlib.Core.Bool.{Bool, true, false}
use mathlib.Core.List.{List, [], ◌∷◌}
use kairos_agent.Base.Tests.{if◌then◌else◌}
use Prim.Native.String.{String}
use text.Mathlib.Text.{◌==◌ as str_eq}
use text.Mathlib.TextEquality.{eq_iff}

pub ne_of_str_eq : (s t : String) → str_eq s t ≡ false → s ≢ t
ne_of_str_eq s t e h = cc ((eq_iff s t).1 h)

abbrev pub member : String → List String → Bool
member k [] = false
member k (x ∷ l) = let later = member k l in if str_eq x k then true else later
