-- ===== src/Prelude/Texts.antt =====
-- Equality of texts as a test that stays shut, with what it decides.
use Prim.Native.String.{String}
use mathlib.Core.Path.{◌≡◌}
use mathlib.Core.Logic.{◌↔◌}
use mathlib.Core.Bool.{Bool, true}
use text.Mathlib.Text.{◌==◌ as str_eq}
use text.Mathlib.TextEquality.{eq_iff}

unfoldable pub same : String → String → Bool
same a b = str_eq a b

pub same_iff : (a b : String) → (same a b ≡ true) ↔ (a ≡ b)
unfolding same
same_iff a b = eq_iff a b

pub same_refl : (a : String) → same a a ≡ true
same_refl a = (same_iff a a).1 (λ i. a)
