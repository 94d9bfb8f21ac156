-- ===== src/Common/Text.antt =====
-- Texts as lists of character codes, where the code walks them.
use Prim.Native.Nat.{ℕ}
use Prim.Native.Char.{code}
use Prim.Native.String
use Prim.Native.String.{String}
use mathlib.Core.Path.{◌≡◌, ap, ◌∙◌}
use text.Mathlib.TextLemmas.{nil-append, cons-append}
use mathlib.Core.Logic.{◌≢◌}
use native.Mathlib.Omega.{arith}
use mathlib.Core.Bool.{true, false}
use mathlib.Core.List.{List, [], ◌∷◌, ◌++◌}
pub use text.Mathlib.Text.{◌==◌ as str_eq}
pub use text.Mathlib.TextEquality.{eq_iff}
pub use text.Mathlib.TextPositions.{eq_refl}

-- The code points of a text.
abbrev pub codes : String → List ℕ
codes String.[] = []
codes (String.◌∷◌ c s) = code c ∷ codes s

-- a template literal: its parts, one behind the other
abbrev pub template : List String → String
template [] = ""
template (s ∷ parts) = String.◌++◌ s (template parts)

pub codes-append : (a b : String) → codes (String.◌++◌ a b) ≡ codes a ++ codes b
codes-append String.[] b = ap codes (nil-append b)
codes-append (String.◌∷◌ c s) b =
    ap codes (cons-append c s b) ∙ ap (λ l. code c ∷ l) (codes-append s b)

pub str_eq-false : {a b : String} → str_eq a b ≡ false → a ≢ b
str_eq-false {a} {b} e same =
    let h : str_eq a b ≡ true = (eq_iff a b).1 same in absurd (ground arith)
