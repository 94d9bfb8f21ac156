-- ===== src/Common/Decimal.antt =====
-- Numbers as texts, and texts cut at a separator.
use Prim.Native.Nat.{ℕ, zero, suc, ◌+◌, ◌-◌, ◌*◌, ◌/◌, ◌%◌}
use Prim.Native.String
use Prim.Native.String.{String}
use mathlib.Core.Bool.{Bool, ◌&&◌}
use mathlib.Core.Option.{Option, none, some}
use mathlib.Core.List.{List, [], ◌∷◌}
use foxplay_game.Common.Tests.{leb, ltb, ◌==◌, if◌then◌else◌}
use foxplay_game.Common.Lists.{get_elem?}

abbrev digits : List String
digits = "0" ∷ "1" ∷ "2" ∷ "3" ∷ "4" ∷ "5" ∷ "6" ∷ "7" ∷ "8" ∷ "9" ∷ []

abbrev digit : ℕ → String
digit d = elim (get_elem? digits d) [ none ↦ "" | some s ↦ s ]

show_from : ℕ → ℕ → String → String
show_from zero n behind = behind
show_from (suc fuel) n behind =
    let text = String.◌++◌ (digit (n % 10)) behind in
    let more = show_from fuel (n / 10) text in if ltb n 10 then text else more

-- `String(n)`; a number has fewer digits than its value plus one.
unfoldable pub show : ℕ → String
unfolding show_from
show n = show_from (suc n) n ""

-- The value of decimal digits behind those read so far.
unfoldable pub digits_value : ℕ → List ℕ → Option ℕ
digits_value acc [] = some acc
digits_value acc (c ∷ cs) = elim (leb b'0' c && leb c b'9') [
  | Bool.true ↦ digits_value (acc * 10 + (c - b'0')) cs
  | Bool.false ↦ none
]

abbrev cut : Bool → ℕ → List (List ℕ) → List (List ℕ)
cut Bool.true c parts = [] ∷ parts
cut Bool.false c [] = (c ∷ []) ∷ []
cut Bool.false c (part ∷ parts) = (c ∷ part) ∷ parts

-- `text.split(separator)` at one character
unfoldable pub split_on : ℕ → List ℕ → List (List ℕ)
split_on sep [] = [] ∷ []
split_on sep (c ∷ cs) = cut (c == sep) c (split_on sep cs)
