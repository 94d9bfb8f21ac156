-- ===== src/Editor.antt =====
-- frontend/features/functions/lib/json.ts, `handleJsonKeyDown`: the keys of the payload's text area.
-- A text is its list of code units; the caret is a selection that is empty.
pub mod Pairs
mod Tests
use Prim.Native.Nat.{max}
use foxplay_game.Common.{
  ℕ, zero, suc, ◌+◌, ◌-◌, Bool, true, false, ◌&&◌, ◌||◌, List, [], ◌∷◌, ◌++◌, Option, none, some,
  take, drop, length, get_elem?, ltb, ◌==◌, if◌then◌else◌,
}

pub record Area : Type 0 where
  pub value : List ℕ
  pub selection_start : ℕ
  pub selection_end : ℕ

pub data Key : Type 0 where
  unit : ℕ → Key
  backspace enter other : Key

-- What becomes of a key: the browser handles it, the caret moves, or the text changes.
pub data Effect : Type 0 where
  ignored : Effect
  moved : Area → Effect
  changed : Area → Effect

abbrev pub caret : List ℕ → ℕ → Area
caret value p = record { value = value; selection_start = p; selection_end = p }

-- `===` on code units or `undefined`
abbrev pub same_unit : Option ℕ → Option ℕ → Bool
same_unit none none = true
same_unit none (some _) = false
same_unit (some _) none = false
same_unit (some a) (some b) = a == b

-- `BRACKET_PAIRS[c]`
abbrev pub pair : ℕ → Option ℕ
pair c =
    if c == b'{'
    then some b'}'
    else if c == b'['
    then some b']'
    else if c == b'"'
    then some b'"'
    else none

abbrev pub pair_of : Option ℕ → Option ℕ
pair_of none = none
pair_of (some c) = pair c

abbrev pub is_closer : ℕ → Bool
is_closer c = c == b'}' || c == b']' || c == b'"'

-- the value that `setRangeText(text, start, end)` leaves
abbrev pub replace : List ℕ → ℕ → ℕ → List ℕ → List ℕ
replace value start end text = take start value ++ (text ++ drop end value)

-- `value.slice(start, end)`
abbrev pub slice : List ℕ → ℕ → ℕ → List ℕ
slice value start end = take (end - start) (drop start value)

-- an opening bracket or quote with its closer
unfoldable pub type_pair : ℕ → ℕ → Area → Effect
type_pair opener closer a =
    if a.selection_start == a.selection_end
    then changed (
        caret (replace a.value a.selection_start a.selection_end (opener ∷ closer ∷ []))
          (a.selection_start + 1))
    else let text = opener ∷ (slice a.value a.selection_start a.selection_end ++ closer ∷ []) in
      changed (
        caret (replace a.value a.selection_start a.selection_end text)
          (a.selection_start + length text))

unfoldable pub type_unit : ℕ → Area → Effect
unfolding type_pair
type_unit c a =
    if is_closer c
      && a.selection_start == a.selection_end
      && same_unit (get_elem? a.value a.selection_start) (some c)
    then moved (caret a.value (a.selection_start + 1))
    else elim (pair c) [ none ↦ ignored | some closer ↦ type_pair c closer a ]

unfoldable pub press_backspace : Area → Effect
press_backspace a =
    let start = a.selection_start in
    if start == a.selection_end
      && ltb 0 start
      && same_unit (pair_of (get_elem? a.value (start - 1))) (get_elem? a.value start)
    then changed (caret (replace a.value (start - 1) (start + 1) []) (start - 1))
    else ignored

-- the place behind the last line feed of a text, which begins at `place`, or `best`
unfoldable pub behind_newline : ℕ → ℕ → List ℕ → ℕ
behind_newline place best [] = best
behind_newline place best (c ∷ cs) =
    behind_newline (place + 1) (if c == 10 then place + 1 else best) cs

-- `value.lastIndexOf("\n", start - 1) + 1`, which looks at the first unit for a start of 0
abbrev pub line_start : List ℕ → ℕ → ℕ
line_start value start = behind_newline 0 0 (take (max start 1) value)

-- the match of `/^[ \t]*/`
unfoldable pub blanks : List ℕ → List ℕ
blanks [] = []
blanks (c ∷ cs) = if c == 32 || c == 9 then c ∷ blanks cs else []

abbrev pub opens_out : Option ℕ → Option ℕ → Bool
opens_out before after =
    same_unit before (some b'{') && same_unit after (some b'}')
    || same_unit before (some b'[') && same_unit after (some b']')

-- `value[start - 1]`
abbrev pub unit_before : List ℕ → ℕ → Option ℕ
unit_before value zero = none
unit_before value (suc p) = get_elem? value p

unfoldable pub press_enter : Area → Effect
unfolding behind_newline blanks
press_enter a =
    let start = a.selection_start in
    let indent = blanks (drop (line_start a.value start) a.value) in
    if start == a.selection_end
    then if opens_out (unit_before a.value start) (get_elem? a.value start)
      then changed (
          caret (replace a.value start start (10 ∷ (indent ++ (32 ∷ 32 ∷ 10 ∷ indent))))
            (start + 1 + length indent + 2))
      else changed (caret (replace a.value start start (10 ∷ indent)) (start + 1 + length indent))
    else ignored

unfoldable pub key_down : Key → Area → Effect
unfolding type_unit press_backspace press_enter
key_down (unit c) a = type_unit c a
key_down backspace a = press_backspace a
key_down enter a = press_enter a
key_down other a = ignored
