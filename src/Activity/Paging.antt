-- ===== src/Activity/Paging.antt =====
-- The parameters `limit` and `offset` of the routes that answer page by page.
use foxplay_game.Common.{
  select, str_eq, ℕ, ◌^◌, String, Bool, true, false, ◌&&◌, ◌||◌, not, List, Option, none, some,
  take, drop, ltb, ◌==◌, if◌then◌else◌,
}

-- A number of JavaScript: its sign, its whole part, and whether there is a fraction.
pub data JsNumber : Type 0 where
  nan : JsNumber
  infinite : Bool → JsNumber
  finite : Bool → ℕ → Bool → JsNumber

abbrev pub whole : ℕ → JsNumber
whole n = finite false n false

-- `x <= 0`, `x < 0` and `x > most` of a finite number
abbrev pub is_positive : JsNumber → Bool
is_positive (finite negative n fraction) = not negative && (ltb 0 n || fraction)
is_positive _ = false

abbrev pub is_negative : JsNumber → Bool
is_negative (finite negative n fraction) = negative && (ltb 0 n || fraction)
is_negative _ = false

abbrev pub exceeds : ℕ → JsNumber → Bool
exceeds most (finite negative n fraction) = not negative && (ltb most n || n == most && fraction)
exceeds most _ = false

abbrev pub is_finite : JsNumber → Bool
is_finite (finite _ _ _) = true
is_finite _ = false

-- the number of a parameter that may be missing
abbrev pub parameter : (String → JsNumber) → ℕ → Option String → JsNumber
parameter number default none = whole default
parameter number default (some text) = number text

abbrev pub positive_or : ℕ → JsNumber → JsNumber
positive_or default x = if not (is_finite x) || not (is_positive x) then whole default else x

abbrev pub at_most : ℕ → JsNumber → JsNumber
at_most most x = if exceeds most x then whole most else x

-- `limit`, with its default and its upper bound
unfoldable pub limit_of : (String → JsNumber) → ℕ → ℕ → Option String → JsNumber
limit_of number default most text =
    at_most most (positive_or default (parameter number default text))

-- `offset`
unfoldable pub offset_of : (String → JsNumber) → Option String → JsNumber
offset_of number text =
    let x = parameter number 0 text in if not (is_finite x) || is_negative x then whole 0 else x

-- A number as Postgres takes it for LIMIT and OFFSET: a fraction, or what does not fit a bigint, is
-- an error. A negative zero is 0.
unfoldable pub bound : JsNumber → Option ℕ
bound (finite negative n fraction) = if not fraction && ltb n (2 ^ 63) then some n else none
bound _ = none

-- `LIMIT $2 OFFSET $3`
abbrev pub page : {A : Type 0} → ℕ → ℕ → List A → List A
page limit offset rows = take limit (drop offset rows)

-- `WHERE owner = $1 ORDER BY created_at DESC`; `order` is the order that the database puts the rows in
unfoldable pub rows_of : {A : Type 0} → (A → String) → (List A → List A) → String → List A → List A
rows_of owner order id rows = order (select (λ r. str_eq (owner r) id) rows)
