-- ===== src/Codegen/Grouping.antt =====
-- database/codegen.mjs: the rows of the catalogue are grouped by table, in a `Map`.
use foxplay_game.Common.{
  String, Bool, true, false, List, [], ◌∷◌, ◌++◌, ◌≡◌, refl, sym, ◌∙◌, inl, inr, ◌≢◌, str_eq,
  eq_iff, str_eq-false, select, if◌then◌else◌, Bool-cases, All,
}
use mathlib.Core.List.{append_assoc, append-nil}
use foxplay_game.Codegen.{Column, Table}

-- `if (!tables.has(name)) tables.set(name, []); tables.get(name).push(row)`
unfoldable pub add_row : Column → List Table → List Table
add_row row [] = record { name = row.table_name; columns = row ∷ [] } ∷ []
add_row row (t ∷ tables) =
    if str_eq t.name row.table_name
    then record t { columns = t.columns ++ (row ∷ []) } ∷ tables
    else t ∷ add_row row tables

unfoldable pub add_rows : List Table → List Column → List Table
unfolding add_row
add_rows tables [] = tables
add_rows tables (row ∷ rows) = add_rows (add_row row tables) rows

-- the loop over `res.rows`
unfoldable pub group : List Column → List Table
unfolding add_rows
group rows = add_rows [] rows

-- what the map has for a name, and nothing where it has no entry
abbrev pub columns_of : String → List Table → List Column
columns_of name [] = []
columns_of name (t ∷ tables) = if str_eq t.name name then t.columns else columns_of name tables

abbrev has_name : String → Column → Bool
has_name name row = str_eq row.table_name name

abbrev appended_if : Bool → List Column → Column → List Column
appended_if true cols row = cols ++ (row ∷ [])
appended_if false cols row = cols

push_if :
    (b : Bool) (xs cols : List Column) (row : Column)
    → (if b then xs ++ (row ∷ []) else cols) ≡ appended_if b (if b then xs else cols) row
push_if true xs cols row = refl
push_if false xs cols row = refl

columns_of-add_row :
    (name : String) (row : Column) (tables : List Table)
    → columns_of name (add_row row tables)
      ≡ appended_if (has_name name row) (columns_of name tables) row
unfolding add_row
columns_of-add_row name row [] = elim (Bool-cases (has_name name row)) [
  | inl e ↦ rw e refl
  | inr e ↦ rw e refl
]
columns_of-add_row name row (t ∷ tables) = elim (Bool-cases (str_eq t.name row.table_name)) [
  | inl e ↦
      let same : t.name ≡ row.table_name = (eq_iff _ _).0 e in
      rw (e, same) (push_if (has_name name row) t.columns (columns_of name tables) row)
  | inr e ↦ elim (Bool-cases (str_eq t.name name)) [
    | inl f ↦ elim (Bool-cases (has_name name row)) [
      | inl g ↦ absurd (str_eq-false e ((eq_iff _ _).0 f ∙ sym ((eq_iff _ _).0 g)))
      | inr g ↦ rw (e, f, g)
    ]
    | inr f ↦ rw (e, f, columns_of-add_row name row tables)
  ]
]

appended_if-select :
    (name : String) (row : Column) (cols rows : List Column)
    → appended_if (has_name name row) cols row ++ select (has_name name) rows
      ≡ cols ++ select (has_name name) (row ∷ rows)
appended_if-select name row cols rows = elim (Bool-cases (has_name name row)) [
  | inl e ↦ rw e (append_assoc cols (row ∷ []) _)
  | inr e ↦ rw e
]

columns_of-add_rows :
    (name : String) (rows : List Column) (tables : List Table)
    → columns_of name (add_rows tables rows) ≡ columns_of name tables ++ select (has_name name) rows
unfolding add_rows
columns_of-add_rows name [] tables = sym (append-nil _)
columns_of-add_rows name (row ∷ rows) tables =
    columns_of-add_rows name rows (add_row row tables)
    ∙ rw (columns_of-add_row name row tables) (appended_if-select name row _ rows)

-- No two entries have one name.
abbrev pub AreDistinct : List Table → Type 0
AreDistinct [] = Unit
AreDistinct (t ∷ tables) = All (λ u. t.name ≢ u.name) tables × AreDistinct tables

All-add_row :
    (name : String) (row : Column) (tables : List Table)
    → name ≢ row.table_name
    → All (λ u. name ≢ u.name) tables
    → All (λ u. name ≢ u.name) (add_row row tables)
unfolding add_row
All-add_row name row [] n h = (n, tt)
All-add_row name row (t ∷ tables) n h = elim (Bool-cases (str_eq t.name row.table_name)) [
  | inl e ↦ rw e h
  | inr e ↦ rw e (h.0, All-add_row name row tables n h.1)
]

add_row-AreDistinct :
    (row : Column) (tables : List Table) → AreDistinct tables → AreDistinct (add_row row tables)
unfolding add_row
add_row-AreDistinct row [] h = (tt, tt)
add_row-AreDistinct row (t ∷ tables) h = elim (Bool-cases (str_eq t.name row.table_name)) [
  | inl e ↦ rw e h
  | inr e ↦
      rw e (All-add_row t.name row tables (str_eq-false e) h.0, add_row-AreDistinct row tables h.1)
]

add_rows-AreDistinct :
    (rows : List Column) (tables : List Table)
    → AreDistinct tables
    → AreDistinct (add_rows tables rows)
unfolding add_rows
add_rows-AreDistinct [] tables h = h
add_rows-AreDistinct (row ∷ rows) tables h =
    add_rows-AreDistinct rows (add_row row tables) (add_row-AreDistinct row tables h)

-- The map has each table of the catalogue's rows once, and for every name exactly the rows of that
-- table, in the order of the answer.
pub group-select :
    (rows : List Column) (name : String)
    → AreDistinct (group rows)
      × (columns_of name (group rows) ≡ select (λ r. str_eq r.table_name name) rows)
unfolding group
group-select rows name = (add_rows-AreDistinct rows [] tt, columns_of-add_rows name rows [])
