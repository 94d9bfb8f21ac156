-- ===== src/Codegen/Imports.antt =====
-- What `renderGo` writes, against a description of the file without its accumulators.
use Prim.Native.Char.{Char}
use Prim.Native.String.{◌++◌}
use text.Mathlib.TextLemmas.{append-nil, append_assoc, nil-append}
use foxplay_game.Common.{
  String, Bool, true, false, ◌||◌, List, [], ◌∷◌, map, any, Option, ◌≡◌, refl, sym, ◌∙◌, str_eq,
  template, if◌then◌else◌,
}
use foxplay_game.Registry.Keys.{trim_end}
use foxplay_game.Codegen.{Column, Table}
use foxplay_game.Codegen.Render.{
  pascal, go_type, go_field, GoText, go_fields, go_tables, append_body, pushed, import_block,
  render_go,
}

-- an import block, by what is used
abbrev pub imports_for : Bool → Bool → String
imports_for false false = ""
imports_for false true = "import (\n\t\"time\"\n)\n\n"
imports_for true false = "import (\n\t\"encoding/json\"\n)\n\n"
imports_for true true = "import (\n\t\"encoding/json\"\n\t\"time\"\n)\n\n"

if_true-or : (a b c : Bool) → (a || (if b then true else c)) ≡ ((b || a) || c)
if_true-or true true c = refl
if_true-or true false c = refl
if_true-or false true c = refl
if_true-or false false c = refl

or_assoc : (a b c : Bool) → (a || (b || c)) ≡ ((b || a) || c)
or_assoc true true c = refl
or_assoc true false c = refl
or_assoc false true c = refl
or_assoc false false c = refl

same_text :
    (a b : GoText) → a.uses_time ≡ b.uses_time → a.uses_json ≡ b.uses_json → a.body ≡ b.body → a ≡ b
same_text a b t j e i = record { uses_time = t i; uses_json = j i; body = e i }

regroup : (a b c d e : String) → (((a ++ b) ++ c) ++ d) ++ e ≡ a ++ ((b ++ (c ++ d)) ++ e)
regroup a b c d e = simp append_assoc

block_lem :
    (json time : Bool)
    → import_block
        (pushed (json || false) "\"encoding/json\"" (pushed (time || false) "\"time\"" []))
      ≡ imports_for json time
block_lem false false = refl
block_lem false true = refl
block_lem true false = refl
block_lem true true = refl

module _ (upper : Char → String) (inherited : String → Option String) where
  abbrev pub uses_in : String → List Column → Bool
  uses_in text cols = any (λ c. str_eq (go_type upper inherited c) text) cols

  -- Does a column of the tables have the type `text`?
  abbrev pub uses : String → List Table → Bool
  uses text tables = any (λ t. uses_in text t.columns) tables

  unfoldable pub go_struct : Table → String
  unfolding pascal go_field
  go_struct t =
      template ("type " ∷ pascal upper t.name ∷ "Row struct {\n" ∷ [])
      ++ (template (map (go_field upper inherited) t.columns) ++ "}\n\n")

  abbrev with_fields : GoText → List Column → GoText
  with_fields out cols = record {
    uses_time = uses_in "time.Time" cols || out.uses_time;
    uses_json = uses_in "json.RawMessage" cols || out.uses_json;
    body = out.body ++ template (map (go_field upper inherited) cols);
  }

  go_fields_lem :
      (cols : List Column) (out : GoText)
      → go_fields upper inherited out cols ≡ with_fields out cols
  unfolding go_fields
  go_fields_lem [] out = same_text _ _ refl refl (sym (append-nil out.body))
  go_fields_lem (c ∷ cols) out =
      go_fields_lem cols _
      ∙ same_text _ _
          (if_true-or (uses_in "time.Time" cols) (str_eq (go_type upper inherited c) "time.Time")
            out.uses_time)
          (if_true-or (uses_in "json.RawMessage" cols)
            (str_eq (go_type upper inherited c) "json.RawMessage") out.uses_json)
          (append_assoc out.body _ _)

  abbrev with_tables : GoText → List Table → GoText
  with_tables out tables = record {
    uses_time = uses "time.Time" tables || out.uses_time;
    uses_json = uses "json.RawMessage" tables || out.uses_json;
    body = out.body ++ template (map go_struct tables);
  }

  go_tables_lem :
      (tables : List Table) (out : GoText)
      → go_tables upper inherited out tables ≡ with_tables out tables
  unfolding go_tables go_struct
  go_tables_lem [] out = same_text _ _ refl refl (sym (append-nil out.body))
  go_tables_lem (t ∷ tables) out =
      go_tables_lem tables _
      ∙ rw (go_fields_lem t.columns (append_body out _)) (
          same_text _ _
            (or_assoc (uses "time.Time" tables) (uses_in "time.Time" t.columns) out.uses_time)
            (or_assoc (uses "json.RawMessage" tables) (uses_in "json.RawMessage" t.columns)
              out.uses_json)
            (regroup out.body _ _ _ _))

  -- The Go file is the header, an import block that names `encoding/json` exactly when some column
  -- of some table has the type json.RawMessage and `time` exactly when one has the type time.Time,
  -- and then one struct for each table in the order of the map, with no blank at the end but one
  -- line feed.
  pub render_go-imports :
      (tables : List Table)
      → render_go upper inherited tables
        ≡ ("// Code generated from the live database schema by database/generate.sh. DO NOT EDIT.\n\npackage dbtypes\n\n"
            ++ imports_for (uses "json.RawMessage" tables) (uses "time.Time" tables))
          ++ (trim_end (template (map go_struct tables)) ++ "\n")
  unfolding render_go
  render_go-imports tables = rw (
    go_tables_lem tables _,
    block_lem (uses "json.RawMessage" tables) (uses "time.Time" tables),
    nil-append (template (map go_struct tables)),
  )
