-- ===== src/Codegen/Render.antt =====
-- database/codegen.mjs: `pascal`, `renderTS` and `renderGo`, with the tables of types.
use Prim.Native.Char.{Char, code}
use Prim.Native.String.{◌++◌}
use foxplay_game.Common.{
  String, Bool, true, false, List, [], ◌∷◌, map, Option, none, some, str_eq, find, template, ◌==◌,
  if◌then◌else◌,
}
use foxplay_game.Registry.Keys.{trim_end}
use foxplay_game.Codegen.{Column, Table}

abbrev pub header : String
header = "Code generated from the live database schema by database/generate.sh. DO NOT EDIT."

abbrev pub ts_types : List (String × String)
ts_types =
    ("int2", "number")
    ∷ ("int4", "number")
    ∷ ("int8", "number")
    ∷ ("float4", "number")
    ∷ ("float8", "number")
    ∷ ("numeric", "number")
    ∷ ("text", "string")
    ∷ ("varchar", "string")
    ∷ ("uuid", "string")
    ∷ ("bool", "boolean")
    ∷ ("timestamptz", "string")
    ∷ ("timestamp", "string")
    ∷ ("jsonb", "unknown")
    ∷ ("json", "unknown")
    ∷ []

abbrev pub go_types : List (String × String)
go_types =
    ("int2", "int16")
    ∷ ("int4", "int")
    ∷ ("int8", "int64")
    ∷ ("float4", "float32")
    ∷ ("float8", "float64")
    ∷ ("numeric", "float64")
    ∷ ("text", "string")
    ∷ ("varchar", "string")
    ∷ ("uuid", "string")
    ∷ ("bool", "bool")
    ∷ ("timestamptz", "time.Time")
    ∷ ("timestamp", "time.Time")
    ∷ ("jsonb", "json.RawMessage")
    ∷ ("json", "json.RawMessage")
    ∷ []

-- the words between the underscores: `split("_")`
abbrev pub begin_word : Bool → Char → List String → List String
begin_word true c words = "" ∷ words
begin_word false c [] = String.◌∷◌ c "" ∷ []
begin_word false c (w ∷ words) = String.◌∷◌ c w ∷ words

unfoldable pub words_of : String → List String
words_of String.[] = "" ∷ []
words_of (String.◌∷◌ c s) = begin_word (code c == b'_') c (words_of s)

module _ (upper : Char → String) where
  -- `p.charAt(0).toUpperCase() + p.slice(1)`
  abbrev pub capital : String → String
  capital String.[] = ""
  capital (String.◌∷◌ c s) = upper c ++ s

  abbrev pub pascal_word : String → String
  pascal_word p = if str_eq p "id" then "ID" else if str_eq p "url" then "URL" else capital p

  unfoldable pub pascal : String → String
  unfolding words_of
  pascal snake = template (map pascal_word (words_of snake))

-- `types[name] ?? default`; a name that the table has not may still be inherited.
abbrev pub type_of : (String → Option String) → List (String × String) → String → String → String
type_of inherited types default name = elim (find (λ entry. str_eq entry.0 name) types) [
  | some entry ↦ entry.1
  | none ↦ elim (inherited name) [ some text ↦ text | none ↦ default ]
]

abbrev pub is_null : Column → Bool
is_null c = str_eq c.is_nullable "YES"

-- the state of the loops of `renderGo`
pub record GoText : Type 0 where
  pub uses_time : Bool
  pub uses_json : Bool
  pub body : String

abbrev pub append_body : GoText → String → GoText
append_body out text = record out { body = out.body ++ text }

abbrev pub pushed : Bool → String → List String → List String
pushed true text imports = text ∷ imports
pushed false text imports = imports

abbrev pub import_block : List String → String
import_block [] = ""
import_block (i ∷ imports) = template (
    "import (\n"
    ∷ template (map (λ i. template ("\t" ∷ i ∷ "\n" ∷ [])) (i ∷ imports))
    ∷ ")\n\n"
    ∷ [])

module _ (upper : Char → String) (inherited : String → Option String) where
  unfoldable pub ts_field : Column → String
  ts_field c = template (
      "  "
      ∷ c.column_name
      ∷ ": "
      ∷ type_of inherited ts_types "unknown" c.udt_name
      ∷ (if is_null c then " | null" else "")
      ∷ ";\n"
      ∷ [])

  unfoldable pub ts_fields : String → List Column → String
  unfolding ts_field
  ts_fields out [] = out
  ts_fields out (c ∷ cols) = ts_fields (out ++ ts_field c) cols

  unfoldable pub ts_tables : String → List Table → String
  unfolding ts_fields pascal
  ts_tables out [] = out
  ts_tables out (t ∷ tables) =
      let opened = out ++ template ("export interface " ∷ pascal upper t.name ∷ "Row {\n" ∷ []) in
      ts_tables (ts_fields opened t.columns ++ "}\n\n") tables

  abbrev pub ts_start : String
  ts_start = template (
      "// " ∷ header
      ∷ "\n// timestamptz columns are typed as string — the ISO form they take once\n// JSON-serialized by an API route.\n\n"
      ∷ [])

  unfoldable pub render_ts : List Table → String
  unfolding ts_tables
  render_ts tables = ts_tables ts_start tables

  unfoldable pub go_type : Column → String
  go_type c = type_of inherited go_types "any" c.udt_name

  unfoldable pub go_field : Column → String
  unfolding pascal go_type
  go_field c = template (
      "\t"
      ∷ pascal upper c.column_name
      ∷ " "
      ∷ (if is_null c then "*" ++ go_type c else go_type c)
      ∷ " `json:\""
      ∷ c.column_name
      ∷ "\" db:\""
      ∷ c.column_name
      ∷ "\"`\n"
      ∷ [])

  unfoldable pub go_fields : GoText → List Column → GoText
  unfolding go_field
  go_fields out [] = out
  go_fields out (c ∷ cols) =
      go_fields
        (record {
          uses_time = if str_eq (go_type c) "time.Time" then true else out.uses_time;
          uses_json = if str_eq (go_type c) "json.RawMessage" then true else out.uses_json;
          body = out.body ++ go_field c;
        })
        cols

  unfoldable pub go_tables : GoText → List Table → GoText
  unfolding go_fields pascal
  go_tables out [] = out
  go_tables out (t ∷ tables) =
      let opened =
        append_body out (template ("type " ∷ pascal upper t.name ∷ "Row struct {\n" ∷ [])) in
      go_tables (append_body (go_fields opened t.columns) "}\n\n") tables

  unfoldable pub render_go : List Table → String
  unfolding go_tables trim_end
  render_go tables =
      let walked = go_tables (record { uses_time = false; uses_json = false; body = "" }) tables in
      let imports =
        pushed walked.uses_json "\"encoding/json\"" (pushed walked.uses_time "\"time\"" []) in
      (template ("// " ∷ header ∷ "\n\npackage dbtypes\n\n" ∷ []) ++ import_block imports)
      ++ (trim_end walked.body ++ "\n")
