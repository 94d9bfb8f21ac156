-- ===== src/Codegen/Tests.antt =====
-- Tests of database/codegen.mjs on two tables, and on a disk that is an association list.
use Prim.Native.Char.{Char, code}
use mathlib.Core.Path.{subst}
use foxplay_game.Common.{
  ◌⊎◌, String, true, List, [], ◌∷◌, Option, none, some, ◌≡◌, ◌≢◌, refl, ap, inl, inr, str_eq,
  str_eq-false, eq_refl, eq_iff, ◌==◌, if◌then◌else◌, Bool-cases,
}
use foxplay_game.Codegen.{Column}
use foxplay_game.Codegen.Render.{render_go}
use foxplay_game.Codegen.Grouping.{group}
use foxplay_game.Codegen.Imports.{render_go-imports}
use foxplay_game.Codegen.Files.{FileSystem, FileLaws, Paths, Connection, answered, codegen}
use foxplay_game.Codegen.Roundtrip.{AreApart, Settles, codegen-Settles}
use foxplay_game.Codegen.Check.{IsUpToDate, codegen-check}

abbrev Disk : Type 0
Disk = List (String × String)

abbrev read_disk : Disk → String → Option String
read_disk [] p = none
read_disk (f ∷ d) p = if str_eq f.0 p then some f.1 else read_disk d p

abbrev disk : FileSystem Disk
disk = record { read = read_disk; write = λ p text d. (true, (p, text) ∷ d) }

read_other : (p q text : String) (d : Disk) → p ≢ q → read_disk ((p, text) ∷ d) q ≡ read_disk d q
read_other p q text d n = elim (Bool-cases (str_eq p q)) [
  | inl e ↦ absurd (n ((eq_iff _ _).0 e))
  | inr e ↦ rw e
]

disk_laws : FileLaws disk
disk_laws = record {
  written =
      λ p text d d' e. subst (λ d'. read_disk d' p ≡ some text) (ap (λ x. x.1) e) (rw (eq_refl p));
  kept = λ p q text d d' e n.
      subst (λ d'. read_disk d' q ≡ read_disk d q) (ap (λ x. x.1) e) (read_other p q text d n);
}

abbrev to_upper : Char → String
to_upper c =
    if code c == b'g'
    then "G"
    else if code c == b'n'
    then "N"
    else if code c == b'c'
    then "C"
    else if code c == b'a'
    then "A"
    else if code c == b'k'
    then "K"
    else String.◌∷◌ c ""

abbrev nothing : String → Option String
nothing name = none

abbrev column : String → String → String → String → Column
column table name type null = record {
  table_name = table;
  column_name = name;
  udt_name = type;
  is_nullable = null;
}

abbrev rows : List Column
rows =
    column "game_keys" "id" "text" "NO"
    ∷ column "game_keys" "created_at" "timestamptz" "YES"
    ∷ column "nodes" "name" "citext" "NO"
    ∷ []

abbrev paths : Paths
paths = record { env = "/db/.env"; frontend_env = "/fe/.env.local"; ts = "/db/ts"; go = "/db/go" }

paths-AreApart : AreApart paths
paths-AreApart = record {
  go_ts = str_eq-false refl;
  ts_env = str_eq-false refl;
  ts_frontend = str_eq-false refl;
  go_env = str_eq-false refl;
  go_frontend = str_eq-false refl;
}

abbrev connect : String → Connection
connect url = answered rows

abbrev files : Disk
files = ("/fe/.env.local", "NODE_ENV=x\nDATABASE_URL= postgres://db \n") ∷ []

render_go-imports_example :
    render_go to_upper nothing (group rows)
    ≡ "// Code generated from the live database schema by database/generate.sh. DO NOT EDIT.\n\npackage dbtypes\n\nimport (\n\t\"time\"\n)\n\ntype GameKeysRow struct {\n\tID string `json:\"id\" db:\"id\"`\n\tCreatedAt *time.Time `json:\"created_at\" db:\"created_at\"`\n}\n\ntype NodesRow struct {\n\tName any `json:\"name\" db:\"name\"`\n}\n"
unfolding group foxplay_game.Codegen.Render.go_type foxplay_game.Registry.Keys.trim_end
    foxplay_game.Codegen.Imports.go_struct render_go
render_go-imports_example = render_go-imports to_upper nothing (group rows)

codegen-check_example :
    let r = codegen disk to_upper nothing connect none paths true files in
    (r.disk ≡ files) × ((r.exit ≢ 0) ⊎ IsUpToDate disk to_upper nothing paths files connect none)
codegen-check_example = codegen-check disk to_upper nothing paths files connect none

codegen-Settles_example : Settles (codegen disk to_upper nothing connect none paths) files
unfolding codegen
codegen-Settles_example =
    codegen-Settles disk disk_laws to_upper nothing paths paths-AreApart connect none files refl
