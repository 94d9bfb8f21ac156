-- ===== src/Codegen/Files.antt =====
-- database/codegen.mjs: the program, from the address of the database to its exit code. The file
-- system is a record of what the code calls of `node:fs`; a `write` that throws may have changed
-- the disk.
use Prim.Native.Char.{code}
use foxplay_game.Common.{
  ℕ, String, Bool, true, false, ◌||◌, List, [], ◌∷◌, ◌++◌, Option, none, some, ◌≡◌, ◌≢◌, str_eq,
  template, ◌==◌, if◌then◌else◌,
}
use foxplay_game.Registry.Keys.{trim}
use foxplay_game.Codegen.{Column, Table, Output}
use foxplay_game.Codegen.Render.{render_ts, render_go}
use foxplay_game.Codegen.Grouping.{group}
use Prim.Native.Char.{Char}

-- `existsSync` with `readFileSync`, and `mkdirSync` with `writeFileSync`, which may throw
pub record FileSystem (D : Type 0) : Type 0 where
  pub read : D → String → Option String
  pub write : String → String → D → Bool × D

-- A file that was written has its content, and the others are as they were.
pub record FileLaws {D : Type 0} (fs : FileSystem D) : Type 0 where
  pub written :
      (p text : String) (d d' : D) → fs.write p text d ≡ (true, d') → fs.read d' p ≡ some text
  pub kept :
      (p q text : String) (d d' : D)
      → fs.write p text d ≡ (true, d')
      → p ≢ q
      → fs.read d' q ≡ fs.read d q

-- what `join` gives for the files of the program
pub record Paths : Type 0 where
  pub env : String
  pub frontend_env : String
  pub ts : String
  pub go : String

-- a multiline match ends a line at each of these
abbrev pub ends_line : ℕ → Bool
ends_line c = c == 10 || c == 13 || c == 8232 || c == 8233

-- the text behind a prefix
unfoldable pub behind : String → String → Option String
behind String.[] s = some s
behind (String.◌∷◌ c p) String.[] = none
behind (String.◌∷◌ c p) (String.◌∷◌ d s) = if code c == code d then behind p s else none

-- the rest of the line, and its length
unfoldable pub line_of : String → String
line_of String.[] = ""
line_of (String.◌∷◌ c s) =
    let rest = line_of s in if ends_line (code c) then "" else String.◌∷◌ c rest

-- `^DATABASE_URL=(.+)$` at the beginning of a line
unfoldable pub url_line : String → Option String
unfolding behind line_of
url_line s = elim (behind "DATABASE_URL=" s) [
  | none ↦ none
  | some rest ↦ let value = line_of rest in if str_eq value "" then none else some value
]

abbrev pub or_else : {A : Type 0} → Option A → Option A → Option A
or_else (some a) later = some a
or_else none later = later

-- the first match, where `fresh` says that a line begins here
unfoldable pub match_url : Bool → String → Option String
unfolding url_line
match_url fresh String.[] = none
match_url fresh (String.◌∷◌ c s) =
    or_else (if fresh then url_line (String.◌∷◌ c s) else none) (match_url (ends_line (code c)) s)

-- `client.connect()` and the statement
pub data Connection : Type 0 where
  unreachable : String → Connection
  query_failed : Connection
  answered : List Column → Connection

-- the exit code, what was logged, and the disk; an exception that nothing catches ends with 1
pub record Ended (D : Type 0) : Type 0 where
  pub exit : ℕ
  pub log : List String
  pub disk : D

abbrev pub same_text : Option String → String → Bool
same_text none content = false
same_text (some text) content = str_eq text content

abbrev pub logged : List String → List String → List String
logged log parts = log ++ (template parts ∷ [])

-- the address in a file, or in the later ones
abbrev pub url_of : Option String → Option String → Option String
url_of none later = later
url_of (some text) later = elim (match_url true text) [ none ↦ later | some url ↦ some (trim url) ]

-- `if (process.env.DATABASE_URL) return process.env.DATABASE_URL`
abbrev pub given : Option String → Option String → Option String
given none stored = stored
given (some url) stored = if str_eq url "" then stored else some url

module _ {D : Type 0} (fs : FileSystem D) where
  abbrev pub url_in : D → List String → Option String
  url_in d [] = none
  url_in d (f ∷ files) = url_of (fs.read d f) (url_in d files)

  unfoldable pub load_database_url : Option String → Paths → D → Option String
  unfolding match_url trim
  load_database_url env paths d = given env (url_in d (paths.env ∷ paths.frontend_env ∷ []))

  abbrev pub ended : Bool → Bool → List String → D → Ended D
  ended true true log d = record { exit = 1; log = log; disk = d }
  ended true false log d = record {
    exit = 0;
    log = logged log ("codegen: generated types are up to date" ∷ []);
    disk = d;
  }
  ended false stale log d = record { exit = 0; log = log; disk = d }

  -- `if (existing !== content)` of a check, and of a run that writes
  abbrev pub checked : Bool → String → (Bool → List String → Ended D) → Bool → List String → Ended D
  checked true path next stale log = next stale log
  checked false path next stale log = next true (logged log ("codegen: STALE " ∷ path ∷ []))

  abbrev pub after_write : String → (List String → D → Ended D) → List String → Bool × D → Ended D
  after_write path next log (true, d) = next (logged log ("codegen: wrote " ∷ path ∷ [])) d
  after_write path next log (false, d) = record { exit = 1; log = log; disk = d }

  abbrev pub settled : Bool → Output → (List String → D → Ended D) → List String → D → Ended D
  settled true o next log d = next (logged log ("codegen: up to date " ∷ o.path ∷ [])) d
  settled false o next log d = after_write o.path next log (fs.write o.path o.content d)

  -- the loop over the outputs
  unfoldable pub emit : Bool → List Output → Bool → List String → D → Ended D
  emit check [] stale log d = ended check stale log d
  emit true (o ∷ outputs) stale log d =
      checked (same_text (fs.read d o.path) o.content) o.path
        (λ stale log. emit true outputs stale log d) stale log
  emit false (o ∷ outputs) stale log d =
      settled (same_text (fs.read d o.path) o.content) o (λ log d. emit false outputs stale log d)
        log d

  module _ (upper : Char → String) (inherited : String → Option String) where
    unfoldable pub outputs_of : Paths → List Table → List Output
    unfolding render_ts render_go
    outputs_of paths tables =
        record { path = paths.ts; content = render_ts upper inherited tables }
        ∷ record { path = paths.go; content = render_go upper inherited tables }
        ∷ []

    abbrev pub stopped : String → D → Ended D
    stopped message d = record { exit = 2; log = message ∷ []; disk = d }

    abbrev pub on_tables : Paths → List Table → Bool → D → Ended D
    on_tables paths [] check d =
        stopped "codegen: no tables found — run the migrations first (database/migrate.sh)" d
    on_tables paths (t ∷ tables) check d = emit check (outputs_of paths (t ∷ tables)) false [] d

    abbrev pub on_connection : Paths → Connection → Bool → D → Ended D
    on_connection paths (unreachable message) check d =
        stopped (template ("codegen: cannot reach database: " ∷ message ∷ [])) d
    on_connection paths query_failed check d = record { exit = 1; log = []; disk = d }
    on_connection paths (answered rows) check d = on_tables paths (group rows) check d

    abbrev pub no_url : D → Ended D
    no_url d =
        stopped "codegen: DATABASE_URL not set (env, database/.env, or frontend/.env.local)" d

    abbrev pub unless_empty : Bool → (Bool → D → Ended D) → Bool → D → Ended D
    unless_empty true run check d = no_url d
    unless_empty false run check d = run check d

    abbrev pub on_url : (String → Connection) → Paths → Option String → Bool → D → Ended D
    on_url connect paths none = unless_empty true (λ _ d. no_url d)
    on_url connect paths (some url) =
        unless_empty (str_eq url "") (on_connection paths (connect url))

    unfoldable pub codegen : (String → Connection) → Option String → Paths → Bool → D → Ended D
    unfolding load_database_url group emit outputs_of
    codegen connect env paths check d = on_url connect paths (load_database_url env paths d) check d
