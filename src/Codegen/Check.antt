-- ===== src/Codegen/Check.antt =====
-- A run with `--check`.
use Prim.Native.Char.{Char}
use foxplay_game.Common.{
  ◌⊎◌, ◌==◌, ==_iff, String, Bool, true, false, List, [], ◌∷◌, Option, none, some, ◌≡◌, ◌≢◌, refl,
  sym, ◌∙◌, inl, inr, arith, str_eq, str_eq-false, All, all, Bool-cases,
}
use mathlib.Core.List.{cons≢nil}
use foxplay_game.Codegen.{Column, Table, Output}
use foxplay_game.Codegen.Grouping.{group}
use foxplay_game.Codegen.Files.{
  FileSystem, Paths, Connection, unreachable, query_failed, answered, Ended, load_database_url,
  outputs_of, on_tables, on_connection, unless_empty, on_url, codegen,
}
use foxplay_game.Codegen.Settled.{is_current, Holds, same_text_iff, verdict, emit-check}

module _ {D : Type 0} (fs : FileSystem D) (upper : Char → String)
    (inherited : String → Option String) (paths : Paths) (d : D) where
  all-Holds :
      (outputs : List Output)
      → verdict fs (all (is_current fs d) outputs) ≡ 0
      → All (Holds fs d) outputs
  all-Holds [] e = tt
  all-Holds (o ∷ outputs) e = elim (Bool-cases (is_current fs d o)) [
    | inl f ↦ (same_text_iff (fs.read d o.path) o.content f, all-Holds outputs (rw f at e))
    | inr f ↦ absurd (ground arith)
  ]

  -- The tables of the answer, one at least, and the files that are on the disk.
  pub record AreCurrent (tables : List Table) : Type 0 where
    pub some_table : tables ≢ []
    pub current : All (Holds fs d) (outputs_of fs upper inherited paths tables)

  pub record IsUpToDate (connect : String → Connection) (env : Option String) : Type 0 where
    pub url : String
    pub rows : List Column
    pub found : load_database_url fs env paths d ≡ some url
    pub nonempty : url ≢ ""
    pub reached : connect url ≡ answered rows
    pub files : AreCurrent (group rows)

  on_tables-check :
      (tables : List Table)
      → ((on_tables fs upper inherited paths tables true d).disk ≡ d)
        × ((on_tables fs upper inherited paths tables true d).exit ≡ 0 → AreCurrent tables)
  on_tables-check [] = (refl, λ e. absurd (omega (arith, e)))
  on_tables-check (t ∷ tables) =
      let (same, code) =
        emit-check fs (outputs_of fs upper inherited paths (t ∷ tables)) false [] d in
      (
        same,
        λ e. record { some_table = λ h. absurd (cons≢nil h); current = all-Holds _ (sym code ∙ e) },
      )

  abbrev IsReached : Connection → Type 0
  IsReached connection =
      (rows : List Column) × (connection ≡ answered rows) × AreCurrent (group rows)

  on_connection-check :
      (connection : Connection)
      → ((on_connection fs upper inherited paths connection true d).disk ≡ d)
        × ((on_connection fs upper inherited paths connection true d).exit ≡ 0
            → IsReached connection)
  on_connection-check (unreachable message) = (refl, λ e. absurd (omega (arith, e)))
  on_connection-check query_failed = (refl, λ e. absurd (omega (arith, e)))
  on_connection-check (answered rows) =
      let (same, current) = on_tables-check (group rows) in (same, λ e. (rows, refl, current e))

  unless_empty-check :
      (b : Bool) (run : Bool → D → Ended D)
      → (run true d).disk ≡ d
      → ((unless_empty fs upper inherited b run true d).disk ≡ d)
        × ((unless_empty fs upper inherited b run true d).exit ≡ 0
            → (b ≡ false) × ((run true d).exit ≡ 0))
  unless_empty-check true run h = (refl, λ e. absurd (omega (arith, e)))
  unless_empty-check false run h = (h, λ e. (refl, e))

  on_url-check :
      (connect : String → Connection) (found : Option String)
      → ((on_url fs upper inherited connect paths found true d).disk ≡ d)
        × ((on_url fs upper inherited connect paths found true d).exit ≡ 0
            → (url : String) × (found ≡ some url) × (url ≢ "") × IsReached (connect url))
  on_url-check connect none = (refl, λ e. absurd (omega (arith, e)))
  on_url-check connect (some url) =
      let (same, reached) = on_connection-check (connect url) in
      let (kept, code) =
        unless_empty-check (str_eq url "") (on_connection fs upper inherited paths (connect url))
          same in
      (kept, λ e. (url, refl, str_eq-false (code e).0, reached (code e).1))

  -- A run with `--check` never changes the disk; and it ends with another code than 0, or an address
  -- that is not empty was found, the database answered with rows of one table at least, and both
  -- generated files are on the disk with exactly the text that these rows give.
  pub codegen-check :
      (connect : String → Connection) (env : Option String)
      → let r = codegen fs upper inherited connect env paths true d in
        (r.disk ≡ d) × ((r.exit ≢ 0) ⊎ IsUpToDate connect env)
  unfolding codegen
  codegen-check connect env =
      let (same, reached) = on_url-check connect (load_database_url fs env paths d) in
      let r = codegen fs upper inherited connect env paths true d in
      (
        same,
        elim (Bool-cases (r.exit == 0)) [
          | inl e ↦
              let (url, found, nonempty, (rows, answer, files)) = reached ((==_iff r.exit 0).0 e) in
              inr (record {
                url = url;
                rows = rows;
                found = found;
                nonempty = nonempty;
                reached = answer;
                files = files;
              })
          | inr e ↦ inl (λ z. absurd (ground arith))
        ],
      )
