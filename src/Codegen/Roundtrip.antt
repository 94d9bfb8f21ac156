-- ===== src/Codegen/Roundtrip.antt =====
-- The whole program: a run that writes, and then a check or a second run.
use Prim.Native.Char.{Char}
use foxplay_game.Common.{
  String, Bool, true, false, List, [], ◌∷◌, Option, none, some, ◌≡◌, refl, ◌∙◌, arith, ◌≢◌, str_eq,
}
use foxplay_game.Codegen.{Table}
use foxplay_game.Codegen.Grouping.{group}
use foxplay_game.Codegen.Files.{
  FileSystem, FileLaws, Paths, Connection, unreachable, query_failed, answered, Ended,
  load_database_url, emit, outputs_of, on_tables, on_connection, unless_empty, on_url, codegen,
}
use foxplay_game.Codegen.Settled.{emit-check, emit-current, emit-other, emit-Holds}

-- The generated files have paths of their own.
pub record AreApart (paths : Paths) : Type 0 where
  pub go_ts : paths.go ≢ paths.ts
  pub ts_env : paths.ts ≢ paths.env
  pub ts_frontend : paths.ts ≢ paths.frontend_env
  pub go_env : paths.go ≢ paths.env
  pub go_frontend : paths.go ≢ paths.frontend_env

-- What holds after a run that wrote: a check and another run accept the disk and leave it alone.
pub record Settles {D : Type 0} (run : Bool → D → Ended D) (d : D) : Type 0 where
  pub check_accepts : (run true (run false d).disk).exit ≡ 0
  pub check_keeps : (run true (run false d).disk).disk ≡ (run false d).disk
  pub run_accepts : (run false (run false d).disk).exit ≡ 0
  pub run_keeps : (run false (run false d).disk).disk ≡ (run false d).disk

module _ {D : Type 0} (fs : FileSystem D) (laws : FileLaws fs) (upper : Char → String)
    (inherited : String → Option String) (paths : Paths) (apart : AreApart paths) where
  abbrev SameEnv : D → D → Type 0
  SameEnv d d' =
      (fs.read d' paths.env ≡ fs.read d paths.env)
      × (fs.read d' paths.frontend_env ≡ fs.read d paths.frontend_env)

  on_tables-Settles :
      (tables : List Table) (d : D)
      → (on_tables fs upper inherited paths tables false d).exit ≡ 0
      → Settles (on_tables fs upper inherited paths tables) d
        × SameEnv d (on_tables fs upper inherited paths tables false d).disk
  unfolding outputs_of
  on_tables-Settles [] d e = absurd (omega (arith, e))
  on_tables-Settles (t ∷ tables) d e =
      let outputs = outputs_of fs upper inherited paths (t ∷ tables) in
      let r = emit fs false outputs false [] d in
      let current =
        emit-current fs outputs [] r.disk
          (emit-Holds fs laws r e outputs [] d ((apart.go_ts, tt), (tt, tt)) refl) in
      let (same, code) = emit-check fs outputs false [] r.disk in
      (
        record {
          check_accepts = code ∙ rw current.1;
          check_keeps = same;
          run_accepts = current.0.1;
          run_keeps = current.0.0;
        },
        (
          emit-other fs laws r e paths.env outputs [] d (apart.ts_env, (apart.go_env, tt)) refl,
          emit-other fs laws r e paths.frontend_env outputs [] d
              (apart.ts_frontend, (apart.go_frontend, tt)) refl,
        ),
      )

  on_connection-Settles :
      (connection : Connection) (d : D)
      → (on_connection fs upper inherited paths connection false d).exit ≡ 0
      → Settles (on_connection fs upper inherited paths connection) d
        × SameEnv d (on_connection fs upper inherited paths connection false d).disk
  on_connection-Settles (unreachable message) d e = absurd (omega (arith, e))
  on_connection-Settles query_failed d e = absurd (omega (arith, e))
  on_connection-Settles (answered rows) d e = on_tables-Settles (group rows) d e

  unless_empty-Settles :
      (b : Bool) (run : Bool → D → Ended D) (d : D)
      → ((run false d).exit ≡ 0 → Settles run d × SameEnv d (run false d).disk)
      → (unless_empty fs upper inherited b run false d).exit ≡ 0
      → Settles (unless_empty fs upper inherited b run) d
        × SameEnv d (unless_empty fs upper inherited b run false d).disk
  unless_empty-Settles true run d h e = absurd (omega (arith, e))
  unless_empty-Settles false run d h e =
      let (s, same) = h e in
      (
        record {
          check_accepts = s.check_accepts;
          check_keeps = s.check_keeps;
          run_accepts = s.run_accepts;
          run_keeps = s.run_keeps;
        },
        same,
      )

  on_url-Settles :
      (connect : String → Connection) (url : Option String) (d : D)
      → (on_url fs upper inherited connect paths url false d).exit ≡ 0
      → Settles (on_url fs upper inherited connect paths url) d
        × SameEnv d (on_url fs upper inherited connect paths url false d).disk
  on_url-Settles connect none d e = absurd (omega (arith, e))
  on_url-Settles connect (some url) d e =
      unless_empty-Settles (str_eq url "") (on_connection fs upper inherited paths (connect url)) d
        (on_connection-Settles (connect url) d) e

  same_url :
      (env : Option String) (d d' : D)
      → SameEnv d d'
      → load_database_url fs env paths d' ≡ load_database_url fs env paths d
  unfolding load_database_url
  same_url env d d' h = rw (h.0, h.1)

  -- Where a file that was written reads back and writing it leaves the others, the generated files
  -- have paths of their own, and the database answers with the same rows: if a run that writes ends
  -- with 0, then `--check` ends with 0 on the disk that it leaves and does not change it, and a
  -- second run ends with 0 and does not change it either.
  pub codegen-Settles :
      (connect : String → Connection) (env : Option String) (d : D)
      → (codegen fs upper inherited connect env paths false d).exit ≡ 0
      → Settles (codegen fs upper inherited connect env paths) d
  unfolding codegen
  codegen-Settles connect env d e =
      let (s, same) = on_url-Settles connect (load_database_url fs env paths d) d e in
      let url = same_url env d _ same in
      record {
        check_accepts = rw url s.check_accepts;
        check_keeps = rw url s.check_keeps;
        run_accepts = rw url s.run_accepts;
        run_keeps = rw url s.run_keeps;
      }
