-- ===== src/Registry/History.antt =====
-- Sequences of requests to the routes of functions and of ssh keys.
use foxplay_game.Common.{ℕ, String, List, [], ◌∷◌, Option}
use foxplay_game.Json.{Json}
use foxplay_game.Server.{World, Fetched}
use foxplay_game.Server.Manager.{FetchRequest}
use foxplay_game.Registry.Laws.{IsUnique}
use foxplay_game.Registry.Functions.{functions, register_function, delete_function}
use foxplay_game.Registry.Keys.{ssh_keys, create_key, delete_key}
use foxplay_game.Registry.Keys.Saved.{Saved}

-- A request that changes one of the tables, with the clock and the new id that the database would use.
pub data Call : Type 0 where
  register save : ℕ → String → Json → Call
  delete remove : ℕ → String → Call

-- Both tables have unique ids, and unique owners and names of live rows.
abbrev pub AreUnique : {S : Type 0} → World S → Type 0
AreUnique w = IsUnique functions w.functions × IsUnique ssh_keys w.ssh_keys

module _ {S : Type 0} (fetch : FetchRequest → S → Fetched × S) (parse : String → Option Json)
    (encode : String → String) (zod : String → Option Json → String) where
  unfoldable pub handle : Call → World S → World S
  handle (register now fresh body) w = (register_function zod fresh now body w).1
  handle (save now fresh body) w = (create_key zod fresh now body w).1
  handle (delete now id) w = (delete_function fetch parse encode id now w).1
  handle (remove now id) w = (delete_key id now w).1

  unfoldable pub handle_all : List Call → World S → World S
  unfolding handle
  handle_all [] w = w
  handle_all (c ∷ cs) w = handle_all cs (handle c w)
