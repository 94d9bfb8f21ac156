-- ===== src/Codegen.antt =====
-- database/codegen.mjs: the types that are generated from the database's schema.
--
-- The node modules are parameters: the file system, the database's answer, `toUpperCase` of one
-- character, and the properties that every object inherits.
pub mod Render
pub mod Check
pub mod Roundtrip
pub mod Settled
pub mod Files
pub mod Imports
pub mod Grouping
mod Tests
use foxplay_game.Common.{String, List}

-- a row of information_schema.columns
pub record Column : Type 0 where
  pub table_name : String
  pub column_name : String
  pub udt_name : String
  pub is_nullable : String

-- an entry of the `Map` of the tables
pub record Table : Type 0 where
  pub name : String
  pub columns : List Column

-- an entry of `outputs`
pub record Output : Type 0 where
  pub path : String
  pub content : String
