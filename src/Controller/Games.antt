-- ===== src/Controller/Games.antt =====
-- controller/src/Games.ts: the table of the games, and the copies that `getServer` gives out.
use foxplay_game.Common.{
  ℕ, String, Bool, false, List, [], ◌∷◌, Option, none, some, any, str_eq, template, if◌then◌else◌,
}

-- A port mapping; `none` is `undefined`.
pub record PortConfig : Type 0 where
  pub host_port : Option ℕ
  pub container_port : Option ℕ
  pub protocol : String

pub record ServerEntry : Type 0 where
  pub name : String
  pub image : String
  pub backup_path : String
  pub versions : List String
  pub port_config : List PortConfig

abbrev unassigned : ℕ → String → PortConfig
unassigned port protocol = record {
  host_port = some 0;
  container_port = some port;
  protocol = protocol;
}

-- `GAMES`
abbrev pub games : List (String × ServerEntry)
games =
    (
      "satisfactory/base",
      record {
        name = "satisfactory";
        image = "satisfactory";
        backup_path = "/minecraft/world";
        versions = "0.1.0" ∷ [];
        port_config = unassigned 7777 "tcp" ∷ unassigned 7777 "udp" ∷ unassigned 8888 "tcp" ∷ [];
      },
    )
    ∷ (
      "minecraft/fabric",
      record {
        name = "fabric-mc";
        image = "fabricmc";
        backup_path = "/minecraft/world";
        versions = "0.1.0" ∷ [];
        port_config = unassigned 25565 "tcp" ∷ unassigned 25565 "udp" ∷ unassigned 8080 "tcp" ∷ [];
      },
    )
    ∷ []

unfoldable pub lookup : String → List (String × ServerEntry) → Option ServerEntry
lookup key [] = none
lookup key ((k, v) ∷ table) = if str_eq k key then some v else lookup key table

-- A key holds a slash, so none is found on the object's prototype.
unfoldable pub get_server : String → String → Option ServerEntry
unfolding lookup
get_server game server = lookup (template (game ∷ "/" ∷ server ∷ [])) games

unfoldable pub is_valid : String → String → String → Bool
unfolding get_server
is_valid game server version = elim (get_server game server) [
  | none ↦ false
  | some s ↦ any (str_eq version) s.versions
]
