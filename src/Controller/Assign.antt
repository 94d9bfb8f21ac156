-- ===== src/Controller/Assign.antt =====
-- controller/src/index.ts, the route that creates a server: which host port each port of the
-- container gets, and the environment of the container.
pub mod Mapping
use foxplay_game.Common.{
  ℕ, String, Bool, true, false, List, [], ◌∷◌, ◌++◌, Option, none, some, any, str_eq, ◌==◌, show,
  if◌then◌else◌,
}
use foxplay_game.Controller.Games.{PortConfig}

-- `===` on numbers or `undefined`
abbrev pub same_port : Option ℕ → Option ℕ → Bool
same_port none none = true
same_port none (some _) = false
same_port (some _) none = false
same_port (some p) (some q) = p == q

-- `new Set(…)`: each port once, in the order of its first mention
unfoldable pub add_port : Option ℕ → List (Option ℕ) → List (Option ℕ)
add_port p ports = if any (same_port p) ports then ports else ports ++ p ∷ []

unfoldable pub add_ports : List (Option ℕ) → List PortConfig → List (Option ℕ)
unfolding add_port
add_ports ports [] = ports
add_ports ports (c ∷ cs) = add_ports (add_port c.container_port ports) cs

unfoldable pub unique_ports : List PortConfig → List (Option ℕ)
unfolding add_ports
unique_ports cs = add_ports [] cs

-- `portMapping`: the ports in the order of `uniquePorts`, each with the port found for it, or
-- `undefined` where too few were found
unfoldable pub port_mapping : List (Option ℕ) → List ℕ → List (Option ℕ × Option ℕ)
port_mapping [] available = []
port_mapping (p ∷ ports) [] = (p, none) ∷ port_mapping ports []
port_mapping (p ∷ ports) (a ∷ available) = (p, some a) ∷ port_mapping ports available

-- `portMapping.get(port)`
unfoldable pub mapped : Option ℕ → List (Option ℕ × Option ℕ) → Option ℕ
mapped p [] = none
mapped p ((q, a) ∷ mapping) = if same_port q p then a else mapped p mapping

-- `env[key] = value`
unfoldable pub set_env : String → String → List (String × String) → List (String × String)
set_env key value [] = (key, value) ∷ []
set_env key value ((k, v) ∷ env) =
    if str_eq k key then (k, value) ∷ env else (k, v) ∷ set_env key value env

-- the key that a container's port is announced under
abbrev env_key : Option ℕ → Option String
env_key p =
    if same_port p (some 7777)
    then some "Port"
    else if same_port p (some 8888)
    then some "ReliablePort"
    else none

-- `none` is the TypeError of `newPort.toString()` where the port is `undefined`
unfoldable pub announce :
    Option ℕ → Option ℕ → List (String × String) → Option (List (String × String))
unfolding set_env show
announce port new_port env = elim (env_key port) [
  | none ↦ some env
  | some key ↦ elim new_port [ none ↦ none | some p ↦ some (set_env key (show p) env) ]
]

abbrev pub moved : Option ℕ → PortConfig → PortConfig
moved p c = record c { host_port = p; container_port = p }

abbrev pub hosted : Option ℕ → PortConfig → PortConfig
hosted p c = record c { host_port = p }

-- the loop over the port mappings of "satisfactory", where the container listens on the host's ports
unfoldable pub assign_satisfactory :
    List (Option ℕ × Option ℕ)
    → List PortConfig
    → List (String × String)
    → Option (List PortConfig × List (String × String))
unfolding mapped announce
assign_satisfactory mapping [] env = some ([], env)
assign_satisfactory mapping (c ∷ cs) env =
    elim (announce c.container_port (mapped c.container_port mapping) env) [
      | none ↦ none
      | some env' ↦ elim (assign_satisfactory mapping cs env') [
        | none ↦ none
        | some (done, env'') ↦ some (moved (mapped c.container_port mapping) c ∷ done, env'')
      ]
    ]

-- the loop of every other game
unfoldable pub assign_hosts : List (Option ℕ × Option ℕ) → List PortConfig → List PortConfig
unfolding mapped
assign_hosts mapping [] = []
assign_hosts mapping (c ∷ cs) = hosted (mapped c.container_port mapping) c ∷ assign_hosts mapping cs

-- The port mappings and the environment that the container is created with.
unfoldable pub assign :
    String → List PortConfig → List ℕ → Option (List PortConfig × List (String × String))
unfolding unique_ports port_mapping assign_satisfactory assign_hosts
assign game cs available =
    let mapping = port_mapping (unique_ports cs) available in
    if str_eq game "satisfactory"
    then assign_satisfactory mapping cs []
    else some (assign_hosts mapping cs, [])
