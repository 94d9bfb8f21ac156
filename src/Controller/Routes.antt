-- ===== src/Controller/Routes.antt =====
-- controller/src/index.ts: the routes. `http` and `parse` are those of Podman, `mkdir` makes a
-- directory (`false` where it rejects), `read` reads a file of /proc/net, `text` prints a value that is
-- no text, and `draw` draws the characters of the random part of a name.
pub mod Replies
pub mod Steps
pub mod Creation
pub mod Hosted
use foxplay_game.Common.{
  ℕ, String, Bool, true, false, not, Option, none, some, List, [], ◌∷◌, str_eq, template, ◌==◌,
  length, if◌then◌else◌,
}
use foxplay_game.Json.{Json, null, str, obj, get}
use foxplay_game.Controller.Names.{generate_random_string}
use foxplay_game.Controller.Backup.{Services, done, threw, backup}
use foxplay_game.Controller.Games.{PortConfig, ServerEntry, get_server, is_valid}
use foxplay_game.Controller.Ports.{find_available_ports}
use foxplay_game.Controller.Assign.{unique_ports, assign}
use foxplay_game.Controller.Podman.{
  ContainerSpec, PodmanRequest, HttpReply, PodmanError, Settled, resolved, rejected, pending,
  podman,
}

pub data Payload : Type 0 where
  invalid_params : Payload
  failed : PodmanError → Payload
  managed : String → Payload
  -- with `createRes.data.Id`, which is left out of the JSON where it is `undefined`
  created : Option Json → List PortConfig → Payload

-- A response, or none: the handler's promise rejects outside its `try`, or is never settled.
pub data Reply : Type 0 where
  sent : ℕ → Payload → Reply
  unanswered : Reply

-- the `catch` of every route
unfoldable pub error_reply : PodmanError → Reply
error_reply e = elim e.response [
  | none ↦ sent 500 (failed e)
  | some status ↦
      if status == 404
      then sent 404 (failed e)
      else if status == 409
      then sent 409 (failed e)
      else sent 500 (failed e)
]

-- the end of stop, start and destroy
unfoldable pub managed_reply : String → Settled Json → Reply
unfolding error_reply
managed_reply id (resolved _) = sent 200 (managed id)
managed_reply id (rejected e) = error_reply e
managed_reply id pending = unanswered

-- the end of the route that creates
unfoldable pub created_reply : Option Json → List PortConfig → Settled Json → Reply
unfolding error_reply
created_reply id ports (resolved _) = sent 200 (created id ports)
created_reply id ports (rejected e) = error_reply e
created_reply id ports pending = unanswered

abbrev pub containers : String
containers = "/v5.0.0/libpod/containers/"

module _ {S : Type 0} (http : PodmanRequest → S → HttpReply × S) (parse : String → Option Json)
    (text : Json → String) (mkdir : String → S → Bool × S)
    (read : S → String → Option (List ℕ)) where
  abbrev pub ask : String → String → Option ContainerSpec → S → Settled Json × S
  ask method path body = podman http parse (record { method = method; path = path; body = body })

  -- what stop, start and destroy do
  unfoldable pub manage : String → String → String → S → Reply × S
  unfolding podman managed_reply
  manage method path id s = let (r, s') = ask method path none s in (managed_reply id r, s')

  unfoldable pub stop_container : String → S → Reply × S
  unfolding manage
  stop_container id = manage "POST" (template (containers ∷ id ∷ "/stop?timeout=30" ∷ [])) id

  unfoldable pub start_container : String → S → Reply × S
  unfolding manage
  start_container id = manage "POST" (template (containers ∷ id ∷ "/start" ∷ [])) id

  -- `force` is the query's parameter
  unfoldable pub destroy_container : String → Option String → S → Reply × S
  unfolding manage
  destroy_container id force =
      let is_forced : Bool = elim force [ none ↦ false | some f ↦ str_eq f "true" ] in
      manage "DELETE"
        (template (containers ∷ id ∷ (if is_forced then "?force=true&timeout=30" else "") ∷ [])) id

  -- a value in a template
  abbrev pub template_text : Json → String
  template_text (str s) = s
  template_text v = text v

  -- `createRes.data.Id`, which throws for `null`; `some none` is `undefined`
  abbrev pub container_id : Json → Option (Option Json)
  container_id null = none
  container_id (obj fs) = some (get "Id" fs)
  container_id _ = some none

  -- `${createRes.data.Id}`
  abbrev pub id_in_path : Option Json → String
  id_in_path none = "undefined"
  id_in_path (some v) = template_text v

  abbrev pub no_member : PodmanError
  no_member = record { message = "Cannot read properties of null"; response = none }

  -- the second request of the `try`, for `createRes.data.Id`
  unfoldable pub start_created : Option (Option Json) → List PortConfig → S → Reply × S
  unfolding podman created_reply error_reply
  start_created none ports s = (error_reply no_member, s)
  start_created (some id) ports s =
      let (r, s') = ask "POST" (template (containers ∷ id_in_path id ∷ "/start" ∷ [])) none s in
      (created_reply id ports r, s')

  unfoldable pub after_create : List PortConfig → Settled Json → S → Reply × S
  unfolding start_created error_reply
  after_create ports (resolved data_) s = start_created (container_id data_) ports s
  after_create ports (rejected e) s = (error_reply e, s)
  after_create ports pending s = (unanswered, s)

  -- the `try`
  unfoldable pub create_container : ContainerSpec → S → Reply × S
  unfolding after_create podman
  create_container spec s =
      let (r, s') = ask "POST" (template (containers ∷ "create" ∷ [])) (some spec) s in
      after_create spec.portmappings r s'

  abbrev pub spec_of :
      ServerEntry → String → Json → List PortConfig × List (String × String) → ContainerSpec
  spec_of config version name assigned = record {
    image = template (config.image ∷ ":" ∷ version ∷ []);
    name = name;
    portmappings = assigned.0;
    mounts =
        record {
          kind = "bind";
          source = template ("/foxplay-games/" ∷ template_text name ∷ []);
          destination = config.backup_path;
          options = "rbind" ∷ "rw" ∷ [];
        }
        ∷ [];
    env = assigned.1;
  }

  -- `req.query.name`, a text, an array or an object, or else a name of the game's with a random part
  unfoldable pub name_of : (S → ℕ × S) → Option Json → ServerEntry → String → S → Json × S
  unfolding generate_random_string
  name_of draw (some name) config version s = (name, s)
  name_of draw none config version s =
      let (random, s') = generate_random_string draw 12 s in
      (str (template (config.name ∷ "-" ∷ version ∷ "-" ∷ random ∷ [])), s')

  -- behind the ports' assignment
  unfoldable pub create_assigned :
      ServerEntry
      → String
      → Json
      → Option (List PortConfig × List (String × String))
      → S
      → Reply × S
  unfolding create_container
  create_assigned config version name none s = (unanswered, s)
  create_assigned config version name (some assigned) s =
      create_container (spec_of config version name assigned) s

  -- behind the search for ports
  unfoldable pub create_found :
      ServerEntry → String → String → Json → Option (List ℕ) → S → Reply × S
  unfolding create_assigned assign
  create_found config game version name none s = (unanswered, s)
  create_found config game version name (some available) s =
      create_assigned config version name (assign game config.port_config available) s

  -- behind the making of the directory
  unfoldable pub create_placed : ServerEntry → String → String → Json → Bool → S → Reply × S
  unfolding create_found find_available_ports unique_ports
  create_placed config game version name false s = (unanswered, s)
  create_placed config game version name true s =
      create_found config game version name
        (find_available_ports (read s) (length (unique_ports config.port_config)) 20000 60000) s

  -- behind the check of the parameters
  unfoldable pub provide : ServerEntry → String → String → Json → S → Reply × S
  unfolding create_placed
  provide config game version name s =
      let (made, s') = mkdir (template ("/foxplay-games/" ∷ template_text name ∷ [])) s in
      create_placed config game version name made s'

  unfoldable pub create_route : (S → ℕ × S) → String → String → String → Option Json → S → Reply × S
  unfolding is_valid get_server provide name_of
  create_route draw game server version name s =
      if not (is_valid game server version)
      then (sent 400 invalid_params, s)
      else elim (get_server game server) [
        | none ↦ (unanswered, s)
        | some config ↦
            let (named, s') = name_of draw name config version s in
            provide config game version named s'
      ]

-- GET /manage/:id/backup. What `backup` throws has no `response`.
unfoldable pub backup_container : {S : Type 0} → Services S → String → S → Reply × S
unfolding backup error_reply
backup_container sv id s =
    let (r, s') = backup sv (some id) s in
    elim r [
      | done _ ↦ (sent 200 (managed id), s')
      | threw message ↦ (error_reply (record { message = message; response = none }), s')
    ]
