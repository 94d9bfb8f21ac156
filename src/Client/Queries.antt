-- ===== src/Client/Queries.antt =====
-- The queries of the pages and what their mutations refetch: frontend/features/*/hooks,
-- frontend/features/*/lib/api.ts, and the calls of `useQuery` in the components. `encode` is
-- `encodeURIComponent`.
pub mod Refetch
use foxplay_game.Common.{
  ℕ, ◌*◌, String, Bool, true, false, ◌&&◌, List, [], ◌∷◌, map, Option, none, some, template, show,
  str_eq, ◌==◌,
}
use foxplay_game.Instances.{InstanceDetail}
use foxplay_game.Server.{Res, ok, thrown}
use foxplay_game.Client.Runs.{page_size, invocations_url}

-- a query, named for what it fetches
pub data AppQuery : Type 0 where
  servers functions keys images : AppQuery
  server function stats : String → AppQuery
  samples runs : String → ℕ → AppQuery

-- an element of a query's key
pub data Part : Type 0 where
  word : String → Part
  page : ℕ → Part

abbrev pub QueryKey : Type 0
QueryKey = List Part

-- `queryKey`
unfoldable pub key_of : AppQuery → QueryKey
key_of servers = word "instances" ∷ []
key_of functions = word "functions" ∷ []
key_of keys = word "ssh-keys" ∷ []
key_of images = word "images" ∷ []
key_of (server id) = word "instance" ∷ word id ∷ []
key_of (function id) = word "function" ∷ word id ∷ []
key_of (stats id) = word "function" ∷ word id ∷ word "invocations" ∷ word "stats" ∷ []
key_of (samples id n) = word "instance" ∷ word id ∷ word "metrics" ∷ page n ∷ []
key_of (runs id n) = word "function" ∷ word id ∷ word "invocations" ∷ page n ∷ []

-- the path that the query fetches
unfoldable pub path_of : (String → String) → AppQuery → String
unfolding show invocations_url
path_of encode servers = "/api/instances"
path_of encode functions = "/api/functions"
path_of encode keys = "/api/ssh-keys"
path_of encode images = "/api/images"
path_of encode (server id) = template ("/api/instances/" ∷ encode id ∷ [])
path_of encode (function id) = template ("/api/functions/" ∷ encode id ∷ [])
path_of encode (stats id) = invocations_url encode id 50 0
path_of encode (runs id n) = invocations_url encode id page_size (n * page_size)
path_of encode (samples id n) = template (
    "/api/instances/"
    ∷ encode id
    ∷ "/metrics?limit="
    ∷ show page_size
    ∷ "&offset="
    ∷ show (n * page_size)
    ∷ [])

-- a query in use, with `refetchInterval` and `enabled`
pub record Use : Type 0 where
  pub query : AppQuery
  pub every : Option ℕ
  pub enabled : Bool

abbrev pub plain : AppQuery → Use
plain q = record { query = q; every = none; enabled = true }

-- a component that uses queries, with its parameters, its page of the table, and what it has fetched
pub data Component : Type 0 where
  servers_client functions_client upload_form keys_client key_form create_instance : Component
  function_detail : String → Component
  function_details : String → ℕ → Component
  instance_detail : String → ℕ → Option InstanceDetail → Component

abbrev is_some : {A : Type 0} → Option A → Bool
is_some none = false
is_some (some a) = true

abbrev pub is_live : Option InstanceDetail → ℕ → Bool
is_live none n = false
is_live (some inst) n = str_eq inst.state "running" && n == 0

abbrev live_interval : Bool → Option ℕ
live_interval true = some 5000
live_interval false = none

-- the queries of a component, its hooks' included
unfoldable pub queries_of : Component → List Use
queries_of servers_client = plain servers ∷ []
queries_of functions_client = plain functions ∷ []
queries_of keys_client = plain keys ∷ []
queries_of upload_form = plain functions ∷ []
queries_of key_form = plain keys ∷ []
queries_of create_instance = plain servers ∷ plain keys ∷ plain images ∷ []
queries_of (function_detail id) = plain functions ∷ plain (function id) ∷ []
queries_of (function_details id n) = map plain (function id ∷ stats id ∷ runs id n ∷ [])
queries_of (instance_detail id n inst) =
    plain servers
    ∷ record { query = server id; every = some 5000; enabled = true }
    ∷ record {
      query = samples id n;
      every = live_interval (is_live inst n);
      enabled = is_some inst;
    }
    ∷ []

-- what a page asks the server to change
pub data Action : Type 0 where
  server_created key_created function_registered : Action
  server_started server_stopped server_removed key_removed function_removed function_invoked :
      String → Action

-- the key that is invalidated when the action ends
abbrev pub invalidated : Action → QueryKey
invalidated server_created = word "instances" ∷ []
invalidated (server_started id) = word "instances" ∷ []
invalidated (server_stopped id) = word "instances" ∷ []
invalidated (server_removed id) = word "instances" ∷ []
invalidated function_registered = word "functions" ∷ []
invalidated (function_removed id) = word "functions" ∷ []
invalidated key_created = word "ssh-keys" ∷ []
invalidated (key_removed id) = word "ssh-keys" ∷ []
invalidated (function_invoked id) = word "function" ∷ word id ∷ []

-- `onSuccess` of the hooks; the page of a function refreshes in `finally`
unfoldable pub invalidations : {A : Type 0} → Action → Res A → List QueryKey
invalidations (function_invoked id) r = invalidated (function_invoked id) ∷ []
invalidations a (ok v) = invalidated a ∷ []
invalidations a (thrown e) = []

-- whether `detailQuery.refetch()` of the page of a server fetches a query, once that page has had the
-- server started or stopped
unfoldable pub refetched : {A : Type 0} → Action → Res A → AppQuery → Bool
refetched (server_started id) (ok v) (server other) = str_eq id other
refetched (server_stopped id) (ok v) (server other) = str_eq id other
refetched a r q = false
