-- ===== src/Controller/Podman.antt =====
-- controller/src/Podman.ts: a request to podman's socket. The socket is the parameter `http` of the
-- routes, and `parse` is `JSON.parse`, `none` where it throws.
use foxplay_game.Common.{
  ℕ, String, ◌&&◌, Option, none, some, List, [], ◌∷◌, str_eq, leb, ltb, template, show,
  if◌then◌else◌,
}
use foxplay_game.Json.{Json, null}
use foxplay_game.Controller.Games.{PortConfig}

-- `kind` is the member `type`.
pub record Mount : Type 0 where
  pub kind : String
  pub source : String
  pub destination : String
  pub options : List String

-- the container that is asked for
pub record ContainerSpec : Type 0 where
  pub image : String
  pub name : Json
  pub portmappings : List PortConfig
  pub mounts : List Mount
  pub env : List (String × String)

pub record PodmanRequest : Type 0 where
  pub method : String
  pub path : String
  pub body : Option ContainerSpec

-- What the socket does: an "error" event, or a whole response.
pub data HttpReply : Type 0 where
  broken : String → HttpReply
  ended : ℕ → String → HttpReply

-- an error with its message and the status of its `response`
pub record PodmanError : Type 0 where
  pub message : String
  pub response : Option ℕ

-- What becomes of the promise. Where `JSON.parse` throws, it does so in a listener of the response,
-- outside of the promise, which is then never settled.
pub data Settled (A : Type 0) : Type 0 where
  resolved : A → Settled A
  rejected : PodmanError → Settled A
  pending : Settled A

abbrev pub parsed_body : (String → Option Json) → String → Option Json
parsed_body parse raw = if str_eq raw "" then some null else parse raw

-- the handler of the "end" event, once the body is parsed
unfoldable pub finished : ℕ → Option Json → Settled Json
unfolding show
finished status none = pending
finished status (some data_) =
    if leb 200 status && ltb status 300
    then resolved data_
    else rejected
        (record { message = template ("HTTP " ∷ show status ∷ []); response = some status })

-- the handlers of the "error" and the "end" event
unfoldable pub settle : (String → Option Json) → HttpReply → Settled Json
unfolding finished
settle parse (broken message) = rejected (record { message = message; response = none })
settle parse (ended status raw) = finished status (parsed_body parse raw)

unfoldable pub podman :
    {S : Type 0}
    → (PodmanRequest → S → HttpReply × S)
    → (String → Option Json)
    → PodmanRequest
    → S
    → Settled Json × S
unfolding settle
podman http parse req s = let (r, s') = http req s in (settle parse r, s')
