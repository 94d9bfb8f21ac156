-- ===== src/Server/Manager.antt =====
-- frontend/lib/instanceManager.ts: the client of the instance-manager. The service itself is the
-- parameter `fetch`; `parse` is `JSON.parse`, `none` where it throws. A request's path
-- stands without `BASE`, and its body is the value given to `JSON.stringify`.
use foxplay_game.Common.{
  ℕ, String, List, [], ◌∷◌, Option, none, some, str_eq, template, show, if◌then◌else◌,
}
use foxplay_game.Json.{Json, null, bool, num, str, arr, obj, get, strings}
use foxplay_game.Server.{
  Thrown, ok, thrown, M, pure, throw, ◌>>=◌, Fetched, rejected, answered, is_ok_status,
}

pub record InstanceSpec : Type 0 where
  pub id : String
  pub base_image : String
  pub vcpu : ℕ
  pub mem_mib : ℕ
  pub guest_ip : Option String
  pub ssh_host_port : Option ℕ
  pub ssh_public_key : Option String

pub record FetchRequest : Type 0 where
  pub method : String
  pub path : String
  pub body : Option InstanceSpec

-- `new Error(message)`
abbrev pub new_error : String → Thrown
new_error message = record { code = none; message = message }

-- `text || fallback`
abbrev or_else : String → String → String
or_else text fallback = if str_eq text "" then fallback else text

-- A text as the texts of its characters, which is what iterating over it gives.
abbrev characters : String → List String
characters String.[] = []
characters (String.◌∷◌ c s) = String.◌∷◌ c String.[] ∷ characters s

-- `new Set(value)` of a field of a parsed body, as far as its elements are texts; `none` where the
-- value is not iterable. An absent field and `null` give the empty set.
abbrev set_of : Option Json → Option (List String)
set_of none = some []
set_of (some null) = some []
set_of (some (arr items)) = some (strings items)
set_of (some (str s)) = some (characters s)
set_of (some (bool _)) = none
set_of (some (num _)) = none
set_of (some (obj _)) = none

-- `{ key }` of a parsed body; `null` cannot be destructured.
abbrev member : String → Json → Option (Option Json)
member key (obj fs) = some (get key fs)
member key null = none
member key _ = some none

abbrev not_iterable : Thrown
not_iterable = new_error "value is not iterable"

-- what `call` does with an answer
unfoldable pub check_answer : {S : Type 0} → ℕ × String → M S (Unit {0})
unfolding show
check_answer (status, text) =
    if is_ok_status status
    then pure tt
    else throw (new_error (or_else text (template ("instance-manager " ∷ show status ∷ []))))

abbrev or_throw : {S A : Type 0} → Option A → Thrown → M S A
or_throw none e = throw e
or_throw (some a) _ = pure a

module _ {S : Type 0} (parse : String → Option Json) where
  -- what `getJSON` does with an answer
  unfoldable pub json_answer : ℕ × String → M S Json
  unfolding show
  json_answer (status, text) =
      if is_ok_status status
      then or_throw (parse text) (new_error "invalid JSON")
      else throw (new_error (template ("instance-manager " ∷ show status ∷ [])))

-- `new Set(running)` of the body
unfoldable pub running_set : {S : Type 0} → Json → M S (List String)
unfolding get strings
running_set body =
    or_throw (member "running" body) not_iterable >>= λ v. or_throw (set_of v) not_iterable

module _ {S : Type 0} (fetch : FetchRequest → S → Fetched × S) (parse : String → Option Json) where
  unfoldable pub send : FetchRequest → M S (ℕ × String)
  send req w =
      let (answer, s) = fetch req w.remote in
      let w' = record w { remote = s } in
      elim answer [ rejected e ↦ (thrown e, w') | answered status text ↦ (ok (status, text), w') ]

  unfoldable pub call : String → String → Option InstanceSpec → M S (Unit {0})
  unfolding send check_answer
  call path method body =
      send (record { method = method; path = path; body = body }) >>= check_answer

  unfoldable pub get_json : String → M S Json
  unfolding send json_answer
  get_json path = send (record { method = "GET"; path = path; body = none }) >>= json_answer parse

  unfoldable pub create : InstanceSpec → M S (Unit {0})
  unfolding call
  create spec = call (template ("/create/" ∷ spec.id ∷ [])) "POST" (some spec)

  unfoldable pub start : InstanceSpec → M S (Unit {0})
  unfolding call
  start spec = call (template ("/start/" ∷ spec.id ∷ [])) "POST" (some spec)

  unfoldable pub stop : String → M S (Unit {0})
  unfolding call
  stop id = call (template ("/stop/" ∷ id ∷ [])) "POST" none

  unfoldable pub remove : InstanceSpec → M S (Unit {0})
  unfolding call
  remove spec = call (template ("/delete/" ∷ spec.id ∷ [])) "DELETE" (some spec)

  -- the value of `const { images } = await instanceManager.images()`
  unfoldable pub images : M S (Option Json)
  unfolding get_json get
  images = get_json "/images" >>= λ body. or_throw (member "images" body) not_iterable

  -- `new Set(running)` after `const { running } = await instanceManager.running()`
  unfoldable pub running : M S (List String)
  unfolding get_json running_set
  running = get_json "/running" >>= running_set
