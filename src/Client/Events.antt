-- ===== src/Client/Events.antt =====
-- frontend/features/functions/lib/json.ts: the event that a function is invoked with. `stringify` is
-- `JSON.stringify`, and `units` are the code units of a text, each as a text.
pub mod Headers
pub mod Normal
use foxplay_game.Common.{
  ℕ, suc, String, true, false, List, [], ◌∷◌, Option, none, some, str_eq, show, if◌then◌else◌,
}
use foxplay_game.Json.{
  Json, null, bool, num, str, arr, obj, Items, nil, cons, Fields, end, field, get, put,
}

abbrev default_event : Json
default_event = obj (
    field "method" (str "GET") (
      field "path" (str "/") (
        field "query" (str "") (
          field "headers" (obj (field "Content-Type" (str "application/json") end))
            (field "body" (obj end) end)))))

-- the elements under their indices
unfoldable pub indexed : ℕ → Items → Fields
unfolding show
indexed i nil = end
indexed i (cons v items) = field (show i) v (indexed (suc i) items)

unfoldable pub texts_at : ℕ → List String → Fields
unfolding show
texts_at i [] = end
texts_at i (s ∷ texts) = field (show i) (str s) (texts_at (suc i) texts)

module _ (units : String → List String) where
  -- `{ ...raw }`
  unfoldable pub spread : Json → Fields
  unfolding indexed texts_at
  spread (obj fs) = fs
  spread (arr items) = indexed 0 items
  spread (str s) = texts_at 0 (units s)
  spread v = end

-- `event.headers`, where it is an object
abbrev pub entries_of : Option Json → Fields
entries_of (some (obj fs)) = fs
entries_of (some (arr items)) = indexed 0 items
entries_of v = end

module _ (stringify : Json → String) where
  unfoldable pub stringify_value : Json → String
  stringify_value null = "null"
  stringify_value (bool true) = "true"
  stringify_value (bool false) = "false"
  stringify_value (num n) = n
  stringify_value (str s) = s
  stringify_value v = stringify v

  abbrev pub with_body : Option Json → Fields → Fields
  with_body none event = event
  with_body (some (str s)) event = event
  with_body (some v) event = put "body" (str (stringify v)) event

  unfoldable pub texts_of : Items → Items
  unfolding stringify_value
  texts_of nil = nil
  texts_of (cons v items) = cons (str (stringify_value v)) (texts_of items)

  unfoldable pub header_value : Json → Json
  unfolding texts_of
  header_value (arr items) = arr (texts_of items)
  header_value v = arr (cons (str (stringify_value v)) nil)

  -- `headers[k] = …`; under this one name it is the prototype that is set
  abbrev pub set_header : String → Json → Fields → Fields
  set_header key v headers = if str_eq key "__proto__" then headers else put key v headers

  unfoldable pub headers_of : Fields → Fields → Fields
  unfolding header_value put
  headers_of headers end = headers
  headers_of headers (field k v entries) =
      headers_of (set_header k (header_value v) headers) entries

  -- the fields of the event, without the last `JSON.stringify`
  unfoldable pub normal_fields : Fields → Fields
  unfolding headers_of put get
  normal_fields raw =
      let event = with_body (get "body" raw) raw in
      put "headers" (obj (headers_of end (entries_of (get "headers" event)))) event

module _ (units : String → List String) (stringify : Json → String) where
  unfoldable pub normalize_event : Json → String
  unfolding spread normal_fields
  normalize_event raw = stringify (obj (normal_fields stringify (spread units raw)))
