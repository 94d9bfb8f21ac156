-- ===== src/Client/Events/Normal.antt =====
-- The event that frontend/features/functions/lib/json.ts sends, and what normalizing it again does.
use foxplay_game.Common.{String, ◌≡◌, Option, none, some}
use foxplay_game.Json.{Json, str, obj, Fields, end, get}
use foxplay_game.Client.Events.{with_body, headers_of, entries_of}
use foxplay_game.Client.Events.Headers.{IsNormal}

module _ (stringify : Json → String) where
  -- a body that is none, or a text
  abbrev pub IsText : Option Json → Type 0
  IsText none = Unit
  IsText (some (str s)) = Unit
  IsText (some v) = ⊥

  abbrev with_text : Fields → Fields
  with_text raw = with_body stringify (get "body" raw) raw

  abbrev normal_headers : Fields → Fields
  normal_headers raw = headers_of stringify end (entries_of (get "headers" (with_text raw)))

  -- What the pool manager takes: a body that is a text, if there is one, and headers that are lists of
  -- texts under names of their own.
  pub record IsSendable (event : Fields) : Type 0 where
    pub body : IsText (get "body" event)
    pub headers : Fields
    pub found : get "headers" event ≡ some (obj headers)
    pub normal : IsNormal stringify headers
