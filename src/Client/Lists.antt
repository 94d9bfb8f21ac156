-- ===== src/Client/Lists.antt =====
-- The lists of servers, functions and keys:
-- frontend/features/servers/components/{ServersClient,InstanceList,StateBadge}.tsx,
-- frontend/features/functions/components/{FunctionsClient,FunctionList}.tsx and the list of
-- frontend/features/ssh-keys/components/SshKeysClient.tsx.
pub mod Opened
pub mod Words
pub mod Summary
use Prim.Native.Char.{Char, code}
use Prim.Native.String
use foxplay_game.Common.{
  ℕ, ◌+◌, ◌-◌, ◌==◌, leb, String, Bool, false, List, [], ◌∷◌, map, Option, none, some, str_eq,
  codes, template, if◌then◌else◌,
}
use foxplay_game.Models.{is_space, short_id}
use foxplay_game.Instances.{InstanceListItem}
use foxplay_game.Registry.Functions.{FunctionItem}
use foxplay_game.Registry.Keys.{KeyItem, trim}
use foxplay_game.Client.Requests.{Query, pending, failed, loaded}

-- what a list shows: a message in its place, or its rows, where none says `empty`
pub data ListView (R : Type 0) : Type 0 where
  message : String → ListView R
  empty : String → ListView R
  rows : List R → ListView R

abbrev rows_or : {R : Type 0} → String → List R → ListView R
rows_or nothing [] = empty nothing
rows_or nothing (r ∷ rs) = rows (r ∷ rs)

-- `isLoading`, `isError`, and the rows
abbrev pub list_view : {A R : Type 0} → String → String → (A → R) → Query (List A) → ListView R
list_view failure nothing row pending = message "Loading…"
list_view failure nothing row failed = message failure
list_view failure nothing row (loaded items) = rows_or nothing (map row items)

-- `COLORS[state] ?? COLORS.stopped`
unfoldable pub badge_class : String → String
badge_class state =
    if str_eq state "running"
    then "text-green-600 border-green-200 bg-green-50"
    else if str_eq state "creating"
    then "text-[#f26a1f] border-orange-200 bg-orange-50"
    else if str_eq state "error"
    then "text-red-500 border-red-200 bg-red-50"
    else "text-gray-500 border-gray-200 bg-gray-50"

-- a row that leads to a page, with the badge of a server
pub record Entry : Type 0 where
  pub href : String
  pub name : String
  pub badge : Option (String × String)
  pub short : List ℕ

abbrev pub server_entry : InstanceListItem → Entry
server_entry inst = record {
  href = template ("/servers/" ∷ inst.id ∷ []);
  name = inst.name;
  badge = some (badge_class inst.state, inst.state);
  short = short_id (codes inst.id);
}

abbrev pub function_entry : FunctionItem → Entry
function_entry f = record {
  href = template ("/functions/" ∷ f.id ∷ []);
  name = f.name;
  badge = none;
  short = short_id (codes f.id);
}

unfoldable pub servers_view : Query (List InstanceListItem) → ListView Entry
unfolding badge_class
servers_view = list_view "Failed to load servers." "No servers yet." server_entry

unfoldable pub functions_view : Query (List FunctionItem) → ListView Entry
functions_view = list_view "Failed to load functions." "No functions uploaded yet." function_entry

abbrev pub starts_space : String → Bool
starts_space String.[] = false
starts_space (String.◌∷◌ c s) = is_space (code c)

abbrev pub on_head : Char → List String → List String
on_head c [] = String.◌∷◌ c "" ∷ []
on_head c (w ∷ ws) = String.◌∷◌ c w ∷ ws

-- `split(/\s+/)`
unfoldable pub split_spaces : String → List String
split_spaces String.[] = "" ∷ []
split_spaces (String.◌∷◌ c s) =
    let rest = split_spaces s in
    if is_space (code c) then if starts_space s then rest else "" ∷ rest else on_head c rest

-- how many code units of UTF-16 a character takes
abbrev pub width : Char → ℕ
width c = if leb 0x10000 (code c) then 2 else 1

-- `length`
abbrev pub size : String → ℕ
size String.[] = 0
size (String.◌∷◌ c s) = width c + size s

-- without the first code units; the second half of a character alone is shown as U+FFFD
abbrev pub without_first : ℕ → String → String
without_first n String.[] = ""
without_first n (String.◌∷◌ c s) =
    let rest = without_first (n - width c) s in
    if n == 0 then String.◌∷◌ c s else if leb (width c) n then rest else String.◌∷◌ "�" s

-- `slice(-8)`, of code units, as the page shows it
unfoldable pub last_8 : String → String
last_8 s = without_first (size s - 8) s

abbrev pub join_words : List String → String
join_words [] = ""
join_words (w ∷ []) = w
join_words (w ∷ v ∷ ws) = template (w ∷ " " ∷ join_words (v ∷ ws) ∷ [])

abbrev tail_of : List String → String
tail_of [] = ""
tail_of (body ∷ comment) = if str_eq body "" then "" else template ("…" ∷ last_8 body ∷ [])

abbrev comment_of : List String → String
comment_of [] = ""
comment_of (body ∷ []) = ""
comment_of (body ∷ w ∷ ws) = template (" " ∷ join_words (w ∷ ws) ∷ [])

abbrev pub summary_of : List String → String
summary_of [] = ""
summary_of (type ∷ rest) = template (type ∷ " " ∷ tail_of rest ∷ comment_of rest ∷ [])

unfoldable pub summarize_key : String → String
unfolding trim split_spaces last_8 is_space
summarize_key public_key = trim (summary_of (split_spaces (trim public_key)))

-- a saved key: its name, its text, which is the row's title, and the summary
pub record KeyEntry : Type 0 where
  pub name : String
  pub title : String
  pub summary : String

unfoldable pub keys_view : Query (List KeyItem) → ListView KeyEntry
unfolding summarize_key
keys_view =
    list_view "Failed to load keys." "No keys yet."
      λ k. record { name = k.name; title = k.public_key; summary = summarize_key k.public_key }
