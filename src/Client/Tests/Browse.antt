-- ===== src/Client/Tests/Browse.antt =====
-- Tests and examples for the frame of the pages, the queries and the lists.
use foxplay_game.Common.{
  inl, ℕ, none, suc, ◌⊎◌, String, true, false, ◌&&◌, List, [], ◌∷◌, Option, some, ◌≡◌, refl, arith,
  All,
}
use foxplay_game.Json.{Json, obj, field, arr, nil, end}
use foxplay_game.Models.{InstanceCreate, is_instance_id, is_prefixed_id, is_space, between}
use foxplay_game.Server.{World, Fetched, answered, Res, ok, reply, query}
use foxplay_game.Server.Manager
use foxplay_game.Server.Manager.{FetchRequest}
use foxplay_game.Instances.{
  InstanceListItem, list_item, new_row, list_instances, list_body, shown_items, reconcile,
  mark_stale,
}
use foxplay_game.Instances.Table.{with_state, stop_all, active_rows}
use foxplay_game.Client.Frame.{title}
use foxplay_game.Client.Toasts.{Toast, bad}
use foxplay_game.Client.Events.{normalize_event}
use foxplay_game.Client.Function.{FunctionPage, told, invoke}
use foxplay_game.Client.Function.Ended.{IsEnded, kind_for, is_success, invoke-IsEnded}
use foxplay_game.Client.Queries.{function_invoked, runs, path_of}
use foxplay_game.Client.Queries.Refetch.{
  is_prefix, concerns, is_told, is_fetched_again, invalidations-concerns,
}
use foxplay_game.Client.Lists.{summarize_key, join_words}
use foxplay_game.Client.Lists.Summary.{summarize_key-join_words}
use foxplay_game.Client.Lists.Opened.{OpensAt, list_instances-OpensAt}

title_server : title "/servers/srv-1" ≡ "Server details"
unfolding title
title_server = refl

second_page :
    path_of (λ s. s) (runs "fn-1" 1) ≡ "/api/functions/fn-1/invocations?limit=10&offset=10"
unfolding path_of
second_page = refl

summary :
    summarize_key "  ssh-ed25519  AAAAC3NzaC1lZDI1 me@home  old "
    ≡ "ssh-ed25519 …aC1lZDI1 me@home old"
unfolding summarize_key
summary = refl

short_summary : summarize_key "ssh-rsa AAAA" ≡ "ssh-rsa …AAAA"
unfolding summarize_key
short_summary = refl

abbrev answer : Res String
answer = ok "{}"

invalidations-concerns_example :
    is_fetched_again is_prefix (λ k q. refl) (function_invoked "fn-1") answer (runs "fn-1" 3) ≡ (
      is_told (function_invoked "fn-1") answer
      && concerns (function_invoked "fn-1") (runs "fn-1" 3))
invalidations-concerns_example =
    invalidations-concerns is_prefix (λ k q. refl) (function_invoked "fn-1") answer (runs "fn-1" 3)

abbrev fetch : FetchRequest → Unit {0} → Fetched × Unit {0}
fetch req u = (answered 200 "{}", u)

-- the manager runs nothing
abbrev parse : String → Option Json
parse text = some (obj (field "running" (arr nil) end))

abbrev zod : String → Option Json → String
zod key v = "Invalid input"

abbrev box : InstanceCreate
box = record { name = "box"; base_image = "alpine"; ssh_public_key = "ssh-ed25519 AAAA" }

abbrev awake : World (Unit {0})
awake = record {
  instances =
      with_state "running" (new_row "srv-b8965196-1caf-4d21-b4f0-6bdc5f6a617e" 7 box (40000, 2))
      ∷ [];
  functions = [];
  ssh_keys = [];
  faults = [];
  remote = tt;
}

abbrev asleep : World (Unit {0})
asleep = record awake {
  instances =
      with_state "stopped" (new_row "srv-b8965196-1caf-4d21-b4f0-6bdc5f6a617e" 7 box (40000, 2))
      ∷ [];
}

abbrev shown : List InstanceListItem
shown =
    list_item
      (with_state "stopped" (new_row "srv-b8965196-1caf-4d21-b4f0-6bdc5f6a617e" 7 box (40000, 2)))
    ∷ []

list_answers : list_instances fetch parse zod 0 "" awake ≡ (ok (reply 200 shown), asleep)
unfolding list_instances Manager.running stop_all list_body query shown_items reconcile mark_stale
    active_rows
list_answers = refl

shown_ids : All (λ i. is_instance_id i.id ≡ true) shown
unfolding is_prefixed_id
shown_ids = (refl, tt)

list_instances-OpensAt_example :
    All (OpensAt fetch parse zod 0 "" (λ s. s) (λ s h. refl) asleep) shown
list_instances-OpensAt_example =
    list_instances-OpensAt fetch parse zod 0 "" (λ s. s) (λ s h. refl) awake asleep shown
      (record { in_range = omega arith; address = refl; port = refl }, tt, tt) list_answers refl
      shown_ids

summarize_key-join_words_example :
    summarize_key (join_words ("ssh-rsa" ∷ "AAAAB3NzaC1yc2E" ∷ "me@home" ∷ []))
    ≡ join_words ("ssh-rsa" ∷ "…zaC1yc2E" ∷ "me@home" ∷ [])
unfolding is_space between
summarize_key-join_words_example =
    summarize_key-join_words "ssh-rsa" "AAAAB3N" "zaC1yc2E" ("me@home" ∷ []) refl refl (refl, tt)
      (inl refl)

abbrev fresh_page : FunctionPage
fresh_page = record {
  payload = "{";
  invoking = false;
  deleting = false;
  toasts = [];
  location = none;
  refreshes = 0;
}

-- the payload is JSON, and the pool manager answers 500
abbrev answer_500 : String → String → ℕ → Fetched × ℕ
answer_500 id event n = (answered 500 "boom", suc n)

invoke-IsEnded_example :
    let (q, n) =
      invoke
        (λ v. "")
        (λ t. t)
        parse
        (λ t. t ∷ [])
        (λ v. "{}")
        answer_500
        "fn-1"
        "f"
        fresh_page
        0 in
    ((parse "{" ≡ none)
      × (n ≡ 0)
      × (toast : Toast) × (toast.kind ≡ bad)
      × (q ≡ told toast fresh_page))
    ⊎ ((raw : Json) × (parse "{" ≡ some raw)
        × (let (answer, n') = answer_500 "fn-1" (normalize_event (λ t. t ∷ []) (λ v. "{}") raw) 0 in
            (n ≡ n') × IsEnded fresh_page q (kind_for (is_success answer))))
invoke-IsEnded_example =
    invoke-IsEnded (λ v. "") (λ t. t) parse (λ t. t ∷ []) (λ v. "{}") answer_500 "fn-1" "f"
      fresh_page 0
