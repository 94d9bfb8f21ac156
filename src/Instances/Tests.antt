-- ===== src/Instances/Tests.antt =====
-- Tests and examples for the instances: an empty table, and a manager that takes every request.
mod Full
use foxplay_game.Common.{List, [], ◌∷◌, Option, some, ◌≡◌, refl, String, arith, find, All}
use foxplay_game.Json.{Json, str, obj, field, end}
use foxplay_game.Models.{
  InstanceCreate, is_prefixed_id, parse_instance_create, is_function_name, is_ssh_public_key,
}
use foxplay_game.Server.{World, Fetched, answered, ok, Response, reply, query}
use foxplay_game.Server.Manager
use foxplay_game.Server.Manager.{FetchRequest}
use foxplay_game.Instances.{
  InstanceListItem, act_on, with_row, settle, to_spec, new_row, create_at, create_instance,
  provision, finish, list_instances, post_instance, get_instance, start_instance, stop_instance,
  delete_instance,
}
use foxplay_game.Instances.Table.{
  allocate, max_octet, with_state, insert_row, has_id, is_active_id, set_state, soft_delete,
}
use foxplay_game.Instances.Invariant.{IsValid, AreApart}
use foxplay_game.Instances.Create.{Posted, post_instance-Posted}
use foxplay_game.Instances.Lifecycle.{
  Acted, start_instance-Acted, stop_instance-Acted, delete_instance-Acted,
}
use foxplay_game.Instances.Listing.{IsLive, list_instances-IsLive}
use foxplay_game.Instances.History.{Call, handle_all, handle_all-AreApart}
use foxplay_game.Instances.Deleted.Listed.{IsWithout}
use foxplay_game.Instances.Deleted.Forever.{IsRefusal, deleted_forever}

abbrev fetch : FetchRequest → Unit {0} → Fetched × Unit {0}
fetch req u = (answered 200 "{}", u)

abbrev parse : String → Option Json
parse text = some (obj end)

abbrev zod : String → Option Json → String
zod key v = "Invalid input"

abbrev empty : World (Unit {0})
empty = record { instances = []; functions = []; ssh_keys = []; faults = []; remote = tt }

abbrev body : Json
body = obj (field "name" (str "box") (field "ssh_public_key" (str "ssh-ed25519 AAAA") end))

abbrev box : InstanceCreate
box = record { name = "box"; base_image = "alpine"; ssh_public_key = "ssh-ed25519 AAAA" }

abbrev den : InstanceCreate
den = record { name = "den"; base_image = "alpine"; ssh_public_key = "ssh-ed25519 AAAA" }

abbrev id : String
id = "srv-b8965196-1caf-4d21-b4f0-6bdc5f6a617e"

posted_status : (post_instance fetch parse zod 7 id body empty).0 ≡ ok (reply 201 id)
unfolding post_instance parse_instance_create is_function_name is_ssh_public_key create_instance
    query allocate max_octet insert_row provision Manager.create finish
posted_status = refl

abbrev one : World (Unit {0})
one = record empty { instances = new_row id 7 box (40000, 2) ∷ [] }

abbrev awake : World (Unit {0})
awake = record empty { instances = with_state "running" (new_row id 7 box (40000, 2)) ∷ [] }

one-IsValid : IsValid one.instances
one-IsValid = (record { in_range = omega arith; address = refl; port = refl }, tt, tt)

post_instance-Posted_example :
    let (r, w') = post_instance fetch parse zod 7 id body empty in
    (q : Response String) × (r ≡ ok q) × Posted id 7 [] w'.instances q
post_instance-Posted_example = post_instance-Posted fetch parse zod 7 id body empty

start_instance-Acted_example :
    let (o, w') = start_instance fetch parse zod 0 "" id one in
    (q : Response (Unit {0})) × (o ≡ ok q)
    × Acted
        (find (is_active_id id))
        (λ r. Manager.start fetch parse (to_spec r))
        (set_state id "running")
        one
        w'
        q
unfolding is_prefixed_id
start_instance-Acted_example = start_instance-Acted fetch parse zod 0 "" id one refl

stop_instance-Acted_example :
    let (o, w') = stop_instance fetch parse zod 0 "" id one in
    (q : Response (Unit {0})) × (o ≡ ok q)
    × Acted
        (find (is_active_id id))
        (λ _. Manager.stop fetch parse id)
        (set_state id "stopped")
        one
        w'
        q
unfolding is_prefixed_id
stop_instance-Acted_example = stop_instance-Acted fetch parse zod 0 "" id one refl

delete_instance-Acted_example :
    let (o, w') = delete_instance fetch parse zod 9 "" id one in
    (q : Response (Unit {0})) × (o ≡ ok q)
    × Acted
        (find (has_id id))
        (λ r. Manager.remove fetch parse (to_spec r))
        (soft_delete id 9)
        one
        w'
        q
unfolding is_prefixed_id
delete_instance-Acted_example = delete_instance-Acted fetch parse zod 9 "" id one refl

list_instances-IsLive_example :
    let (r, w') = list_instances fetch parse zod 0 "" awake in
    (items : List InstanceListItem) × (r ≡ ok (reply 200 items)) × All (IsLive []) items
unfolding Manager.running
list_instances-IsLive_example =
    list_instances-IsLive fetch parse zod 0 "" awake [] refl awake refl refl

handle_all-AreApart_example :
    let calls =
      Call.post 7 id body ∷ Call.delete 8 id ∷ Call.post 9 "srv-2" body ∷ Call.list ∷ [] in
    IsValid (handle_all fetch parse zod calls empty).instances
    × AreApart (handle_all fetch parse zod calls empty).instances
handle_all-AreApart_example =
    handle_all-AreApart fetch parse zod
      (Call.post 7 id body ∷ Call.delete 8 id ∷ Call.post 9 "srv-2" body ∷ Call.list ∷ []) empty tt

-- one request is handled between the statements of the other
abbrev between_them : World (Unit {0})
between_them = (create_instance fetch parse zod 7 id box empty).1

abbrev both_done : World (Unit {0})
both_done = (create_at fetch parse zod 8 "srv-2" den (40000, 2) between_them).1

-- deleted, then created anew under the same id, started and listed
abbrev later_calls : List Call
later_calls = Call.post 9 id body ∷ Call.start id ∷ Call.list ∷ []

deleted_forever_example :
    let v =
      handle_all fetch parse zod later_calls (delete_instance fetch parse zod 8 "" id one).1 in
    IsRefusal (get_instance fetch parse zod 8 "" id v).0
    × IsRefusal (start_instance fetch parse zod 8 "" id v).0
    × IsRefusal (stop_instance fetch parse zod 8 "" id v).0
    × IsWithout id (list_instances fetch parse zod 8 "" v).0
unfolding delete_instance is_prefixed_id act_on query with_row Manager.remove settle
deleted_forever_example = deleted_forever fetch parse zod 8 "" id one later_calls refl
