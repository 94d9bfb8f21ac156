-- ===== src/Instances.antt =====
-- frontend/app/api/instances: the routes that list, create, show, delete, start and stop the
-- instances, over the database and the instance-manager. `now` is the database's clock, `fresh` the
-- id that it would give a new row; the parameters `fetch` and `parse` are those of Server/Manager,
-- `zod` that of Models. A route's `id` is the path's parameter, and its body is `null` where it
-- could not be read.
pub mod Table
pub mod Invariant
pub mod Create
pub mod Lifecycle
pub mod Listing
pub mod Found
pub mod History
pub mod Deleted
pub mod Race
pub mod Images
mod Tests
use Prim.Native.String.{String}
use foxplay_game.Common.{
  ℕ, Bool, not, ◌&&◌, List, [], ◌∷◌, map, Option, none, some, str_eq, template, ltb, any, find,
  select, if◌then◌else◌,
}
use foxplay_game.Json.{Json}
use foxplay_game.Models.{InstanceCreate, success, failure, parse_instance_create, is_instance_id}
use foxplay_game.Server.{
  InstanceRow, Thrown, ok, thrown, M, pure, ◌>>=◌, ◌>>◌, try_catch, query, Response, fail, reply,
  is_duplicate, Fetched,
}
use foxplay_game.Server.Manager
use foxplay_game.Server.Manager.{InstanceSpec, FetchRequest}
use Table.{
  insert_row, set_state, soft_delete, stop_all, active_rows, is_active_id, has_id, guest_address,
  allocate,
}

-- the columns that the list and the detail route select
pub record InstanceListItem : Type 0 where
  pub id : String
  pub name : String
  pub state : String
  pub base_image : String
  pub guest_ip : Option String
  pub ssh_host_port : Option ℕ
  pub created_at : ℕ

pub record InstanceDetail : Type 0 where
  pub id : String
  pub name : String
  pub state : String
  pub base_image : String
  pub vcpu : ℕ
  pub mem_mib : ℕ
  pub guest_ip : Option String
  pub ssh_host_port : Option ℕ
  pub created_at : ℕ

abbrev pub list_item : InstanceRow → InstanceListItem
list_item r = record {
  id = r.id;
  name = r.name;
  state = r.state;
  base_image = r.base_image;
  guest_ip = r.guest_ip;
  ssh_host_port = r.ssh_host_port;
  created_at = r.created_at;
}

abbrev pub detail : InstanceRow → InstanceDetail
detail r = record {
  id = r.id;
  name = r.name;
  state = r.state;
  base_image = r.base_image;
  vcpu = r.vcpu;
  mem_mib = r.mem_mib;
  guest_ip = r.guest_ip;
  ssh_host_port = r.ssh_host_port;
  created_at = r.created_at;
}

-- `toSpec`
abbrev pub to_spec : InstanceRow → InstanceSpec
to_spec r = record {
  id = r.id;
  base_image = r.base_image;
  vcpu = r.vcpu;
  mem_mib = r.mem_mib;
  guest_ip = r.guest_ip;
  ssh_host_port = r.ssh_host_port;
  ssh_public_key = r.ssh_public_key;
}

-- the row that `INSERT INTO instances … VALUES` writes
abbrev pub new_row : String → ℕ → InstanceCreate → ℕ × ℕ → InstanceRow
new_row fresh now input slot = record {
  id = fresh;
  name = input.name;
  user_id = none;
  state = "creating";
  base_image = input.base_image;
  vcpu = 1;
  mem_mib = 128;
  guest_ip = some (guest_address slot.1);
  ssh_host_port = some slot.0;
  ssh_public_key = some input.ssh_public_key;
  created_at = now;
  deleted_at = none;
}

-- `r.state === "running" && !live.has(r.id)`
abbrev pub is_stale : List String → InstanceListItem → Bool
is_stale live r = str_eq r.state "running" && not (any (str_eq r.id) live)

abbrev pub mark_stopped : List String → InstanceListItem → InstanceListItem
mark_stopped live r = if is_stale live r then record r { state = "stopped" } else r

abbrev pub item_ids : List InstanceListItem → List String
item_ids = map (λ r. r.id)

module _ {S : Type 0} where
  -- statements
  abbrev pub read_rows : {A : Type 0} → (List InstanceRow → A) → M S A
  read_rows f = query (λ w. (ok (f w.instances), w))

  abbrev pub write_rows : (List InstanceRow → List InstanceRow) → M S (Unit {0})
  write_rows f = query (λ w. (ok tt, record w { instances = f w.instances }))

  abbrev pub insert_instance : InstanceRow → M S (Unit {0})
  insert_instance row = query (λ w. elim (insert_row row w.instances) [
    | ok rows ↦ (ok tt, record w { instances = rows })
    | thrown e ↦ (thrown e, w)
  ])

  abbrev pub allocate_slot : M S (ℕ × ℕ)
  allocate_slot = query (λ w. (allocate w.instances, w))

  -- `try { await m } catch (err) { … }`, with the error for what follows
  abbrev pub attempt : M S (Unit {0}) → M S (Option Thrown)
  attempt m = try_catch (m >>= λ _. pure none) (λ e. pure (some e))

  abbrev pub not_found : {A : Type 0} → M S (Response A)
  not_found = pure (fail 404 "not found")

-- `${what}: ${err instanceof Error ? err.message : err}` with status 502
abbrev pub gateway : {S A : Type 0} → String → Thrown → M S (Response A)
gateway what e = pure (fail 502 (template (what ∷ ": " ∷ e.message ∷ [])))

-- What DELETE, start and stop have in common: they find the row, have the manager act on it, and
-- change the table once it has.
module _ {S : Type 0} where
  -- once the manager has answered, with the error if it failed
  unfoldable pub settle :
      String → (List InstanceRow → List InstanceRow) → Option Thrown → M S (Response (Unit {0}))
  settle failing change none = do write_rows change; pure (reply 200 tt)
  settle failing change (some e) = gateway failing e

  unfoldable pub with_row :
      (InstanceRow → M S (Unit {0}))
      → String
      → (List InstanceRow → List InstanceRow)
      → Option InstanceRow
      → M S (Response (Unit {0}))
  with_row act failing change none = not_found
  with_row act failing change (some r) = attempt (act r) >>= settle failing change

  unfoldable pub act_on :
      (List InstanceRow → Option InstanceRow)
      → (InstanceRow → M S (Unit {0}))
      → String
      → (List InstanceRow → List InstanceRow)
      → String
      → M S (Response (Unit {0}))
  act_on row act failing change crashed =
      try_catch (read_rows row >>= with_row act failing change) (λ _. pure (fail 500 crashed))

module _ {S : Type 0} (fetch : FetchRequest → S → Fetched × S) (parse : String → Option Json)
    (zod : String → Option Json → String) (now : ℕ) (fresh : String) where
  -- the reconciliation with what the manager runs, once that is known
  unfoldable pub mark_stale : List InstanceListItem → List String → M S (List InstanceListItem)
  mark_stale rows live = elim (select (is_stale live) rows) [
    | [] ↦ pure rows
    | stale ∷ more ↦ do
      write_rows (stop_all (item_ids (stale ∷ more)))
      pure (map (mark_stopped live) rows)
  ]

  unfoldable pub reconcile : List InstanceListItem → M S (List InstanceListItem)
  reconcile rows = Manager.running fetch parse >>= mark_stale rows

  unfoldable pub shown_items : List InstanceListItem → M S (List InstanceListItem)
  shown_items rows = try_catch (reconcile rows) (λ _. pure rows)

  unfoldable pub list_body : M S (Response (List InstanceListItem))
  list_body = read_rows (λ rows. map list_item (active_rows rows)) >>= shown_items >>= λ shown.
      pure (reply 200 shown)

  unfoldable pub list_instances : M S (Response (List InstanceListItem))
  list_instances = try_catch list_body (λ _. pure (fail 500 "query failed"))

  -- what POST does once the manager has answered, with the error if it failed
  unfoldable pub finish : InstanceRow → Option Thrown → M S (Response String)
  finish row none = do write_rows (set_state row.id "running"); pure (reply 201 row.id)
  finish row (some e) = do write_rows (set_state row.id "error"); gateway "create failed" e

  -- the steps of POST once the row is there
  unfoldable pub provision : InstanceRow → M S (Response String)
  provision row = attempt (Manager.create fetch parse (to_spec row)) >>= finish row

  -- the steps of POST once the slot is allocated
  unfoldable pub create_at : InstanceCreate → ℕ × ℕ → M S (Response String)
  create_at input slot = if ltb 254 slot.1 then pure (fail 507 "address space full") else do
    insert_instance (new_row fresh now input slot)
    provision (new_row fresh now input slot)

  unfoldable pub create_instance : InstanceCreate → M S (Response String)
  unfolding create_at
  create_instance input = allocate_slot >>= create_at input

  -- the outer `catch` of POST
  unfoldable pub create_failed : InstanceCreate → Thrown → M S (Response String)
  create_failed input e =
      if is_duplicate e
      then pure (fail 409 (template ("an instance named '" ∷ input.name ∷ "' already exists" ∷ [])))
      else pure (fail 500 "create failed")

  unfoldable pub post_instance : Json → M S (Response String)
  post_instance body = elim (parse_instance_create zod body) [
    | failure message ↦ pure (fail 400 message)
    | success input ↦ try_catch (create_instance input) (create_failed input)
  ]

  unfoldable pub get_instance : String → M S (Response InstanceDetail)
  get_instance id =
      if not (is_instance_id id)
      then not_found
      else try_catch
          (do
            found ← read_rows (find (is_active_id id))
            elim found [ none ↦ not_found | some r ↦ pure (reply 200 (detail r)) ])
          (λ _. pure (fail 500 "query failed"))

  -- `DELETE`, which looks among the deleted rows too
  unfoldable pub delete_instance : String → M S (Response (Unit {0}))
  delete_instance id =
      if not (is_instance_id id)
      then not_found
      else act_on (find (has_id id)) (λ r. Manager.remove fetch parse (to_spec r))
          "server teardown failed" (soft_delete id now) "delete failed"

  unfoldable pub start_instance : String → M S (Response (Unit {0}))
  start_instance id =
      if not (is_instance_id id)
      then not_found
      else act_on (find (is_active_id id)) (λ r. Manager.start fetch parse (to_spec r))
          "start failed" (set_state id "running") "start failed"

  unfoldable pub stop_instance : String → M S (Response (Unit {0}))
  stop_instance id =
      if not (is_instance_id id)
      then not_found
      else act_on (find (is_active_id id)) (λ _. Manager.stop fetch parse id) "stop failed"
          (set_state id "stopped") "stop failed"
