-- ===== src/Instances/Table.antt =====
-- The statements that the routes of frontend/app/api/instances send to the table `instances`, whose
-- unique indexes stand in database/migrations/20260711000006_instances.sql. The newest row is first.
use Prim.Native.String.{String}
use foxplay_game.Common.{
  ℕ, ◌+◌, Bool, true, false, ◌&&◌, ◌||◌, List, [], ◌∷◌, Option, none, some, str_eq, codes, template,
  show, digits_value, split_on, get_elem?, any, select, leb, sort_desc, if◌then◌else◌,
}
use foxplay_game.Server.{InstanceRow, Res, ok, thrown, Thrown, unique_violation}

abbrev pub is_active : InstanceRow → Bool
is_active r = elim r.deleted_at [ none ↦ true | some _ ↦ false ]

abbrev pub or_empty : Option String → String
or_empty none = ""
or_empty (some s) = s

-- Two rows that the table cannot hold together: one primary key, or, while neither is deleted, one
-- owner and name.
unfoldable pub conflicts : InstanceRow → InstanceRow → Bool
conflicts r q =
    str_eq r.id q.id
    || is_active r
      && is_active q
      && str_eq (or_empty r.user_id) (or_empty q.user_id)
      && str_eq r.name q.name

unfoldable pub insert_row : InstanceRow → List InstanceRow → Res (List InstanceRow)
unfolding conflicts
insert_row row rows = if any (conflicts row) rows then thrown unique_violation else ok (row ∷ rows)

-- `UPDATE … SET f WHERE p`
unfoldable pub update :
    (InstanceRow → Bool) → (InstanceRow → InstanceRow) → List InstanceRow → List InstanceRow
update p f [] = []
update p f (r ∷ rows) = (if p r then f r else r) ∷ update p f rows

abbrev pub has_id : String → InstanceRow → Bool
has_id id r = str_eq r.id id

abbrev pub is_active_id : String → InstanceRow → Bool
is_active_id id r = str_eq r.id id && is_active r

abbrev pub with_state : String → InstanceRow → InstanceRow
with_state s r = record r { state = s }

abbrev pub deleted_now : ℕ → InstanceRow → InstanceRow
deleted_now now r = record r { state = "stopped"; deleted_at = some now }

unfoldable pub set_state : String → String → List InstanceRow → List InstanceRow
unfolding update
set_state id s = update (has_id id) (with_state s)

-- `… SET state = 'stopped', deleted_at = now() WHERE id = $1 AND deleted_at IS NULL`
unfoldable pub soft_delete : String → ℕ → List InstanceRow → List InstanceRow
unfolding update
soft_delete id now = update (is_active_id id) (deleted_now now)

-- `id = ANY(ids) AND deleted_at IS NULL`
abbrev pub is_among : List String → InstanceRow → Bool
is_among ids r = any (str_eq r.id) ids && is_active r

unfoldable pub stop_all : List String → List InstanceRow → List InstanceRow
unfolding update
stop_all ids = update (is_among ids) (with_state "stopped")

-- `… WHERE deleted_at IS NULL ORDER BY created_at DESC`
unfoldable pub active_rows : List InstanceRow → List InstanceRow
unfolding sort_desc
active_rows rows = sort_desc (λ r. r.created_at) (select is_active rows)

-- `172.16.0.${octet}`
unfoldable pub guest_address : ℕ → String
unfolding show
guest_address octet = template ("172.16.0." ∷ show octet ∷ [])

-- `split_part(ip, '.', 4)::int`, where `none` is the error of the cast: of a part with a sign or
-- spaces too, which no row has.
unfoldable pub octet_of : String → Option ℕ
unfolding split_on digits_value
octet_of ip = elim (get_elem? (split_on b'.' (codes ip)) 3) [
  | none ↦ none
  | some [] ↦ none
  | some (c ∷ cs) ↦ digits_value 0 (c ∷ cs)
]

-- `MAX`, which passes over NULL
abbrev pub largest : Option ℕ → Option ℕ → Option ℕ
largest none b = b
largest (some m) none = some m
largest (some m) (some n) = some (if leb m n then n else m)

unfoldable pub max_port : List InstanceRow → Option ℕ
max_port [] = none
max_port (r ∷ rows) = largest r.ssh_host_port (max_port rows)

-- `none` is an error of the cast
unfoldable pub max_octet : List InstanceRow → Option (Option ℕ)
unfolding octet_of
max_octet [] = some none
max_octet (r ∷ rows) = elim (max_octet rows) [
  | none ↦ none
  | some best ↦ elim r.guest_ip [
    | none ↦ some best
    | some ip ↦ elim (octet_of ip) [ none ↦ none | some n ↦ some (largest (some n) best) ]
  ]
]

abbrev pub coalesce : Option ℕ → ℕ → ℕ
coalesce none d = d
coalesce (some n) d = n

abbrev pub bad_cast : Thrown
bad_cast = record { code = some "22P02"; message = "invalid input syntax for type integer" }

-- `SELECT COALESCE(MAX(ssh_host_port), 39999) + 1 AS port, …`: the port and the octet
unfoldable pub allocate : List InstanceRow → Res (ℕ × ℕ)
allocate rows = elim (max_octet rows) [
  | none ↦ thrown bad_cast
  | some best ↦ ok (coalesce (max_port rows) 39999 + 1, coalesce best 1 + 1)
]
