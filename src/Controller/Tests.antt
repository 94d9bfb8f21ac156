-- ===== src/Controller/Tests.antt =====
-- Tests and examples for the controller: a podman that creates the container "c1", and files of
-- /proc/net that list no port.
use foxplay_game.Common.{
  ℕ, String, Bool, true, false, List, [], ◌∷◌, ◌≡◌, ◌≢◌, ◌≤◌, ◌<◌, ◌+◌, ◌*◌, ◌⊎◌, Option, none,
  some, refl, inl, arith, map, length, All, eq_iff, codes, all, ◌%◌, take, any, str_eq, both,
  if◌then◌else◌,
}
use foxplay_game.Json.{Json, str, obj, field, end, get}
use foxplay_game.Controller.Games.{PortConfig, get_server, is_valid, ServerEntry}
use foxplay_game.Controller.Names.{
  generate_random_string, is_alphanumeric, after_draws, generate_random_string-IsAlphanumeric,
}
use foxplay_game.Controller.Ports.{
  Number, num, search, find_available_ports, get_used_ports, add_files, add_lines, add_line,
  local_address, address_port, hex_number, skip_0x, hex_digit, hex_run,
}
use foxplay_game.Controller.Ports.Search.{search-eq_take, free_ports}
use foxplay_game.Controller.Ports.Lines.{find_available_ports_avoids}
use foxplay_game.Models.{is_space, between}
use foxplay_game.Controller.Assign.{assign, unique_ports, hosted}
use foxplay_game.Controller.Assign.Mapping.{IsOneToOne, assign-IsOneToOne}
use foxplay_game.Controller.Schedule.{hour}
use foxplay_game.Controller.Schedule.Loops.{backup_loop, backup_loop-starts}
use foxplay_game.Controller.Podman.{PodmanRequest, HttpReply, ended, PodmanError, parsed_body}
use foxplay_game.Controller.Routes.{
  created, managed, failed, sent, unanswered, manage, create_route, name_of,
}
use foxplay_game.Controller.Routes.Replies.{IsSuccess, refusal, manage_replies}
use foxplay_game.Controller.Routes.Hosted.{IsHosted, create_route-IsHosted}
use foxplay_game.Controller.Backup.{StoredObject, done, Services, prune_one, backup}
use foxplay_game.Controller.Backup.Prune.{IsPruned, prune_one-IsPruned}
use foxplay_game.Controller.Backup.Trace.{IsKept, backup-KeepsState}

abbrev used : List Number
used = num false 20001 ∷ num false 22 ∷ []

search-eq_take_example : search 3 20000 60000 used ≡ take 3 (free_ports 40001 20000 used)
search-eq_take_example = search-eq_take 3 20000 60000 used

-- a header, and one line that lists the port 8080
abbrev listing : List ℕ
listing = codes "  sl\n   0: 0100007F:1F90 00000000:0000 0A"

abbrev proc_file : String → Option (List ℕ)
proc_file file = some listing

find_available_ports_avoids_example : All (λ (q : ℕ). q ≢ 8080) (8079 ∷ 8081 ∷ [])
unfolding find_available_ports get_used_ports add_files add_lines add_line local_address
    address_port search is_space between hex_number skip_0x hex_digit hex_run
find_available_ports_avoids_example =
    find_available_ports_avoids proc_file 2 8079 8090 8080 "/proc/net/tcp" listing (codes "   ")
      b'0' (codes ":") (codes "0100007F") (codes "00000000:0000 0A") (8079 ∷ 8081 ∷ []) (inl refl)
      refl (inl refl)
      (record {
        blanks = (refl, (refl, (refl, tt)));
        index = (refl, (refl, tt));
        solid = (refl, (refl, (refl, (refl, (refl, (refl, (refl, (refl, tt))))))));
        one_colon = (refl, (refl, (refl, (refl, (refl, (refl, (refl, (refl, tt))))))));
        port = omega arith;
      })
      refl

abbrev fabric_ports : List PortConfig
fabric_ports =
    record { host_port = some 0; container_port = some 25565; protocol = "tcp" }
    ∷ record { host_port = some 0; container_port = some 25565; protocol = "udp" }
    ∷ record { host_port = some 0; container_port = some 8080; protocol = "tcp" }
    ∷ []

assign-IsOneToOne_example :
    (host : Option ℕ → Option ℕ) × (assign "minecraft" fabric_ports (20000 ∷ 20002 ∷ [])
      ≡ some (map (λ c. hosted (host c.container_port) c) fabric_ports, []))
    × IsOneToOne fabric_ports (20000 ∷ 20002 ∷ []) host
unfolding unique_ports
assign-IsOneToOne_example =
    assign-IsOneToOne "minecraft" fabric_ports (20000 ∷ 20002 ∷ [])
      (ground (arith, eq_iff "minecraft" "satisfactory")) ((omega arith, tt), (tt, tt))
      (omega arith)

abbrev http : PodmanRequest → ℕ → HttpReply × ℕ
http req calls = (ended 201 "{}", calls + 1)

abbrev parse : String → Option Json
parse raw = some (obj (field "Id" (str "c1") end))

abbrev text : Json → String
text v = ""

abbrev mkdir : String → ℕ → Bool × ℕ
mkdir path calls = (true, calls + 1)

abbrev read : ℕ → String → Option (List ℕ)
read calls file = some []

manage_replies_example :
    (parsed_body parse "{}" ≡ none)
      × (manage http parse text mkdir read "POST" "/start" "c1" 0 ≡ (unanswered, 1))
    ⊎ (parsed_body parse "{}" ≢ none)
      × (IsSuccess 201
            × (manage http parse text mkdir read "POST" "/start" "c1" 0
                ≡ (sent 200 (managed "c1"), 1))
          ⊎ (¬ IsSuccess 201)
            × ((e : PodmanError) × (manage http parse text mkdir read "POST" "/start" "c1" 0
                  ≡ (sent (refusal 201) (failed e), 1))))
manage_replies_example =
    manage_replies http parse text mkdir read "POST" "/start" "c1" 0 1 201 "{}" refl

abbrev made_ports : List PortConfig
made_ports =
    record { host_port = some 20000; container_port = some 25565; protocol = "tcp" }
    ∷ record { host_port = some 20000; container_port = some 25565; protocol = "udp" }
    ∷ record { host_port = some 20001; container_port = some 8080; protocol = "tcp" }
    ∷ []

abbrev fabric : ServerEntry
fabric = record {
  name = "fabric-mc";
  image = "fabricmc";
  backup_path = "/minecraft/world";
  versions = "0.1.0" ∷ [];
  port_config = fabric_ports;
}

abbrev draw_a : ℕ → ℕ × ℕ
draw_a calls = (0, calls + 1)

created_lem :
    create_route http parse text mkdir read draw_a "minecraft" "fabric" "0.1.0" none 0
    ≡ (sent 200 (created (some (str "c1")) made_ports), 15)
unfolding create_route get generate_random_string
created_lem = refl

create_route-IsHosted_example :
    let (name, s₀) = name_of http parse text mkdir read draw_a none fabric "0.1.0" 0 in
    (is_valid "minecraft" "fabric" "0.1.0" ≡ true)
    × IsHosted http parse text mkdir read fabric "0.1.0" name s₀ 15 (some (str "c1")) made_ports
create_route-IsHosted_example =
    create_route-IsHosted http parse text mkdir read draw_a "minecraft" "fabric" "0.1.0" none fabric
      (some (str "c1")) made_ports 0 15 (ground (arith, eq_iff "minecraft" "satisfactory"))
      (unfold get_server in refl) created_lem

removed : List String → List StoredObject → List StoredObject
removed keys [] = []
removed keys (o ∷ os) = if any (str_eq o.key) keys then removed keys os else o ∷ removed keys os

-- a bucket that is a list of objects
abbrev bucket : Services (List StoredObject)
bucket = record {
  readdir = λ s. (done ("c1" ∷ []), s);
  access = λ c s. (true, s);
  timestamp = λ s. ("2026", s);
  tar = λ c s. (done (0, 1 ∷ []), s);
  put_object = λ key body s. (done tt, record { key = key; modified = length body } ∷ s);
  list_objects = λ prefix s. (done s, s);
  delete_objects = λ keys s. (done tt, removed keys s);
}

abbrev stored : List StoredObject
stored = record { key = "c1/a"; modified = 4 } ∷ record { key = "c1/b"; modified = 5 } ∷ []

prune_one-IsPruned_example :
    (kept : List StoredObject) × (dropped : List StoredObject) × IsPruned stored kept dropped
    × ((length stored ≤ 10) × (dropped ≡ []) × (prune_one bucket "c1" stored ≡ (done tt, stored))
        ⊎ (10 < length stored)
          × (prune_one bucket "c1" stored
              ≡ bucket.delete_objects (map (λ o. o.key) dropped) stored))
prune_one-IsPruned_example = prune_one-IsPruned bucket "c1" stored stored stored refl

abbrev IsFull : List StoredObject → Type 0
IsFull s = All (λ o. 1 ≤ o.modified) s

removed-IsFull :
    (keys : List String) (os : List StoredObject) → IsFull os → IsFull (removed keys os)
unfolding removed
removed-IsFull keys [] h = tt
removed-IsFull keys (o ∷ os) h =
    both IsFull (any (str_eq o.key) keys) (removed-IsFull keys os h.1)
      (h.0, removed-IsFull keys os h.1)

bucket-IsKept : IsKept bucket IsFull
bucket-IsKept = record {
  reads = λ s i. i;
  accesses = λ c s i. i;
  ticks = λ s i. i;
  packs = λ c s i. i;
  lists = λ c s i. i;
  uploads = λ c time body s s' e i. (ground arith, i);
  deletes = λ c k ks contents s s' e h i. removed-IsFull (k ∷ ks) s' i;
}

backup-KeepsState_example : IsFull (backup bucket none stored).1
backup-KeepsState_example =
    backup-KeepsState bucket IsFull none stored bucket-IsKept (omega arith, (omega arith, tt))

backup_loop-starts_example :
    (backup_loop
      (λ s. 60000)
      bucket
      3
      (record { now = 1000; state = []; errors = []; starts = [] })).starts
    ≡ 12 * hour ∷ 24 * hour ∷ 36 * hour ∷ []
backup_loop-starts_example =
    backup_loop-starts (λ s. 60000) bucket (λ s. omega arith) 3
      (record { now = 1000; state = []; errors = []; starts = [] })

-- a source of numbers that counts on
abbrev draw : ℕ → ℕ × ℕ
draw s = (s % 62, s + 1)

generated : (generate_random_string draw 12 55).0 ≡ "3456789ABCDE"
unfolding generate_random_string
generated = refl

generate_random_string-IsAlphanumeric_example :
    let (text, s') = generate_random_string draw 12 55 in
    (length (codes text) ≡ 12)
    × (all is_alphanumeric (codes text) ≡ true)
    × (s' ≡ after_draws draw 12 55)
generate_random_string-IsAlphanumeric_example =
    generate_random_string-IsAlphanumeric draw (λ s. omega arith) 12 55
