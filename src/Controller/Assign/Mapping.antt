-- ===== src/Controller/Assign/Mapping.antt =====
-- The port mapping of a new container: total on its ports, and one to one.
mod PortSet
use foxplay_game.Common.{
  ℕ, ◌≤◌, ◌<◌, String, true, ◌≡◌, ◌≢◌, refl, sym, ap, ◌∙◌, List, [], ◌∷◌, map, Option, some, any,
  eq_iff, ◌==◌, arith, length, All, Bool-cases, inl, inr,
}
use foxplay_game.Controller.Games.{PortConfig}
use foxplay_game.Controller.Ports.Search.{IsAscending}
use foxplay_game.Controller.Assign.{
  same_port, unique_ports, port_mapping, mapped, hosted, assign_hosts, assign,
}
use foxplay_game.Controller.Assign.Mapping.PortSet.{
  same_port_iff, same_port_comm, InPorts, add_ports-All,
}

-- A port in the list is mapped to one of the ports that were found.
mapped-some :
    (ports : List (Option ℕ)) (available : List ℕ) (p : Option ℕ)
    → InPorts ports p
    → length ports ≤ length available
    → (a : ℕ) × (mapped p (port_mapping ports available) ≡ some a)
      × (any (λ b. a == b) available ≡ true)
unfolding mapped port_mapping
mapped-some [] available p h le = cc
mapped-some (q ∷ ports) [] p h le = absurd (omega arith)
mapped-some (q ∷ ports) (b ∷ available) p h le = elim (Bool-cases (same_port q p)) [
  | inl e ↦ (b, rw e refl, ground arith)
  | inr e ↦
      let later =
        mapped-some ports available p (ground (arith, same_port_comm p q)) (omega arith) in
      (later.0, rw e later.1, ground arith)
]

-- What is mapped lies in the list of the ports that were found.
mapped-above :
    (ports : List (Option ℕ)) (available : List ℕ) (p : Option ℕ) (b a : ℕ)
    → All (λ c. b < c) available
    → mapped p (port_mapping ports available) ≡ some a
    → b < a
unfolding mapped port_mapping
mapped-above [] available p b a h e = absurd (ground arith)
mapped-above (q ∷ ports) [] p b a h e = elim (Bool-cases (same_port q p)) [
  | inl s ↦ absurd (ground arith)
  | inr s ↦ mapped-above ports [] p b a h (ground arith)
]
mapped-above (q ∷ ports) (c ∷ available) p b a h e = elim (Bool-cases (same_port q p)) [
  | inl s ↦ ground arith
  | inr s ↦ mapped-above ports available p b a h.1 (ground arith)
]

-- Two ports of the container with one port of the host are one port.
mapped-injective :
    (ports : List (Option ℕ)) (available : List ℕ) (p q : Option ℕ) (a : ℕ)
    → IsAscending available
    → mapped p (port_mapping ports available) ≡ some a
    → mapped q (port_mapping ports available) ≡ some a
    → p ≡ q
unfolding mapped port_mapping
mapped-injective [] available p q a h e f = absurd (ground arith)
mapped-injective (r ∷ ports) [] p q a h e f = elim (Bool-cases (same_port r p)) [
  | inl s ↦ absurd (ground arith)
  | inr s ↦ elim (Bool-cases (same_port r q)) [
    | inl t ↦ absurd (ground arith)
    | inr t ↦ mapped-injective ports [] p q a h (ground arith) (ground arith)
  ]
]
mapped-injective (r ∷ ports) (b ∷ available) p q a h e f = elim (Bool-cases (same_port r p)) [
  | inl s ↦ elim (Bool-cases (same_port r q)) [
    | inl t ↦ sym (same_port_iff r p s) ∙ same_port_iff r q t
    | inr t ↦ absurd (omega (arith, mapped-above ports available q b a h.0 (ground arith), same s))
  ]
  | inr s ↦ elim (Bool-cases (same_port r q)) [
    | inl t ↦ absurd (omega (arith, mapped-above ports available p b a h.0 (ground arith), same' t))
    | inr t ↦ mapped-injective ports available p q a h.1 (ground arith) (ground arith)
  ]
]
  where
    same : same_port r p ≡ true → a ≡ b
    same s = ground arith

    same' : same_port r q ≡ true → a ≡ b
    same' t = ground arith

-- One port of the host for each port of the container, among those that were found.
pub record IsOneToOne (cs : List PortConfig) (available : List ℕ) (host : Option ℕ → Option ℕ)
    : Type 0 where
  pub found :
      All
        (λ c. (a : ℕ) × (host c.container_port ≡ some a) × (any (λ b. a == b) available ≡ true))
        cs
  pub apart :
      All
        (λ c.
          All
            (λ d.
              host c.container_port ≡ host d.container_port → c.container_port ≡ d.container_port)
            cs)
        cs

abbrev pub host_of : List PortConfig → List ℕ → Option ℕ → Option ℕ
host_of cs available p = mapped p (port_mapping (unique_ports cs) available)

pub host_of-IsOneToOne :
    (cs : List PortConfig) (available : List ℕ)
    → IsAscending available
    → length (unique_ports cs) ≤ length available
    → IsOneToOne cs available (host_of cs available)
host_of-IsOneToOne cs available up le =
    let listed = add_ports-All cs [] in
    record {
      found = found_all cs (unfold unique_ports in listed);
      apart = pairs cs (unfold unique_ports in listed);
    }
  where
    found_all :
        (ds : List PortConfig)
        → All (λ c. InPorts (unique_ports cs) c.container_port) ds
        → All
            (λ c.
              (a : ℕ) × (host_of cs available c.container_port ≡ some a)
              × (any (λ b. a == b) available ≡ true))
            ds
    found_all [] h = tt
    found_all (d ∷ ds) h =
        (mapped-some (unique_ports cs) available d.container_port h.0 le, found_all ds h.1)

    row :
        (p : Option ℕ) (ds : List PortConfig)
        → InPorts (unique_ports cs) p
        → All
            (λ d.
              host_of cs available p ≡ host_of cs available d.container_port → p ≡ d.container_port)
            ds
    row p [] h = tt
    row p (d ∷ ds) h =
        let (a, e, _) = mapped-some (unique_ports cs) available p h le in
        (
          λ same.
              mapped-injective (unique_ports cs) available p d.container_port a up e (sym same ∙ e),
          row p ds h,
        )

    pairs :
        (ds : List PortConfig)
        → All (λ c. InPorts (unique_ports cs) c.container_port) ds
        → All
            (λ c.
              All
                (λ d.
                  host_of cs available c.container_port ≡ host_of cs available d.container_port
                  → c.container_port ≡ d.container_port)
                cs)
            ds
    pairs [] h = tt
    pairs (d ∷ ds) h = (row d.container_port cs h.0, pairs ds h.1)

assign_hosts-map :
    (mapping : List (Option ℕ × Option ℕ)) (cs : List PortConfig)
    → assign_hosts mapping cs ≡ map (λ c. hosted (mapped c.container_port mapping) c) cs
unfolding assign_hosts
assign_hosts-map mapping [] = refl
assign_hosts-map mapping (c ∷ cs) =
    ap (λ l. hosted (mapped c.container_port mapping) c ∷ l) (assign_hosts-map mapping cs)

-- For every game but "satisfactory" each mapping keeps its own port and protocol, and the environment is
-- empty.
pub assign-map :
    (game : String) (cs : List PortConfig) (available : List ℕ)
    → game ≢ "satisfactory"
    → assign game cs available
      ≡ some (map (λ c. hosted (host_of cs available c.container_port) c) cs, [])
unfolding assign
assign-map game cs available ne = ground (
  arith,
  eq_iff game "satisfactory",
  assign_hosts-map (port_mapping (unique_ports cs) available) cs,
)

-- For every game but "satisfactory", and where ports were found in ascending order and at least as
-- many as the container has, each mapping of the container gets a host port that was found, its
-- own port and protocol stay, and two mappings share a host port only if they share a container
-- port. The environment is empty.
pub assign-IsOneToOne :
    (game : String) (cs : List PortConfig) (available : List ℕ)
    → game ≢ "satisfactory"
    → IsAscending available
    → length (unique_ports cs) ≤ length available
    → (host : Option ℕ → Option ℕ) × (assign game cs available
        ≡ some (map (λ c. hosted (host c.container_port) c) cs, []))
      × IsOneToOne cs available host
assign-IsOneToOne game cs available ne up le =
    (host_of cs available, assign-map game cs available ne, host_of-IsOneToOne cs available up le)
