-- ===== src/Controller/Assign/Mapping/PortSet.antt =====
-- The set of the ports that a container needs, of controller/src/index.ts.
use foxplay_game.Common.{
  ℕ, true, ◌≡◌, refl, List, [], ◌∷◌, ◌++◌, Option, none, some, any, arith, All, Bool-cases, inl,
  inr,
}
use foxplay_game.Controller.Games.{PortConfig}
use foxplay_game.Controller.Assign.{same_port, add_port, add_ports}

pub same_port_iff : (p q : Option ℕ) → same_port p q ≡ true → p ≡ q
same_port_iff none none h = refl
same_port_iff none (some q) h = cc
same_port_iff (some p) none h = cc
same_port_iff (some p) (some q) h = ground arith

same_port_refl : (p : Option ℕ) → same_port p p ≡ true
same_port_refl none = refl
same_port_refl (some p) = ground arith

pub same_port_comm : (p q : Option ℕ) → same_port p q ≡ same_port q p
same_port_comm none none = refl
same_port_comm none (some q) = refl
same_port_comm (some p) none = refl
same_port_comm (some p) (some q) = ground arith

abbrev pub InPorts : List (Option ℕ) → Option ℕ → Type 0
InPorts ports p = any (same_port p) ports ≡ true

InPorts-append :
    (ports : List (Option ℕ)) (p q : Option ℕ) → InPorts ports p → InPorts (ports ++ q ∷ []) p
InPorts-append [] p q h = cc
InPorts-append (r ∷ ports) p q h = elim (Bool-cases (same_port p r)) [
  | inl e ↦ rw e refl
  | inr e ↦ rw e (InPorts-append ports p q (rw e at h))
]

InPorts-last : (ports : List (Option ℕ)) (p : Option ℕ) → InPorts (ports ++ p ∷ []) p
InPorts-last [] p = rw (same_port_refl p) refl
InPorts-last (r ∷ ports) p = elim (Bool-cases (same_port p r)) [
  | inl e ↦ rw e refl
  | inr e ↦ rw e (InPorts-last ports p)
]

add_port-old :
    (ports : List (Option ℕ)) (p q : Option ℕ) → InPorts ports p → InPorts (add_port q ports) p
unfolding add_port
add_port-old ports p q h = elim (Bool-cases (any (same_port q) ports)) [
  | inl e ↦ rw e h
  | inr e ↦ rw e (InPorts-append ports p q h)
]

add_port-new : (ports : List (Option ℕ)) (p : Option ℕ) → InPorts (add_port p ports) p
unfolding add_port
add_port-new ports p = elim (Bool-cases (any (same_port p) ports)) [
  | inl e ↦ rw e e
  | inr e ↦ rw e (InPorts-last ports p)
]

add_ports-old :
    (cs : List PortConfig) (ports : List (Option ℕ)) (p : Option ℕ)
    → InPorts ports p
    → InPorts (add_ports ports cs) p
unfolding add_ports
add_ports-old [] ports p h = h
add_ports-old (c ∷ cs) ports p h =
    add_ports-old cs (add_port c.container_port ports) p (add_port-old ports p c.container_port h)

pub add_ports-All :
    (cs : List PortConfig) (ports : List (Option ℕ))
    → All (λ c. InPorts (add_ports ports cs) c.container_port) cs
unfolding add_ports
add_ports-All [] ports = tt
add_ports-All (c ∷ cs) ports = (
  add_ports-old cs (add_port c.container_port ports) c.container_port
      (add_port-new ports c.container_port),
  add_ports-All cs (add_port c.container_port ports),
)
