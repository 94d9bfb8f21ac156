-- ===== src/Controller/Ports/Search.antt =====
-- The search for free ports against its specification.
use foxplay_game.Common.{
  ℕ, zero, suc, ◌+◌, ◌-◌, ◌<◌, ◌≤◌, Bool, true, false, not, ◌≡◌, refl, sym, ap, ◌∙◌, List, [], ◌∷◌,
  ◌++◌, arith, ltb, Bool-cases, inl, inr, length, length-append, take, All-take, All-imp, select,
  All,
}
use Prim.Native.Nat.{min}
use mathlib.Core.List.{append-nil, append_assoc}
use foxplay_game.Controller.Ports.{Number, num, is_port, has, search_from, search}

-- `n` ports from `start` on
unfoldable pub range : ℕ → ℕ → List ℕ
range zero start = []
range (suc n) start = start ∷ range n (start + 1)

abbrev is_free : List Number → ℕ → Bool
is_free used p = not (has used p)

-- The free ports among `n` from `start` on, in ascending order.
abbrev pub free_ports : ℕ → ℕ → List Number → List ℕ
free_ports n start used = select (is_free used) (range n start)

-- To take a port below the range changes nothing in the range.
free_ports-below :
    (n start p : ℕ) (used : List Number)
    → p < start
    → free_ports n start (num false p ∷ used) ≡ free_ports n start used
unfolding range is_port
free_ports-below zero start p used h = refl
free_ports-below (suc n) start p used h = ground (arith, free_ports-below n (start + 1) p used)

free_ports-taken :
    (n start : ℕ) (used : List Number)
    → has used start ≡ true
    → free_ports (suc n) start used ≡ free_ports n (start + 1) used
unfolding range
free_ports-taken n start used h = rw h

free_ports-free :
    (n start : ℕ) (used : List Number)
    → has used start ≡ false
    → free_ports (suc n) start used ≡ start ∷ free_ports n (start + 1) used
unfolding range
free_ports-free n start used h = rw h

take-nil : (k : ℕ) → take {A = ℕ} k [] ≡ []
take-nil zero = refl
take-nil (suc k) = refl

append-take-zero : (k : ℕ) (ports xs : List ℕ) → k ≡ 0 → ports ++ take k xs ≡ ports
append-take-zero k ports xs z = rw z (append-nil ports)

append-take-suc :
    (k j p : ℕ) (ports xs : List ℕ)
    → k ≡ suc j
    → (ports ++ p ∷ []) ++ take j xs ≡ ports ++ take k (p ∷ xs)
append-take-suc k j p ports xs e = rw (e, append_assoc)

search_from_lem :
    (n start count : ℕ) (used : List Number) (ports : List ℕ)
    → search_from n start count used ports
      ≡ ports ++ take (count - length ports) (free_ports n start used)
unfolding search_from
search_from_lem zero start count used ports =
    unfold range in sym (rw (take-nil (count - length ports)) (append-nil ports))
search_from_lem (suc n) start count used ports = elim (Bool-cases (ltb (length ports) count)) [
  | inr e ↦
      ground arith
      ∙ sym (
          append-take-zero (count - length ports) ports (free_ports (suc n) start used)
            (ground arith))
  | inl e ↦ elim (Bool-cases (has used start)) [
    | inl taken ↦
        ground arith
        ∙ search_from_lem n (start + 1) count used ports
        ∙ ap (λ l. ports ++ take (count - length ports) l)
            (sym (free_ports-taken n start used taken))
    | inr free ↦
        let j = count - length (ports ++ start ∷ []) in
        ground arith
        ∙ search_from_lem n (start + 1) count (num false start ∷ used) (ports ++ start ∷ [])
        ∙ ap (λ l. (ports ++ start ∷ []) ++ take j l)
            (free_ports-below n (start + 1) start used (omega arith))
        ∙ append-take-suc (count - length ports) j start ports (free_ports n (start + 1) used)
            (ground (arith, length-append ports (start ∷ [])))
        ∙ ap (λ l. ports ++ take (count - length ports) l) (sym (free_ports-free n start used free))
  ]
]

-- The search gives the first `count` ports of the range that are not in use, in ascending order,
-- and all of them where there are fewer.
pub search-eq_take :
    (count start end : ℕ) (used : List Number)
    → search count start end used ≡ take count (free_ports (end + 1 - start) start used)
unfolding search
search-eq_take count start end used =
    search_from_lem (end + 1 - start) start count used []
    ∙ ap (λ k. take k (free_ports (end + 1 - start) start used)) (omega arith)

-- Each port is above all earlier ones.
abbrev pub IsAscending : List ℕ → Type 0
IsAscending [] = Unit
IsAscending (p ∷ ps) = All (λ q. p < q) ps × IsAscending ps

abbrev InRange : ℕ → ℕ → List Number → ℕ → Type 0
InRange lo n used p = (lo ≤ p) × (p < lo + n) × (has used p ≡ false)

free_ports-InRange :
    (n start : ℕ) (used : List Number) → All (InRange start n used) (free_ports n start used)
unfolding range
free_ports-InRange zero start used = tt
free_ports-InRange (suc n) start used =
    let later = wider (free_ports n (start + 1) used) (free_ports-InRange n (start + 1) used) in
    elim (Bool-cases (has used start)) [
      | inl taken ↦ rw taken later
      | inr free ↦ rw free ((omega arith, omega arith, free), later)
    ]
  where
    wider :
        (ps : List ℕ) → All (InRange (start + 1) n used) ps → All (InRange start (suc n) used) ps
    wider [] h = tt
    wider (p ∷ ps) h = ((omega arith, omega arith, h.0.2), wider ps h.1)

pub free_ports_unused :
    (n start : ℕ) (used : List Number) → All (λ p. has used p ≡ false) (free_ports n start used)
free_ports_unused n start used = All-imp (λ p h. h.2) _ (free_ports-InRange n start used)

free_ports-IsAscending : (n start : ℕ) (used : List Number) → IsAscending (free_ports n start used)
unfolding range
free_ports-IsAscending zero start used = tt
free_ports-IsAscending (suc n) start used = elim (Bool-cases (has used start)) [
  | inl taken ↦ rw taken (free_ports-IsAscending n (start + 1) used)
  | inr free ↦ rw free (
    above (free_ports n (start + 1) used) (free_ports-InRange n (start + 1) used),
    free_ports-IsAscending n (start + 1) used,
  )
]
  where
    above : (ps : List ℕ) → All (InRange (start + 1) n used) ps → All (λ q. start < q) ps
    above [] h = tt
    above (p ∷ ps) h = (omega arith, above ps h.1)

take-IsAscending : (n : ℕ) (ps : List ℕ) → IsAscending ps → IsAscending (take n ps)
take-IsAscending zero ps h = tt
take-IsAscending (suc n) [] h = tt
take-IsAscending (suc n) (p ∷ ps) h = (All-take _ n ps h.0, take-IsAscending n ps h.1)

length-take : (n : ℕ) (ps : List ℕ) → length (take n ps) ≡ min n (length ps)
length-take zero ps = omega arith
length-take (suc n) [] = omega arith
length-take (suc n) (p ∷ ps) = omega (arith, length-take n ps)

-- For a range that is not empty, the ports found are pairwise different (ascending), lie in the
-- range and are not in use, and as many are found as are asked for, or all free ones of the range
-- where there are fewer.
pub search_sound :
    (count start end : ℕ) (used : List Number)
    → start ≤ end
    → All (λ p. (start ≤ p) × (p ≤ end) × (has used p ≡ false)) (search count start end used)
      × IsAscending (search count start end used)
      × (length (search count start end used)
          ≡ min count (length (free_ports (end + 1 - start) start used)))
search_sound count start end used h =
    let n = end + 1 - start in
    let ps = free_ports n start used in
    rw (search-eq_take count start end used) (
      narrow (take count ps) (All-take _ count ps (free_ports-InRange n start used)),
      take-IsAscending count ps (free_ports-IsAscending n start used),
      length-take count ps,
    )
  where
    narrow :
        (ps : List ℕ)
        → All (InRange start (end + 1 - start) used) ps
        → All (λ p. (start ≤ p) × (p ≤ end) × (has used p ≡ false)) ps
    narrow [] k = tt
    narrow (p ∷ ps) k = ((k.0.0, omega arith, k.0.2), narrow ps k.1)
