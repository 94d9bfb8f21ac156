-- ===== src/Instances/Invariant.antt =====
-- The invariant of the table `instances`, and the statements that keep it.
mod Updates
use foxplay_game.Common.{
  ℕ, zero, suc, ◌+◌, ◌<◌, ◌≤◌, Bool, true, false, ◌&&◌, List, [], ◌∷◌, Option, none, some, ◌≡◌,
  refl, inl, inr, arith, ◌∙◌, ◌==◌, ◌≢◌, sym, ap, eq_iff, any, length, All, Bool-cases,
}
use foxplay_game.Server.{InstanceRow, Res, ok}
use foxplay_game.Instances.Table.{
  is_active, or_empty, conflicts, insert_row, guest_address, octet_of, max_port, max_octet,
  allocate, largest, coalesce,
}
pub use foxplay_game.Instances.Invariant.Updates.{
  HasSlot, IsValid, Ages, update-IsValid, set_state-IsValid, soft_delete-IsValid, stop_all-IsValid,
}

any-false :
    (p : InstanceRow → Bool) (rows : List InstanceRow)
    → any p rows ≡ false
    → All (λ q. p q ≡ false) rows
any-false p [] h = tt
any-false p (r ∷ rows) h = (ground arith, any-false p rows (ground arith))

-- A row that the indexes admit conflicts with none that is there.
pub insert_row-ok :
    (row : InstanceRow) (rows rows' : List InstanceRow)
    → insert_row row rows ≡ ok rows'
    → (rows' ≡ row ∷ rows) × All (λ q. conflicts row q ≡ false) rows
unfolding insert_row
insert_row-ok row rows rows' h = elim (Bool-cases (any (conflicts row) rows)) [
  | inl e ↦ absurd (ground arith)
  | inr e ↦ (ground arith, any-false (conflicts row) rows e)
]

-- Every octet that a row can have is read back from its address.
abbrev reads_back : ℕ → Bool
reads_back k = elim (octet_of (guest_address (k + 2))) [ none ↦ false | some n ↦ n == k + 2 ]

all_read_back : ℕ → Bool
all_read_back zero = true
all_read_back (suc count) = all_read_back count && reads_back count

read_back_at : (k count : ℕ) → k < count → all_read_back count ≡ true → reads_back k ≡ true
unfolding all_read_back
read_back_at k zero under every = absurd (omega arith)
read_back_at k (suc count) under every = ground (arith, read_back_at k count)

address_table : all_read_back 253 ≡ true
unfolding all_read_back octet_of guest_address
address_table = refl

octet_of-guest_address : (k : ℕ) → k ≤ 252 → octet_of (guest_address (k + 2)) ≡ some (k + 2)
octet_of-guest_address k h =
    read (octet_of (guest_address (k + 2))) (read_back_at k 253 (omega arith) address_table)
  where
    read :
        (o : Option ℕ) → (elim o [ none ↦ false | some n ↦ n == k + 2 ]) ≡ true → o ≡ some (k + 2)
    read none e = cc
    read (some n) e = ground arith

abbrev top : ℕ → ℕ → Option ℕ
top base zero = none
top base (suc k) = some (k + base)

max_port-IsValid :
    (rows : List InstanceRow) → IsValid rows → max_port rows ≡ top 40000 (length rows)
unfolding max_port
max_port-IsValid [] v = refl
max_port-IsValid (r ∷ rows) v =
    rw (v.0.port, max_port-IsValid rows v.2) (larger (length rows) 40000)
  where
    larger : (k base : ℕ) → largest (some (k + base)) (top base k) ≡ some (k + base)
    larger zero base = refl
    larger (suc k) base = ground arith

max_octet-IsValid :
    (rows : List InstanceRow) → IsValid rows → max_octet rows ≡ some (top 2 (length rows))
unfolding max_octet
max_octet-IsValid [] v = refl
max_octet-IsValid (r ∷ rows) v =
    rw (max_octet-IsValid rows v.2, v.0.address, octet_of-guest_address (length rows) v.0.in_range)
      (larger (length rows))
  where
    larger : (k : ℕ) → some (largest (some (k + 2)) (top 2 k)) ≡ some (some (k + 2))
    larger zero = refl
    larger (suc k) = ground arith

-- In a table that satisfies the invariant, the next slot is that of the number of its rows,
-- deleted ones included.
pub allocate-IsValid :
    (rows : List InstanceRow)
    → IsValid rows
    → allocate rows ≡ ok (length rows + 40000, length rows + 2)
unfolding allocate
allocate-IsValid rows v =
    rw (max_octet-IsValid rows v, max_port-IsValid rows v, allocate) (next (length rows))
  where
    next :
        (k : ℕ)
        → ◌≡◌ {A = Res (ℕ × ℕ)}
            (ok (coalesce (top 40000 k) 39999 + 1, coalesce (top 2 k) 1 + 1))
            (ok (k + 40000, k + 2))
    next zero = refl
    next (suc k) = ground arith

guest_address-injective :
    (j k : ℕ) → j < k → k ≤ 252 → guest_address (j + 2) ≡ guest_address (k + 2) → ⊥
guest_address-injective j k lt h e =
    let same : some (j + 2) ≡ some (k + 2) =
      sym (octet_of-guest_address j (omega arith)) ∙ ap octet_of e ∙ octet_of-guest_address k h in
    ground arith

-- Two rows that share neither an id, nor a port, nor an address, and no owner and name while both
-- are active.
pub record IsApart (r q : InstanceRow) : Type 0 where
  pub ids : r.id ≢ q.id
  pub ports : r.ssh_host_port ≢ q.ssh_host_port
  pub addresses : r.guest_ip ≢ q.guest_ip
  pub names :
      is_active r ≡ true
      → is_active q ≡ true
      → or_empty r.user_id ≡ or_empty q.user_id
      → r.name ≢ q.name

abbrev pub AreApart : List InstanceRow → Type 0
AreApart [] = Unit
AreApart (r ∷ rows) = All (IsApart r) rows × AreApart rows

slots-IsApart :
    (r q : InstanceRow) (j k : ℕ)
    → j < k
    → HasSlot r k
    → HasSlot q j
    → conflicts r q ≡ false
    → IsApart r q
unfolding conflicts
slots-IsApart r q j k lt a b h = record {
  ids = λ e. ground (arith, eq_iff r.id q.id);
  ports = λ e. ground (arith, a.port, b.port);
  addresses = λ e. guest_address-injective j k lt a.in_range (ground (arith, a.address, b.address));
  names = λ x y z e.
      ground (arith, eq_iff r.name q.name, eq_iff (or_empty r.user_id) (or_empty q.user_id));
}

older-IsApart :
    (r : InstanceRow) (k : ℕ) (rows : List InstanceRow)
    → HasSlot r k
    → length rows ≤ k
    → All (λ q. conflicts r q ≡ false) rows
    → IsValid rows
    → All (IsApart r) rows
older-IsApart r k [] s le c v = tt
older-IsApart r k (q ∷ rows) s le c v = (
  slots-IsApart r q (length rows) k (omega arith) s v.0 c.0,
  older-IsApart r k rows s (omega arith) c.1 v.2,
)

pub IsValid-AreApart : (rows : List InstanceRow) → IsValid rows → AreApart rows
IsValid-AreApart [] v = tt
IsValid-AreApart (r ∷ rows) v =
    (older-IsApart r (length rows) rows v.0 (omega arith) v.1 v.2, IsValid-AreApart rows v.2)
