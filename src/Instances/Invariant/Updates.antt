-- ===== src/Instances/Invariant/Updates.antt =====
-- The rows of the table of instances, and its updates.
use foxplay_game.Common.{
  ℕ, ◌+◌, ◌≤◌, String, Bool, true, false, List, [], ◌∷◌, some, ◌≡◌, refl, inl, inr, arith, ◌∙◌,
  if◌then◌else◌, length, All, Bool-cases,
}
use foxplay_game.Server.{InstanceRow}
use foxplay_game.Instances.Table.{
  is_active, conflicts, update, set_state, soft_delete, stop_all, has_id, is_active_id, is_among,
  with_state, deleted_now, guest_address,
}

-- The slot of the k-th row that was ever inserted, counted from 0: octet k + 2, port k + 40000.
pub record HasSlot (r : InstanceRow) (k : ℕ) : Type 0 where
  pub in_range : k ≤ 252
  pub address : r.guest_ip ≡ some (guest_address (k + 2))
  pub port : r.ssh_host_port ≡ some (k + 40000)

-- Every row has the slot of its place, counted from the oldest, and no row shares the primary key
-- of another, or owner and name while neither is deleted.
abbrev pub IsValid : List InstanceRow → Type 0
IsValid [] = Unit
IsValid (r ∷ rows) = HasSlot r (length rows) × All (λ q. conflicts r q ≡ false) rows × IsValid rows

-- `r'` is `r` after an update that no unique index can notice.
pub record Ages (r' r : InstanceRow) : Type 0 where
  pub same_id : r'.id ≡ r.id
  pub same_name : r'.name ≡ r.name
  pub same_owner : r'.user_id ≡ r.user_id
  pub same_address : r'.guest_ip ≡ r.guest_ip
  pub same_port : r'.ssh_host_port ≡ r.ssh_host_port
  pub no_revival : is_active r' ≡ true → is_active r ≡ true

conflicts-Ages :
    {r' r q' q : InstanceRow}
    → Ages r' r
    → Ages q' q
    → conflicts r q ≡ false
    → conflicts r' q' ≡ false
unfolding conflicts
conflicts-Ages {r'} {r} {q'} {q} a b h =
    rw (a.same_id, b.same_id, a.same_name, b.same_name, a.same_owner, b.same_owner)
      (ground (arith, a.no_revival, b.no_revival))

abbrev changed : (InstanceRow → Bool) → (InstanceRow → InstanceRow) → InstanceRow → InstanceRow
changed p f r = if p r then f r else r

Ages-refl : (r : InstanceRow) → Ages r r
Ages-refl r = record {
  same_id = refl;
  same_name = refl;
  same_owner = refl;
  same_address = refl;
  same_port = refl;
  no_revival = λ h. h;
}

module _ (p : InstanceRow → Bool) (f : InstanceRow → InstanceRow)
    (ages : (r : InstanceRow) → Ages (f r) r) where
  changed-Ages : (r : InstanceRow) → Ages (changed p f r) r
  changed-Ages r = elim (Bool-cases (p r)) [ inl e ↦ rw e (ages r) | inr e ↦ rw e (Ages-refl r) ]

  length-update : (rows : List InstanceRow) → length (update p f rows) ≡ length rows
  unfolding update
  length-update [] = refl
  length-update (r ∷ rows) = omega (arith, length-update rows)

  update-conflicts :
      {r' r : InstanceRow} (rows : List InstanceRow)
      → Ages r' r
      → All (λ q. conflicts r q ≡ false) rows
      → All (λ q. conflicts r' q ≡ false) (update p f rows)
  unfolding update
  update-conflicts [] a h = tt
  update-conflicts (q ∷ rows) a h =
      (conflicts-Ages a (changed-Ages q) h.0, update-conflicts rows a h.1)

  HasSlot-Ages : {r' r : InstanceRow} (k : ℕ) → Ages r' r → HasSlot r k → HasSlot r' k
  HasSlot-Ages k a s = record {
    in_range = s.in_range;
    address = a.same_address ∙ s.address;
    port = a.same_port ∙ s.port;
  }

  -- An update that no unique index can notice keeps the invariant.
  pub update-IsValid : (rows : List InstanceRow) → IsValid rows → IsValid (update p f rows)
  unfolding update
  update-IsValid [] v = tt
  update-IsValid (r ∷ rows) v = rw (length-update rows) (
    HasSlot-Ages (length rows) (changed-Ages r) v.0,
    update-conflicts rows (changed-Ages r) v.1,
    update-IsValid rows v.2,
  )

with_state-Ages : (s : String) (r : InstanceRow) → Ages (with_state s r) r
with_state-Ages s r = ground arith

deleted_now-Ages : (now : ℕ) (r : InstanceRow) → Ages (deleted_now now r) r
deleted_now-Ages now r = ground arith

pub set_state-IsValid :
    (id s : String) (rows : List InstanceRow) → IsValid rows → IsValid (set_state id s rows)
unfolding set_state
set_state-IsValid id s = update-IsValid (has_id id) (with_state s) (with_state-Ages s)

pub soft_delete-IsValid :
    (id : String) (now : ℕ) (rows : List InstanceRow)
    → IsValid rows
    → IsValid (soft_delete id now rows)
unfolding soft_delete
soft_delete-IsValid id now =
    update-IsValid (is_active_id id) (deleted_now now) (deleted_now-Ages now)

pub stop_all-IsValid :
    (ids : List String) (rows : List InstanceRow) → IsValid rows → IsValid (stop_all ids rows)
unfolding stop_all
stop_all-IsValid ids =
    update-IsValid (is_among ids) (with_state "stopped") (with_state-Ages "stopped")
