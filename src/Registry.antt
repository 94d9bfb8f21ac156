-- ===== src/Registry.antt =====
-- What the tables `functions` and `ssh_keys` share: a row has an id, and an owner and a name that no
-- other row has while neither is deleted (the indexes idx_functions_active_name and
-- idx_ssh_keys_active_name of database/migrations). The newest row is first.
pub mod Laws
pub mod Functions
pub mod Keys
pub mod History
mod Tests
use foxplay_game.Common.{
  ℕ, String, Bool, false, ◌&&◌, ◌||◌, ◌≡◌, List, [], ◌∷◌, str_eq, any, select, if◌then◌else◌,
}
use foxplay_game.Server.{Res, ok, thrown, unique_violation}

-- The columns of such a table. `retire` is `SET deleted_at = now()`.
pub record Labelled (R : Type 0) : Type 0 where
  pub id_of : R → String
  pub owner_of : R → String
  pub name_of : R → String
  pub is_live : R → Bool
  pub retire : ℕ → R → R
  pub retire_id : (now : ℕ) (r : R) → id_of (retire now r) ≡ id_of r
  pub retire_dead : (now : ℕ) (r : R) → is_live (retire now r) ≡ false

module _ {R : Type 0} (l : Labelled R) where
  -- Two rows that the table cannot hold together.
  unfoldable pub clash : R → R → Bool
  clash r q =
      str_eq (l.id_of r) (l.id_of q)
      || l.is_live r
        && l.is_live q
        && str_eq (l.owner_of r) (l.owner_of q)
        && str_eq (l.name_of r) (l.name_of q)

  unfoldable pub insert : R → List R → Res (List R)
  unfolding clash
  insert r rows = if any (clash r) rows then thrown unique_violation else ok (r ∷ rows)

  -- `WHERE id = $1 AND deleted_at IS NULL`
  abbrev pub is_live_id : String → R → Bool
  is_live_id id r = str_eq (l.id_of r) id && l.is_live r

  unfoldable pub retire_rows : String → ℕ → List R → List R
  retire_rows id now [] = []
  retire_rows id now (r ∷ rows) =
      (if is_live_id id r then l.retire now r else r) ∷ retire_rows id now rows

  -- `WHERE deleted_at IS NULL`
  abbrev pub live_rows : List R → List R
  live_rows = select l.is_live
