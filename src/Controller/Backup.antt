-- ===== src/Controller/Backup.antt =====
-- controller/src/Backup.ts: the backups of the games' directories, and which of them are kept. The
-- file system, `tar` and the bucket are the parameters of `Services`: each call can reject.
pub mod Prune
pub mod Trace
use foxplay_game.Common.{
  ℕ, String, Bool, List, [], ◌∷◌, Option, none, some, map, drop, sort_desc, template, show, ◌==◌,
  not, str_eq, if◌then◌else◌,
}

-- A stored object: its key, and its time of change (0 where there is none).
pub record StoredObject : Type 0 where
  pub key : String
  pub modified : ℕ

-- What a call gives, or the message of the error that it throws.
pub data Outcome (A : Type 0) : Type 0 where
  done : A → Outcome A
  threw : String → Outcome A

-- The services that a backup calls, on their state. `tar` gives its exit code and its output.
pub record Services (S : Type 0) : Type 0 where
  pub readdir : S → Outcome (List String) × S
  pub access : String → S → Bool × S
  pub timestamp : S → String × S
  pub tar : String → S → Outcome (ℕ × List ℕ) × S
  pub put_object : String → List ℕ → S → Outcome Unit × S
  pub list_objects : String → S → Outcome (List StoredObject) × S
  pub delete_objects : List String → S → Outcome Unit × S

-- what follows an `await`, unless that throws
unfoldable pub resume : {S A B : Type 0} → (A → S → Outcome B × S) → Outcome A → S → Outcome B × S
resume k (done a) s = k a s
resume k (threw message) s = (threw message, s)

unfoldable pub chain :
    {S A B : Type 0} → (S → Outcome A × S) → (A → S → Outcome B × S) → S → Outcome B × S
unfolding resume
chain m k s = let (r, s') = m s in resume k r s'

-- `toDelete`
unfoldable pub to_delete : List StoredObject → List String
unfolding sort_desc
to_delete contents = map (λ o. o.key) (drop 10 (sort_desc (λ o. o.modified) contents))

module _ {S : Type 0} (sv : Services S) where
  -- the end of a round of `prune`: nothing to delete is no call
  unfoldable pub delete_old : List String → S → Outcome Unit × S
  delete_old [] s = (done tt, s)
  delete_old (k ∷ ks) s = sv.delete_objects (k ∷ ks) s

  -- a round of the loop of `prune`
  unfoldable pub prune_one : String → S → Outcome Unit × S
  unfolding chain to_delete delete_old
  prune_one container =
      chain (sv.list_objects (template (container ∷ "/" ∷ [])))
        (λ contents. delete_old (to_delete contents))

  unfoldable pub prune_all : List String → S → Outcome Unit × S
  unfolding prune_one
  prune_all [] s = (done tt, s)
  prune_all (c ∷ cs) s = chain (prune_one c) (λ _. prune_all cs) s

  unfoldable pub prune : S → Outcome Unit × S
  unfolding prune_all
  prune = chain sv.readdir prune_all

  -- the upload of what `tar` wrote
  unfoldable pub upload : String → ℕ × List ℕ → S → Outcome Unit × S
  unfolding show
  upload key (code, body) s =
      if code == 0
      then sv.put_object key body s
      else (threw (template ("tar failed with exit code " ∷ show code ∷ [])), s)

  -- `tar` of the directory, then the upload under `key`
  unfoldable pub store : String → String → S → Outcome Unit × S
  unfolding upload chain
  store container key = chain (sv.tar container) (upload key)

  -- a round of the loop of `backup`
  unfoldable pub backup_one : String → S → Outcome Unit × S
  unfolding store chain prune
  backup_one container s =
      let (found, s') = sv.access (template ("/foxplay-games/" ∷ container ∷ [])) s in
      if not found
      then (threw (template ("Container directory not found: " ∷ container ∷ [])), s')
      else let (time, s'') = sv.timestamp s' in
        chain (store container (template (container ∷ "/" ∷ time ∷ ".tar.gz" ∷ []))) (λ _. prune)
          s''

  unfoldable pub backup_all : List String → S → Outcome Unit × S
  unfolding backup_one
  backup_all [] s = (done tt, s)
  backup_all (c ∷ cs) s = chain (backup_one c) (λ _. backup_all cs) s

  -- an empty name counts as no name
  unfoldable pub backup : Option String → S → Outcome Unit × S
  unfolding backup_all
  backup none = chain sv.readdir backup_all
  backup (some container) =
      if str_eq container "" then chain sv.readdir backup_all else backup_all (container ∷ [])
