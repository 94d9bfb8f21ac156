-- ===== src/Controller/Backup/Trace.antt =====
-- What a whole backup does to the services: which uploads and which deletions it can make.
use foxplay_game.Common.{
  ℕ, zero, suc, ◌≡◌, ap, refl, arith, String, List, [], ◌∷◌, Option, none, some, template, ◌==◌,
  ==_iff, Bool-cases, inl, inr, not, both, str_eq,
}
use foxplay_game.Controller.Backup.{
  StoredObject, Outcome, done, threw, Services, resume, chain, to_delete, delete_old, prune_one,
  prune_all, prune, upload, store, backup_one, backup_all, backup,
}

-- A property of the services' state that reading keeps; that an upload keeps, if `tar` has just ended
-- with the code 0 and the upload's body, and the key is in the container's directory; and that a
-- deletion keeps, if its keys are those which `to_delete` chooses from a list that the bucket gave.
pub record IsKept {S : Type 0} (sv : Services S) (I : S → Type 0) : Type 0 where
  pub reads : (s : S) → I s → I (sv.readdir s).1
  pub accesses : (c : String) (s : S) → I s → I (sv.access c s).1
  pub ticks : (s : S) → I s → I (sv.timestamp s).1
  pub packs : (c : String) (s : S) → I s → I (sv.tar c s).1
  pub lists : (c : String) (s : S) → I s → I (sv.list_objects c s).1
  pub uploads :
      (c time : String) (body : List ℕ) (s s' : S)
      → sv.tar c s ≡ (done (0, body), s')
      → I s'
      → I (sv.put_object (template (c ∷ "/" ∷ time ∷ ".tar.gz" ∷ [])) body s').1
  pub deletes :
      (c k : String) (ks : List String) (contents : List StoredObject) (s s' : S)
      → sv.list_objects (template (c ∷ "/" ∷ [])) s ≡ (done contents, s')
      → to_delete contents ≡ k ∷ ks
      → I s'
      → I (sv.delete_objects (k ∷ ks) s').1

abbrev KeepsState : {S A : Type 0} → (S → Type 0) → (S → Outcome A × S) → Type 0
KeepsState {S = S} I m = (s : S) → I s → I (m s).1

-- What is done after a call knows what the call gave.
KeepsState-chain :
    {S A B : Type 0} (I : S → Type 0) (m : S → Outcome A × S) (k : A → S → Outcome B × S)
    → KeepsState I m
    → ((a : A) (s s' : S) → m s ≡ (done a, s') → I s' → I (k a s').1)
    → KeepsState I (chain m k)
unfolding chain resume
KeepsState-chain {S = S} {A = A} {B = B} I m k hm hk s i = after (m s).0 refl
  where
    after : (r : Outcome A) → (m s).0 ≡ r → I (resume k r (m s).1).1
    after (done a) e = hk a s (m s).1 (ap (λ o. (o, (m s).1)) e) (hm s i)
    after (threw message) e = hm s i

module _ {S : Type 0} (sv : Services S) (I : S → Type 0) (law : IsKept sv I) where
  prune_one-KeepsState : (c : String) → KeepsState I (prune_one sv c)
  unfolding prune_one delete_old
  prune_one-KeepsState c =
      KeepsState-chain I (sv.list_objects (template (c ∷ "/" ∷ [])))
        (λ contents. delete_old sv (to_delete contents)) (law.lists _)
        (λ contents s s' e i. old contents s s' e i (to_delete contents) refl)
    where
      old :
          (contents : List StoredObject) (s s' : S)
          → sv.list_objects (template (c ∷ "/" ∷ [])) s ≡ (done contents, s')
          → I s'
          → (ks : List String) → to_delete contents ≡ ks
          → I (delete_old sv ks s').1
      old contents s s' e i [] h = i
      old contents s s' e i (k ∷ ks) h = law.deletes c k ks contents s s' e h i

  prune_all-KeepsState : (cs : List String) → KeepsState I (prune_all sv cs)
  unfolding prune_all
  prune_all-KeepsState [] s i = i
  prune_all-KeepsState (c ∷ cs) s i =
      KeepsState-chain I (prune_one sv c) (λ _. prune_all sv cs) (prune_one-KeepsState c)
        (λ a t t' e. prune_all-KeepsState cs t') s i

  prune-KeepsState : KeepsState I (prune sv)
  unfolding prune
  prune-KeepsState =
      KeepsState-chain I sv.readdir (prune_all sv) law.reads
        (λ cs s s' e. prune_all-KeepsState cs s')

  store-KeepsState :
      (c time : String) → KeepsState I (store sv c (template (c ∷ "/" ∷ time ∷ ".tar.gz" ∷ [])))
  unfolding store upload
  store-KeepsState c time = KeepsState-chain I (sv.tar c) (upload sv key) (law.packs c) packed
    where
      key : String
      key = template (c ∷ "/" ∷ time ∷ ".tar.gz" ∷ [])

      packed :
          (a : ℕ × List ℕ) (s s' : S) → sv.tar c s ≡ (done a, s') → I s' → I (upload sv key a s').1
      packed (zero, body) s s' e i = law.uploads c time body s s' e i
      packed (suc n, body) s s' e i = elim (Bool-cases (suc n == 0)) [
        | inl z ↦ absurd (omega (arith, (==_iff _ _).0 z))
        | inr z ↦ rw z i
      ]

  backup_one-KeepsState : (c : String) → KeepsState I (backup_one sv c)
  unfolding backup_one
  backup_one-KeepsState c s i =
      let found : I (sv.access _ s).1 = law.accesses (template ("/foxplay-games/" ∷ c ∷ [])) s i in
      both (λ (r : Outcome Unit × S). I r.1)
        (not (sv.access (template ("/foxplay-games/" ∷ c ∷ [])) s).0) found
        (KeepsState-chain I (store sv c _) (λ _. prune sv) (store-KeepsState c _)
          (λ a t t' e. prune-KeepsState t') _ (law.ticks _ found))

  backup_all-KeepsState : (cs : List String) → KeepsState I (backup_all sv cs)
  unfolding backup_all
  backup_all-KeepsState [] s i = i
  backup_all-KeepsState (c ∷ cs) s i =
      KeepsState-chain I (backup_one sv c) (λ _. backup_all sv cs) (backup_one-KeepsState c)
        (λ a t t' e. backup_all-KeepsState cs t') s i

  every-KeepsState : KeepsState I (chain sv.readdir (backup_all sv))
  every-KeepsState =
      KeepsState-chain I sv.readdir (backup_all sv) law.reads
        (λ cs s s' e. backup_all-KeepsState cs s')

-- Whatever fails in between, a backup of one container or of all keeps each property of the services'
-- state that is kept by reading, by uploads of what a `tar` that ended with the code 0 wrote, under a
-- key of its container, and by deletions of what `to_delete` chooses: it makes no other upload and no other deletion.
pub backup-KeepsState :
    {S : Type 0} (sv : Services S) (I : S → Type 0) (name : Option String) (s : S)
    → IsKept sv I
    → I s
    → I (backup sv name s).1
unfolding backup
backup-KeepsState sv I none s law i = every-KeepsState sv I law s i
backup-KeepsState {S = S} sv I (some c) s law i =
    both (λ (m : S → Outcome Unit × S). I (m s).1) (str_eq c "") (every-KeepsState sv I law s i)
      (backup_all-KeepsState sv I law (c ∷ []) s i)
