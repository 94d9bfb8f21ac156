-- ===== src/Controller/Backup/Prune.antt =====
-- What a pruning of the backups keeps.
use Prim.Native.Nat.{min}
use mathlib.Core.List.{Perm}
use mathlib.Core.Path.{subst}
use foxplay_game.Common.{
  ℕ, zero, suc, ◌≤◌, ◌≡◌, ◌∙◌, ap, sym, refl, arith, String, List, [], ◌∷◌, ◌++◌, map, drop, take,
  take-append-drop, drop_short, leb, leb_iff, ◌<◌, ◌⊎◌, sort_desc, sort_desc-perm, length-sort_desc,
  sort_desc-IsSortedDesc, IsSortedDesc, length, All, All-drop, template, Bool-cases, inl, inr,
}
use foxplay_game.Controller.Backup.{
  StoredObject, done, Services, chain, to_delete, delete_old, prune_one,
}

abbrev time_of : StoredObject → ℕ
time_of o = o.modified

-- `kept` and `dropped` are what is stored, ten of `kept` at most, and each of them at least as new as all of `dropped`.
pub record IsPruned (contents kept dropped : List StoredObject) : Type 0 where
  pub whole : Perm (kept ++ dropped) contents
  pub count : length kept ≡ min 10 (length contents)
  pub newest : All (λ k. All (λ d. d.modified ≤ k.modified) dropped) kept

take-newer :
    (n : ℕ) (os : List StoredObject)
    → IsSortedDesc time_of os
    → All (λ k. All (λ d. d.modified ≤ k.modified) (drop n os)) (take n os)
take-newer zero os h = tt
take-newer (suc n) [] h = tt
take-newer (suc n) (o ∷ os) h =
    (All-drop (λ d. d.modified ≤ o.modified) n os h.0, take-newer n os h.1)

length-take : (n : ℕ) (os : List StoredObject) → length (take n os) ≡ min n (length os)
length-take zero os = omega arith
length-take (suc n) [] = omega arith
length-take (suc n) (o ∷ os) = omega (arith, length-take n os)

sorted-IsPruned :
    (contents : List StoredObject)
    → IsPruned contents
        (take 10 (sort_desc time_of contents))
        (drop 10 (sort_desc time_of contents))
sorted-IsPruned contents =
    let sorted = sort_desc time_of contents in
    record {
      whole =
          subst (λ os. Perm os contents) (sym (take-append-drop 10 sorted))
            (sort_desc-perm time_of contents);
      count = length-take 10 sorted ∙ ap (min 10) (length-sort_desc time_of contents);
      newest = take-newer 10 sorted (sort_desc-IsSortedDesc time_of contents);
    }

prune_one-listed :
    {S : Type 0} (sv : Services S) (container : String) (s s' : S) (contents : List StoredObject)
    → sv.list_objects (template (container ∷ "/" ∷ [])) s ≡ (done contents, s')
    → prune_one sv container s ≡ delete_old sv (to_delete contents) s'
unfolding prune_one chain
prune_one-listed sv container s s' contents listed = ground arith

delete_old-drop :
    {S : Type 0} (sv : Services S) (n : ℕ) (os : List StoredObject) (s : S)
    → n < length os
    → delete_old sv (map (λ o. o.key) (drop n os)) s
      ≡ sv.delete_objects (map (λ o. o.key) (drop n os)) s
unfolding delete_old
delete_old-drop sv n [] s h = absurd (omega arith)
delete_old-drop sv zero (o ∷ os) s h = refl
delete_old-drop sv (suc n) (o ∷ os) s h = delete_old-drop sv n os s (omega arith)

-- What a round of `prune` does once the bucket has listed the backups of a container: nothing where
-- there are ten or fewer, and else one call that deletes the keys of all but the ten newest of them.
pub prune_one-IsPruned :
    {S : Type 0} (sv : Services S) (container : String) (s s' : S) (contents : List StoredObject)
    → sv.list_objects (template (container ∷ "/" ∷ [])) s ≡ (done contents, s')
    → (kept : List StoredObject) × (dropped : List StoredObject) × IsPruned contents kept dropped
      × ((length contents ≤ 10) × (dropped ≡ []) × (prune_one sv container s ≡ (done tt, s'))
          ⊎ (10 < length contents)
            × (prune_one sv container s ≡ sv.delete_objects (map (λ o. o.key) dropped) s'))
unfolding to_delete
prune_one-IsPruned sv container s s' contents listed =
    let ran = prune_one-listed sv container s s' contents listed in
    let sorted = sort_desc time_of contents in
    (
      take 10 sorted,
      drop 10 sorted,
      sorted-IsPruned contents,
      elim (Bool-cases (leb (length contents) 10)) [
        | inl e ↦
            let short =
              drop_short 10 sorted
                (omega (arith, length-sort_desc time_of contents, (leb_iff _ _).0 e)) in
            inl (
              ((leb_iff _ _).0 e),
              short,
              ran
                  ∙ ap (λ os. delete_old sv (map (λ o. o.key) os) s') short
                  ∙ unfold delete_old in refl,
            )
        | inr e ↦ inr (
          ground (arith, leb_iff (length contents) 10),
          ran
              ∙ delete_old-drop sv 10 sorted s'
                  (ground (arith, leb_iff (length contents) 10, length-sort_desc time_of contents)),
        )
      ],
    )
