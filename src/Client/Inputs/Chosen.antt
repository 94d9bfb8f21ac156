-- ===== src/Client/Inputs/Chosen.antt =====
-- The file that the upload form holds after any inputs, and what the payload's verdict promises.
use foxplay_game.Common.{
  ℕ, ◌+◌, true, false, ◌≡◌, refl, ap, ◌∙◌, arith, inl, inr, List, [], ◌∷◌, Option, some, length,
  Bool-cases, if◌then◌else◌,
}
use foxplay_game.Client.Upload.{File, UploadForm, select_file, is_archive_name}
use foxplay_game.Client.Inputs.{
  Zone, Input, typed, snapshot_set, dragged_over, drag_left, dropped, picked, apply, apply_all,
}

-- The first files of the drops and the choices, in their order.
abbrev pub offered : List Input → List File
offered [] = []
offered (dropped (f ∷ files) ∷ inputs) = f ∷ offered inputs
offered (picked (f ∷ files) ∷ inputs) = f ∷ offered inputs
offered (i ∷ inputs) = offered inputs

-- The last archive of a list, or what was there before.
abbrev pub last_archive : List File → Option File → Option File
last_archive [] before = before
last_archive (f ∷ files) before =
    last_archive files (if is_archive_name f.name then some f else before)

abbrev pub refused : List File → ℕ
refused [] = 0
refused (f ∷ files) = (if is_archive_name f.name then 0 else 1) + refused files

-- what one offered file does to the form
abbrev IsOffered : File → UploadForm → UploadForm → Type 0
IsOffered f before after =
    (after.file ≡ (if is_archive_name f.name then some f else before.file))
    × (length after.toasts ≡ (if is_archive_name f.name then 0 else 1) + length before.toasts)
    × (after.uploading ≡ before.uploading)

select_file-IsOffered :
    (f : File) (form : UploadForm) → IsOffered f form (select_file (some f) form)
unfolding select_file
select_file-IsOffered f form = elim (Bool-cases (is_archive_name f.name)) [
  | inl e ↦ rw e (refl, omega arith, refl)
  | inr e ↦ rw e (refl, omega arith, refl)
]

-- After any inputs the form holds the last of the offered files whose name is that of an archive, or
-- the file that it held before where there is none, and there is one toast more for each offered
-- file with another name; inputs never touch the request that is under way.
pub apply_all-last_archive :
    (inputs : List Input) (z : Zone)
    → let z' = apply_all inputs z in
      (z'.form.file ≡ last_archive (offered inputs) z.form.file)
      × (length z'.form.toasts ≡ refused (offered inputs) + length z.form.toasts)
      × (z'.form.uploading ≡ z.form.uploading)
unfolding apply_all
apply_all-last_archive [] z = (refl, omega arith, refl)
apply_all-last_archive (typed name ∷ inputs) z = apply_all-last_archive inputs _
apply_all-last_archive (snapshot_set on ∷ inputs) z = apply_all-last_archive inputs _
apply_all-last_archive (dragged_over ∷ inputs) z = apply_all-last_archive inputs _
apply_all-last_archive (drag_left true ∷ inputs) z = apply_all-last_archive inputs z
apply_all-last_archive (drag_left false ∷ inputs) z = apply_all-last_archive inputs _
apply_all-last_archive (dropped [] ∷ inputs) z = apply_all-last_archive inputs _
apply_all-last_archive (picked [] ∷ inputs) z = apply_all-last_archive inputs _
apply_all-last_archive (dropped (f ∷ files) ∷ inputs) z =
    let (file, toasts, uploading) = select_file-IsOffered f z.form in
    let (a, b, c) = apply_all-last_archive inputs (apply (dropped (f ∷ files)) z) in
    (a ∙ ap (last_archive (offered inputs)) file, omega (arith, b, toasts), c ∙ uploading)
apply_all-last_archive (picked (f ∷ files) ∷ inputs) z =
    let (file, toasts, uploading) = select_file-IsOffered f z.form in
    let (a, b, c) = apply_all-last_archive inputs (apply (picked (f ∷ files)) z) in
    (a ∙ ap (last_archive (offered inputs)) file, omega (arith, b, toasts), c ∙ uploading)
