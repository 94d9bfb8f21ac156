-- ===== src/Json/Laws.antt =====
-- What a field holds after it was set.
use mathlib.Core.Path.{subst}
use foxplay_game.Common.{
  String, false, ◌≡◌, refl, sym, inl, inr, Option, none, some, str_eq, eq_refl, eq_iff, Bool-cases,
  arith, if◌then◌else◌, ap,
}
use foxplay_game.Json.{Json, Fields, end, field, get, put}

pub get-put : (k : String) (v : Json) (fs : Fields) → get k (put k v fs) ≡ some v
unfolding get put
get-put k v end = rw (eq_refl k) refl
get-put k v (field j w fs) = elim (Bool-cases (str_eq j k)) [
  | inl e ↦ rw (e, put) (rw e refl)
  | inr e ↦ rw (e, put) (rw e (get-put k v fs))
]

pub get-put_other :
    (j k : String) (v : Json) (fs : Fields) → str_eq k j ≡ false → get j (put k v fs) ≡ get j fs
unfolding get put
get-put_other j k v end h = rw h refl
get-put_other j k v (field i w fs) h = elim (Bool-cases (str_eq i k)) [
  | inl e ↦
      let f : str_eq i j ≡ false = subst (λ x. str_eq x j ≡ false) (sym ((eq_iff i k).0 e)) h in
      rw (e, f) refl
  | inr e ↦ rw e (ap (λ o. if str_eq i j then some w else o) (get-put_other j k v fs h))
]

abbrev json_or : Json → Option Json → Json
json_or v none = v
json_or v (some w) = w

-- setting a field to what it holds
pub put_same : (k : String) (v : Json) (fs : Fields) → get k fs ≡ some v → put k v fs ≡ fs
unfolding get put
put_same k v end h = absurd (ground arith)
put_same k v (field j w fs) h = elim (Bool-cases (str_eq j k)) [
  | inl e ↦
      let held : some w ≡ some v = rw e at h in
      let same : w ≡ v = ap (json_or v) held in rw e (rw same refl)
  | inr e ↦ rw e (ap (field j w) (put_same k v fs (rw e at h)))
]
