-- ===== src/Client/Events/Headers.antt =====
-- The headers that `normalizeEvent` of frontend/features/functions/lib/json.ts builds.
use foxplay_game.Common.{
  String, false, ◌≡◌, refl, sym, ap, ◌∙◌, inl, inr, arith, none, str_eq, str_eq-false, eq_iff,
  Bool-cases,
}
use foxplay_game.Json.{Json, str, arr, Items, nil, cons, Fields, end, field, get, put}
use foxplay_game.Json.Laws.{get-put_other}
use foxplay_game.Client.Events.{stringify_value, texts_of, header_value, set_header, headers_of}

abbrev pub join : Fields → Fields → Fields
join end gs = gs
join (field k v fs) gs = field k v (join fs gs)

unequal : (a b : String) → str_eq a b ≡ false → str_eq b a ≡ false
unequal a b h = elim (Bool-cases (str_eq b a)) [
  | inl e ↦ absurd (str_eq-false h (sym ((eq_iff b a).0 e)))
  | inr e ↦ e
]

module _ (stringify : Json → String) where
  texts_of_twice :
      (items : Items) → texts_of stringify (texts_of stringify items) ≡ texts_of stringify items
  unfolding texts_of stringify_value
  texts_of_twice nil = refl
  texts_of_twice (cons v items) =
      ap (cons (str (stringify_value stringify v))) (texts_of_twice items)

  header_value_twice :
      (v : Json) → header_value stringify (header_value stringify v) ≡ header_value stringify v
  unfolding header_value
  header_value_twice (arr items) = ap arr (texts_of_twice items)
  header_value_twice v = refl

  -- Headers as they are sent: names apart, none of them the prototype's, and lists of texts.
  abbrev pub IsNormal : Fields → Type 0
  IsNormal end = Unit
  IsNormal (field k v fs) =
      (str_eq k "__proto__" ≡ false)
      × (header_value stringify v ≡ v)
      × (get k fs ≡ none)
      × IsNormal fs

  put-IsNormal :
      (k : String) (v : Json) (fs : Fields)
      → str_eq k "__proto__" ≡ false
      → header_value stringify v ≡ v
      → IsNormal fs
      → IsNormal (put k v fs)
  unfolding put get
  put-IsNormal k v end h i n = (h, i, refl, tt)
  put-IsNormal k v (field j w fs) h i n = elim (Bool-cases (str_eq j k)) [
    | inl e ↦ rw e (n.0, i, n.2, n.3)
    | inr e ↦
        rw e (n.0, n.1, get-put_other j k v fs (unequal j k e) ∙ n.2, put-IsNormal k v fs h i n.3)
  ]

  set_header-IsNormal :
      (k : String) (v : Json) (headers : Fields)
      → header_value stringify v ≡ v
      → IsNormal headers
      → IsNormal (set_header stringify k v headers)
  set_header-IsNormal k v headers i n = elim (Bool-cases (str_eq k "__proto__")) [
    | inl e ↦ rw e n
    | inr e ↦ rw e (put-IsNormal k v headers e i n)
  ]

  pub headers_of-IsNormal :
      (entries headers : Fields)
      → IsNormal headers
      → IsNormal (headers_of stringify headers entries)
  unfolding headers_of
  headers_of-IsNormal end headers n = n
  headers_of-IsNormal (field k v entries) headers n =
      headers_of-IsNormal entries (set_header stringify k (header_value stringify v) headers)
        (set_header-IsNormal k (header_value stringify v) headers (header_value_twice v) n)

  -- none of the names of the second is in the first
  abbrev pub AreApart : Fields → Fields → Type 0
  AreApart fs end = Unit
  AreApart fs (field k v gs) = (get k fs ≡ none) × AreApart fs gs

  put-new :
      (k : String) (v : Json) (fs : Fields) → get k fs ≡ none → put k v fs ≡ join fs (field k v end)
  unfolding put get
  put-new k v end h = refl
  put-new k v (field j w fs) h = elim (Bool-cases (str_eq j k)) [
    | inl e ↦ absurd (ground arith)
    | inr e ↦ rw e (ap (field j w) (put-new k v fs (rw e at h)))
  ]

  get-join :
      (j k : String) (v : Json) (fs : Fields)
      → get j fs ≡ none
      → str_eq k j ≡ false
      → get j (join fs (field k v end)) ≡ none
  unfolding get
  get-join j k v end h e = rw e refl
  get-join j k v (field i w fs) h e = elim (Bool-cases (str_eq i j)) [
    | inl f ↦ absurd (ground arith)
    | inr f ↦ rw f (get-join j k v fs (rw f at h) e)
  ]

  join-AreApart :
      (k : String) (v : Json) (fs gs : Fields)
      → AreApart fs gs
      → get k gs ≡ none
      → AreApart (join fs (field k v end)) gs
  unfolding get
  join-AreApart k v fs end a h = tt
  join-AreApart k v fs (field j w gs) a h = elim (Bool-cases (str_eq j k)) [
    | inl e ↦ absurd (ground arith)
    | inr e ↦ (get-join j k v fs a.0 (unequal j k e), join-AreApart k v fs gs a.1 (rw e at h))
  ]

  join_assoc :
      (fs : Fields) (k : String) (v : Json) (gs : Fields)
      → join (join fs (field k v end)) gs ≡ join fs (field k v gs)
  join_assoc end k v gs = refl
  join_assoc (field j w fs) k v gs = ap (field j w) (join_assoc fs k v gs)

  join-end : (fs : Fields) → join fs end ≡ fs
  join-end end = refl
  join-end (field k v fs) = ap (field k v) (join-end fs)

  pub headers_of-join :
      (entries headers : Fields)
      → IsNormal entries
      → AreApart headers entries
      → headers_of stringify headers entries ≡ join headers entries
  unfolding headers_of
  headers_of-join end headers n a = sym (join-end headers)
  headers_of-join (field k v entries) headers n a =
      rw (n.0, n.1, put-new k v headers a.0)
        (headers_of-join entries (join headers (field k v end)) n.3
            (join-AreApart k v headers entries a.1 n.2)
          ∙ join_assoc headers k v entries)

  pub end-AreApart : (fs : Fields) → AreApart end fs
  unfolding get
  end-AreApart end = tt
  end-AreApart (field k v fs) = (refl, end-AreApart fs)
