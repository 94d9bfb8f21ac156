-- ===== src/Client/Server/Busy.antt =====
-- The requests that the buttons of frontend/features/servers/components/InstanceDetailClient.tsx send.
use mathlib.Core.Path.{subst}
use mathlib.Core.List.{cons≢nil, head-eq_of_cons-eq, tail-eq_of_cons-eq}
use foxplay_game.Common.{
  String, Bool, true, false, not, ◌≡◌, ◌≢◌, refl, sym, ap, ◌∙◌, inl, inr, arith, List, [], ◌∷◌,
  ◌++◌, Option, none, some, str_eq, eq_iff, str_eq-false, All, Bool-cases, Option-cases, both,
}
use foxplay_game.Instances.{InstanceDetail}
use foxplay_game.Server.{Res, ok, thrown}
use foxplay_game.Client.Server.{
  Kind, start, stop, delete, ServerPage, disabled, begin, confirm_for, click, same_kind, without,
  settled, settle,
}

-- A page as it is opened, with nothing under way.
abbrev pub opened : InstanceDetail → ServerPage
opened inst = record {
  shown = inst;
  busy = none;
  outstanding = [];
  sent = [];
  toasts = [];
  location = none;
  refetches = 0;
}

-- The states of a page: a click, the answer to an outstanding request, or a fetch of the server.
pub data IsReached : ServerPage → Type 0 where
  fresh : (inst : InstanceDetail) → IsReached (opened inst)
  clicked :
      {p : ServerPage} (k : Kind) (confirmed : Bool) → IsReached p → IsReached (click k confirmed p)
  answered :
      {p : ServerPage} (k : Kind) (r : Res String) (before after : List Kind)
      → p.outstanding ≡ before ++ (k ∷ after)
      → IsReached p
      → IsReached (settle k r p)
  fetched :
      {p : ServerPage} (inst : InstanceDetail) → IsReached p → IsReached (record p { shown = inst })

abbrev pub list_of : Option Kind → List Kind
list_of none = []
list_of (some k) = k ∷ []

-- what the server showed when the request was sent
abbrev pub IsAllowed : Kind × String → Type 0
IsAllowed (start, state) = state ≢ "running"
IsAllowed (stop, state) = state ≡ "running"
IsAllowed (delete, state) = Unit

pub record IsOrderly (p : ServerPage) : Type 0 where
  pub one : p.outstanding ≡ list_of p.busy
  pub allowed : All IsAllowed p.sent

idle : (k : Kind) (p : ServerPage) → disabled k p ≡ false → p.busy ≡ none
unfolding disabled
idle start p e = elim (Option-cases p.busy) [ inl f ↦ f | inr (j, f) ↦ absurd (ground arith) ]
idle stop p e = elim (Option-cases p.busy) [ inl f ↦ f | inr (j, f) ↦ absurd (ground arith) ]
idle delete p e = elim (Option-cases p.busy) [ inl f ↦ f | inr (j, f) ↦ absurd (ground arith) ]

now_permitted : (k : Kind) (p : ServerPage) → disabled k p ≡ false → IsAllowed (k, p.shown.state)
unfolding disabled
now_permitted start p e = elim (Bool-cases (str_eq p.shown.state "running")) [
  | inl f ↦ absurd (ground arith)
  | inr f ↦ str_eq-false f
]
now_permitted stop p e = elim (Bool-cases (str_eq p.shown.state "running")) [
  | inl f ↦ (eq_iff _ _).0 f
  | inr f ↦ absurd (ground arith)
]
now_permitted delete p e = tt

begin-IsOrderly :
    (k : Kind) (p : ServerPage) → disabled k p ≡ false → IsOrderly p → IsOrderly (begin k p)
begin-IsOrderly k p e h = record {
  one = ap (λ o. k ∷ o) (h.one ∙ ap list_of (idle k p e));
  allowed = (now_permitted k p e, h.allowed);
}

click-IsOrderly :
    (k : Kind) (confirmed : Bool) (p : ServerPage) → IsOrderly p → IsOrderly (click k confirmed p)
unfolding click
click-IsOrderly k confirmed p h = elim (Bool-cases (disabled k p)) [
  | inl e ↦ rw e h
  | inr e ↦ rw e (both IsOrderly (confirm_for k confirmed) (begin-IsOrderly k p e h) h)
]

settled-same :
    (k : Kind) (r : Res String) (p : ServerPage)
    → ((settled k r p).outstanding ≡ p.outstanding) × ((settled k r p).sent ≡ p.sent)
settled-same start (ok text) p = (refl, refl)
settled-same stop (ok text) p = (refl, refl)
settled-same delete (ok text) p = (refl, refl)
settled-same start (thrown e) p = (refl, refl)
settled-same stop (thrown e) p = (refl, refl)
settled-same delete (thrown e) p = (refl, refl)

not-not : (b : Bool) → b ≡ not (not b)
not-not true = refl
not-not false = refl

same_kind_refl : (k : Kind) → same_kind k k ≡ true
same_kind_refl start = refl
same_kind_refl stop = refl
same_kind_refl delete = refl

without-single :
    (o : Option Kind) (k : Kind) (before after : List Kind)
    → list_of o ≡ before ++ (k ∷ after)
    → without k (list_of o) ≡ []
without-single none k [] after e = absurd (cons≢nil (sym e))
without-single none k (j ∷ before) after e = absurd (cons≢nil (sym e))
without-single (some i) k [] after e = rw (head-eq_of_cons-eq e, same_kind_refl k)
without-single (some i) k (j ∷ []) after e = absurd (cons≢nil (sym (tail-eq_of_cons-eq e)))
without-single (some i) k (j ∷ l ∷ before) after e = absurd (cons≢nil (sym (tail-eq_of_cons-eq e)))

settle-IsOrderly :
    (k : Kind) (r : Res String) (p : ServerPage) (before after : List Kind)
    → p.outstanding ≡ before ++ (k ∷ after)
    → IsOrderly p
    → IsOrderly (settle k r p)
unfolding settle
settle-IsOrderly k r p before after e h =
    let (same, kept) = settled-same k r p in
    record {
      one = ap (without k) (same ∙ h.one) ∙ without-single p.busy k before after (sym h.one ∙ e);
      allowed = subst (All IsAllowed) (sym kept) h.allowed;
    }

-- In every state of the page that clicks, answers and fetches lead to, the requests that are
-- outstanding are the one that the page is busy with, or none; and every start was sent while the
-- server did not show as running, and every stop while it did.
pub IsReached-IsOrderly : {p : ServerPage} → IsReached p → IsOrderly p
IsReached-IsOrderly (fresh inst) = record { one = refl; allowed = tt }
IsReached-IsOrderly (clicked {p} k confirmed h) =
    click-IsOrderly k confirmed p (IsReached-IsOrderly h)
IsReached-IsOrderly (answered {p} k r before after e h) =
    settle-IsOrderly k r p before after e (IsReached-IsOrderly h)
IsReached-IsOrderly (fetched inst h) =
    let o = IsReached-IsOrderly h in record { one = o.one; allowed = o.allowed }

-- After the answer to the request that the page is busy with, whether it went well or not, nothing is
-- outstanding, and exactly the buttons that the state of the server allows can be clicked.
pub settle-idle :
    {p : ServerPage} (k : Kind) (r : Res String)
    → IsReached p
    → p.busy ≡ some k
    → ((settle k r p).outstanding ≡ [])
      × ((settle k r p).busy ≡ none)
      × (disabled delete (settle k r p) ≡ false)
      × (disabled start (settle k r p) ≡ not (disabled stop (settle k r p)))
unfolding settle disabled
settle-idle {p} k r h busy =
    let o = IsReached-IsOrderly h in
    let (same, kept) = settled-same k r p in
    (
      ap (without k) (same ∙ o.one) ∙ without-single p.busy k [] [] (ap list_of busy),
      refl,
      refl,
      not-not (str_eq (settled k r p).shown.state "running"),
    )
