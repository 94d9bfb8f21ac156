-- ===== src/Server/Laws.antt =====
-- What a handler keeps of the state it runs on, step by step.
use foxplay_game.Common.{ℕ, String, Option, none, some, arith, List, ◌≡◌, sym, refl, ◌⊎◌, inl, inr}
use mathlib.Core.Path.{subst}
use foxplay_game.Json.{Json}
use foxplay_game.Server.{
  World, Res, ok, thrown, Thrown, M, pure, ◌>>=◌, try_catch, query, next_fault, later_faults,
  Fetched, rejected, answered,
}
use foxplay_game.Server.Manager.{
  FetchRequest, InstanceSpec, send, check_answer, json_answer, running_set, call, get_json, create,
  start, stop, remove, running,
}

module _ {S : Type 0} where
  -- `P` survives `m`, whether it returns or throws.
  abbrev pub Keeps : {A : Type 0} → (World S → Type 0) → M S A → Type 0
  Keeps P m = (w : World S) → P w → P (m w).1

  -- A property that the answers of the database and the state of the services have no part in.
  pub record IsStable (P : World S → Type 0) : Type 0 where
    pub faults : (w : World S) (fs : List (Option Thrown)) → P w → P (record w { faults = fs })
    pub remote : (w : World S) (s : S) → P w → P (record w { remote = s })

-- A step that returns hands over its value and its state.
pub >>=-ok :
    {S A B : Type 0} (m : M S A) {a : A} {w w' : World S} (k : A → M S B)
    → m w ≡ (ok a, w')
    → (m >>= k) w ≡ k a w'
>>=-ok m k e = ground arith

pub >>=-thrown :
    {S A B : Type 0} (m : M S A) {e : Thrown} {w w' : World S} (k : A → M S B)
    → m w ≡ (thrown e, w')
    → (m >>= k) w ≡ (thrown e, w')
>>=-thrown m k e = ground arith

module _ {S A : Type 0} (P : World S → Type 0) where
  pub Keeps-pure : (a : A) → Keeps {A = A} P (pure a)
  Keeps-pure a w h = h

  pub Keeps->>= :
      {B : Type 0} (m : M S A) (k : A → M S B)
      → Keeps P m
      → ((a : A) → Keeps P (k a))
      → Keeps P (m >>= k)
  Keeps->>= {B} m k hm hk w h = after (m w) (hm w h)
    where
      after :
          (p : Res A × World S)
          → P p.1
          → P (elim p.0 as (λ _. Res B × World S) [ ok a ↦ k a p.1 | thrown e ↦ (thrown e, p.1) ]).1
      after (ok a, w') h' = hk a w' h'
      after (thrown e, w') h' = h'

  pub Keeps-try_catch :
      (m : M S A) (c : Thrown → M S A)
      → Keeps P m
      → ((e : Thrown) → Keeps P (c e))
      → Keeps P (try_catch m c)
  Keeps-try_catch m c hm hc w h = after (m w) (hm w h)
    where
      after :
          (p : Res A × World S)
          → P p.1
          → P (elim p.0 as (λ _. Res A × World S) [ ok a ↦ (ok a, p.1) | thrown e ↦ c e p.1 ]).1
      after (ok a, w') h' = h'
      after (thrown e, w') h' = hc e w' h'

  pub Keeps-query : (m : M S A) → IsStable P → Keeps P m → Keeps P (query m)
  unfolding query
  Keeps-query m st hm w h = after (next_fault w.faults)
    where
      w' : World S
      w' = record w { faults = later_faults w.faults }

      after :
          (f : Option Thrown)
          → P (elim f as (λ _. Res A × World S) [ none ↦ m w' | some e ↦ (thrown e, w') ]).1
      after none = hm w' (st.faults w (later_faults w.faults) h)
      after (some e) = st.faults w (later_faults w.faults) h

check_answer-state : {S : Type 0} (a : ℕ × String) (w : World S) → (check_answer a w).1 ≡ w
unfolding check_answer
check_answer-state a w = ground arith

json_answer-state :
    {S : Type 0} (parse : String → Option Json) (a : ℕ × String) (w : World S)
    → (json_answer parse a w).1 ≡ w
unfolding json_answer
json_answer-state parse a w = ground arith

running_set-state : {S : Type 0} (b : Json) (w : World S) → (running_set b w).1 ≡ w
unfolding running_set
running_set-state b w = ground arith

module _ {S : Type 0} (fetch : FetchRequest → S → Fetched × S) (parse : String → Option Json)
    (P : World S → Type 0) (st : IsStable P) where
  pub Keeps-send : (req : FetchRequest) → Keeps P (send fetch parse req)
  unfolding send
  Keeps-send req w h = after (fetch req w.remote).0
    where
      w' : World S
      w' = record w { remote = (fetch req w.remote).1 }

      after :
          (f : Fetched)
          → P
              (elim f as (λ _. Res (ℕ × String) × World S) [
                | rejected e ↦ (thrown e, w')
                | answered status text ↦ (ok (status, text), w')
              ]).1
      after (rejected e) = st.remote w (fetch req w.remote).1 h
      after (answered status text) = st.remote w (fetch req w.remote).1 h

  pub Keeps-call :
      (path method : String) (body : Option InstanceSpec)
      → Keeps P (call fetch parse path method body)
  unfolding call
  Keeps-call path method body =
      Keeps->>= P (send fetch parse _) check_answer (Keeps-send _)
        (λ a w h. subst P (sym (check_answer-state a w)) h)

  pub Keeps-running : Keeps P (running fetch parse)
  unfolding running get_json
  Keeps-running =
      Keeps->>= P (get_json fetch parse "/running") running_set
        (Keeps->>= P (send fetch parse _) (json_answer parse) (Keeps-send _)
          (λ a w h. subst P (sym (json_answer-state parse a w)) h))
        (λ b w h. subst P (sym (running_set-state b w)) h)

  pub Keeps-create : (spec : InstanceSpec) → Keeps P (create fetch parse spec)
  unfolding create
  Keeps-create spec = Keeps-call _ _ _

  pub Keeps-start : (spec : InstanceSpec) → Keeps P (start fetch parse spec)
  unfolding start
  Keeps-start spec = Keeps-call _ _ _

  pub Keeps-stop : (id : String) → Keeps P (stop fetch parse id)
  unfolding stop
  Keeps-stop id = Keeps-call _ _ _

  pub Keeps-remove : (spec : InstanceSpec) → Keeps P (remove fetch parse spec)
  unfolding remove
  Keeps-remove spec = Keeps-call _ _ _

-- What a call can give.
pub Res-cases : {A : Type 0} (r : Res A) → ((a : A) × (r ≡ ok a)) ⊎ ((e : Thrown) × (r ≡ thrown e))
Res-cases (ok a) = inl (a, refl)
Res-cases (thrown e) = inr (e, refl)

pub Fetched-cases :
    (f : Fetched)
    → ((e : Thrown) × (f ≡ rejected e))
      ⊎ ((status : ℕ) × (text : String) × (f ≡ answered status text))
Fetched-cases (rejected e) = inl (e, refl)
Fetched-cases (answered status text) = inr (status, text, refl)
