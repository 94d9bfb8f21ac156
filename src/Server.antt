-- ===== src/Server.antt =====
-- What the API routes of frontend/app/api work with: the database of frontend/lib/db.ts, the
-- services behind `fetch`, and exceptions.
--
-- A handler is a function of the state that it may change: the three tables, the answers that the
-- database will give to the next statements (`faults`: a thrown error, or `none` for a statement
-- that is executed), and the state `remote` of the services, whose behaviour is the parameter
-- `fetch` of the handlers that call them. What was written before an exception stays written.
pub mod Rows
pub mod Manager
pub mod Laws
pub use Rows.{InstanceRow, FunctionRow, SshKeyRow}
use foxplay_game.Common.{
  ℕ, String, Bool, false, ◌&&◌, List, [], ◌∷◌, Option, none, some, str_eq, leb, ltb,
}

-- a thrown `Error`: its `code`, if it has one, and its `message`
pub record Thrown : Type 0 where
  pub code : Option String
  pub message : String

pub data Res (A : Type 0) : Type 0 where
  ok : A → Res A
  thrown : Thrown → Res A

pub record World (S : Type 0) : Type 0 where
  pub instances : List InstanceRow
  pub functions : List FunctionRow
  pub ssh_keys : List SshKeyRow
  pub faults : List (Option Thrown)
  pub remote : S

abbrev pub M : Type 0 → Type 0 → Type 0
M S A = World S → Res A × World S

abbrev pub pure : {S A : Type 0} → A → M S A
pure a w = (ok a, w)

abbrev pub throw : {S A : Type 0} → Thrown → M S A
throw e w = (thrown e, w)

infixl 5 ◌>>=◌ ◌>>◌
abbrev pub ◌>>=◌ : {S A B : Type 0} → M S A → (A → M S B) → M S B
◌>>=◌ m k w = let (r, w') = m w in elim r [ ok a ↦ k a w' | thrown e ↦ (thrown e, w') ]

abbrev pub ◌>>◌ : {S B : Type 0} → M S (Unit {0}) → M S B → M S B
m >> k = m >>= λ _. k

-- `try { m } catch (e) { h(e) }`
abbrev pub try_catch : {S A : Type 0} → M S A → (Thrown → M S A) → M S A
try_catch m h w = let (r, w') = m w in elim r [ ok a ↦ (ok a, w') | thrown e ↦ h e w' ]

abbrev pub next_fault : List (Option Thrown) → Option Thrown
next_fault [] = none
next_fault (f ∷ _) = f

abbrev pub later_faults : List (Option Thrown) → List (Option Thrown)
later_faults [] = []
later_faults (_ ∷ fs) = fs

-- `db.query`: the statement is executed, or an error is thrown and it has no effect.
unfoldable pub query : {S A : Type 0} → M S A → M S A
query statement w =
    let w' = record w { faults = later_faults w.faults } in
    elim (next_fault w.faults) [ none ↦ statement w' | some e ↦ (thrown e, w') ]

-- A response with its status and its JSON body, `{ error }` or the payload.
pub data Body (A : Type 0) : Type 0 where
  error : String → Body A
  payload : A → Body A

pub record Response (A : Type 0) : Type 0 where
  pub status : ℕ
  pub body : Body A

abbrev pub fail : {A : Type 0} → ℕ → String → Response A
fail status message = record { status = status; body = error message }

abbrev pub reply : {A : Type 0} → ℕ → A → Response A
reply status a = record { status = status; body = payload a }

-- an error of Postgres: a unique index is violated
abbrev pub unique_violation : Thrown
unique_violation = record { code = some "23505"; message = "duplicate key value" }

-- `(err as { code?: string }).code === "23505"`
abbrev pub is_duplicate : Thrown → Bool
is_duplicate e = elim e.code [ none ↦ false | some c ↦ str_eq c "23505" ]

-- What `fetch` gives: it rejects, or answers with a status and a body.
pub data Fetched : Type 0 where
  rejected : Thrown → Fetched
  answered : ℕ → String → Fetched

-- `res.ok`
abbrev pub is_ok_status : ℕ → Bool
is_ok_status status = leb 200 status && ltb status 300
