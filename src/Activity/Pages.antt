-- ===== src/Activity/Pages.antt =====
-- What a page of invocations holds.
use foxplay_game.Common.{
  ℕ, zero, suc, ◌-◌, ◌≤◌, ◌<◌, String, true, ◌≡◌, ap, ◌∙◌, ◌⊎◌, inl, inr, arith, List, [], ◌∷◌,
  ◌++◌, Option, some, take, drop, length, select, str_eq, IsSortedDesc, Reordered, IsOrderDesc,
  take-append-drop, Option-cases, map,
}
use Prim.Native.Nat.{min}
use foxplay_game.Models.{is_function_id}
use foxplay_game.Server.{World, ok, fail, reply, query, next_fault}
use foxplay_game.Activity.Paging.{
  JsNumber, nan, infinite, finite, limit_of, offset_of, bound, page, rows_of, positive_or, at_most,
  parameter,
}
use foxplay_game.Activity.{InvocationRow, time_of, runs_of, list_invocations}

-- The bound that a route sets on `limit` holds whatever the parameter is, and it is never 0.
pub limit_of-bound :
    (number : String → JsNumber) (default most n : ℕ) (text : Option String)
    → 0 < default
    → default ≤ most
    → bound (limit_of number default most text) ≡ some n
    → (0 < n) × (n ≤ most)
unfolding limit_of bound
limit_of-bound number default most n text some_rows fits h =
    clamped (parameter number default text) h
  where
    clamped :
        (x : JsNumber)
        → bound (at_most most (positive_or default x)) ≡ some n
        → (0 < n) × (n ≤ most)
    clamped nan e = ground arith
    clamped (infinite b) e = ground arith
    clamped (finite negative m fraction) e = ground arith

module _ {A : Type 0} where
  length-take : (n : ℕ) (xs : List A) → length (take n xs) ≡ min n (length xs)
  length-take zero xs = omega arith
  length-take (suc n) [] = omega arith
  length-take (suc n) (x ∷ xs) = omega (arith, length-take n xs)

  length-drop : (n : ℕ) (xs : List A) → length (drop n xs) ≡ length xs - n
  length-drop zero xs = omega arith
  length-drop (suc n) [] = omega arith
  length-drop (suc n) (x ∷ xs) = omega (arith, length-drop n xs)

  -- The part of a list behind the first `m` elements that holds `n` elements at most.
  pub record IsCut (n m : ℕ) (rows whole : List A) : Type 0 where
    pub before : List A
    pub after : List A
    pub parts : before ++ (rows ++ after) ≡ whole
    pub start : length before ≡ min m (length whole)
    pub size : length rows ≡ min n (length whole - m)

  page-IsCut : (n m : ℕ) (whole : List A) → IsCut n m (page n m whole) whole
  page-IsCut n m whole = record {
    before = take m whole;
    after = drop n (drop m whole);
    parts =
        ap (λ l. take m whole ++ l) (take-append-drop n (drop m whole)) ∙ take-append-drop m whole;
    start = length-take m whole;
    size = length-take n (drop m whole) ∙ ap (min n) (length-drop m whole);
  }

module _ {A : Type 0} (owner : A → String) (key : A → ℕ) where
  -- A page of the table, for a limit and an offset: all rows of one owner, the newest first, make one
  -- list, of which the page is a part.
  pub record IsPage (id : String) (limit offset : ℕ) (table rows : List A) : Type 0 where
    pub whole : List A
    pub own : Reordered whole (select (λ r. str_eq (owner r) id) table)
    pub newest_first : IsSortedDesc key whole
    pub cut : IsCut limit offset rows whole

  pub page-IsPage :
      (order : List A → List A) (id : String) (limit offset : ℕ) (table : List A)
      → IsOrderDesc key order
      → IsPage id limit offset table (page limit offset (rows_of owner order id table))
  unfolding rows_of
  page-IsPage order id limit offset table law =
      let own = select (λ r. str_eq (owner r) id) table in
      record {
        whole = order own;
        own = law.same own;
        newest_first = law.sorted own;
        cut = page-IsCut limit offset (order own);
      }

module _ {S : Type 0} (number : String → JsNumber) (order : List InvocationRow → List InvocationRow)
    (invocations : List InvocationRow) where
  -- Where the database sorts as `ORDER BY` asks: whatever `limit` and `offset` are, the listing of a
  -- well-formed id answers with 500; or with 200, where they are numbers that the database takes, the
  -- limit 1 to 500, and the response is that part of all invocations of the function, the newest first,
  -- which they describe.
  pub list_invocations-IsPage :
      (id : String) (limit offset : Option String) (w : World S)
      → IsOrderDesc time_of order
      → is_function_id id ≡ true
      → let r = (list_invocations number order invocations id limit offset w).0 in
        (r ≡ ok (fail 500 "query failed"))
        ⊎ ((n m : ℕ) × (bound (limit_of number 50 500 limit) ≡ some n)
            × (bound (offset_of number offset) ≡ some m)
            × (0 < n)
            × (n ≤ 500)
            × (rows : List InvocationRow) × (r ≡ ok (reply 200 (map (λ v. v.item) rows)))
            × IsPage (λ r. r.function_id) time_of id n m invocations rows)
  unfolding list_invocations query
  list_invocations-IsPage id limit offset w law h = elim (Option-cases (next_fault w.faults)) [
    | inr (f, e) ↦ inl (ground arith)
    | inl calm ↦ elim (Option-cases (bound (limit_of number 50 500 limit))) [
      | inl e ↦ inl (ground arith)
      | inr (n, e) ↦ elim (Option-cases (bound (offset_of number offset))) [
        | inl f ↦ inl (ground arith)
        | inr (m, f) ↦
            let (large, small) =
              limit_of-bound number 50 500 n limit (omega arith) (omega arith) e in
            inr (
              n,
              m,
              e,
              f,
              large,
              small,
              page n m (runs_of order id invocations),
              ground arith,
              page-IsPage (λ r. r.function_id) time_of order id n m invocations law,
            )
      ]
    ]
  ]
