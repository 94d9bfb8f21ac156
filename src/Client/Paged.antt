-- ===== src/Client/Paged.antt =====
-- The pages that FunctionDetails.tsx asks for, against the route that answers them.
use mathlib.Core.List.{map-append}
use foxplay_game.Common.{
  ℕ, zero, suc, ◌+◌, ◌*◌, ◌^◌, ◌<◌, ◌≤◌, String, true, ◌≡◌, refl, sym, ap, ◌∙◌, arith, List, [],
  ◌∷◌, ◌++◌, map, Option, none, some, take, drop, length, show, IsOrderDesc, AreDistinct,
  sorted_unique, length_permuted,
}
use foxplay_game.Models.{is_function_id}
use foxplay_game.Server.{
  World, Res, ok, thrown, reply, Body, error, payload, Response, next_fault, query,
}
use foxplay_game.Activity.Paging.{JsNumber, whole, limit_of, offset_of, bound, page, rows_of}
use foxplay_game.Activity.{InvocationItem, InvocationRow, time_of, runs_of, list_invocations}
use foxplay_game.Activity.Detail.{totals_of, own_runs}
use foxplay_game.Client.Requests.{Reply, lost, got}
use foxplay_game.Client.Runs.{page_size, fetch_invocations, total_pages}

module _ {ℓ} {A : Type ℓ} where
  take-nil : (n : ℕ) → take {A = A} n [] ≡ []
  take-nil zero = refl
  take-nil (suc n) = refl

  take-add : (m n k : ℕ) (xs : List A) → k ≡ m + n → take m xs ++ take n (drop m xs) ≡ take k xs
  take-add zero n k xs e = let same : k ≡ n = omega (arith, e) in rw same
  take-add (suc m) n zero xs e = absurd (omega (arith, e))
  take-add (suc m) n (suc k) [] e = take-nil n
  take-add (suc m) n (suc k) (x ∷ xs) e = ap (λ ys. x ∷ ys) (take-add m n k xs (omega (arith, e)))

  take_all : (n : ℕ) (xs : List A) → length xs ≤ n → take n xs ≡ xs
  take_all zero [] h = refl
  take_all zero (x ∷ xs) h = absurd (omega (arith, h))
  take_all (suc n) [] h = refl
  take_all (suc n) (x ∷ xs) h = ap (λ ys. x ∷ ys) (take_all n xs (omega (arith, h)))

-- the pages below a number, one behind the other
abbrev pub pages_below : {A : Type 0} → (ℕ → List A) → ℕ → List A
pages_below shown zero = []
pages_below shown (suc n) = pages_below shown n ++ shown n

pages_below-take :
    {A B : Type 0} (f : A → B) (xs : List A) (n : ℕ)
    → pages_below (λ p. map f (take 10 (drop (p * 10) xs))) n ≡ map f (take (n * 10) xs)
pages_below-take f xs zero = refl
pages_below-take f xs (suc n) = rw (pages_below-take f xs n) (
    sym (map-append f (take (n * 10) xs) (take 10 (drop (n * 10) xs)))
    ∙ ap (map f) (take-add (n * 10) 10 (suc n * 10) xs (omega arith)))

pages_below-cong :
    {A : Type 0} (f g : ℕ → List A) (n : ℕ)
    → ((p : ℕ) → p < n → f p ≡ g p)
    → pages_below f n ≡ pages_below g n
pages_below-cong f g zero h = refl
pages_below-cong f g (suc n) h =
    rw (h n (omega arith), pages_below-cong f g n (λ p k. h p (omega (arith, k))))

-- The number of pages holds all the rows, and no page begins far behind them.
total_pages_bounds : (n : ℕ) → (n ≤ total_pages n * 10) × ((p : ℕ) → p < total_pages n → p * 10 ≤ n)
unfolding total_pages
total_pages_bounds n = (ground arith, λ p h. ground arith)

-- The answer as the browser has it.
abbrev rows_in : Body (List InvocationItem) → Option (List InvocationItem)
rows_in (error message) = none
rows_in (payload rows) = some rows

abbrev pub reply_of : Res (Response (List InvocationItem)) → Reply (Option (List InvocationItem))
reply_of (thrown e) = lost e
reply_of (ok r) = got r.status (some (rows_in r.body))

abbrev pub rows_or_none : Res (List InvocationItem) → List InvocationItem
rows_or_none (ok rows) = rows
rows_or_none (thrown e) = []

limit-ten :
    (number : String → JsNumber) (text : String)
    → number text ≡ whole 10
    → bound (limit_of number 50 500 (some text)) ≡ some 10
unfolding bound limit_of
limit-ten number text e = rw e refl

offset-whole :
    (number : String → JsNumber) (text : String) (n : ℕ)
    → number text ≡ whole n
    → n < 2 ^ 63
    → bound (offset_of number (some text)) ≡ some n
unfolding bound offset_of
offset-whole number text n e h = rw e (ground arith)

module _ {S : Type 0} (number : String → JsNumber)
    (order : ℕ → List InvocationRow → List InvocationRow) (invocations : List InvocationRow)
    (id : String) (w : World S) where
  -- the rows of a page, as the page and the route together give them; `order p` is the order in which
  -- the database answers the statement for the page `p`
  abbrev pub shown : ℕ → Res (List InvocationItem)
  shown p = fetch_invocations (
      reply_of
        (list_invocations number (order p) invocations id (some (show page_size))
          (some (show (p * page_size))) w).0)

  server-page :
      (p : ℕ) (limit offset : String) (n m : ℕ)
      → is_function_id id ≡ true
      → next_fault w.faults ≡ none
      → bound (limit_of number 50 500 (some limit)) ≡ some n
      → bound (offset_of number (some offset)) ≡ some m
      → (list_invocations number (order p) invocations id (some limit) (some offset) w).0
        ≡ ok (reply 200 (map (λ r. r.item) (page n m (runs_of (order p) id invocations))))
  unfolding list_invocations query
  server-page p limit offset n m h calm e f = ground arith

  shown-page :
      (p : ℕ)
      → is_function_id id ≡ true
      → next_fault w.faults ≡ none
      → number (show 10) ≡ whole 10
      → number (show (p * 10)) ≡ whole (p * 10)
      → p * 10 < 2 ^ 63
      → shown p ≡ ok (map (λ r. r.item) (page 10 (p * 10) (runs_of (order p) id invocations)))
  unfolding fetch_invocations
  shown-page p h calm ten start fits =
      rw
        (server-page p (show 10) (show (p * 10)) 10 (p * 10) h calm (limit-ten number (show 10) ten)
          (offset-whole number (show (p * 10)) (p * 10) start fits))
        refl

  -- Whatever order sorts the runs, it is one order where no two runs have one time.
  runs_of_unique :
      (f g : List InvocationRow → List InvocationRow)
      → IsOrderDesc time_of f
      → IsOrderDesc time_of g
      → AreDistinct time_of (own_runs id invocations)
      → runs_of f id invocations ≡ runs_of g id invocations
  unfolding rows_of
  runs_of_unique f g a b apart =
      let own = own_runs id invocations in
      sorted_unique time_of own (f own) (g own) apart (a.same own) (b.same own) (a.sorted own)
        (b.sorted own)

  length-runs_of :
      (f : List InvocationRow → List InvocationRow)
      → IsOrderDesc time_of f
      → length (runs_of f id invocations) ≡ length (own_runs id invocations)
  unfolding rows_of
  length-runs_of f a = length_permuted (a.same (own_runs id invocations))

  -- Where no statement fails, the id is well-formed, no two runs of the function were logged at one time,
  -- the database sorts each page's statement as `ORDER BY` asks, `Number` reads the digits of the limit
  -- and the offsets back, and there are fewer than 2 ^ 62 runs: the pages that the table asks for, from
  -- the first to the last of as many as the detail's number of runs makes, are together all of the
  -- function's runs, each once, the newest first, in whatever way one statement would sort them.
  pub pages_below-runs :
      (one : List InvocationRow → List InvocationRow)
      → IsOrderDesc time_of one
      → ((p : ℕ) → IsOrderDesc time_of (order p))
      → AreDistinct time_of (own_runs id invocations)
      → is_function_id id ≡ true
      → next_fault w.faults ≡ none
      → number (show 10) ≡ whole 10
      → ((p : ℕ)
          → p < total_pages (totals_of id invocations).runs
          → number (show (p * 10)) ≡ whole (p * 10))
      → (totals_of id invocations).runs < 2 ^ 62
      → pages_below (λ p. rows_or_none (shown p)) (total_pages (totals_of id invocations).runs)
        ≡ map (λ r. r.item) (runs_of one id invocations)
  unfolding totals_of
  pages_below-runs one law laws apart h calm ten starts few =
      let runs = length (own_runs id invocations) in
      let all = runs_of one id invocations in
      let bounds = total_pages_bounds runs in
      pages_below-cong _ (λ p. map (λ r. r.item) (take 10 (drop (p * 10) all))) (total_pages runs)
        (λ p k.
          let near = bounds.1 p k in
          ap rows_or_none (shown-page p h calm ten (starts p k) (omega (arith, near, few)))
          ∙ ap (λ l. map (λ r. r.item) (page 10 (p * 10) l))
              (runs_of_unique (order p) one (laws p) law apart))
      ∙ pages_below-take (λ r. r.item) all (total_pages runs)
      ∙ ap (map (λ r. r.item))
          (take_all (total_pages runs * 10) all (omega (arith, bounds.0, length-runs_of one law)))
