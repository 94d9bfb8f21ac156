-- ===== src/Activity/Metrics.antt =====
-- frontend/app/api/instances/[id]/metrics/route.ts: the samples of an instance, page by page.
-- `average` is `avg(…)::int` of the database, and `recent` its test for the last hour.
use foxplay_game.Common.{
  ℕ, ◌≤◌, ◌<◌, IsOrderDesc, String, Bool, true, not, ◌≡◌, refl, ◌⊎◌, inl, inr, arith, List, map,
  Option, none, some, str_eq, select, length, Option-cases, if◌then◌else◌,
}
use foxplay_game.Models.{is_instance_id}
use foxplay_game.Server.{
  World, Thrown, Res, ok, thrown, M, pure, ◌>>=◌, try_catch, next_fault, later_faults, Response,
  fail, reply,
}
use foxplay_game.Activity.Paging.{JsNumber, limit_of, offset_of, bound, page, rows_of}
use foxplay_game.Activity.{bad_number}
use foxplay_game.Activity.Pages.{IsPage, page-IsPage, limit_of-bound}

pub record Sample : Type 0 where
  pub cpu_pct : ℕ
  pub mem_rss_kb : ℕ
  pub created_at : ℕ

pub record MetricRow : Type 0 where
  pub instance_id : String
  pub sample : Sample

pub record Metrics : Type 0 where
  pub samples : List Sample
  pub total : ℕ
  pub avg_cpu : Option ℕ
  pub avg_mem : Option ℕ

abbrev pub sampled_at : MetricRow → ℕ
sampled_at r = r.sample.created_at

abbrev pub instance_rows : String → List MetricRow → List MetricRow
instance_rows id = select (λ r. str_eq r.instance_id id)

-- the first statement, with its parameters bound
abbrev pub sample_page :
    (List MetricRow → List MetricRow)
    → String
    → List MetricRow
    → Option ℕ
    → Option ℕ
    → Res (List Sample)
sample_page order id rows (some limit) (some offset) =
    ok (map (λ r. r.sample) (page limit offset (rows_of (λ r. r.instance_id) order id rows)))
sample_page order id rows (some limit) none = thrown bad_number
sample_page order id rows none offset = thrown bad_number

-- `Promise.all` of three statements: all are sent, and the first error is thrown.
abbrev pub first_fault : List (Option Thrown) → Option Thrown
first_fault faults = elim (next_fault faults) [
  | some e ↦ some e
  | none ↦ elim (next_fault (later_faults faults)) [
    | some e ↦ some e
    | none ↦ next_fault (later_faults (later_faults faults))
  ]
]

module _ (average : List ℕ → Option ℕ) (recent : ℕ → Bool) (metrics : List MetricRow) where
  abbrev pub last_hour : String → List MetricRow
  last_hour id = select (λ r. recent (sampled_at r)) (instance_rows id metrics)

  abbrev pub metrics_of : String → List Sample → Metrics
  metrics_of id samples = record {
    samples = samples;
    total = length (instance_rows id metrics);
    avg_cpu = average (map (λ r. r.sample.cpu_pct) (last_hour id));
    avg_mem = average (map (λ r. r.sample.mem_rss_kb) (last_hour id));
  }

  -- What a response tells of an instance, beside the samples of the page.
  pub record IsAbout (id : String) (rows : List MetricRow) (d : Metrics) : Type 0 where
    pub samples : d.samples ≡ map (λ v. v.sample) rows
    pub total : d.total ≡ length (select (λ v. str_eq v.instance_id id) metrics)
    pub avg_cpu :
        d.avg_cpu
        ≡ average (
            map
              (λ v. v.sample.cpu_pct)
              (select
                (λ v. recent v.sample.created_at)
                (select (λ v. str_eq v.instance_id id) metrics)))
    pub avg_mem :
        d.avg_mem
        ≡ average (
            map
              (λ v. v.sample.mem_rss_kb)
              (select
                (λ v. recent v.sample.created_at)
                (select (λ v. str_eq v.instance_id id) metrics)))

module _ {S : Type 0} (number : String → JsNumber) (order : List MetricRow → List MetricRow)
    (average : List ℕ → Option ℕ) (recent : ℕ → Bool) (metrics : List MetricRow) where
  -- the three statements
  unfoldable pub read_metrics : String → JsNumber → JsNumber → M S Metrics
  unfolding rows_of bound
  read_metrics id limit offset w =
      let w' = record w { faults = later_faults (later_faults (later_faults w.faults)) } in
      elim (first_fault w.faults) [
        | some e ↦ (thrown e, w')
        | none ↦ elim (sample_page order id metrics (bound limit) (bound offset)) [
          | thrown e ↦ (thrown e, w')
          | ok samples ↦ (ok (metrics_of average recent metrics id samples), w')
        ]
      ]

  unfoldable pub list_metrics : String → Option String → Option String → M S (Response Metrics)
  unfolding read_metrics limit_of offset_of
  list_metrics id limit offset =
      if not (is_instance_id id)
      then pure (fail 404 "not found")
      else try_catch
          (read_metrics id (limit_of number 10 200 limit) (offset_of number offset) >>= λ m.
            pure (reply 200 m))
          (λ _. pure (fail 500 "query failed"))

  -- Where the database sorts as `ORDER BY` asks: whatever `limit` and `offset` are, the metrics of a
  -- well-formed id are answered with 500; or with 200, where they are numbers that the database takes,
  -- the limit 1 to 200, and the samples of the response are that part of all samples of the instance,
  -- the newest first, which they describe, beside the number of all of its samples and the averages of
  -- the last hour.
  pub list_metrics-IsPage :
      (id : String) (limit offset : Option String) (w : World S)
      → IsOrderDesc sampled_at order
      → is_instance_id id ≡ true
      → let r = (list_metrics id limit offset w).0 in
        (r ≡ ok (fail 500 "query failed"))
        ⊎ ((n m : ℕ) × (bound (limit_of number 10 200 limit) ≡ some n)
            × (bound (offset_of number offset) ≡ some m)
            × (0 < n)
            × (n ≤ 200)
            × (rows : List MetricRow) × (d : Metrics) × (r ≡ ok (reply 200 d))
            × IsAbout average recent metrics id rows d
            × IsPage (λ v. v.instance_id) sampled_at id n m metrics rows)
  unfolding list_metrics read_metrics
  list_metrics-IsPage id limit offset w law h = elim (Option-cases (first_fault w.faults)) [
    | inr (f, e) ↦ inl (ground arith)
    | inl calm ↦ elim (Option-cases (bound (limit_of number 10 200 limit))) [
      | inl e ↦ inl (ground arith)
      | inr (n, e) ↦ elim (Option-cases (bound (offset_of number offset))) [
        | inl f ↦ inl (ground arith)
        | inr (m, f) ↦
            let (large, small) =
              limit_of-bound number 10 200 n limit (omega arith) (omega arith) e in
            inr (
              n,
              m,
              e,
              f,
              large,
              small,
              page n m (rows_of (λ r. r.instance_id) order id metrics),
              metrics_of average recent metrics id
                  (map (λ r. r.sample) (page n m (rows_of (λ r. r.instance_id) order id metrics))),
              ground arith,
              record { samples = refl; total = refl; avg_cpu = refl; avg_mem = refl },
              page-IsPage (λ r. r.instance_id) sampled_at order id n m metrics law,
            )
      ]
    ]
  ]
