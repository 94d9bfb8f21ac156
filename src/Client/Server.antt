-- ===== src/Client/Server.antt =====
-- frontend/features/servers/components/InstanceDetailClient.tsx: a server's page, its buttons and its
-- details. A request that is sent stays outstanding until its answer arrives; `shown` is the server as
-- it was last fetched.
pub mod Busy
use foxplay_game.Common.{
  ℕ, suc, ◌+◌, ◌/◌, String, Bool, true, false, not, ◌||◌, List, [], ◌∷◌, ◌++◌, map, Option, none,
  some, str_eq, template, show, ◌==◌, if◌then◌else◌,
}
use foxplay_game.Instances.{InstanceDetail}
use foxplay_game.Activity.Metrics.{Metrics, Sample}
use foxplay_game.Server.{Res, ok, thrown}
use foxplay_game.Client.Requests.{Query, is_pending, data_or}
use foxplay_game.Client.Runs.{to_fixed_1, total_pages, or_missing}
use foxplay_game.Client.Toasts.{Toast, success_toast, error_toast}

pub data Kind : Type 0 where
  start stop delete : Kind

abbrev pub kind_text : Kind → String
kind_text start = "start"
kind_text stop = "stop"
kind_text delete = "delete"

-- the message of a success
abbrev pub ok_message : Kind → String → String
ok_message start name = template (name ∷ " starting" ∷ [])
ok_message stop name = template (name ∷ " stopping" ∷ [])
ok_message delete name = template (name ∷ " deleted" ∷ [])

-- the state of the page, with the requests that are outstanding and, of those that were sent, the
-- state that the server showed
pub record ServerPage : Type 0 where
  pub shown : InstanceDetail
  pub busy : Option Kind
  pub outstanding : List Kind
  pub sent : List (Kind × String)
  pub toasts : List Toast
  pub location : Option String
  pub refetches : ℕ

abbrev is_some : {A : Type 0} → Option A → Bool
is_some none = false
is_some (some a) = true

-- `disabled` of the three buttons
unfoldable pub disabled : Kind → ServerPage → Bool
disabled start p = is_some p.busy || str_eq p.shown.state "running"
disabled stop p = is_some p.busy || not (str_eq p.shown.state "running")
disabled delete p = is_some p.busy

-- `act`, up to the first `await`
abbrev pub begin : Kind → ServerPage → ServerPage
begin k p = record p {
  busy = some k;
  outstanding = k ∷ p.outstanding;
  sent = (k, p.shown.state) ∷ p.sent;
}

abbrev pub confirm_for : Kind → Bool → Bool
confirm_for delete confirmed = confirmed
confirm_for start confirmed = true
confirm_for stop confirmed = true

-- a click, with the answer that `window.confirm` would give
unfoldable pub click : Kind → Bool → ServerPage → ServerPage
unfolding disabled
click k confirmed p = if disabled k p then p else if confirm_for k confirmed then begin k p else p

abbrev pub same_kind : Kind → Kind → Bool
same_kind start start = true
same_kind start stop = false
same_kind start delete = false
same_kind stop start = false
same_kind stop stop = true
same_kind stop delete = false
same_kind delete start = false
same_kind delete stop = false
same_kind delete delete = true

abbrev pub without : Kind → List Kind → List Kind
without k [] = []
without k (j ∷ rest) = if same_kind j k then rest else j ∷ without k rest

abbrev pub after_success : Kind → ServerPage → ServerPage
after_success delete p = record p { location = some "/servers" }
after_success start p = record p { refetches = suc p.refetches }
after_success stop p = record p { refetches = suc p.refetches }

abbrev pub with_toast : Toast → ServerPage → ServerPage
with_toast t p = record p { toasts = p.toasts ++ (t ∷ []) }

-- `act`, from the answer on
abbrev pub settled : Kind → Res String → ServerPage → ServerPage
settled k (ok text) p =
    after_success k (with_toast (success_toast (ok_message k p.shown.name) none) p)
settled k (thrown e) p =
    with_toast (error_toast (template (kind_text k ∷ " failed" ∷ [])) (some e.message)) p

unfoldable pub settle : Kind → Res String → ServerPage → ServerPage
settle k r p =
    let q = settled k r p in record q { busy = none; outstanding = without k q.outstanding }

-- a row of the table of samples
pub record SampleRow : Type 0 where
  pub time : String
  pub cpu : String
  pub memory : String

abbrev pub in_mb : ℕ → String
in_mb kb = template (to_fixed_1 kb 1024 ∷ " MB" ∷ [])

-- what is rendered: a message, or the rows of the details, the table, the text in place of an empty
-- table, and the number of pages
pub data ServerView : Type 0 where
  notice : String → ServerView
  server : List (String × String) → List SampleRow → String → ℕ → ServerView

abbrev members : {A B : Type 0} → (A → Option B) → Option A → Option B
members f none = none
members f (some a) = f a

-- a port that is not 0
abbrev port_text : String → ℕ → String
port_text host port =
    if port == 0 then "—" else template ("ssh root@" ∷ host ∷ " -p " ∷ show port ∷ [])

module _ (fmt_time : ℕ → String) (host : String) where
  unfoldable pub server_rows : InstanceDetail → Option Metrics → List (String × String)
  unfolding to_fixed_1 show
  server_rows inst metrics =
      ("State", inst.state)
      ∷ ("Base image", inst.base_image)
      ∷ ("Resources", template (show inst.vcpu ∷ " vCPU · " ∷ show inst.mem_mib ∷ " MB" ∷ []))
      ∷ ("Private IP", or_missing "—" (λ ip. ip) inst.guest_ip)
      ∷ ("SSH", or_missing "—" (port_text host) inst.ssh_host_port)
      ∷ (
        "CPU (avg last hour)",
        or_missing "—" (λ n. template (show n ∷ "% of a core" ∷ []))
            (members (λ m. m.avg_cpu) metrics),
      )
      ∷ ("Memory (avg last hour)", or_missing "—" in_mb (members (λ m. m.avg_mem) metrics))
      ∷ ("Created", fmt_time inst.created_at)
      ∷ []

  unfoldable pub sample_row : Sample → SampleRow
  unfolding to_fixed_1 show
  sample_row s = record {
    time = fmt_time s.created_at;
    cpu = template (show s.cpu_pct ∷ "%" ∷ []);
    memory = in_mb s.mem_rss_kb;
  }

  abbrev samples_of : Option Metrics → List Sample
  samples_of none = []
  samples_of (some m) = m.samples

  abbrev total_of : Option Metrics → ℕ
  total_of none = 0
  total_of (some m) = m.total

  abbrev is_running : InstanceDetail → Bool
  is_running inst = str_eq inst.state "running"

  abbrev pub server_of : Option InstanceDetail → Option Metrics → ServerView
  server_of none metrics = notice "Server not found."
  server_of (some inst) metrics =
      server (server_rows inst metrics) (map sample_row (samples_of metrics))
        (if is_running inst then "Waiting for the first sample…" else "No samples.")
        (total_pages (total_of metrics))

  -- `metrics` is what the query of the samples has, if anything
  unfoldable pub server_view : Query (Option InstanceDetail) → Option Metrics → ServerView
  unfolding server_rows sample_row total_pages
  server_view detail metrics =
      if is_pending detail then notice "Loading…" else server_of (data_or none detail) metrics
