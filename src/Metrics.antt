-- ===== src/Metrics.antt =====
-- src/observability/metrics.ts: the counters of the process, as association lists in the order of
-- insertion. Durations are whole milliseconds; the time and the payload of an alert are left out.
pub mod Ceilings
mod Tests
use ecommerce_rest_api.Base.{
  ℕ, suc, zero, String, ◌+◌, ◌-◌, ◌*◌, ◌/◌, ◌%◌, Bool, true, false, ◌&&◌, ◌||◌, Option, none, some,
  List, [], ◌∷◌, ◌++◌, if◌then◌else◌, ltb, leb, ◌==◌, any, max, str_eq, get_or, length,
}
use Prim.Native.String as Text

pub record LatencyStats : Type 0 where
  pub count : ℕ
  pub total_ms : ℕ
  pub max_ms : ℕ

pub record Alert : Type 0 where
  pub kind : String
  pub severity : String

pub record Metrics : Type 0 where
  pub requests : List (String × ℕ)
  pub errors : List (String × ℕ)
  pub latency : List (String × LatencyStats)
  pub queue_lag : List (String × ℕ)
  pub alerts : List Alert

unfoldable pub no_metrics : Metrics
no_metrics = record { requests = []; errors = []; latency = []; queue_lag = []; alerts = [] }

abbrev pub max_series : ℕ
max_series = 2000

abbrev pub max_alerts : ℕ
max_alerts = 500

module _ {V : Type 0} where
  abbrev pub has_key : String → List (String × V) → Bool
  has_key key [] = false
  has_key key ((k, v) ∷ series) = str_eq k key || has_key key series

  -- `series[key] = f(series[key])`, where a missing key has `d`.
  abbrev pub update : String → V → (V → V) → List (String × V) → List (String × V)
  update key d f [] = (key, f d) ∷ []
  update key d f ((k, v) ∷ series) =
      let rest = update key d f series in if str_eq k key then (k, f v) ∷ series else (k, v) ∷ rest

abbrev known_methods : List String
known_methods = "GET" ∷ "HEAD" ∷ "POST" ∷ "PUT" ∷ "PATCH" ∷ "DELETE" ∷ "OPTIONS" ∷ []

abbrev digit : ℕ → String
digit n =
    if n == 0
    then "0"
    else if n == 1
    then "1"
    else if n == 2
    then "2"
    else if n == 3
    then "3"
    else if n == 4
    then "4"
    else if n == 5
    then "5"
    else if n == 6
    then "6"
    else if n == 7
    then "7"
    else if n == 8
    then "8"
    else "9"

infixr 65 ◌<>◌
abbrev ◌<>◌ : String → String → String
a <> b = Text.◌++◌ a b

-- A status outside 100 to 599 counts as 0.
abbrev status_text : ℕ → String
status_text status =
    if leb 100 status && leb status 599
    then digit (status / 100) <> digit (status / 10 % 10) <> digit (status % 10)
    else "0"

abbrev template_of : Option String → String
template_of none = "unmatched"
template_of (some path) = path

-- The path of the matched route, if there is one.
unfoldable pub key_for : String → Option String → ℕ → String
key_for method route status =
    let label = if any (str_eq method) known_methods then method else "OTHER" in
    label <> " " <> template_of route <> " " <> status_text status

abbrev pub overflow : String
overflow = "OTHER overflow 0"

abbrev pub bounded_key : String → Metrics → String
bounded_key key m =
    if has_key key m.requests || ltb (length m.requests) max_series then key else overflow

abbrev pub no_latency : LatencyStats
no_latency = record { count = 0; total_ms = 0; max_ms = 0 }

abbrev pub timed : ℕ → LatencyStats → LatencyStats
timed duration_ms stats = record {
  count = stats.count + 1;
  total_ms = stats.total_ms + duration_ms;
  max_ms = max stats.max_ms duration_ms;
}

abbrev pub recorded : String → ℕ → ℕ → Metrics → Metrics
recorded key status duration_ms m = record m {
  requests = update key 0 (λ n. n + 1) m.requests;
  latency = update key no_latency (timed duration_ms) m.latency;
  errors = if leb 500 status then update key 0 (λ n. n + 1) m.errors else m.errors;
}

unfoldable pub record_request : String → Option String → ℕ → ℕ → Metrics → Metrics
unfolding key_for
record_request method route status duration_ms m =
    recorded (bounded_key (key_for method route status) m) status duration_ms m

unfoldable pub record_queue_lag : String → ℕ → Metrics → Metrics
record_queue_lag queue lag_ms m = record m { queue_lag = update queue 0 (λ n. lag_ms) m.queue_lag }

abbrev pub skip : {A : Type 0} → ℕ → List A → List A
skip zero xs = xs
skip (suc n) [] = []
skip (suc n) (x ∷ xs) = skip n xs

unfoldable pub emit_alert : String → String → Metrics → Metrics
emit_alert kind severity m =
    let alerts = m.alerts ++ (record { kind = kind; severity = severity }) ∷ [] in
    record m {
      alerts =
          if ltb max_alerts (length alerts)
          then skip (length alerts - max_alerts) alerts
          else alerts;
    }
