-- ===== src/Metrics/Ceilings.antt =====
-- The metrics stay bounded however long the process runs.
use ecommerce_rest_api.Base.{
  ℕ, suc, zero, String, ◌+◌, ◌-◌, ◌≤◌, ◌≡◌, true, ◌||◌, Option, List, [], ◌∷◌, ◌++◌, if◌then◌else◌,
  ltb, str_eq, str_eq_iff, str_eq_refl, length, refl, sym, ap, ◌∙◌, arith, Bool-cases, inl, inr,
}
use ecommerce_rest_api.Metrics.{
  Alert, Metrics, no_metrics, max_series, max_alerts, has_key, update, bounded_key, no_latency,
  timed, recorded, record_request, record_queue_lag, skip, emit_alert, key_for, overflow,
}

module _ {V : Type 0} (key : String) (d : V) (f : V → V) where
  length-update :
      (series : List (String × V))
      → length (update key d f series) ≡ length series + (if has_key key series then 0 else 1)
  length-update [] = refl
  length-update ((k, v) ∷ series) = ground (arith, length-update series)

  has_key-update :
      (other : String) (series : List (String × V))
      → has_key other (update key d f series) ≡ (str_eq key other || has_key other series)
  has_key-update other [] = ground arith
  has_key-update other ((k, v) ∷ series) =
      let ih = has_key-update other series in
      elim (Bool-cases (str_eq k key)) [
        | inl hit ↦
            let same : str_eq k other ≡ str_eq key other =
              ap (λ x. str_eq x other) ((str_eq_iff k key).0 hit) in
            ground (arith, hit, same)
        | inr miss ↦ ground (arith, miss, ih)
      ]

length-skip : {A : Type 0} (n : ℕ) (xs : List A) → length (skip n xs) ≡ length xs - n
length-skip zero xs = omega arith
length-skip (suc n) [] = omega arith
length-skip (suc n) (x ∷ xs) = omega (arith, length-skip n xs)

length-concat : {A : Type 0} (xs : List A) (x : A) → length (xs ++ x ∷ []) ≡ suc (length xs)
length-concat [] x = refl
length-concat (y ∷ xs) x = omega (arith, length-concat xs x)

-- At most `max_series` series and the overflow series, a latency for each, and `max_alerts` alerts.
pub record IsBounded (m : Metrics) : Type 0 where
  pub series : length m.requests ≤ max_series + (if has_key overflow m.requests then 1 else 0)
  pub same_keys : (key : String) → has_key key m.latency ≡ has_key key m.requests
  pub same_number : length m.latency ≡ length m.requests
  pub alerts : length m.alerts ≤ max_alerts

recorded-series :
    (key : String) (requests : List (String × ℕ)) (f : ℕ → ℕ)
    → length requests ≤ max_series + (if has_key overflow requests then 1 else 0)
    → (has_key key requests || (ltb (length requests) max_series || str_eq key overflow)) ≡ true
    → length (update key 0 f requests)
      ≤ max_series + (if has_key overflow (update key 0 f requests) then 1 else 0)
recorded-series key requests f h k =
    let grown = length-update key 0 f requests in
    let keys = has_key-update key 0 f overflow requests in
    elim (Bool-cases (str_eq key overflow)) [
      | inr other ↦ ground (arith, h, k, grown, keys, other)
      | inl hit ↦
          let same : has_key key requests ≡ has_key overflow requests =
            ap (λ x. has_key x requests) ((str_eq_iff key overflow).0 hit) in
          ground (arith, h, k, grown, keys, hit, same)
    ]

bounded_key-fits :
    (key : String) (m : Metrics)
    → (has_key (bounded_key key m) m.requests
        || (ltb (length m.requests) max_series || str_eq (bounded_key key m) overflow))
      ≡ true
bounded_key-fits key m =
    elim (Bool-cases (has_key key m.requests || ltb (length m.requests) max_series)) [
      | inl fits ↦ rw (fits) (ground (arith, fits))
      | inr full ↦ rw (full, str_eq_refl overflow) (ground arith)
    ]

recorded-IsBounded :
    (key : String) (status duration_ms : ℕ) (m : Metrics)
    → IsBounded m
    → IsBounded (recorded (bounded_key key m) status duration_ms m)
recorded-IsBounded key status duration_ms m h =
    let k = bounded_key key m in
    record {
      series = recorded-series k m.requests (λ n. n + 1) h.series (bounded_key-fits key m);
      same_keys = λ other.
          has_key-update k no_latency (timed duration_ms) other m.latency
          ∙ ap (λ b. str_eq k other || b) (h.same_keys other)
          ∙ sym (has_key-update k 0 (λ n. n + 1) other m.requests);
      same_number =
          let a = length-update k no_latency (timed duration_ms) m.latency in
          let b = length-update k 0 (λ n. n + 1) m.requests in
          let c = h.same_number in let d = h.same_keys k in ground (arith, a, b, c, d);
      alerts = h.alerts;
    }

emit_alert-IsBounded :
    (kind severity : String) (m : Metrics) → IsBounded m → IsBounded (emit_alert kind severity m)
unfolding emit_alert
emit_alert-IsBounded kind severity m h =
    let alert : Alert = record { kind = kind; severity = severity } in
    let grown = length-concat m.alerts alert in
    let cut = length-skip (length (m.alerts ++ alert ∷ []) - max_alerts) (m.alerts ++ alert ∷ []) in
    record {
      series = h.series;
      same_keys = h.same_keys;
      same_number = h.same_number;
      alerts = elim (Bool-cases (ltb max_alerts (length (m.alerts ++ alert ∷ [])))) [
        | inl over ↦ rw (over) (omega (arith, cut))
        | inr fits ↦ rw (fits) (ground (arith, fits))
      ];
    }

-- What the process may have recorded since its start.
pub data Observed : Metrics → Type 0 where
  started : Observed no_metrics
  request :
      {m : Metrics} (method : String) (route : Option String) (status duration_ms : ℕ)
      → Observed m
      → Observed (record_request method route status duration_ms m)
  lag :
      {m : Metrics} (queue : String) (lag_ms : ℕ)
      → Observed m
      → Observed (record_queue_lag queue lag_ms m)
  alert :
      {m : Metrics} (kind severity : String) → Observed m → Observed (emit_alert kind severity m)

-- Whatever requests, queue lags and alerts the process has recorded, it holds at most the limit of
-- request series and the overflow series, as many latency series with the same keys, and at most
-- the limit of alerts.
pub Observed-IsBounded : (m : Metrics) → Observed m → IsBounded m
unfolding no_metrics record_request record_queue_lag
Observed-IsBounded _ started = record {
  series = ground arith;
  same_keys = λ key. refl;
  same_number = refl;
  alerts = ground arith;
}
Observed-IsBounded _ (request {m} method route status duration_ms o) =
    recorded-IsBounded (key_for method route status) status duration_ms m (Observed-IsBounded m o)
Observed-IsBounded _ (lag {m} queue lag_ms o) =
    let h = Observed-IsBounded m o in
    record {
      series = h.series;
      same_keys = h.same_keys;
      same_number = h.same_number;
      alerts = h.alerts;
    }
Observed-IsBounded _ (alert {m} kind severity o) =
    emit_alert-IsBounded kind severity m (Observed-IsBounded m o)
