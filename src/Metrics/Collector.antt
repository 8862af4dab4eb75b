-- ===== src/Metrics/Collector.antt =====
-- metrics/collector.go: Collector, with HandleUsage, prune and Snapshot.
use slimproxy.Base.{
  ℕ, suc, ◌+◌, ◌-◌, ◌/◌, Bool, Option, none, some, List, [], ◌∷◌, ◌++◌, keep, take, length, ltb,
  leb, ◌==◌, if◌then◌else◌,
}
use slimproxy.Text.Order.{text_before}
use slimproxy.Text.{Text, text_eq}
use slimproxy.Metrics.Sample.{Sample, route}
use slimproxy.Metrics.InFlight.{Pending}
use slimproxy.Metrics.Usage.{NetTimings, Usage, sample_from}
use slimproxy.Ordering.{sort_by}

-- Window, a minute, and DefaultRecentCap.
abbrev pub window : ℕ
window = 3600000000000

abbrev pub minute : ℕ
minute = 60000000000

-- Collector: its samples in the order in which they arrived, and those that the observer was handed,
-- if there is one.
pub record Collector : Type 0 where
  pub samples : List Sample
  pub started : ℕ
  pub recent_cap : ℕ
  pub has_observer : Bool
  pub observed : List Sample

unfoldable pub is_recent : ℕ → Sample → Bool
is_recent now s = leb now (s.at + window)

-- prune.
unfoldable pub prune_samples : ℕ → List Sample → List Sample
unfolding is_recent
prune_samples now samples = keep (λ s. is_recent now s) samples

-- The network legs of a request that passed the meter.
unfoldable pub with_timings : Option NetTimings → Sample → Sample
with_timings none s = s
with_timings (some nt) s = record s {
  upload = nt.body_done;
  write_block = nt.write_block;
  body_bytes = nt.body_bytes;
}

-- HandleUsage after the sample has been made.
unfoldable pub take_sample : ℕ → Sample → Collector → Collector
unfolding prune_samples
take_sample now s c = record c {
  samples = prune_samples now (c.samples ++ (s ∷ []));
  observed = if c.has_observer then c.observed ++ (s ∷ []) else c.observed;
}

-- HandleUsage.
unfoldable pub handle_usage :
    (Text → Option (Bool × ℕ))
    → (Text → Text)
    → ℕ
    → Option NetTimings
    → Usage
    → Collector
    → Collector
unfolding take_sample with_timings
handle_usage parse_float digest now timings u c =
    take_sample now (with_timings timings (sample_from parse_float digest now u)) c

-- RouteAgg; its AvgTTFT holds the sum until the end of Snapshot.
pub record RouteAgg : Type 0 where
  pub key : Text
  pub count : ℕ
  pub avg_ttft : ℕ
  pub pct : ℕ

unfoldable pub add_route : Text → ℕ → List RouteAgg → List RouteAgg
add_route key ttft [] = record { key = key; count = 1; avg_ttft = ttft; pct = 0 } ∷ []
add_route key ttft (a ∷ aggs) =
    let rest = add_route key ttft aggs in
    if text_eq key a.key
    then record a { count = suc a.count; avg_ttft = a.avg_ttft + ttft } ∷ aggs
    else a ∷ rest

-- byRoute, in the order in which the routes first appear.
unfoldable pub by_route : List RouteAgg → List Sample → List RouteAgg
unfolding add_route
by_route aggs [] = aggs
by_route aggs (s ∷ samples) = by_route (add_route (route s) s.ttft aggs) samples

unfoldable pub busier : RouteAgg → RouteAgg → Bool
unfolding text_before
busier a b = if a.count == b.count then text_before a.key b.key else ltb b.count a.count

unfoldable pub newer : Sample → Sample → Bool
newer a b = ltb b.at a.at

-- One reading of the quota against the best so far: `sooner` says whether to take it.
unfoldable pub better : (ℕ → ℕ → Bool) → Option (ℕ × ℕ) → Option ℕ → ℕ → Option (ℕ × ℕ)
better sooner best none at = best
better sooner none (some q) at = some (q, at)
better sooner (some (p, was)) (some q) at = if sooner at was then some (q, at) else some (p, was)

-- The loop that keeps quotaFirst or quotaLast, with its time.
unfoldable pub quota_by : (ℕ → ℕ → Bool) → Option (ℕ × ℕ) → List Sample → Option (ℕ × ℕ)
unfolding better
quota_by sooner best [] = best
quota_by sooner best (s ∷ samples) = quota_by sooner (better sooner best s.quota s.at) samples

-- The earliest reading, and the latest; of two at one moment, the one that arrived first.
unfoldable pub first_quota : List Sample → Option (ℕ × ℕ)
unfolding quota_by
first_quota samples = quota_by (λ at was. ltb at was) none samples

unfoldable pub last_quota : List Sample → Option (ℕ × ℕ)
unfolding quota_by
last_quota samples = quota_by (λ at was. ltb was at) none samples

-- QuotaTrend.
pub data Trend : Type 0 where
  flat rising falling : Trend

abbrev pub trend_epsilon : ℕ
trend_epsilon = 10000000

unfoldable pub trend : Option (ℕ × ℕ) → Option (ℕ × ℕ) → Trend
trend (some (p, was)) (some (q, at)) =
    if was == at
    then flat
    else if ltb (p + trend_epsilon) q
    then rising
    else if ltb (q + trend_epsilon) p
    then falling
    else flat
trend _ _ = flat

-- The sums of Snapshot's loop: cacheRead and inputTotal, and ttftSum and ttftN.
unfoldable pub cache_sums : ℕ × ℕ → List Sample → ℕ × ℕ
cache_sums sums [] = sums
cache_sums (hit, whole) (s ∷ samples) =
    cache_sums
      (if ltb 0 s.input_tokens then (hit + s.cache_read, whole + s.input_tokens) else (hit, whole))
      samples

unfoldable pub ttft_sums : ℕ × ℕ → List Sample → ℕ × ℕ
ttft_sums sums [] = sums
ttft_sums (sum, n) (s ∷ samples) =
    ttft_sums (if ltb 0 s.ttft then (sum + s.ttft, suc n) else (sum, n)) samples

-- Snapshot: a cache ratio is the two sides of its fraction.
pub record Snapshot : Type 0 where
  pub rpm : ℕ
  pub mean_ttft : ℕ
  pub recent : List Sample
  pub active : List RouteAgg
  pub uptime : ℕ
  pub held : ℕ
  pub pending : List Pending
  pub quota : Option ℕ
  pub quota_trend : Trend
  pub cache_ratio : Option (ℕ × ℕ)

unfoldable pub reading : Option (ℕ × ℕ) → Option ℕ
reading none = none
reading (some (q, at)) = some q

unfoldable pub ratio : ℕ × ℕ → Option (ℕ × ℕ)
ratio (hit, whole) = if ltb 0 whole then some (hit, whole) else none

unfoldable pub mean : ℕ × ℕ → ℕ
mean (sum, n) = if ltb 0 n then sum / n else 0

-- The end of byRoute's loop; the share in percent, a conversion of floats, is a parameter.
unfoldable pub close_agg : (ℕ → ℕ → ℕ) → ℕ → RouteAgg → RouteAgg
close_agg percent total a = record a {
  avg_ttft = mean (a.avg_ttft, a.count);
  pct = percent a.count total;
}

unfoldable pub close_aggs : (ℕ → ℕ → ℕ) → ℕ → List RouteAgg → List RouteAgg
unfolding close_agg
close_aggs percent total [] = []
close_aggs percent total (a ∷ aggs) = close_agg percent total a ∷ close_aggs percent total aggs

-- Recent: the newest first, capped.
unfoldable pub recent_of : ℕ → List Sample → List Sample
recent_of cap samples = take (if cap == 0 then 20 else cap) (sort_by (λ a b. newer a b) samples)

-- Active: the busiest first.
unfoldable pub active_of : (ℕ → ℕ → ℕ) → List Sample → List RouteAgg
unfolding close_aggs by_route
active_of percent samples =
    sort_by (λ a b. busier a b) (close_aggs percent (length samples) (by_route [] samples))

unfoldable pub view : (ℕ → ℕ → ℕ) → ℕ → List Pending → Collector → Snapshot
unfolding reading ratio recent_of active_of first_quota last_quota
view percent now pending c = record {
  rpm = length (keep (λ s. ltb now (s.at + minute)) c.samples);
  mean_ttft = mean (ttft_sums (0, 0) c.samples);
  recent = recent_of c.recent_cap c.samples;
  active = active_of percent c.samples;
  uptime = now - c.started;
  held = length c.samples;
  pending = pending;
  quota = reading (last_quota c.samples);
  quota_trend = trend (first_quota c.samples) (last_quota c.samples);
  cache_ratio = ratio (cache_sums (0, 0) c.samples);
}

-- Collector.Snapshot, which prunes first. What its early return leaves at zero where nothing is held is what
-- the loops make of no samples.
unfoldable pub snapshot_at : (ℕ → ℕ → ℕ) → ℕ → List Pending → Collector → Snapshot × Collector
unfolding view
snapshot_at percent now pending c =
    let c' = record c { samples = prune_samples now c.samples } in (view percent now pending c', c')
