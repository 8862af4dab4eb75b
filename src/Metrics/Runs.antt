-- ===== src/Metrics/Runs.antt =====
-- The theorems on the collector and the meter of metrics/ at concrete samples and requests.
use slimproxy.Text.{byte_len, trim_space}
use slimproxy.Text.Split.{is_filled}
use slimproxy.Base.{ℕ, ◌≤◌, ◌≡◌, refl, false, true, none, some, List, [], ◌∷◌, length, arith}
use slimproxy.Text.{codes, byte_len, trim_space, trim_left}
use slimproxy.Text.Split.{is_filled}
use slimproxy.Cause.{healthy}
use slimproxy.Metrics.Sample.{Sample}
use slimproxy.Ordering.{sum_of, sort_by, insert_by}
use slimproxy.Metrics.Usage.{
  quota_from_headers, redact_account, without_percent, clamp, redact_trimmed, first_bytes,
  broken_bytes, of_parsed,
}
use slimproxy.Metrics.Collector.{
  Collector, rising, prune_samples, is_recent, recent_of, active_of, view, snapshot_at, last_quota,
  first_quota, quota_by, better, trend, reading, ratio, mean, cache_sums, ttft_sums, newer,
}
use slimproxy.Metrics.Board.{count_for, row_for, count_all, routed_by, AllShown, active_of_lem}
use slimproxy.Metrics.Quota.{Latest, last_quota_lem}
use slimproxy.Metrics.Window.{
  Forward, within_hour, take_all_samples, arrived, last_moment, take_all_samples_lem,
}
use slimproxy.Metrics.Meter.{Use, reads, writes}

-- A short request, one that began before it and ended after it, and one of another model.
abbrev short : Sample
short = record {
  at = 5000000000000;
  account = [];
  target = [];
  model = codes "opus";
  ttft = 30;
  tokens = 0;
  failed = false;
  status = 200;
  cause = healthy;
  latency = 5;
  upload = 0;
  write_block = 0;
  body_bytes = 10;
  auth = [];
  executor = [];
  cache_read = 3;
  cache_creation = 0;
  input_tokens = 10;
  quota = some 500000000;
}

abbrev long : Sample
long = record short { at = 4900000000000; ttft = 50; quota = some 400000000 }

abbrev other : Sample
other = record short { model = codes "haiku"; quota = none; ttft = 0 }

abbrev three : List Sample
three = short ∷ long ∷ other ∷ []

abbrev held : Collector
held = record {
  samples = three;
  started = 4000000000000;
  recent_cap = 2;
  has_observer = false;
  observed = [];
}

shown :
    let v = (snapshot_at (λ count total. count) 5050000000000 [] held).0 in
    (v.rpm ≡ 2)
    × (v.mean_ttft ≡ 40)
    × (v.quota ≡ some 500000000)
    × (v.quota_trend ≡ rising)
    × (v.cache_ratio ≡ some (9, 30))
    × (v.recent ≡ other ∷ short ∷ [])
unfolding prune_samples is_recent recent_of active_of view snapshot_at last_quota first_quota
    quota_by better trend reading ratio mean cache_sums ttft_sums newer sort_by insert_by
shown = (refl, refl, refl, refl, refl, refl)

percents :
    quota_from_headers (λ s. some (false, 42000000000)) (some (codes " 42% ")) ≡ some 420000000
unfolding quota_from_headers of_parsed without_percent clamp is_filled trim_space trim_left
percents = refl

redacted : redact_account (λ s. codes "1a2b") (codes "sk-ant-xyz ") ≡ codes "sk-a***1a2b"
unfolding redact_account redact_trimmed first_bytes broken_bytes byte_len is_filled trim_space
    trim_left
redacted = refl

cut_rune :
    redact_account (λ s. codes "1a2b") (0x20AC ∷ 0x20AC ∷ []) ≡ 0x20AC ∷ 0xFFFD ∷ codes "***1a2b"
unfolding redact_account redact_trimmed first_bytes broken_bytes byte_len is_filled trim_space
    trim_left
cut_rune = refl

active_of_lem_example :
    (sum_of (λ a. count_for (codes "opus") a) (active_of (λ count total. count) three)
      ≡ sum_of (λ s. routed_by (codes "opus") s) three)
    × (sum_of (λ a. row_for (codes "opus") a) (active_of (λ count total. count) three) ≤ 1)
    × (sum_of (λ a. count_all a) (active_of (λ count total. count) three) ≡ length three)
    × AllShown (active_of (λ count total. count) three)
active_of_lem_example = active_of_lem (λ count total. count) three (codes "opus")

last_quota_lem_example : Latest three (last_quota three)
last_quota_lem_example = last_quota_lem three

abbrev moves : List (Sample × ℕ)
moves = (short, 5000000000005) ∷ (long, 5000000000009) ∷ (other, 8550000000000) ∷ []

abbrev bare : Collector
bare = record { samples = []; started = 0; recent_cap = 0; has_observer = false; observed = [] }

take_all_samples_lem_example :
    (take_all_samples moves bare).samples ≡ within_hour (last_moment 0 moves) (arrived moves)
unfolding Forward
take_all_samples_lem_example =
    take_all_samples_lem 0 moves bare refl (omega arith, (omega arith, (omega arith, tt)))

abbrev uses : List Use
uses = reads 10 false 3 ∷ reads 5 true 8 ∷ reads 0 true 20 ∷ writes 7 ∷ []
