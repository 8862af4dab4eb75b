-- ===== src/Journal/Summary.antt =====
-- journal/reader.go: Summarise and the sort that it uses.
use slimproxy.Base.{
  ℕ, zero, suc, ◌+◌, ◌-◌, ◌*◌, ◌/◌, Bool, ◌&&◌, Option, none, some, List, [], ◌∷◌, ◌++◌, ltb, leb,
  ◌==◌, if◌then◌else◌, length,
}
use mathlib.Core.List.{reverse}
use slimproxy.Journal.Event.{
  Event, Kind, on_request, on_reject, on_proxy, on_tunnel, on_cred, on_doctor, on_fidelity,
  on_health, failed, was_canceled, noise, says_ok,
}
use slimproxy.Journal.Reader.{weight}

-- The fields of Summary that the loop counts, and its local sums. A quota is none where the source
-- has -1.
pub record Sums : Type 0 where
  pub requests : ℕ
  pub failures : ℕ
  pub canceled : ℕ
  pub rejects : ℕ
  pub noises : ℕ
  pub by_status : List (ℕ × ℕ)
  pub lat : List ℕ
  pub up_sum : ℕ
  pub up_n : ℕ
  pub wb_sum : ℕ
  pub wb_n : ℕ
  pub rated_kb : ℕ
  pub rated_ms : ℕ
  pub upload_rated : ℕ
  pub max_quota : Option ℕ
  pub cache_reads : ℕ
  pub cache_creations : ℕ
  pub cache_wanted : ℕ
  pub cache_missed : ℕ

abbrev pub no_sums : Sums
no_sums = record {
  requests = 0;
  failures = 0;
  canceled = 0;
  rejects = 0;
  noises = 0;
  by_status = [];
  lat = [];
  up_sum = 0;
  up_n = 0;
  wb_sum = 0;
  wb_n = 0;
  rated_kb = 0;
  rated_ms = 0;
  upload_rated = 0;
  max_quota = none;
  cache_reads = 0;
  cache_creations = 0;
  cache_wanted = 0;
  cache_missed = 0;
}

-- MinRatedUploadMs.
abbrev pub min_rated_upload_ms : ℕ
min_rated_upload_ms = 100

-- The map ByStatus: what it holds of a status, and its increment.
abbrev pub status_count : ℕ → List (ℕ × ℕ) → ℕ
status_count st [] = 0
status_count st ((j, n) ∷ m) = if j == st then n else status_count st m

abbrev pub bump : ℕ → List (ℕ × ℕ) → List (ℕ × ℕ)
bump st [] = (st, 1) ∷ []
bump st ((j, n) ∷ m) = let rest = bump st m in if j == st then (j, suc n) ∷ m else (j, n) ∷ rest

abbrev larger : Option ℕ → Option ℕ → Option ℕ
larger m none = m
larger none (some q) = some q
larger (some m) (some q) = if ltb m q then some q else some m

-- The case of a request, its parts in the source's order: the outcome, the legs and the rate, and
-- the cache.
count_outcome : Sums → Event → Sums
count_outcome s e =
    if was_canceled e
    then record s { requests = suc s.requests; canceled = suc s.canceled }
    else if failed e
    then record s {
      requests = suc s.requests;
      failures = suc s.failures;
      by_status = bump e.status s.by_status;
    }
    else record s { requests = suc s.requests }

abbrev is_rated : Event → Bool
is_rated e = ltb 0 e.in_kb && leb min_rated_upload_ms e.upload_ms

count_legs : Sums → Event → Sums
count_legs s e = record s {
  lat = if ltb 0 e.latency_ms then s.lat ++ e.latency_ms ∷ [] else s.lat;
  up_sum = s.up_sum + e.upload_ms;
  up_n = if ltb 0 e.upload_ms then suc s.up_n else s.up_n;
  wb_sum = s.wb_sum + e.write_block_ms;
  wb_n = if ltb 0 e.write_block_ms then suc s.wb_n else s.wb_n;
  rated_kb = if is_rated e then s.rated_kb + e.in_kb else s.rated_kb;
  rated_ms = if is_rated e then s.rated_ms + e.upload_ms else s.rated_ms;
  upload_rated = if is_rated e then suc s.upload_rated else s.upload_rated;
  max_quota = larger s.max_quota e.quota;
}

count_cache : Sums → Event → Sums
count_cache s e = record s {
  cache_reads = s.cache_reads + e.cache_read;
  cache_creations = s.cache_creations + e.cache_creation;
  cache_missed =
      if says_ok e.ok && (e.cache_read == 0) && (e.cache_creation == 0)
      then suc s.cache_missed
      else s.cache_missed;
}

count_reject : Sums → Event → Sums
count_reject s e = record s {
  rejects = s.rejects + weight e;
  noises = if noise e then s.noises + weight e else s.noises;
}

count_kind : Kind → Sums → Event → Sums
unfolding count_outcome count_legs count_cache count_reject
count_kind on_request s e = count_cache (count_legs (count_outcome s e) e) e
count_kind on_reject s e = count_reject s e
count_kind on_fidelity s e =
    if ltb 0 e.cache_controls then record s { cache_wanted = suc s.cache_wanted } else s
count_kind on_proxy s e = s
count_kind on_tunnel s e = s
count_kind on_cred s e = s
count_kind on_doctor s e = s
count_kind on_health s e = s

-- One round of Summarise's loop, and the loop.
unfoldable pub count_event : Sums → Event → Sums
unfolding count_kind
count_event s e = count_kind e.kind s e

unfoldable pub count_events : Sums → List Event → Sums
count_events s [] = s
count_events s (e ∷ es) = count_events (count_event s e) es

-- The inner loop of sortInt64: the element goes left past those above it. The part of the slice
-- before it is held from its end.
unfoldable pub sink : ℕ → List ℕ → List ℕ
sink x [] = x ∷ []
sink x (y ∷ ys) = let rest = sink x ys in if ltb x y then y ∷ rest else x ∷ y ∷ ys

unfoldable pub sort_from : List ℕ → List ℕ → List ℕ
sort_from done [] = done
sort_from done (x ∷ xs) = sort_from (sink x done) xs

-- sortInt64.
unfoldable pub sort_int64 : List ℕ → List ℕ
sort_int64 v = reverse (sort_from [] v)

-- An element of a slice; the source never asks for one that is not there.
unfoldable pub nth : ℕ → List ℕ → ℕ
nth n [] = 0
nth zero (x ∷ xs) = x
nth (suc n) (x ∷ xs) = nth n xs

-- Summary, but for the counts, which stay in the sums, and NoiseHidden, which the caller sets.
pub record Summary : Type 0 where
  pub sums : Sums
  pub slowest_ms : ℕ
  pub p50_ms : ℕ
  pub avg_upload_ms : ℕ
  pub avg_write_block_ms : ℕ
  pub upload_kbps : Option (ℕ × ℕ)

-- The end of Summarise. A rate is a pair of numerator and denominator, none where the source's is 0.
unfoldable pub summary_of : Sums → Summary
unfolding nth sort_int64
summary_of s =
    let v = sort_int64 s.lat in
    record {
      sums = s;
      slowest_ms = nth (length v - 1) v;
      p50_ms = nth (length v / 2) v;
      avg_upload_ms = if ltb 0 s.up_n then s.up_sum / s.up_n else 0;
      avg_write_block_ms = if ltb 0 s.wb_n then s.wb_sum / s.wb_n else 0;
      upload_kbps = if ltb 0 s.rated_ms then some (s.rated_kb * 1000, s.rated_ms) else none;
    }

-- Summarise.
unfoldable pub summarise : List Event → Summary
unfolding summary_of
summarise es = summary_of (count_events no_sums es)
