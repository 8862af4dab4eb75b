-- ===== src/Journal/Tests.antt =====
-- The theorems on the reader and on RejectFolder of journal/ at concrete events.
use slimproxy.Base.{◌≡◌, refl, false, true, none, some, List, [], ◌∷◌, keep}
use slimproxy.Text.{codes, text_eq}
use slimproxy.Cause.{canceled}
use slimproxy.Metrics.Sample.{Sample}
use slimproxy.Journal.Event.{
  Event, bare, on_request, on_reject, tunnel, was_canceled, noise, normalise_path,
}
use slimproxy.Journal.Query.{Query}
use slimproxy.Journal.Reader.{Day, lines, rotated, blank, garbled, holds, read}
use slimproxy.Journal.Rejects.{RejectKey, new, flush, same_key}
use slimproxy.Journal.Accounts.{
  Op, refuses, ticks, key_of, run, tally_all, nothing, is_row, rows_tallied,
}
use slimproxy.Journal.Totals.{requests, refusals, refusals_accounted}
use slimproxy.Journal.Summary.{summarise, sort_from, count_events, count_event, sink}
use slimproxy.Journal.Sums.{sum_of, one_if, is_failure, summarise_counts}

-- A failed request, a slow success, and a scan from the tunnel.
abbrev broken : Event
broken = record (bare 110 on_request) { ok = some false; status = 502; latency_ms = 40 }

abbrev slow : Event
slow = record (bare 120 on_request) { ok = some true; latency_ms = 900 }

abbrev scan : Event
scan = record (bare 130 on_reject) { status = 404; src = tunnel; count = 3 }

abbrev everything : Query
everything = record {
  since = 0;
  until = 0;
  status = 0;
  min_latency = 0;
  route = [];
  model = [];
  failed_only = false;
  include_noise = false;
  limit = 1;
}

abbrev one_day : Day
one_day = record {
  bounds = some (100, 200);
  file = lines (holds broken ∷ garbled ∷ blank ∷ holds slow ∷ holds scan ∷ []) false;
}

abbrev two_days : List Day
two_days = record { bounds = none; file = rotated } ∷ one_day ∷ []

whole_read : read everything two_days ≡ some (record { events = slow ∷ []; noise = 3 })
unfolding read noise
whole_read = refl

-- A request that its client gave up on.
abbrev given_up : Sample
given_up = record {
  at = 50;
  account = [];
  target = codes "claude";
  model = codes "opus";
  ttft = 0;
  tokens = 0;
  failed = true;
  status = 0;
  cause = canceled;
  latency = 2_500_000;
  upload = 0;
  write_block = 0;
  body_bytes = 3000;
  auth = [];
  executor = [];
  cache_read = 0;
  cache_creation = 0;
  input_tokens = 0;
  quota = none;
}

abbrev scans : List Op
scans =
    refuses (codes "GET") (codes "/wp-login.php?x") 404 tunnel 10
    ∷ refuses (codes "GET") (codes "/wp-login.php?y") 404 tunnel 20
    ∷ ticks
    ∷ refuses (codes "GET") (codes "/wp-login.php") 404 tunnel 90
    ∷ []

abbrev login : RejectKey
login = key_of (codes "GET") (codes "/wp-login.php") 404 tunnel

rows_tallied_example :
    keep (is_row login) (run new scans).emitted ≡ (tally_all login nothing scans).told
rows_tallied_example = rows_tallied login scans

scans_counted : refusals login scans ≡ 3
unfolding same_key text_eq normalise_path
scans_counted = refl

refusals_accounted_example :
    requests (keep (is_row login) (flush (run new scans)).emitted) ≡ refusals login scans
refusals_accounted_example = refusals_accounted login scans

summarise_counts_example :
    (summarise (broken ∷ slow ∷ scan ∷ [])).sums.failures
    ≡ sum_of (λ e. one_if (is_failure e)) (broken ∷ slow ∷ scan ∷ [])
summarise_counts_example = (summarise_counts (broken ∷ slow ∷ scan ∷ []) 502).1

median : (summarise (broken ∷ slow ∷ scan ∷ [])).p50_ms ≡ 900
unfolding summarise sort_from count_events count_event was_canceled sink
median = refl
