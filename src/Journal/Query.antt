-- ===== src/Journal/Query.antt =====
-- journal/reader.go: Query, and which events it keeps.
use slimproxy.Base.{ℕ, ◌*◌, Bool, true, false, not, ◌&&◌, [], ◌∷◌, ltb, ◌==◌, if◌then◌else◌}
use slimproxy.Text.{Text, contains, to_lower}
use slimproxy.Journal.Event.{Event, is_request, is_reject, failed, noise}

-- Query. A time is 0 where it is not set.
pub record Query : Type 0 where
  pub since : ℕ
  pub until : ℕ
  pub status : ℕ
  pub min_latency : ℕ
  pub route : Text
  pub model : Text
  pub failed_only : Bool
  pub include_noise : Bool
  pub limit : ℕ

-- SuppressesNoise.
unfoldable pub suppresses_noise : Query → Bool
suppresses_noise q = if q.include_noise then false else q.status == 0

abbrev is_empty : Text → Bool
is_empty [] = true
is_empty (c ∷ s) = false

-- The text does not hold the part asked for, in whatever case; exact for ASCII, as `to_lower` is.
lacks : Text → Text → Bool
unfolding contains to_lower
lacks part text = not (is_empty part) && not (contains (to_lower text) (to_lower part))

-- The filters of Match that only requests and rejects are put through.
match_request : Query → Event → Bool
unfolding failed lacks
match_request q e =
    if q.failed_only && not (failed e) && not (is_reject e.kind)
    then false
    else if not (q.status == 0) && not (e.status == q.status)
    then false
    else if ltb 0 q.min_latency && ltb (e.latency_ms * 1_000_000) q.min_latency
    then false
    else if lacks q.route e.route
    then false
    else not (lacks q.model e.model)

-- Match.
unfoldable pub matches : Query → Event → Bool
unfolding match_request
matches q e =
    if not (q.since == 0) && ltb e.at q.since
    then false
    else if not (q.until == 0) && ltb q.until e.at
    then false
    else if not (is_request e.kind) && not (is_reject e.kind)
    then true
    else match_request q e

-- The rows that Read counts in place of listing.
unfoldable pub hidden : Query → Event → Bool
unfolding suppresses_noise noise
hidden q e = noise e && suppresses_noise q
