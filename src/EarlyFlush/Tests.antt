-- ===== src/EarlyFlush/Tests.antt =====
-- Runs of proxy/earlyflush.go's writer and middleware, and the theorems at concrete requests.
use slimproxy.Base.{
  ℕ, ◌≤◌, ◌≡◌, refl, Bool, true, false, Option, none, some, List, [], ◌∷◌, ◌++◌, arith,
}
use slimproxy.Text.{Text, codes, text_eq}
use slimproxy.Wire.{status, bytes, flush, Header, statuses}
use slimproxy.Envelope.Body.{ClaudeError}
use slimproxy.EarlyFlush.Writer.{
  Writer, NoteKind, streaming, translated, upload_cut, Field, literal_false, fresh, upload_failed,
}
use slimproxy.EarlyFlush.Handler.{write_header}
use slimproxy.EarlyFlush.Timer.{flush_now}
use slimproxy.EarlyFlush.Finish.{finish}
use slimproxy.EarlyFlush.Steps.{Reach, here, next, heads, fires, ends}
use slimproxy.EarlyFlush.Statuses.{one_status}
use slimproxy.EarlyFlush.Speech.{Speech, finish_speaks}
use slimproxy.EarlyFlush.Endings.{endings, one_ending}
use slimproxy.EarlyFlush.Untouched.{says, run, forwards, answered_in_time}
use slimproxy.EarlyFlush.Untouched
use slimproxy.EarlyFlush.Late.{write_all, IsWaiting, closed_silent, late_failure_translated}
use slimproxy.EarlyFlush.Middleware.{Request, passes, after_read, uploading, in_scope}
use slimproxy.EarlyFlush.Admission.{non_streaming_passes, broken_upload_ends}

-- A decoder that knows no body, a handler's header map, and a Runtime that wants every note.
abbrev no_json : Text → Option ClaudeError
no_json body = none

abbrev json_header : Header
json_header = (codes "Content-Type", codes "application/json" ∷ []) ∷ []

abbrev all_notes : NoteKind → Bool
all_notes k = true

abbrev started : Writer
started = fresh json_header all_notes 0

-- The preamble goes out 30 nanoseconds in.
preflushed : Writer
preflushed = flush_now started streaming 30

preflushed_reached : Reach no_json started preflushed
unfolding preflushed
preflushed_reached = next here (fires streaming 30)

preflushed_calls : preflushed.calls ≡ status 200 ∷ flush ∷ []
unfolding preflushed flush_now
preflushed_calls = refl

preflushed_IsWaiting : IsWaiting preflushed
unfolding preflushed flush_now
preflushed_IsWaiting = record {
  out = refl;
  undecided = refl;
  untranslated = refl;
  live = refl;
  running = refl;
  unstreamed = refl;
  nothing_held = refl;
  whole_upload = refl;
}

-- The handler fails after the preamble, and the request ends.
ended : Writer
ended = finish no_json (write_header preflushed 529) false

failed_open : (write_header preflushed 529).closed ≡ false
unfolding preflushed flush_now write_header
failed_open = refl

ended_reached : Reach no_json started ended
unfolding ended
ended_reached =
    next (next preflushed_reached (heads 529))
      (ends {w = write_header preflushed 529} false failed_open)

ended_facts : (ended.preflushed ≡ true) × (ended.closed ≡ true)
unfolding ended finish write_header preflushed flush_now
ended_facts = (refl, refl)

one_status_example : statuses ended.calls ≡ 200 ∷ []
one_status_example = one_status ended_reached ended_facts.0

one_ending_example : endings ended.reports ≤ 1
one_ending_example = one_ending ended_reached

finish_speaks_example :
    Speech {unmarshal = no_json} {u = started} preflushed_reached (finish no_json preflushed false)
unfolding preflushed flush_now
finish_speaks_example = finish_speaks preflushed_reached (λ k. refl) refl refl

closed_silent_example : (flush_now ended streaming 90).calls ≡ ended.calls
closed_silent_example =
    (closed_silent {unmarshal = no_json} ended_facts.1 ended_facts.0
      (next here (fires streaming 90))).0

answered_in_time_example :
    (run no_json started (
      says (Untouched.heads 200)
      ∷ Untouched.fires streaming 30
      ∷ says (Untouched.writes (codes "{}"))
      ∷ [])).calls
    ≡ status 200 ∷ bytes (codes "{}") ∷ []
answered_in_time_example =
    (answered_in_time no_json started (Untouched.heads 200)
      (Untouched.fires streaming 30 ∷ says (Untouched.writes (codes "{}")) ∷ []) refl refl refl
      refl).0

late_failure_translated_example :
    (finish no_json (write_all (write_header preflushed 529) (codes "{}" ∷ [])) false).reports
    ≡ preflushed.reports ++ translated 529 ∷ []
unfolding preflushed flush_now
late_failure_translated_example =
    (late_failure_translated no_json preflushed 529 200 (codes "{}" ∷ []) (omega arith) refl
      preflushed_IsWaiting).1

-- A gjson that finds a literal false in every body.
abbrev says_false : List ℕ → Field
says_false body = literal_false

abbrev messages : Request
messages = record { method = codes "POST"; path = codes "/v1/messages"; content_length = some 20 }

scope_fits : in_scope 30 messages ≡ true
unfolding in_scope text_eq
scope_fits = refl

non_streaming_passes_example :
    after_read no_json says_false 30 messages
      (uploading says_false started ((1 ∷ [], 80) ∷ []))
      (1 ∷ 2 ∷ [], true)
      90
      false
    ≡ passes
non_streaming_passes_example =
    (non_streaming_passes no_json says_false json_header all_notes 0 30 90 messages false
      ((1 ∷ [], 80) ∷ []) (1 ∷ 2 ∷ []) (refl, tt) refl).0

broken_upload_ends_example :
    (finish no_json (upload_failed preflushed 1 20) false).reports
    ≡ preflushed.reports ++ upload_cut 1 20 ∷ []
unfolding preflushed flush_now
broken_upload_ends_example =
    (broken_upload_ends no_json says_false preflushed 30 90 20 messages (1 ∷ [])
      preflushed_IsWaiting refl refl refl).2
