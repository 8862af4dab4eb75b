-- ===== src/Refusal/Tests.antt =====
-- The theorems of Refusal/ at concrete requests and documents.
use slimproxy.Text.Split.{split}
use slimproxy.Text.{contains, has_prefix, trim_space}
use slimproxy.Base.{◌≡◌, refl, true, false, Option, none, some, List, [], ◌∷◌, arith}
use slimproxy.Text.{Text, codes, text_eq}
use slimproxy.Refusal.Find.{Details, StopEvent, find_refusal}
use slimproxy.Refusal.Mark.{
  Fields, atom, string, array, object, none_left, item, no_more, field, get, set_finish_reason,
  mark_content_filtered,
}
use slimproxy.Refusal.Hooks.{Hooks, load, normalize_after}
use slimproxy.Refusal.Counted.{Call, before, after, Counted, times, apply_all, apply_all-Counted}
use slimproxy.Refusal.Apart.{Unrefused, Other, untouched_body, finding_lasts}
use slimproxy.Refusal.Marked.{Marks, set_finish_reason_lem}

abbrev policy : Details
policy = record { category = codes "cyber"; explanation = codes "blocked" }

-- A decoder that takes every object for this event, and one that takes every object for this document.
abbrev event_of : Text → Option StopEvent
event_of line = some (record {
  delta_reason = codes "refusal";
  delta_details = policy;
  reason = [];
  details = record { category = []; explanation = [] };
})

abbrev answer : Fields
answer = field (codes "id") (string (codes "x")) (
    field (codes "choices")
      (array (
        item
          (object (
            field (codes "index") (atom (codes "0"))
              (field (codes "finish_reason") (string (codes "stop")) no_more)))
          (item (object (field (codes "finish_reason") (string (codes "length")) no_more))
            none_left)))
      no_more)

abbrev document_of : Text → Option Fields
document_of body = some answer

abbrev print : Fields → Option Text
print doc = some (codes "{}")

abbrev refused_body : Text
refused_body = codes "data: {\"delta\":\"refusal\"}"

abbrev fresh : Hooks
fresh = record { pending = []; live = 0 }

abbrev one_pending : Hooks
one_pending = record { pending = (7, policy) ∷ []; live = 1 }

is_found : find_refusal event_of refused_body ≡ some policy
unfolding find_refusal contains split trim_space text_eq
is_found = refl

clean_body : find_refusal event_of (codes "data: {}") ≡ none
unfolding find_refusal contains
clean_body = refl

framed :
    mark_content_filtered document_of print
      (codes "event: x\n data:{\"a\":1}\n")
      (codes "openai")
      true
    ≡ (codes "event: x\ndata: {}\n", true)
unfolding mark_content_filtered text_eq split has_prefix trim_space
framed = refl

fresh-Counted : Counted fresh
unfolding times
fresh-Counted = record { sized = refl; unique = λ key. omega arith; bounded = omega arith }

abbrev calls : List Call
calls =
    before 7 refused_body
    ∷ before 9 (codes "data: {}")
    ∷ after 7 (codes "openai") true (codes "{}")
    ∷ []

apply_all-Counted_example : Counted (apply_all event_of document_of print calls fresh)
apply_all-Counted_example = apply_all-Counted event_of document_of print calls fresh fresh-Counted

untouched_body_example :
    normalize_after document_of print 9
      (codes "openai")
      false
      (codes "{}")
      (apply_all event_of document_of print calls fresh)
    ≡ record {
      body = codes "{}";
      hooks = apply_all event_of document_of print calls fresh;
      warned = false;
    }
unfolding load Unrefused
untouched_body_example =
    untouched_body event_of document_of print 9 calls (codes "openai") false (codes "{}") fresh refl
      ((λ e. absurd (cc e)), ((λ e. clean_body), (tt, tt)))

abbrev others : List Call
others = before 9 refused_body ∷ after 8 (codes "openai") false (codes "{}") ∷ []

finding_lasts_example :
    (normalize_after document_of print 7
      (codes "openai")
      false
      (codes "{}")
      (apply_all event_of document_of print others one_pending)).body
    ≡ (mark_content_filtered document_of print (codes "{}") (codes "openai") false).0
unfolding load Other
finding_lasts_example =
    finding_lasts event_of document_of print 7 policy others (codes "openai") false (codes "{}")
      one_pending refl (refl, (refl, tt)) (omega arith)

set_finish_reason_lem_example :
    Marks answer (get (codes "choices") answer) (set_finish_reason answer)
set_finish_reason_lem_example = set_finish_reason_lem answer
