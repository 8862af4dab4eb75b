-- ===== src/Refusal/Hooks.antt =====
-- proxy/refusal.go: refusalHooks, with NormalizeResponseBefore and NormalizeResponseAfter.
use slimproxy.Base.{
  ℕ, suc, ◌-◌, Bool, false, not, ◌&&◌, ◌||◌, Option, none, some, is_some, List, [], ◌∷◌, leb, ◌==◌,
  if◌then◌else◌,
}
use slimproxy.Text.{Text}
use slimproxy.Refusal.Find.{Details, StopEvent, find_refusal}
use slimproxy.Refusal.Mark.{Fields, mark_content_filtered, dialect_carries_refusal}

-- refusalHooks: the findings by the request's context, of which a number stands for each, and how many
-- there are. A request's calls are taken to be whole steps.
pub record Hooks : Type 0 where
  pub pending : List (ℕ × Details)
  pub live : ℕ

-- sync.Map's Load and Delete.
unfoldable pub load : ℕ → List (ℕ × Details) → Option Details
load key [] = none
load key ((k, d) ∷ rest) = let found = load key rest in if key == k then some d else found

unfoldable pub delete : ℕ → List (ℕ × Details) → List (ℕ × Details)
delete key [] = []
delete key ((k, d) ∷ rest) = let left = delete key rest in if key == k then rest else (k, d) ∷ left

-- maxPendingRefusals.
abbrev pub max_pending : ℕ
max_pending = 1024

-- track.
unfoldable pub track : Hooks → Hooks
track h =
    if leb (suc h.live) max_pending
    then record h { live = suc h.live }
    else record { pending = []; live = 0 }

-- forget.
unfoldable pub forget : ℕ → Hooks → Hooks
unfolding load delete
forget key h =
    if is_some (load key h.pending)
    then record { pending = delete key h.pending; live = h.live - 1 }
    else h

-- LoadOrStore and track, of a call that no other overtakes in between.
unfoldable pub remember : ℕ → Details → Hooks → Hooks
unfolding load track
remember key d h =
    if is_some (load key h.pending) then h else track (record h { pending = (key, d) ∷ h.pending })

unfoldable pub found : ℕ → Option Details → Hooks → Hooks
unfolding forget remember
found key none h = forget key h
found key (some d) h = remember key d h

-- NormalizeResponseBefore, which leaves the body as it is.
unfoldable pub normalize_before : (Text → Option StopEvent) → ℕ → Text → Hooks → Hooks
unfolding found
normalize_before unmarshal key body h = found key (find_refusal unmarshal body) h

-- The body that a call of NormalizeResponseAfter returns, the hooks after it, and whether it warned.
pub record After : Type 0 where
  pub body : Text
  pub hooks : Hooks
  pub warned : Bool

module _ (decode : Text → Option Fields) (marshal : Fields → Option Text) where
  unfoldable pub after_found : Option Details → ℕ → Text → Bool → Text → Hooks → After
  unfolding forget
  after_found none key to stream body h = record { body = body; hooks = h; warned = false }
  after_found (some d) key to stream body h =
      let marked = mark_content_filtered decode marshal body to stream in
      record {
        body = marked.0;
        hooks = if not stream || marked.1 then forget key h else h;
        warned = not marked.1 && not (dialect_carries_refusal to);
      }

  -- NormalizeResponseAfter.
  unfoldable pub normalize_after : ℕ → Text → Bool → Text → Hooks → After
  unfolding after_found load
  normalize_after key to stream body h = after_found (load key h.pending) key to stream body h
