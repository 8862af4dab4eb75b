-- ===== src/EarlyFlush/Writer.antt =====
-- proxy/earlyflush.go: the state of earlyFlushWriter, its header shadow, and the operations that arm
-- and retire it.
use slimproxy.Base.{
  ℕ, Bool, true, false, ◌||◌, Option, none, some, List, [], ◌∷◌, ◌++◌, if◌then◌else◌, is_some,
}
use slimproxy.Text.{Text}
use slimproxy.Wire.{Call, Header, lookup, put, remove}

-- streamVerdict.
pub data Verdict : Type 0 where
  unknown streaming non_streaming : Verdict

-- What gjson says of the body's field `stream`: the field is not there, it is the literal false, or
-- it is any other value.
pub data Field : Type 0 where
  absent literal_false present : Field

-- sniffStreamField.
unfoldable pub sniff_stream_field : Field → Verdict
sniff_stream_field absent = unknown
sniff_stream_field literal_false = non_streaming
sniff_stream_field present = streaming

-- The self-reports of earlyFlushNotes that the writer makes, with their arguments.
pub data Note : Type 0 where
  flushed : ℕ → Verdict → Note
  desperation_held : ℕ → Note
  translated : ℕ → Note
  timed_out : ℕ → Note
  upload_cut : ℕ → ℕ → Note

pub data NoteKind : Type 0 where
  on_flushed on_desperation_held on_translated on_timed_out on_upload_cut : NoteKind

abbrev pub kind_of : Note → NoteKind
kind_of (flushed wait verdict) = on_flushed
kind_of (desperation_held wait) = on_desperation_held
kind_of (translated code) = on_translated
kind_of (timed_out silence) = on_timed_out
kind_of (upload_cut received declared) = on_upload_cut

-- earlyFlushWriter. `calls` and `header` belong to the writer underneath. `wants` says which
-- callbacks of `notes` are set and `reports` holds the calls made of them. `sniffing` says that
-- sniffVerdict is set, `armed` that the timer runs, `beating` that a heartbeat goroutine does, with
-- its deadline, and `canceled` that cancelHandler was called. `upload_cut_at` is uploadErr with the
-- two byte counts.
pub record Writer : Type 0 where
  pub calls : List Call
  pub header : Header
  pub wants : NoteKind → Bool
  pub reports : List Note
  pub started : ℕ
  pub armed : Bool
  pub sniffing : Bool
  pub shadow : Header
  pub committed : Bool
  pub decided : Bool
  pub preflushed : Bool
  pub streamed : Bool
  pub translating : Bool
  pub terminated : Bool
  pub closed : Bool
  pub intended : ℕ
  pub err_buf : Text
  pub upload_cut_at : Option (ℕ × ℕ)
  pub beating : Bool
  pub deadline : ℕ
  pub canceled : Bool

-- The writer that EarlyFlushMiddleware builds before it reads the body, its timer armed.
abbrev pub fresh : Header → (NoteKind → Bool) → ℕ → Writer
fresh h wants now = record {
  calls = [];
  header = h;
  wants = wants;
  reports = [];
  started = now;
  armed = true;
  sniffing = true;
  shadow = h;
  committed = false;
  decided = false;
  preflushed = false;
  streamed = false;
  translating = false;
  terminated = false;
  closed = false;
  intended = 0;
  err_buf = [];
  upload_cut_at = none;
  beating = false;
  deadline = 0;
  canceled = false;
}

-- A call of the writer underneath.
abbrev pub send : Writer → Call → Writer
send w c = record w { calls = w.calls ++ c ∷ [] }

-- A callback, if it is set.
abbrev pub report : Writer → Note → Writer
report w n = if w.wants (kind_of n) then record w { reports = w.reports ++ n ∷ [] } else w

-- The first loop of commitShadowLocked: the keys that the shadow lacks are deleted.
unfoldable pub prune_keys : Header → Header → Header → Header
prune_keys [] shadow dst = dst
prune_keys ((k, vs) ∷ keys) shadow dst =
    prune_keys keys shadow (if is_some (lookup k shadow) then dst else remove k dst)

-- Its second loop: every key of the shadow is written.
unfoldable pub copy_keys : Header → Header → Header
copy_keys [] dst = dst
copy_keys ((k, vs) ∷ shadow) dst = put k vs (copy_keys shadow dst)

-- The real header map after commitShadowLocked.
unfoldable pub committed_header : Header → Header → Header
unfolding prune_keys copy_keys
committed_header shadow dst = copy_keys shadow (prune_keys dst shadow dst)

-- commitShadowLocked.
unfoldable pub commit_shadow : Writer → Writer
commit_shadow w =
    if w.committed
    then w
    else record w { committed = true; header = committed_header w.shadow w.header }

-- A header write of the handler, which Header hands the shadow.
unfoldable pub set_shadow : Writer → Text → List Text → Writer
set_shadow w k vs = record w { shadow = put k vs w.shadow }

-- tryDisarm.
unfoldable pub try_disarm : Writer → Writer × Bool
try_disarm w =
    if w.preflushed then (w, false) else (record w { closed = true; armed = false }, true)

-- uploadFailed.
unfoldable pub upload_failed : Writer → ℕ → ℕ → Writer
upload_failed w received declared = record w { upload_cut_at = some (received, declared) }

-- rearm.
unfoldable pub rearm : Writer → Writer
rearm w = if w.closed || w.preflushed then w else record w { sniffing = false; armed = true }
