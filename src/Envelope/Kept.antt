-- ===== src/Envelope/Kept.antt =====
-- What envelopeWriter of proxy/errorenvelope.go holds and what it has passed on, together.
use slimproxy.Base.{
  ℕ, ◌≡◌, refl, sym, ap, false, List, [], ◌∷◌, ◌++◌, append-nil, append_assoc, arith,
}
use slimproxy.Text.{Text, byte_len-nil, byte_len-pos}
use slimproxy.Wire.{Call, status, bytes, flush, Header, payload, payload-append, payload-send}
use slimproxy.Envelope.Writer.{
  Writer, fresh, Op, heads, writes, flushes, sets, apply, run, write_decided, release, decide,
}
use slimproxy.Envelope.Delivery.{body_of}

-- Nothing is held once the wrapper is out of the way.
record IsKept (w : Writer) (body : Text) : Type 0 where
  joined : payload w.calls ++ w.buf ≡ body
  empty : w.buffering ≡ false → w.buf ≡ []

IsKept-status :
    (w v : Writer) (body : Text) (c : ℕ)
    → v.calls ≡ w.calls ++ status c ∷ []
    → v.buf ≡ w.buf
    → v.buffering ≡ w.buffering
    → IsKept w body
    → IsKept v body
IsKept-status w v body c e f g k = record {
  joined = rw (e, f, payload-append w.calls (status c ∷ []), append-nil (payload w.calls)) k.joined;
  empty = ground (arith, k);
}

decide-IsKept : (w : Writer) (code : ℕ) (body : Text) → IsKept w body → IsKept (decide w code) body
unfolding decide
decide-IsKept w code body k = ground (arith, k)

-- The bytes of a released body: what was held, then the new ones.
release_payload :
    (cs : List Call) (c : ℕ) (held b : Text)
    → payload (((cs ++ status c ∷ []) ++ bytes held ∷ []) ++ bytes b ∷ [])
      ≡ (payload cs ++ held) ++ b
release_payload cs c held b = rw (
  payload-send ((cs ++ status c ∷ []) ++ bytes held ∷ []) b,
  payload-send (cs ++ status c ∷ []) held,
  payload-append cs (status c ∷ []),
  append-nil (payload cs),
)

release-IsKept :
    (w : Writer) (b body held : Text)
    → w.buf ≡ held
    → IsKept w body
    → IsKept (release w b) (body ++ b)
unfolding release
release-IsKept w b body [] e k = ground (
  arith,
  k,
  byte_len-nil,
  append-nil (payload w.calls),
  append-nil (payload w.calls ++ b),
  payload-send (w.calls ++ status w.status_code ∷ []) b,
  payload-append w.calls (status w.status_code ∷ []),
)
release-IsKept w b body (c ∷ held) e k = ground (
  arith,
  k,
  byte_len-pos c held,
  append-nil ((payload w.calls ++ w.buf) ++ b),
  release_payload w.calls w.status_code w.buf b,
)

write_decided-IsKept :
    (w : Writer) (b body : Text) → IsKept w body → IsKept (write_decided w b) (body ++ b)
unfolding write_decided
write_decided-IsKept w b body k = ground (
  arith,
  k,
  release-IsKept w b body w.buf refl k,
  payload-send w.calls b,
  append-nil (payload w.calls),
  append-nil (payload w.calls ++ b),
  append_assoc (payload w.calls) w.buf b,
)

apply-IsKept :
    (w : Writer) (op : Op) (body : Text)
    → IsKept w body
    → IsKept (apply w op) (body ++ body_of (op ∷ []))
unfolding apply
apply-IsKept w (heads code) body k = ground (
  arith,
  k,
  append-nil body,
  payload-append w.calls (status code ∷ []),
  append-nil (payload w.calls),
)
apply-IsKept w (writes b) body k =
    rw (append-nil b) (write_decided-IsKept (decide w 200) b body (decide-IsKept w 200 body k))
apply-IsKept w flushes body k =
    ground
      (arith, k, append-nil body, payload-append w.calls (flush ∷ []), append-nil (payload w.calls))
apply-IsKept w (sets k' v) body k = ground (arith, k, append-nil body)

body_of-cons : (op : Op) (ops : List Op) → body_of (op ∷ ops) ≡ body_of (op ∷ []) ++ body_of ops
body_of-cons (heads c) ops = refl
body_of-cons (writes b) ops = ap (λ t. t ++ body_of ops) (sym (append-nil b))
body_of-cons flushes ops = refl
body_of-cons (sets k v) ops = refl

run-IsKept :
    (w : Writer) (ops : List Op) (body : Text)
    → IsKept w body
    → IsKept (run w ops) (body ++ body_of ops)
unfolding run
run-IsKept w [] body k = rw (append-nil body) k
run-IsKept w (op ∷ ops) body k =
    rw (body_of-cons op ops, ← append_assoc body (body_of (op ∷ [])) (body_of ops))
      (run-IsKept (apply w op) ops (body ++ body_of (op ∷ [])) (apply-IsKept w op body k))

-- Before finish no byte is lost or reordered: what the network has and what is held are, joined, what
-- the handler wrote.
pub written_kept :
    (h : Header) (ops : List Op)
    → payload (run (fresh h) ops).calls ++ (run (fresh h) ops).buf ≡ body_of ops
written_kept h ops =
    (run-IsKept (fresh h) ops [] (record { joined = refl; empty = λ _. refl })).joined
