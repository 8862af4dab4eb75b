-- ===== src/Access.antt =====
-- proxy/access.go: requestSource, and the middleware that puts refused requests on record.
mod Tests
use slimproxy.Base.{
  ℕ, Bool, true, false, not, ◌&&◌, ◌||◌, Option, none, some, List, [], ◌∷◌, ltb, leb, ◌==◌,
  if◌then◌else◌, ◌≡◌, ◌⊎◌, ◌≢◌, inl, inr, arith, Bool-cases, List-cases,
}
use mathlib.Core.List.{reverse}
use slimproxy.Text.{Text, codes, trim_space}
use slimproxy.Wire.{Header, get_header}
use slimproxy.Journal.Event.{Event, Source, local, tunnel, remote, noise, normalise_path}
use slimproxy.Journal.Rejects.{Folder, add, row}

-- What the middleware reads of a request.
pub record Request : Type 0 where
  pub remote_addr : Text
  pub header : Header
  pub method : Text
  pub path : List ℕ

abbrev is_bracket : ℕ → Bool
is_bracket c = (c == b'[') || (c == b']')

trim_left_brackets : Text → Text
trim_left_brackets [] = []
trim_left_brackets (c ∷ s) = let rest = trim_left_brackets s in if is_bracket c then rest else c ∷ s

-- strings.Trim(host, "[]").
trim_brackets : Text → Text
unfolding trim_left_brackets
trim_brackets s = reverse (trim_left_brackets (reverse (trim_left_brackets s)))

abbrev host_or : Text → Option Text → Text
host_or addr none = addr
host_or addr (some host) = host

abbrev is_here : Option Bool → Bool
is_here none = false
is_here (some loopback) = loopback

abbrev is_empty : Text → Bool
is_empty [] = true
is_empty (c ∷ s) = false

-- `split_host` is net.SplitHostPort's host, none on an error; `is_loopback` is IsLoopback of
-- net.ParseIP, none where the text is no address.
module _ (split_host : Text → Option Text) (is_loopback : Text → Option Bool) where
  -- The address is of this machine.
  unfoldable pub from_here : Text → Bool
  unfolding trim_brackets
  from_here addr = is_here (is_loopback (trim_brackets (host_or addr (split_host addr))))

  -- requestSource; no request is none.
  unfoldable pub request_source : Option Request → Source
  unfolding from_here
  request_source none = remote
  request_source (some r) =
      if not (from_here r.remote_addr)
      then remote
      else if not (is_empty (trim_space (get_header (codes "Cf-Connecting-Ip") r.header)))
      then tunnel
      else local

  -- AccessJournalMiddleware after the handler returned, with its status and the time of arrival.
  unfoldable pub record_access : Folder → Request → ℕ → ℕ → Folder
  unfolding request_source
  record_access f r status at =
      if leb 200 status && ltb status 300
      then f
      else add f r.method r.path status (request_source (some r)) at

-- The row that the folder makes of a refused request.
abbrev pub refused_row : Request → ℕ → Source → ℕ → ℕ → Event
refused_row r status src at n =
    row (record { method = r.method; path = normalise_path r.path; status = status; src = src }) at
      n

-- What the tunnel's header says, without the space around it.
abbrev pub tunnel_mark : Request → Text
tunnel_mark r = trim_space (get_header (codes "Cf-Connecting-Ip") r.header)

module _ (split_host : Text → Option Text) (is_loopback : Text → Option Bool) where
  -- A caller from elsewhere is on record as remote whatever headers it sends; a caller from this
  -- machine is local exactly if it sends no tunnel header. What is refused below 500 is noise, unless
  -- the caller is local; nothing is noise from 500 on.
  pub refused_row_lem :
      (r : Request) (status at n : ℕ)
      → let src = request_source split_host is_loopback (some r) in
        let e = refused_row r status src at n in
        ((from_here split_host is_loopback r.remote_addr ≡ false)
          × (src ≡ remote)
          × (noise e ≡ ltb status 500))
        ⊎ ((from_here split_host is_loopback r.remote_addr ≡ true)
            × (tunnel_mark r ≢ [])
            × (src ≡ tunnel)
            × (noise e ≡ ltb status 500))
        ⊎ ((from_here split_host is_loopback r.remote_addr ≡ true)
            × (tunnel_mark r ≡ [])
            × (src ≡ local)
            × (noise e ≡ false))
  unfolding request_source noise
  refused_row_lem r status at n =
      elim (Bool-cases (from_here split_host is_loopback r.remote_addr)) [
        | inr far ↦ inl (far, ground (arith, far), ground (arith, far))
        | inl near ↦ elim (List-cases (tunnel_mark r)) [
          | inl bare ↦
              inr (inr (near, bare, ground (arith, near, bare), ground (arith, near, bare)))
          | inr (c, cs, marked) ↦ inr (
              inl (
                near,
                (λ e. ground (arith, e, marked)),
                ground (arith, near, marked),
                ground (arith, near, marked),
              ))
        ]
      ]
