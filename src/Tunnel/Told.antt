-- ===== src/Tunnel/Told.antt =====
-- What Status of tunnel/manager.go says of a managed tunnel.
use slimproxy.Base.{◌≡◌, ◌⊎◌, true, false, ◌&&◌, if◌then◌else◌}
use slimproxy.Text.{Text}
use slimproxy.Text.Split.{is_filled}
use slimproxy.Tunnel.Process.{Record, Reading, found, matches}
use slimproxy.Tunnel.World.{World, Os, identity_of}
use slimproxy.Tunnel.Local.{running, Status}

-- The tunnel that a managed process serves, where the record names one and the configuration too.
unfoldable pub served : Record → Status → Text
served rec st = if is_filled rec.tunnel && is_filled st.tunnel_id then rec.tunnel else st.tunnel_id

-- A status tells of a managed process exactly where the record names one that is verified, and then
-- it tells that it runs, its PID, and the tunnel that it serves.
unfoldable pub Tells : Os → World → Reading → Status → Status → Type 0
Tells os w r base st =
    ((st.managed ≡ false) × ¬ ((rec : Record) × (r ≡ found rec) × (identity_of os rec w ≡ matches)))
    ⊎ ((rec : Record) × (r ≡ found rec)
        × (identity_of os rec w ≡ matches)
        × (st.managed ≡ true)
        × (st.state ≡ running)
        × (st.pid ≡ rec.pid)
        × (st.tunnel_id ≡ served rec base))
