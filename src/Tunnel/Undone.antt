-- ===== src/Tunnel/Undone.antt =====
-- What a failed startDetached of tunnel/manager.go leaves.
use slimproxy.Base.{ℤ, ◌≡◌, true, List, ◌∷◌}
use slimproxy.Text.{Text}
use slimproxy.Tunnel.Process.{Record, RecordFile}
use slimproxy.Tunnel.World.{Act, kills, claims, removes, spawns, writes, World}
use slimproxy.Tunnel.Local.{Status}
use slimproxy.Tunnel.Start.{Started}
use slimproxy.Tunnel.Launches.{effects}

-- What a launch that fails does in all, over the acts before: nothing; or it claims the record and removes it again;
-- or it also starts a child, whose record it may write, sends it a kill, and removes the record.
pub data Undone (before : List Act) : List Act → Type 0 where
  untried : Undone before before
  unstarted : Undone before (removes true ∷ claims ∷ before)
  unwritten : (pid : ℤ) → Undone before (removes true ∷ kills pid ∷ spawns pid ∷ claims ∷ before)
  withdrawn :
      (rec : Record)
      → Undone before (removes true ∷ kills rec.pid ∷ writes rec ∷ spawns rec.pid ∷ claims ∷ before)

-- A launch that failed has put the record file back as it was.
unfoldable pub IsUndone : RecordFile → List Act → Started × Status × World → Type 0
IsUndone file before (result, st, w) = (w.file ≡ file) × Undone before (effects w.acts)
