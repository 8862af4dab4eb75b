-- ===== src/Metrics/Meter.antt =====
-- proxy/netmeter.go: meterBody and meterWriter, on the NetTimings of metrics/nettimings.go.
use slimproxy.Base.{
  ◌<◌, ℕ, ◌+◌, ◌-◌, ◌≡◌, refl, Bool, true, false, Option, none, some, List, [], ◌∷◌, ltb, ◌==◌,
  arith, if◌then◌else◌,
}
use slimproxy.Metrics.Usage.{
  NetTimings, new_timings, mark_body_done, add_write_block, add_body_bytes,
}

-- What happens to a metered request: a Read of so many bytes, with io.EOF or not, at a moment; and a Write,
-- WriteString or Flush that took so long.
pub data Use : Type 0 where
  reads : ℕ → Bool → ℕ → Use
  writes : ℕ → Use

-- meterBody.Read, meterWriter.Write, WriteString and Flush.
unfoldable pub meter : Use → NetTimings → NetTimings
meter (reads n eof now) nt =
    let counted = add_body_bytes n nt in if eof then mark_body_done now counted else counted
meter (writes took) nt = add_write_block took nt

unfoldable pub meter_all : List Use → NetTimings → NetTimings
unfolding meter
meter_all [] nt = nt
meter_all (u ∷ uses) nt = meter_all uses (meter u nt)

unfoldable pub bytes_read : List Use → ℕ
bytes_read [] = 0
bytes_read (reads n eof now ∷ uses) = n + bytes_read uses
bytes_read (writes took ∷ uses) = bytes_read uses

unfoldable pub time_written : List Use → ℕ
time_written [] = 0
time_written (reads n eof now ∷ uses) = time_written uses
time_written (writes took ∷ uses) = took + time_written uses

-- The moment of the first end of the body.
unfoldable pub first_end : List Use → Option ℕ
first_end [] = none
first_end (reads n eof now ∷ uses) = if eof then some now else first_end uses
first_end (writes took ∷ uses) = first_end uses

-- The upload leg that an end makes: never 0.
unfoldable pub leg : ℕ → Option ℕ → ℕ
leg started none = 0
leg started (some now) = if ltb (now - started) 1 then 1 else now - started

-- What one use adds, leg by leg.
mark_lem :
    (now : ℕ) (nt : NetTimings)
    → ((mark_body_done now nt).body_done
        ≡ (if nt.body_done == 0 then leg nt.started (some now) else nt.body_done))
      × ((mark_body_done now nt).started ≡ nt.started)
      × ((mark_body_done now nt).body_bytes ≡ nt.body_bytes)
      × ((mark_body_done now nt).write_block ≡ nt.write_block)
unfolding mark_body_done leg
mark_lem now nt = ground arith

add_bytes_lem :
    (n : ℕ) (nt : NetTimings)
    → ((add_body_bytes n nt).body_done ≡ nt.body_done)
      × ((add_body_bytes n nt).started ≡ nt.started)
      × ((add_body_bytes n nt).body_bytes ≡ nt.body_bytes + n)
      × ((add_body_bytes n nt).write_block ≡ nt.write_block)
unfolding add_body_bytes
add_bytes_lem n nt = ground arith

add_write_lem :
    (d : ℕ) (nt : NetTimings)
    → ((add_write_block d nt).body_done ≡ nt.body_done)
      × ((add_write_block d nt).started ≡ nt.started)
      × ((add_write_block d nt).body_bytes ≡ nt.body_bytes)
      × ((add_write_block d nt).write_block ≡ nt.write_block + d)
unfolding add_write_block
add_write_lem d nt = ground arith

leg-pos : (started now : ℕ) → 0 < leg started (some now)
unfolding leg
leg-pos started now = ground arith

leg-none : (started : ℕ) → leg started none ≡ 0
unfolding leg
leg-none started = refl

metered :
    (uses : List Use) (nt : NetTimings)
    → ((meter_all uses nt).body_bytes ≡ nt.body_bytes + bytes_read uses)
      × ((meter_all uses nt).write_block ≡ nt.write_block + time_written uses)
      × ((meter_all uses nt).body_done
          ≡ (if nt.body_done == 0 then leg nt.started (first_end uses) else nt.body_done))
unfolding meter_all meter bytes_read time_written first_end
metered [] nt = ground (arith, leg-none nt.started)
metered (reads n true now ∷ uses) nt =
    let counted = add_body_bytes n nt in
    ground (
      arith,
      metered uses (mark_body_done now counted),
      mark_lem now counted,
      add_bytes_lem n nt,
      leg-pos nt.started now,
    )
metered (reads n false now ∷ uses) nt =
    ground (arith, metered uses (add_body_bytes n nt), add_bytes_lem n nt)
metered (writes took ∷ uses) nt =
    ground (arith, metered uses (add_write_block took nt), add_write_lem took nt)

-- A metered request carries the bytes that its reads delivered, those that came with an end or an error
-- included, the time that its writes took, and as its upload leg the time to the first end of the body, which a
-- later one, of a replay, does not change, which is at least 1, and which is 0 where there was no end.
pub meter_all_lem :
    (started : ℕ) (uses : List Use)
    → ((meter_all uses (new_timings started)).body_bytes ≡ bytes_read uses)
      × ((meter_all uses (new_timings started)).write_block ≡ time_written uses)
      × ((meter_all uses (new_timings started)).body_done ≡ leg started (first_end uses))
unfolding new_timings
meter_all_lem started uses =
    let m = metered uses (new_timings started) in (omega (arith, m.0), omega (arith, m.1), m.2)
