-- ===== src/Journal/Together.antt =====
-- Writer of journal/writer.go and Read of journal/reader.go on one directory.
use slimproxy.Base.{ℕ, false, some, List, [], ◌∷◌, ◌++◌, ◌==◌, if◌then◌else◌, keep}
use slimproxy.Journal.Event.{Event}
use slimproxy.Journal.Query.{Query}
use slimproxy.Journal.Reader.{Line, holds, lines, Day}
use slimproxy.Journal.Ring

-- The lines of one day's file.
abbrev pub file_lines : ℕ → List (ℕ × Event) → List Line
file_lines d [] = []
file_lines d ((k, e) ∷ disk) =
    let rest = file_lines d disk in if k == d then holds e ∷ rest else rest

abbrev pub on_disk : List (ℕ × Event) → List Event
on_disk [] = []
on_disk ((k, e) ∷ disk) = e ∷ on_disk disk

module _ (day_of day_start day_end : ℕ → ℕ) where
  -- The files of some days, as Read lists and opens them.
  abbrev pub directory : List ℕ → List (ℕ × Event) → List Day
  directory [] disk = []
  directory (d ∷ days) disk =
      record { bounds = some (day_start d, day_end d); file = lines (file_lines d disk) false }
      ∷ directory days disk

  -- The events of some days, day after day.
  abbrev pub by_day : List ℕ → List Event → List Event
  by_day [] es = []
  by_day (d ∷ days) es = keep (λ e. day_of e.at == d) es ++ by_day days es
