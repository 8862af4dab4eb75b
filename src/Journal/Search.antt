-- ===== src/Journal/Search.antt =====
-- Read of journal/reader.go over several days, against a search of all events.
use slimproxy.Base.{ℕ, ◌≡◌, Option, some, List}
use slimproxy.Journal.Event.{Event}
use slimproxy.Journal.Query.{Query}
use slimproxy.Journal.Reader.{Result}
use slimproxy.Journal.Ring.{IsRing}

-- What Read returns on the days, when the ring starts with what was seen.
record Found (q : Query) (o : Option Result) (seen : List Event) (n : ℕ) : Type 0 where
  out : Result
  returned : o ≡ some out
  ring : IsRing q out seen n
