-- ===== src/StallGuard/Lines.antt =====
-- scanLedgerSignals of proxy/stallguard.go, and how lines are packed into chunks.
use slimproxy.Base.{◌≡◌, refl, ap, ◌∙◌, List, [], ◌∷◌, ◌++◌, ◌==◌, if◌then◌else◌, arith}
use slimproxy.Text.{Text}
use slimproxy.StallGuard.Ledger.{Gjson, either, split_lines, lines_signals, scan_ledger_signals}

split_lines-cons : (s : Text) → (l : Text) × (ls : List Text) × (split_lines s ≡ l ∷ ls)
unfolding split_lines
split_lines-cons [] = ([], [], refl)
split_lines-cons (c ∷ s) =
    let (l, ls, e) = split_lines-cons s in
    (if c == b'\n' then [] else c ∷ l, if c == b'\n' then l ∷ ls else ls, ground (arith, e))

-- A newline ends a line, whatever follows.
split_lines-append : (a b : Text) → split_lines (a ++ b'\n' ∷ b) ≡ split_lines a ++ split_lines b
unfolding split_lines
split_lines-append [] b = let (l, ls, e) = split_lines-cons b in rw (e, split_lines) refl
split_lines-append (c ∷ a) b =
    let (l, ls, e) = split_lines-cons a in ground (arith, e, split_lines-append a b)

module _ (g : Gjson) where
  lines_signals-append :
      (xs ys : List Text)
      → lines_signals g (xs ++ ys) ≡ either (lines_signals g xs) (lines_signals g ys)
  unfolding lines_signals
  lines_signals-append [] ys = refl
  lines_signals-append (x ∷ xs) ys = ground (arith, lines_signals-append xs ys, x)

  -- Two payloads joined at a line's end mean to the ledger what they mean one by one: it does not
  -- matter how the upstream's lines are cut into chunks, as long as no line is.
  pub scan-append :
      (a b : Text)
      → scan_ledger_signals g (a ++ b'\n' ∷ b)
        ≡ either (scan_ledger_signals g a) (scan_ledger_signals g b)
  unfolding scan_ledger_signals
  scan-append a b =
      ap (lines_signals g) (split_lines-append a b)
      ∙ lines_signals-append (split_lines a) (split_lines b)
