-- ===== src/Doprnt/Fuel.antt =====
-- `_doprnt` ends: each round of its loop uses up a character of the format.
use embedlab.Prelude.{ℕ, ◌≤◌, ◌≡◌, Option, none, some, List, length}
use embedlab.Doprnt.Format.{Parse}
use embedlab.Doprnt.Main.{Formatting}

-- the loop has not run out of fuel
abbrev Ends : Formatting → Type 0
Ends r = (o : Option (List ℕ)) × (r ≡ some o)

-- what is left of the format is no longer than `n`
abbrev IsWithin : ℕ → Option Parse → Type 0
IsWithin n none = Unit
IsWithin n (some p) = length p.fmt ≤ n
