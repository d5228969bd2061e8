-- ===== src/Programs/SysErr/Stage.antt =====
-- What holds at each place of fun1, and what it has still to print there.
use embedlab.Prelude.{ℕ, ◌<◌, ◌≤◌, ◌≡◌, none, some, List, [], ◌∷◌}
use embedlab.Kernel.{Kernel}
use embedlab.System.Invariant.{WellFormed}
use embedlab.Programs.Calls.{Ready}
use embedlab.Programs.Creates.{Table}
use embedlab.Programs.SysErr.{
  Line, Place, success, ends, creating, unlocking_165, unlocking_23, locking_124, locking_4,
  locking_4_again, unlocking_4, waiting_10000, checking, ending, spinning,
}

-- `i` mutexes are created, and nobody has held one
pub record Fresh (i : ℕ) (k : Kernel) : Type 0 where
  pub well_formed : WellFormed 1 k
  pub table : Table i k.gt_mutex
  pub never_held : (j : ℕ) → j < 32 → (k.gt_mutex j).holding_tcb ≡ none

abbrev pub IsAt : Place → Kernel → Type 0
IsAt (creating i) k = (i ≤ 32) × Fresh i k
IsAt unlocking_165 k = Fresh 32 k
IsAt unlocking_23 k = Fresh 32 k
IsAt locking_124 k = Ready 1 none k
IsAt locking_4 k = Ready 1 none k
IsAt locking_4_again k = Ready 1 (some 4) k
IsAt unlocking_4 k = Ready 1 (some 4) k
IsAt waiting_10000 k = Ready 1 none k
IsAt (checking check r expected next) k = (r ≡ expected) × IsAt next k
IsAt ending k = Ready 1 none k
IsAt spinning k = Ready 1 none k

abbrev pub from_end : List Line
from_end = ends ∷ []

abbrev pub from10 : List Line
from10 = success 10 ∷ from_end

abbrev pub from9 : List Line
from9 = success 9 ∷ from10

abbrev pub from8 : List Line
from8 = success 8 ∷ from9

abbrev pub from7 : List Line
from7 = success 7 ∷ from8

abbrev pub from6 : List Line
from6 = success 6 ∷ from7

abbrev pub from5 : List Line
from5 = success 5 ∷ from6

abbrev pub from4 : List Line
from4 = success 4 ∷ from5

abbrev pub from3 : List Line
from3 = success 3 ∷ from4

-- the lines that a test without failures has still to print
abbrev pub remaining : Place → List Line
remaining (creating i) = from3
remaining unlocking_165 = from4
remaining unlocking_23 = from5
remaining locking_124 = from6
remaining locking_4 = from7
remaining locking_4_again = from8
remaining unlocking_4 = from9
remaining waiting_10000 = from10
remaining (checking check r expected next) = success check ∷ remaining next
remaining ending = from_end
remaining spinning = []
