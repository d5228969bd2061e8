-- ===== src/Programs/SysErr/Stays.antt =====
-- What holds at a place of fun1 survives what leaves the mutexes alone.
use embedlab.Prelude.{
  ℕ, ◌+◌, ◌<◌, ◌≡◌, refl, ap, sym, subst, ◌∙◌, Bool-cases, inl, inr, Option, none, some, List, ◌++◌,
  ◌==◌, arith,
}
use embedlab.Kernel.{Kernel}
use embedlab.System.Invariant.{WellFormed}
use embedlab.System.Frees.{created-Inv}
use embedlab.Programs.Calls.{Ready, Ready-same}
use embedlab.Programs.Creates.{Table, created, created-Table}
use embedlab.Programs.SysErr.{
  Line, Place, SysErr, creating, unlocking_165, unlocking_23, locking_124, locking_4,
  locking_4_again, unlocking_4, waiting_10000, checking, ending, spinning,
}
use embedlab.Programs.SysErr.Refusals.{enabled, enabled-WellFormed}
use embedlab.Programs.SysErr.Stage.{Fresh, IsAt, remaining}

pub IsAt-WellFormed : (p : Place) (k : Kernel) → IsAt p k → WellFormed 1 k
IsAt-WellFormed (creating i) k (_, a) = a.well_formed
IsAt-WellFormed unlocking_165 k a = a.well_formed
IsAt-WellFormed unlocking_23 k a = a.well_formed
IsAt-WellFormed locking_124 k a = a.well_formed
IsAt-WellFormed locking_4 k a = a.well_formed
IsAt-WellFormed locking_4_again k a = a.well_formed
IsAt-WellFormed unlocking_4 k a = a.well_formed
IsAt-WellFormed waiting_10000 k a = a.well_formed
IsAt-WellFormed (checking check r expected next) k (_, a) = IsAt-WellFormed next k a
IsAt-WellFormed ending k a = a.well_formed
IsAt-WellFormed spinning k a = a.well_formed

Fresh-same :
    (i : ℕ) (k k' : Kernel) → Fresh i k → WellFormed 1 k' → k'.gt_mutex ≡ k.gt_mutex → Fresh i k'
Fresh-same i k k' a w same = record {
  well_formed = w;
  table = subst (Table i) (sym same) a.table;
  never_held = λ j h. ap (λ g. (g j).holding_tcb) same ∙ a.never_held j h;
}

pub IsAt-same :
    (p : Place) (k k' : Kernel) → WellFormed 1 k' → k'.gt_mutex ≡ k.gt_mutex → IsAt p k → IsAt p k'
IsAt-same (creating i) k k' w same (few, a) = (few, Fresh-same i k k' a w same)
IsAt-same unlocking_165 k k' w same a = Fresh-same 32 k k' a w same
IsAt-same unlocking_23 k k' w same a = Fresh-same 32 k k' a w same
IsAt-same locking_124 k k' w same a = Ready-same none k k' a w same
IsAt-same locking_4 k k' w same a = Ready-same none k k' a w same
IsAt-same locking_4_again k k' w same a = Ready-same (some 4) k k' a w same
IsAt-same unlocking_4 k k' w same a = Ready-same (some 4) k k' a w same
IsAt-same waiting_10000 k k' w same a = Ready-same none k k' a w same
IsAt-same (checking check r expected next) k k' w same (e, a) = (e, IsAt-same next k k' w same a)
IsAt-same ending k k' w same a = Ready-same none k k' a w same
IsAt-same spinning k k' w same a = Ready-same none k k' a w same

pub Fresh-enabled : (i : ℕ) (k : Kernel) → Fresh i k → Fresh i (enabled k)
Fresh-enabled i k a = Fresh-same i k (enabled k) a (enabled-WellFormed k a.well_formed) refl

pub Ready-enabled : (held : Option ℕ) (k : Kernel) → Ready 1 held k → Ready 1 held (enabled k)
Ready-enabled held k a = Ready-same held k (enabled k) a (enabled-WellFormed k a.well_formed) refl

pub Fresh-Ready : (k : Kernel) → Fresh 32 k → Ready 1 none k
Fresh-Ready k a = record {
  well_formed = a.well_formed;
  created = λ j h. a.table.available j h ∙ ground (arith, h);
  locked = a.table.unlocked;
}

pub created-Fresh :
    (i : ℕ) (k : Kernel) (a : Fresh i k) → i < 32 → Fresh (i + 1) (created i k a.table)
created-Fresh i k a small = record {
  well_formed =
      let w = a.well_formed in
      record {
        current = w.current;
        sleeping = w.sleeping;
        inv = created-Inv k w.inv w.best i;
        best = w.best;
      };
  table = created-Table i k a.table small;
  never_held = λ j h. elim (Bool-cases (i == j)) [
    | inl e ↦ rw e (a.never_held i small)
    | inr e ↦ rw e (a.never_held j h)
  ];
}

-- The one task is at its place, and what is printed and what is left to print are `full`.
pub record Sound (full : List Line) (m : SysErr) : Type 0 where
  pub at : IsAt (m.locals 1) m.kernel
  pub printed : m.output ++ remaining (m.locals 1) ≡ full
