-- ===== src/Programs/SysErr/Passes.antt =====
-- fun1 and `main` report no failure.
use embedlab.Prelude.{
  ℕ, ◌+◌, ◌<◌, ◌≤◌, ◌≡◌, refl, ap, subst, ◌∙◌, false, Bool-cases, inl, inr, Option, none, some,
  List, [], ◌∷◌, ◌++◌, append_assoc, ◌==◌, ltb, arith, update, neg32, enomem, einval, eperm,
  edeadlock,
}
use embedlab.Kernel.{Kernel}
use embedlab.System.Invariant.{WellFormed}
use embedlab.Programs.{
  Move, runs, interrupted, called, ticked, perform, run_task, move, run, and_run, swi_result,
  swi_errno,
}
use embedlab.Programs.Calls.{call-locks, call-unlocks, ticks_free}
use embedlab.Programs.Creates.{created, call-creates, creates_full}
use embedlab.Programs.SysErr.{
  Line, Place, SysErr, success, ends, creating, unlocking_165, unlocking_23, locking_124, locking_4,
  locking_4_again, unlocking_4, waiting_10000, checking, ending, spinning, check_return, fun1,
  sys_err,
}
use embedlab.Programs.SysErr.Refusals.{
  enabled, call-unlocks-bad, call-unlocks-fresh, call-locks-bad, call-locks-own, call-waits-far,
}
use embedlab.Programs.SysErr.Stage.{
  Fresh, IsAt, remaining, from3, from4, from5, from6, from7, from8, from9, from10,
}
use embedlab.Programs.SysErr.Stays.{
  IsAt-WellFormed, IsAt-same, Fresh-enabled, Ready-enabled, Fresh-Ready, created-Fresh, Sound,
}

module _ (full : List Line) (m : SysErr) where
  abbrev k : Kernel
  k = m.kernel

  abbrev Goes : Option SysErr → Type 0
  Goes o = (m' : SysErr) × (o ≡ some m') × Sound full m'

  -- behind a call
  returns :
      (rest : List Line) (f : ℕ → Place) (r : ℕ) (k' : Kernel) (o : Option (ℕ × Kernel))
      → o ≡ some (r, k')
      → IsAt (f r) k'
      → remaining (f r) ≡ rest
      → m.output ++ rest ≡ full
      → Goes (called 1 f m o)
  returns rest f r k' o run at same printed = (
    record m { kernel = k'; locals = update m.locals 1 (f r) },
    ap (called 1 f m) run,
    record { at = at; printed = ap (λ x. m.output ++ x) same ∙ printed },
  )

  creates_next :
      (i : ℕ)
      → i ≤ 32
      → Fresh i k
      → m.output ++ from3 ≡ full
      → Goes (perform 1 (fun1 (creating i)) m)
  unfolding fun1 perform swi_errno
  creates_next i few a printed = elim (Bool-cases (ltb i 32)) [
    | inl more ↦
        let small : i < 32 = ground (arith, more) in
        rw more (
          returns from3 (λ r. creating (i + 1)) i (created i k a.table) _
            (call-creates i k a.table small) (omega (arith, small), created-Fresh i k a small) refl
            printed)
    | inr done ↦
        let all : i ≡ 32 = ground (arith, done, few) in
        rw done (
          returns from3 (λ r. checking 3 (swi_errno r) enomem unlocking_165) (neg32 enomem)
            (enabled k) _ (creates_full i k a.table all)
            (refl, subst (λ x. Fresh x (enabled k)) all (Fresh-enabled i k a)) refl printed)
  ]

  reports :
      (check r expected : ℕ) (next : Place)
      → r ≡ expected
      → IsAt next k
      → m.output ++ (success check ∷ remaining next) ≡ full
      → Goes (perform 1 (fun1 (checking check r expected next)) m)
  unfolding fun1 perform check_return
  reports check r expected next e at printed =
      let good : check_return r expected check ≡ success check = rw e (ground arith) in
      (
        _,
        refl,
        record {
          at = at;
          printed =
              append_assoc m.output (check_return r expected check ∷ []) (remaining next)
              ∙ (ap (λ l. m.output ++ (l ∷ remaining next)) good ∙ printed);
        },
      )

  goes : (p : Place) → IsAt p k → m.output ++ remaining p ≡ full → Goes (perform 1 (fun1 p) m)
  unfolding fun1 perform swi_errno swi_result
  goes (creating i) (few, a) out = creates_next i few a out
  goes unlocking_165 a out =
      returns from4 _ (neg32 einval) (enabled k) _ (call-unlocks-bad k 165 refl)
        (refl, Fresh-enabled 32 k a) refl out
  goes unlocking_23 a out =
      returns from5 _ (neg32 eperm) (enabled k) _
        (call-unlocks-fresh k 23 a.well_formed.current refl a.well_formed.inv.cur
          (a.never_held 23 (omega arith)))
        (refl, Ready-enabled none k (Fresh-Ready k a)) refl out
  goes locking_124 a out =
      returns from6 _ (neg32 einval) (enabled k) _ (call-locks-bad k 124 refl)
        (refl, Ready-enabled none k a) refl out
  goes locking_4 a out =
      let (k', run, r, _) = call-locks k 4 (omega arith) a in
      returns from7 _ 0 k' _ run (refl, r) refl out
  goes locking_4_again a out =
      returns from8 _ (neg32 edeadlock) (enabled k) _
        (call-locks-own k 4 a.well_formed refl (a.locked 4 (omega arith)))
        (refl, Ready-enabled (some 4) k a) refl out
  goes unlocking_4 a out =
      let (k', run, r) = call-unlocks k 4 (omega arith) a in
      returns from9 _ 0 k' _ run (refl, r) refl out
  goes waiting_10000 a out =
      returns from10 _ (neg32 einval) k _ (call-waits-far k 10000 refl) (refl, a) refl out
  goes (checking check r expected next) (e, a) out = reports check r expected next e a out
  goes ending a out =
      (_, refl, record { at = a; printed = append_assoc m.output (ends ∷ []) [] ∙ out })
  goes spinning a out = (_, refl, record { at = a; printed = out })

-- who runs is the one task or the idle task
one_task : (k : Kernel) (w : WellFormed 1 k) → (w.current == 63) ≡ false → w.current ≡ 1
one_task k w user = ground (arith, w.inv.cur_live, user)

module _ (full : List Line) where
  one :
      (x : Move) (m : SysErr)
      → Sound full m
      → (m' : SysErr) × (move sys_err x m ≡ some m') × Sound full m'
  unfolding move run_task sys_err
  one runs m s =
      let w = IsAt-WellFormed (m.locals 1) m.kernel s.at in
      let cur = ap (λ p. run_task sys_err p m) w.inv.cur in
      elim (Bool-cases (w.current == 63)) [
        | inl idle ↦ (m, cur ∙ rw idle refl, s)
        | inr user ↦
            let now = ap (λ c. run_task sys_err (some c) m) (one_task m.kernel w user) in
            let (m', run, s') = goes full m (m.locals 1) s.at s.printed in (m', cur ∙ now ∙ run, s')
      ]
  one (interrupted icpr oscr) m s =
      let w = IsAt-WellFormed (m.locals 1) m.kernel s.at in
      let (k', run, w', same) = ticks_free m.kernel icpr oscr w in
      (
        record m { kernel = k' },
        ap (ticked m) run,
        record { at = IsAt-same (m.locals 1) m.kernel k' w' same s.at; printed = s.printed },
      )

  pub all_moves :
      (xs : List Move) (m : SysErr)
      → Sound full m
      → (m' : SysErr) × (run sys_err xs m ≡ some m') × Sound full m'
  unfolding run
  all_moves [] m s = (m, refl, s)
  all_moves (x ∷ xs) m s =
      let (m1, first, s1) = one x m s in
      let (m', rest, s') = all_moves xs m1 s1 in
      (m', ap (λ o. and_run o (λ z. run sys_err xs z)) first ∙ rest, s')
