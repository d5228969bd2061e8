-- ===== src/Programs/SysErr.antt =====
-- tasks/sys_err/sys_err.c: what the calls return that must fail, and some that must not.
pub mod Refusals
pub mod Stage
pub mod Stays
pub mod Passes
pub mod Checks
use embedlab.Prelude.{
  ℕ, ◌+◌, Bool, true, false, Option, List, [], ◌∷◌, ◌++◌, ◌==◌, if◌then◌else◌, ltb, enomem, efault,
  einval, eperm, edeadlock,
}
use embedlab.Kernel.{Kernel, K, ◌>>=◌, ◌>>◌, pure}
use embedlab.Mutex.{Exit, returned, suspended}
use embedlab.Schedule.{Task, Float}
use embedlab.Sched.{Addresses}
use embedlab.Proc.{task_create}
use embedlab.System.{Event, creates, locks, unlocks, waits}
use embedlab.Programs.{Act, computes, prints, calls, Machine, swi_result, swi_errno}

abbrev pub max_mutex : ℕ
max_mutex = 32

-- what is printed; a report has the number of its check
pub data Line : Type 0 where
  begins : Line
  success : (check : ℕ) → Line
  failure : (check expected r : ℕ) → Line
  ends : Line

-- `check_return`
unfoldable pub check_return : (r expected check : ℕ) → Line
check_return r expected check = if r == expected then success check else failure check expected r

-- where fun1 is: at a call, or at the `check_return` behind one
pub data Place : Type 0 where
  creating : (i : ℕ) → Place
  unlocking_165 : Place
  unlocking_23 : Place
  locking_124 : Place
  locking_4 : Place
  locking_4_again : Place
  unlocking_4 : Place
  waiting_10000 : Place
  checking : (check r expected : ℕ) → Place → Place
  ending : Place
  spinning : Place

unfoldable pub fun1 : Place → Act Place (Unit {0}) Line
unfolding check_return swi_result swi_errno
fun1 (creating i) =
    if ltb i max_mutex
    then calls creates (λ r. creating (i + 1))
    else calls creates (λ r. checking 3 (swi_errno r) enomem unlocking_165)
fun1 unlocking_165 = calls (unlocks 165) (λ r. checking 4 (swi_errno r) einval unlocking_23)
fun1 unlocking_23 = calls (unlocks 23) (λ r. checking 5 (swi_errno r) eperm locking_124)
fun1 locking_124 = calls (locks 124) (λ r. checking 6 (swi_errno r) einval locking_4)
fun1 locking_4 = calls (locks 4) (λ r. checking 7 (swi_result r) 0 locking_4_again)
fun1 locking_4_again = calls (locks 4) (λ r. checking 8 (swi_errno r) edeadlock unlocking_4)
fun1 unlocking_4 = calls (unlocks 4) (λ r. checking 9 (swi_result r) 0 waiting_10000)
fun1 waiting_10000 = calls (waits 10000) (λ r. checking 10 (swi_errno r) einval ending)
fun1 (checking check r expected next) = prints (check_return r expected check) next
fun1 ending = prints ends spinning
fun1 spinning = computes spinning tt

unfoldable pub sys_err : ℕ → Place → Unit {0} → Act Place (Unit {0}) Line
unfolding fun1
sys_err t place shared = fun1 place

abbrev pub SysErr : Type 0
SysErr = Machine Place (Unit {0}) Line

-- what is done behind a `task_create` that has returned
unfoldable pub if_returned : Exit → List Line → (ℕ → K (Exit × List Line)) → K (Exit × List Line)
if_returned (returned r) out next = next r
if_returned suspended out next = pure (suspended, out)

-- `lambda` is the address of fun1, which the linker chooses.
module _ (lambda : ℕ) where
  abbrev pub the_task : Task
  the_task = record { lambda = lambda; arg = 64; stack_pos = 0xa2000000; c = 1; t = 100; b = 0 }

  -- `main`, up to its last line; `behind` is what stands behind `tasks` in memory, and `elsewhere`
  -- what stands at 0xdeadbeef.
  unfoldable pub main : Float → Addresses → (behind elsewhere : List Task) → K (Exit × List Line)
  unfolding if_returned check_return swi_errno
  main f a behind elsewhere = do
    e1 ← task_create f a (the_task ∷ behind) 65
    if_returned e1 (begins ∷ []) (λ r1. do
      e2 ← task_create f a elsewhere 30
      let first = begins ∷ check_return (swi_errno r1) einval 1 ∷ []
      if_returned e2 first (λ r2. do
        e3 ← task_create f a (the_task ∷ behind) 1
        pure (e3, first ++ (check_return (swi_errno r2) efault 2 ∷ []))))

abbrev pub started : Kernel → List Line → SysErr
started k out = record { kernel = k; locals = λ t. creating 0; shared = tt; output = out }
