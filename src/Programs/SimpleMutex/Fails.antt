-- ===== src/Programs/SimpleMutex/Fails.antt =====
-- fun3 of simple_mutex takes the mutex and then waits for its device, which the kernel refuses.
use embedlab.Prelude.{
  ℕ, ◌≤◌, ◌≡◌, ◌≢◌, refl, ap, sym, ◌∙◌, true, false, not, Option, some, List, [], ◌∷◌, ◌++◌, ◌==◌,
  ltb, update, neg32, eholdslock, arith,
}
use embedlab.Kernel.{Kernel, Tcb}
use embedlab.Mutex.{bad_mutex}
use embedlab.Mutex.Lock.{mutex_lock_free}
use embedlab.Device.Queue.{dev_wait_refused}
use embedlab.Proc.{event_wait}
use embedlab.System.{waits, handle, settle}
use embedlab.Programs.{Move, runs, run, run_task, move, perform, called, call, and_run, swi_result}
use embedlab.Programs.SimpleMutex.{
  Simple, Place, testing3, clearing3, waiting, printing3, panicked, dev_failed, failing,
  simple_mutex, next_act,
}

-- A task that has a mutex cannot wait.
pub call-waits-holding :
    (d c : ℕ) (k : Kernel)
    → d ≤ 60
    → k.cur_tcb ≡ some c
    → (k.system_tcb c).holds_lock ≢ 0
    → call (waits d) k ≡ some (neg32 eholdslock, record k { irq_on = false })
unfolding call handle settle event_wait
call-waits-holding d c k small cur holds =
    let near : ltb 60 d ≡ false = ground (arith, small) in
    rw (near, dev_wait_refused d c k cur holds) refl

module _ (strs : ℕ → ℕ) (c : ℕ) (user : (c == 63) ≡ false) where
  -- the next move of the current task
  moves_on :
      (m : Simple) (p : Place) (o : Option Simple)
      → m.kernel.cur_tcb ≡ some c
      → m.locals c ≡ p
      → perform c (next_act (strs c) p m.shared) m ≡ o
      → move (simple_mutex strs) runs m ≡ o
  unfolding move run_task simple_mutex
  moves_on m p o cur here run =
      ap (λ q. run_task (simple_mutex strs) q m) cur
      ∙ (rw user refl ∙ (ap (λ q. perform c (next_act (strs c) q m.shared) m) here ∙ run))

  then_run :
      (m m1 : Simple) (xs : List Move) (o : Option Simple)
      → move (simple_mutex strs) runs m ≡ some m1
      → run (simple_mutex strs) xs m1 ≡ o
      → run (simple_mutex strs) (runs ∷ xs) m ≡ o
  unfolding run
  then_run m m1 xs o first rest =
      ap (λ z. and_run z (λ s. run (simple_mutex strs) xs s)) first ∙ rest

  placed : (m : Simple) (p : Place) → update m.locals c p c ≡ p
  placed m p = ground arith

  -- the last two moves: the refusal, and the message
  refused :
      (m : Simple)
      → m.kernel.cur_tcb ≡ some c
      → m.locals c ≡ waiting 2 printing3
      → (m.kernel.system_tcb c).holds_lock ≢ 0
      → (m' : Simple) × (run (simple_mutex strs) (runs ∷ runs ∷ []) m ≡ some m')
        × (m'.locals c ≡ panicked)
        × (m'.output ≡ m.output ++ (dev_failed 2 ∷ []))
  unfolding next_act perform swi_result run
  refused m cur here holds =
      let k' : Kernel = record m.kernel { irq_on = false } in
      let m1 : Simple = record m { kernel = k'; locals = update m.locals c (failing 2) } in
      let m2 : Simple = record m1 {
        locals = update m1.locals c panicked;
        output = m.output ++ (dev_failed 2 ∷ []);
      } in
      (
        m2,
        then_run m m1 (runs ∷ []) (some m2)
            (moves_on m (waiting 2 printing3) (some m1) cur here
              (ap (called c _ m) (call-waits-holding 2 c m.kernel (omega arith) cur holds)))
            (then_run m1 m2 [] (some m2)
              (moves_on m1 (failing 2) (some m2) cur (placed m (failing 2)) refl) refl),
        placed m1 panicked,
        refl,
      )

  -- Let the task of fun3 be the current one, on its way to a mutex that exists and is free. In its
  -- next four moves, without an interrupt between them, it gets the mutex, its wait for device 2 is
  -- refused since it has a lock, and it prints that the device has failed and panics.
  pub fun3-panics :
      (m : Simple)
      → m.kernel.cur_tcb ≡ some c
      → m.locals c ≡ testing3
      → m.shared.even_t3 ≢ 0
      → bad_mutex m.shared.mid ≡ false
      → (m.kernel.gt_mutex m.shared.mid).lock ≡ false
      → (m' : Simple) × (run (simple_mutex strs) (runs ∷ runs ∷ runs ∷ runs ∷ []) m ≡ some m')
        × (m'.locals c ≡ panicked)
        × (m'.output ≡ m.output ++ (dev_failed 2 ∷ []))
  unfolding next_act perform call handle settle
  fun3-panics m cur here even good free =
      let (k', locked, a) = mutex_lock_free m.shared.mid c m.kernel good cur free in
      let first : (not (m.shared.even_t3 == 0)) ≡ true = ground (arith, even) in
      let m1 : Simple = record m { kernel = k'; locals = update m.locals c clearing3 } in
      let m2 : Simple = record m1 {
        locals = update m1.locals c (waiting 2 printing3);
        shared = record m.shared { even_t3 = 0 };
      } in
      let cur1 : k'.cur_tcb ≡ some c = ap (λ (s : Kernel). s.cur_tcb) a.rest ∙ cur in
      let holds : (k'.system_tcb c).holds_lock ≢ 0 =
        λ e. absurd (omega (arith, sym e ∙ ap (λ (b : Tcb). b.holds_lock) a.owner)) in
      let (m', ends, last, out) = refused m2 cur1 (placed m1 (waiting 2 printing3)) holds in
      (
        m',
        then_run m m1 (runs ∷ runs ∷ runs ∷ []) (some m')
            (moves_on m testing3 (some m1) cur here (rw first (rw locked refl)))
            (then_run m1 m2 (runs ∷ runs ∷ []) (some m')
              (moves_on m1 clearing3 (some m2) cur1 (placed m clearing3) refl) ends),
        last,
        out,
      )
