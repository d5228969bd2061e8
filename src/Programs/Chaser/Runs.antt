-- ===== src/Programs/Chaser/Runs.antt =====
-- Every move of the chase keeps its invariant, so no run of it faults or panics.
use embedlab.Prelude.{
  ℕ, ◌<◌, ◌≡◌, refl, ap, sym, subst, ◌∙◌, true, false, Bool-cases, inl, inr, Option, Bool, not, has,
  Option-cases, none, some, ◌&&◌, List, [], ◌∷◌, ◌==◌, if◌then◌else◌, ltb, arith, update,
}
use embedlab.Kernel.{Kernel}
use embedlab.RunQueue.{TcbPtr}
use embedlab.System.{ticks, step}
use embedlab.Programs.{Move, runs, interrupted, ticked, run_task, move, run}
use embedlab.Programs.Calls.{call-ticks}
use embedlab.Programs.Chaser.{
  Code, Place, Local, Chase, starting, naming, locking, loading, storing, unlocking, waiting,
  checking, showing, judging, ending, looping, refused, failing, panicked, chaser,
}
use embedlab.Programs.Chaser.Sound.{edge, stores, Sound, holding-lt, current}
use embedlab.Programs.Chaser.Moves.{goes}

if_none : (b : Bool) (o : Option ℕ) → o ≡ none → (if b then o else none) ≡ none
if_none true o e = e
if_none false o e = refl

-- a move of the timer, which changes neither the places nor the values
interrupted-Sound :
    {n : ℕ} (icpr oscr : ℕ) (m : Chase) (s : Sound n m)
    → (k' : Kernel) × (ticked m (step (ticks icpr oscr) m.kernel) ≡ some (record m { kernel = k' }))
      × Sound n (record m { kernel = k' })
interrupted-Sound icpr oscr m s =
    let (k', run, r', same) = call-ticks m.kernel s.held icpr oscr s.ready in
    (
      k',
      ap (ticked m) run,
      record {
        held = s.held;
        ready = r';
        owns = λ t. elim (Option-cases s.held) [
          | inl free ↦ s.owns t ∙ (if_none _ s.held free ∙ sym (if_none _ s.held free))
          | inr (j, taken) ↦
              let c = current m s in
              let small : j < 32 =
                holding-lt (m.locals c).cur_mutex (m.locals c).place m.shared j
                  (s.owns c ∙ (ground arith ∙ taken)) (s.fine c) in
              s.owns t ∙ ap (λ x. if x == t then s.held else none) (sym (same j small taken))
        ];
        idle = s.idle;
        fine = s.fine;
      },
    )

-- who stores to value `j` in a move
unfoldable pub turn_of : ℕ → Chase → TcbPtr → List ℕ
turn_of j m none = []
turn_of j m (some t) =
    if not (t == 63) && (stores (m.locals t).place && (m.locals t).cur_mutex == j)
    then t ∷ []
    else []

unfoldable pub turn : ℕ → Move → Chase → List ℕ
unfolding turn_of
turn j runs m = turn_of j m m.kernel.cur_tcb
turn j (interrupted icpr oscr) m = []

-- the changes of a value by tasks, one after the other
unfoldable pub apply_turns : (ℕ → Code) → List ℕ → ℕ → ℕ
apply_turns codes [] v = v
apply_turns codes (t ∷ ts) v = apply_turns codes ts ((codes t).op v)

-- task `t` has changed the value beside mutex `j`, or has begun behind it
abbrev pub passed : ℕ → Local → Bool
passed j l = ltb j (edge l.cur_mutex l.place)

-- what a move does to the values and to who has changed them
pub record Moved (n : ℕ) (codes : ℕ → Code) (x : Move) (m : Chase) : Type 0 where
  pub state : Chase
  pub runs_to : move (chaser codes) x m ≡ some state
  pub sound : Sound n state
  pub stored : (j : ℕ) → state.shared j ≡ apply_turns codes (turn j x m) (m.shared j)
  pub progress :
      (t j : ℕ)
      → passed j (state.locals t) ≡ (if has t (turn j x m) then true else passed j (m.locals t))
  pub first_time : (t j : ℕ) → has t (turn j x m) ≡ true → passed j (m.locals t) ≡ false

storing-edge :
    (j cur : ℕ) (p : Place) → stores p ≡ true → (cur == j) ≡ true → ltb j (edge cur p) ≡ false
storing-edge j cur starting h e = cc
storing-edge j cur naming h e = cc
storing-edge j cur locking h e = cc
storing-edge j cur loading h e = cc
storing-edge j cur (storing v) h e = ground (arith, e)
storing-edge j cur unlocking h e = cc
storing-edge j cur waiting h e = cc
storing-edge j cur (checking i) h e = cc
storing-edge j cur (showing i v) h e = cc
storing-edge j cur (judging i v) h e = cc
storing-edge j cur ending h e = cc
storing-edge j cur looping h e = cc
storing-edge j cur (refused x) h e = cc
storing-edge j cur (failing l) h e = cc
storing-edge j cur panicked h e = cc

module _ {n : ℕ} (codes : ℕ → Code) (devs : (t : ℕ) → (codes t).dev < 60) (m : Chase)
    (s : Sound n m) where
  abbrev now : Local
  now = m.locals (current m s)

  turn-current :
      (j : ℕ)
      → (current m s == 63) ≡ false
      → turn j runs m ≡ (if stores now.place && now.cur_mutex == j then current m s ∷ [] else [])
  unfolding turn
  turn-current j user = ap (λ p. turn_of j m p) s.ready.well_formed.inv.cur ∙ rw user refl

  abbrev its_turn : ℕ → Bool
  its_turn j = stores now.place && now.cur_mutex == j

  turn-took :
      (j : ℕ) → (current m s == 63) ≡ false → its_turn j ≡ true → turn j runs m ≡ current m s ∷ []
  turn-took j user e = turn-current j user ∙ rw e refl

  turn-none : (j : ℕ) → (current m s == 63) ≡ false → its_turn j ≡ false → turn j runs m ≡ []
  turn-none j user e = turn-current j user ∙ rw e refl

  turn-idle : (j : ℕ) → (current m s == 63) ≡ true → turn j runs m ≡ []
  unfolding turn
  turn-idle j idle = ap (λ p. turn_of j m p) s.ready.well_formed.inv.cur ∙ rw idle refl

  abbrev begins : move (chaser codes) runs m ≡ run_task (chaser codes) (some (current m s)) m
  unfolding move
  begins = ap (λ p. run_task (chaser codes) p m) s.ready.well_formed.inv.cur

  idles : (current m s == 63) ≡ true → Moved n codes runs m
  unfolding run_task apply_turns
  idles idle = record {
    state = m;
    runs_to = begins ∙ rw idle refl;
    sound = s;
    stored = λ j. rw (turn-idle j idle) refl;
    progress = λ t j. rw (turn-idle j idle) refl;
    first_time = λ t j h. absurd (ground (arith, h, ap (λ ts. has t ts) (turn-idle j idle)));
  }

  abbrev Changed : Chase → Local → Type 0
  Changed st l = st.locals ≡ update m.locals (current m s) l

  at_current :
      (t j : ℕ) (st : Chase) (l : Local)
      → Changed st l
      → (current m s == t) ≡ true
      → passed j (st.locals t) ≡ passed j l
  at_current t j st l e same = ap (λ f. passed j (f t)) e ∙ rw same refl

  at_other :
      (t j : ℕ) (st : Chase) (l : Local)
      → Changed st l
      → (current m s == t) ≡ false
      → passed j (st.locals t) ≡ passed j (m.locals t)
  at_other t j st l e other = ap (λ f. passed j (f t)) e ∙ rw other refl

  -- the current task passes `j`, or nobody does
  passes_now :
      (t j : ℕ) (st : Chase) (l : Local)
      → Changed st l
      → passed j l ≡ true
      → passed j (st.locals t) ≡ (if has t (current m s ∷ []) then true else passed j (m.locals t))
  passes_now t j st l e goes_by = elim (Bool-cases (current m s == t)) [
    | inl same ↦ at_current t j st l e same ∙ (goes_by ∙ rw same refl)
    | inr other ↦ at_other t j st l e other ∙ rw other refl
  ]

  unmoved :
      (t j : ℕ) (st : Chase) (l : Local)
      → Changed st l
      → passed j l ≡ passed j now
      → passed j (st.locals t) ≡ passed j (m.locals t)
  unmoved t j st l e stays = elim (Bool-cases (current m s == t)) [
    | inl same ↦
        at_current t j st l e same
        ∙ (stays
            ∙ ap (λ x. passed j (m.locals x)) (let y : current m s ≡ t = ground (arith, same) in y))
    | inr other ↦ at_other t j st l e other
  ]

  moves : (current m s == 63) ≡ false → Moved n codes runs m
  unfolding run_task apply_turns chaser
  moves user =
      let c = current m s in
      let g = goes (codes c) (devs c) m s user now.cur_mutex now.place refl (s.fine c) in
      record {
        state = g.state;
        runs_to = begins ∙ (rw user refl ∙ g.runs_to);
        sound = g.sound;
        stored = λ j. elim (Bool-cases (stores now.place && now.cur_mutex == j)) [
          | inl e ↦ g.stored j ∙ rw (turn-current j user, e) refl
          | inr e ↦ g.stored j ∙ rw (turn-current j user, e) refl
        ];
        progress = λ t j. elim (Bool-cases (stores now.place && now.cur_mutex == j)) [
          | inl e ↦
              rw (turn-current j user, e)
                (passes_now t j g.state g.local g.locals (g.progress j ∙ rw e refl))
          | inr e ↦
              rw (turn-current j user, e)
                (unmoved t j g.state g.local g.locals (g.progress j ∙ rw e refl))
        ];
        first_time = λ t j h. elim (Bool-cases (stores now.place && now.cur_mutex == j)) [
          | inl e ↦
              let own : has t (c ∷ []) ≡ true =
                ap (λ ts. has t ts) (sym (turn-took j user e)) ∙ h in
              subst (λ x. passed j (m.locals x) ≡ false) (let y : c ≡ t = ground (arith, own) in y)
                (storing-edge j now.cur_mutex now.place (ground (arith, e)) (ground (arith, e)))
          | inr e ↦ absurd (ground (arith, h, ap (λ ts. has t ts) (turn-none j user e)))
        ];
      }

-- A move keeps the invariant.
pub moved :
    {n : ℕ} (codes : ℕ → Code)
    → ((t : ℕ) → (codes t).dev < 60)
    → (x : Move) (m : Chase) → Sound n m
    → Moved n codes x m
unfolding move turn apply_turns
moved codes devs runs m s = elim (Bool-cases (current m s == 63)) [
  | inl idle ↦ idles codes devs m s idle
  | inr user ↦ moves codes devs m s user
]
moved codes devs (interrupted icpr oscr) m s =
    let (k', run, s') = interrupted-Sound icpr oscr m s in
    record {
      state = record m { kernel = k' };
      runs_to = run;
      sound = s';
      stored = λ j. refl;
      progress = λ t j. refl;
      first_time = λ t j h. cc;
    }
