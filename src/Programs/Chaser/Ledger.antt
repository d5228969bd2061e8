-- ===== src/Programs/Chaser/Ledger.antt =====
-- What a run of the chase leaves beside a mutex: the changes of the tasks that have passed it, each
-- once and whole.
use embedlab.Prelude.{
  ℕ, ◌<◌, ◌≡◌, refl, ap, sym, subst, ◌∙◌, true, false, Bool-cases, inl, inr, ◌||◌, Option, none,
  some, List, [], ◌∷◌, ◌++◌, has, if◌then◌else◌, not, ◌&&◌, ◌==◌, arith,
}
use embedlab.Kernel.Chain.{Distinct}
use embedlab.RunQueue.{TcbPtr}
use embedlab.Programs.{Move, runs, interrupted, move, run, and_run}
use embedlab.Programs.Chaser.{Code, Chase, chaser}
use embedlab.Programs.Chaser.Sound.{Sound, stores}
use embedlab.Programs.Chaser.Runs.{turn_of, turn, apply_turns, passed, Moved, moved}

abbrev rest_of : Option Chase → (Chase → List ℕ) → List ℕ
rest_of none f = []
rest_of (some m) f = f m

-- the tasks that store to value `j` in a run, in their order
unfoldable pub turns : (ℕ → Code) → ℕ → List Move → Chase → List ℕ
turns codes j [] m = []
turns codes j (x ∷ xs) m = turn j x m ++ rest_of (move (chaser codes) x m) (λ s. turns codes j xs s)

apply_turns-append :
    (codes : ℕ → Code) (xs ys : List ℕ) (v : ℕ)
    → apply_turns codes (xs ++ ys) v ≡ apply_turns codes ys (apply_turns codes xs v)
unfolding apply_turns
apply_turns-append codes [] ys v = refl
apply_turns-append codes (x ∷ xs) ys v = apply_turns-append codes xs ys ((codes x).op v)

has-append : (t : ℕ) (xs ys : List ℕ) → has t (xs ++ ys) ≡ (has t xs || has t ys)
has-append t [] ys = refl
has-append t (x ∷ xs) ys = ground (arith, has-append t xs ys)

append-Distinct :
    (xs ys : List ℕ)
    → Distinct xs
    → Distinct ys
    → ((t : ℕ) → has t xs ≡ true → has t ys ≡ false)
    → Distinct (xs ++ ys)
append-Distinct [] ys dx dy apart = dy
append-Distinct (x ∷ xs) ys dx dy apart = (
  has-append x xs ys ∙ ground (arith, dx.0, apart x (ground arith)),
  append-Distinct xs ys dx.1 dy (λ t h. apart t (ground (arith, h))),
)

turn_of-Distinct : (j : ℕ) (m : Chase) (p : TcbPtr) → Distinct (turn_of j m p)
unfolding turn_of
turn_of-Distinct j m none = tt
turn_of-Distinct j m (some t) =
    elim (Bool-cases
      (not (t == 63) && (stores (m.locals t).place && (m.locals t).cur_mutex == j))) [
        | inl e ↦ rw e (refl, tt)
        | inr e ↦ rw e tt
      ]

turn-Distinct : (j : ℕ) (x : Move) (m : Chase) → Distinct (turn j x m)
unfolding turn
turn-Distinct j runs m = turn_of-Distinct j m m.kernel.cur_tcb
turn-Distinct j (interrupted icpr oscr) m = tt

-- what a run has done
pub record Ran (n : ℕ) (codes : ℕ → Code) (xs : List Move) (m : Chase) : Type 0 where
  pub state : Chase
  pub runs_to : run (chaser codes) xs m ≡ some state
  pub sound : Sound n state
  pub stored : (j : ℕ) → state.shared j ≡ apply_turns codes (turns codes j xs m) (m.shared j)
  pub progress :
      (t j : ℕ)
      → passed j (state.locals t)
        ≡ (if has t (turns codes j xs m) then true else passed j (m.locals t))
  pub first_time : (t j : ℕ) → has t (turns codes j xs m) ≡ true → passed j (m.locals t) ≡ false
  pub distinct : (j : ℕ) → Distinct (turns codes j xs m)

module _ {n : ℕ} (codes : ℕ → Code) (x : Move) (xs : List Move) (m : Chase) (g : Moved n codes x m)
    (r : Ran n codes xs g.state) where
  split : (j : ℕ) → turns codes j (x ∷ xs) m ≡ turn j x m ++ turns codes j xs g.state
  unfolding turns
  split j = ap (λ o. turn j x m ++ rest_of o (λ s. turns codes j xs s)) g.runs_to

  has-split :
      (t j : ℕ)
      → has t (turns codes j (x ∷ xs) m) ≡ (has t (turn j x m) || has t (turns codes j xs g.state))
  has-split t j = ap (has t) (split j) ∙ has-append t (turn j x m) (turns codes j xs g.state)

  -- who has stored before has passed
  apart : (t j : ℕ) → has t (turn j x m) ≡ true → has t (turns codes j xs g.state) ≡ false
  apart t j h = elim (Bool-cases (has t (turns codes j xs g.state))) [
    | inr out ↦ out
    | inl again ↦ absurd (
        ground (
          arith,
          r.first_time t j again,
          g.progress t j,
          ap (λ b. if b then true else passed j (m.locals t)) h,
        ))
  ]

  joined : Ran n codes (x ∷ xs) m
  unfolding run
  joined = record {
    state = r.state;
    runs_to = ap (λ o. and_run o (λ s. run (chaser codes) xs s)) g.runs_to ∙ r.runs_to;
    sound = r.sound;
    stored = λ j.
        r.stored j
        ∙ (ap (apply_turns codes (turns codes j xs g.state)) (g.stored j)
            ∙ (sym (apply_turns-append codes (turn j x m) (turns codes j xs g.state) (m.shared j))
                ∙ ap (λ ts. apply_turns codes ts (m.shared j)) (sym (split j))));
    progress = λ t j. ground (arith, r.progress t j, g.progress t j, has-split t j);
    first_time = λ t j h. elim (Bool-cases (has t (turn j x m))) [
      | inl now ↦ g.first_time t j now
      | inr later ↦
          ground (
            arith,
            g.progress t j,
            later,
            r.first_time t j (ground (arith, has-split t j, h, later)),
          )
    ];
    distinct = λ j.
        subst (λ ts. Distinct ts) (sym (split j))
          (append-Distinct (turn j x m) (turns codes j xs g.state) (turn-Distinct j x m)
            (r.distinct j) (λ t h. apart t j h));
  }

module _ {n : ℕ} (codes : ℕ → Code) (devs : (t : ℕ) → (codes t).dev < 60) where
  pub ran : (xs : List Move) (m : Chase) → Sound n m → Ran n codes xs m
  unfolding run turns apply_turns
  ran [] m s = record {
    state = m;
    runs_to = refl;
    sound = s;
    stored = λ j. refl;
    progress = λ t j. refl;
    first_time = λ t j h. cc;
    distinct = λ j. tt;
  }
  ran (x ∷ xs) m s =
      let g = moved codes devs x m s in joined codes x xs m g (ran xs g.state g.sound)
