-- ===== src/Programs/Chaser/Sound.antt =====
-- The invariant of the chase, and how a move of one task keeps it.
use embedlab.Prelude.{
  ℕ, ◌<◌, ◌≡◌, ◌⊎◌, ◌+◌, Bool, refl, ap, sym, subst, ◌∙◌, true, false, Bool-cases, inl, inr, Option,
  none, some, List, ◌==◌, if◌then◌else◌, arith, update,
}
use embedlab.Kernel.{Kernel}
use embedlab.Programs.Calls.{Ready}
use embedlab.Programs.Chaser.{
  Place, Local, Line, Chase, starting, naming, locking, loading, storing, unlocking, waiting,
  checking, showing, judging, ending, looping, refused, failing, panicked,
}

-- the mutex that a task has, by its place
abbrev pub holding : ℕ → Place → Option ℕ
holding cur starting = none
holding cur naming = none
holding cur locking = none
holding cur loading = some cur
holding cur (storing v) = some cur
holding cur unlocking = some cur
holding cur waiting = none
holding cur (checking i) = none
holding cur (showing i v) = none
holding cur (judging i v) = none
holding cur ending = none
holding cur looping = none
holding cur (refused e) = none
holding cur (failing l) = none
holding cur panicked = none

-- a task that has changed the values below this mutex
abbrev pub edge : ℕ → Place → ℕ
edge cur starting = cur
edge cur naming = cur
edge cur locking = cur
edge cur loading = cur
edge cur (storing v) = cur
edge cur unlocking = cur + 1
edge cur waiting = cur + 1
edge cur (checking i) = cur
edge cur (showing i v) = cur
edge cur (judging i v) = cur
edge cur ending = cur
edge cur looping = cur
edge cur (refused e) = cur
edge cur (failing l) = cur
edge cur panicked = cur

-- the task is about to store a value
abbrev pub stores : Place → Bool
stores starting = false
stores naming = false
stores locking = false
stores loading = false
stores (storing v) = true
stores unlocking = false
stores waiting = false
stores (checking i) = false
stores (showing i v) = false
stores (judging i v) = false
stores ending = false
stores looping = false
stores (refused e) = false
stores (failing l) = false
stores panicked = false

-- the task is between its lock and its unlock
abbrev pub critical : Place → Bool
critical starting = false
critical naming = false
critical locking = false
critical loading = true
critical (storing v) = true
critical unlocking = true
critical waiting = false
critical (checking i) = false
critical (showing i v) = false
critical (judging i v) = false
critical ending = false
critical looping = false
critical (refused e) = false
critical (failing l) = false
critical panicked = false

-- a call has failed
abbrev pub has_failed : Place → Bool
has_failed starting = false
has_failed naming = false
has_failed locking = false
has_failed loading = false
has_failed (storing v) = false
has_failed unlocking = false
has_failed waiting = false
has_failed (checking i) = false
has_failed (showing i v) = false
has_failed (judging i v) = false
has_failed ending = false
has_failed looping = false
has_failed (refused e) = true
has_failed (failing l) = true
has_failed panicked = true

-- No call has failed, and a value that was read is still the one in memory.
abbrev pub IsFine : ℕ → Place → (ℕ → ℕ) → Type 0
IsFine cur starting vals = Unit
IsFine cur naming vals = cur < 32
IsFine cur locking vals = cur < 32
IsFine cur loading vals = cur < 32
IsFine cur (storing v) vals = (cur < 32) × (v ≡ vals cur)
IsFine cur unlocking vals = cur < 32
IsFine cur waiting vals = Unit
IsFine cur (checking i) vals = Unit
IsFine cur (showing i v) vals = Unit
IsFine cur (judging i v) vals = Unit
IsFine cur ending vals = Unit
IsFine cur looping vals = Unit
IsFine cur (refused e) vals = ⊥
IsFine cur (failing l) vals = ⊥
IsFine cur panicked vals = ⊥

-- The kernel's locks agree with the places: only the current task can hold a mutex.
pub record Sound (n : ℕ) (m : Chase) : Type 0 where
  pub held : Option ℕ
  pub ready : Ready n held m.kernel
  pub owns :
      (t : ℕ)
      → holding (m.locals t).cur_mutex (m.locals t).place
        ≡ (if ready.well_formed.current == t then held else none)
  pub idle : holding (m.locals 63).cur_mutex (m.locals 63).place ≡ none
  pub fine : (t : ℕ) → IsFine (m.locals t).cur_mutex (m.locals t).place m.shared

-- who holds nothing does not depend on the values
IsFine-elsewhere :
    (cur : ℕ) (p : Place) (v w : ℕ → ℕ) → holding cur p ≡ none → IsFine cur p v → IsFine cur p w
IsFine-elsewhere cur starting v w out f = f
IsFine-elsewhere cur naming v w out f = f
IsFine-elsewhere cur locking v w out f = f
IsFine-elsewhere cur loading v w out f = f
IsFine-elsewhere cur (storing x) v w out f = cc
IsFine-elsewhere cur unlocking v w out f = f
IsFine-elsewhere cur waiting v w out f = f
IsFine-elsewhere cur (checking i) v w out f = f
IsFine-elsewhere cur (showing i x) v w out f = f
IsFine-elsewhere cur (judging i x) v w out f = f
IsFine-elsewhere cur ending v w out f = f
IsFine-elsewhere cur looping v w out f = f
IsFine-elsewhere cur (refused e) v w out f = f
IsFine-elsewhere cur (failing l) v w out f = f
IsFine-elsewhere cur panicked v w out f = f

pub holding-lt :
    (cur : ℕ) (p : Place) (v : ℕ → ℕ) (m : ℕ) → holding cur p ≡ some m → IsFine cur p v → m < 32
holding-lt cur starting v m h f = cc
holding-lt cur naming v m h f = cc
holding-lt cur locking v m h f = cc
holding-lt cur loading v m h f = ground (arith, h, f)
holding-lt cur (storing x) v m h f = ground (arith, h, f.0)
holding-lt cur unlocking v m h f = ground (arith, h, f)
holding-lt cur waiting v m h f = cc
holding-lt cur (checking i) v m h f = cc
holding-lt cur (showing i x) v m h f = cc
holding-lt cur (judging i x) v m h f = cc
holding-lt cur ending v m h f = cc
holding-lt cur looping v m h f = cc
holding-lt cur (refused e) v m h f = cc
holding-lt cur (failing l) v m h f = cc
holding-lt cur panicked v m h f = cc

module _ {n : ℕ} (m : Chase) (s : Sound n m) where
  abbrev pub current : ℕ
  current = s.ready.well_formed.current

  abbrev pub after : Kernel → Local → (ℕ → ℕ) → List Line → Chase
  after k l vals out = record {
    kernel = k;
    locals = update m.locals current l;
    shared = vals;
    output = out;
  }

  module _ (user : (current == 63) ≡ false) (k : Kernel) (l : Local) (vals : ℕ → ℕ)
      (out : List Line) (r : Ready n (holding l.cur_mutex l.place) k)
      (stays : (r.well_formed.current ≡ current) ⊎ (holding l.cur_mutex l.place ≡ none))
      (ok : IsFine l.cur_mutex l.place vals) where
    abbrev now : ℕ → Local
    now = update m.locals current l

    others : (t : ℕ) → (current == t) ≡ false → now t ≡ m.locals t
    others t e = rw e refl

    others_free :
        (t : ℕ) → (current == t) ≡ false → holding (m.locals t).cur_mutex (m.locals t).place ≡ none
    others_free t e = s.owns t ∙ rw e refl

    owns_now :
        (t : ℕ)
        → holding (now t).cur_mutex (now t).place
          ≡ (if r.well_formed.current == t then holding l.cur_mutex l.place else none)
    owns_now t = elim (Bool-cases (current == t)) [
      | inl e ↦ elim stays [
        | inl same ↦ rw e (rw same (rw e refl))
        | inr free ↦ rw e (rw free (ground arith))
      ]
      | inr e ↦
          ap (λ (x : Local). holding x.cur_mutex x.place) (others t e)
          ∙ (others_free t e
              ∙ (elim stays [ inl same ↦ rw same (rw e refl) | inr free ↦ rw free (ground arith) ]))
    ]

    -- the current task has made a move
    pub moved-Sound : Sound n (after k l vals out)
    moved-Sound = record {
      held = holding l.cur_mutex l.place;
      ready = r;
      owns = owns_now;
      idle = ap (λ (x : Local). holding x.cur_mutex x.place) (others 63 user) ∙ s.idle;
      fine = λ t. elim (Bool-cases (current == t)) [
        | inl e ↦ rw e ok
        | inr e ↦
            subst (λ (x : Local). IsFine x.cur_mutex x.place vals) (sym (others t e))
              (IsFine-elsewhere (m.locals t).cur_mutex (m.locals t).place m.shared vals
                (others_free t e) (s.fine t))
      ];
    }
