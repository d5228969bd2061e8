-- ===== src/System/Save.antt =====
-- `dispatch_save` between two steps: it keeps the invariant, whether the current task holds locks,
-- and goes on, or not.
use embedlab.Prelude.{
  ℕ, ◌<◌, ◌≤◌, ◌≡◌, refl, ap, sym, subst, ◌∙◌, true, false, ◌&&◌, not, Bool-cases, inl, inr, ◌⊎◌,
  none, some, Option-cases, is_some, List, has, ◌==◌, if◌then◌else◌, count-zero, arith,
}
use embedlab.RunQueue.{runqueue_remove, highest_prio}
use embedlab.RunQueue.Laws.{
  IsValid, runqueue_add-IsValid, run_list-runqueue_add, runqueue_remove-IsValid,
  runqueue_remove_lem,
}
use embedlab.Kernel.{Kernel, Resume}
use embedlab.Dispatch.{dispatch_save}
use embedlab.Dispatch.Laws.{switched, IsNext, dispatch_save_lem, with_current}
use embedlab.System.Invariant.{live, past_lock, IsQueued, IsBest, Inv}
use embedlab.System.Frame.{Sleepers-frame}
use embedlab.System.Switch.{
  Poised, Poised-Inv, Poised-IsBest, saved-IsTask, saved-cur_prio, saved-holds_lock,
  saved-sleep_queue,
}

pub live-lt : (n t : ℕ) → n ≤ 62 → live n t ≡ true → t < 64
live-lt n t few l = ground (arith, few, l)

module _ {n c : ℕ} {ys : ℕ → List ℕ} (k : Kernel) (i : Inv n c ys k) where
  own_prio : ℕ
  own_prio = (k.system_tcb c).cur_prio

  prio_small : own_prio < 64
  unfolding own_prio
  prio_small = ground (arith, i.cur_prio, live-lt n c i.few i.cur_live)

  added :
      (p : ℕ)
      → (with_current c k).run_list p ≡ (
          if own_prio == p && not (is_some (k.run_queue.run_list own_prio))
          then some c
          else k.run_queue.run_list p)
  unfolding own_prio
  added = unfold prio_small in run_list-runqueue_add k.run_queue c own_prio i.valid prio_small

  added-IsValid : IsValid (with_current c k)
  unfolding own_prio
  added-IsValid = runqueue_add-IsValid k.run_queue c own_prio i.valid prio_small

  -- no lock is held: the current task joins the run queue in its own slot
  module _ (free : (k.system_tcb c).holds_lock ≡ 0) where
    own_slot : own_prio ≡ c
    unfolding own_prio
    own_slot = i.cur_prio ∙ ground (arith, free)

    joined :
        (p : ℕ)
        → (with_current c k).run_list p ≡ (if c == p then some c else k.run_queue.run_list p)
    joined p = ground (arith, added p, own_slot, i.queue.cur_free)

    idle_queued : (with_current c k).run_list 63 ≡ some 63
    idle_queued = elim (Bool-cases (c == 63)) [
      | inl e ↦ joined 63 ∙ ground (arith, e)
      | inr e ↦ joined 63 ∙ ground (arith, e, i.idle e)
    ]

    slot_of :
        (t : ℕ)
        → (c ≡ t) ⊎ IsQueued k.run_queue.run_list ys t
        → IsQueued (with_current c k).run_list ys t
    slot_of t (inl e) = inl (joined t ∙ ground (arith, e))
    slot_of t (inr (inl here)) = elim (Bool-cases (c == t)) [
      | inl e ↦ inl (joined t ∙ ground (arith, e))
      | inr e ↦ inl (joined t ∙ (rw e here))
    ]
    slot_of t (inr (inr asleep)) = inr asleep

    joined-Poised : Poised n ys (with_current c k) k
    joined-Poised = record {
      few = i.few;
      valid = added-IsValid;
      own = λ p t h. elim (Bool-cases (c == p)) [
        | inl e ↦ ground (arith, joined p, h, e)
        | inr e ↦ i.queue.own p t (sym (joined p ∙ rw e refl) ∙ h)
      ];
      queued_live = λ p t h. elim (Bool-cases (c == p)) [
        | inl e ↦ subst (λ x. live n x ≡ true) (let s : c ≡ p = ground (arith, e) in s) i.cur_live
        | inr e ↦ i.queue.queued_live p t (sym (joined p ∙ rw e refl) ∙ h)
      ];
      idle = idle_queued;
      tasks = i.tasks;
      placed = λ t l. slot_of t (i.placed t l);
      prios = λ t l. elim (Bool-cases (c == t)) [
        | inl e ↦ ground (
          arith,
          i.cur_prio,
          free,
          ap (λ x. (k.system_tcb x).cur_prio) (let s : c ≡ t = ground (arith, e) in s),
        )
        | inr e ↦ i.others_prio t l (ground (arith, e))
      ];
      holds = λ t l. elim (Bool-cases (c == t)) [
        | inl e ↦ ground (
          arith,
          free,
          ap (λ x. (k.system_tcb x).holds_lock) (let s : c ≡ t = ground (arith, e) in s),
        )
        | inr e ↦ i.others_hold t l (ground (arith, e))
      ];
      unlocked = count-zero (λ m. (k.gt_mutex m).lock) 32 (sym i.held ∙ free);
      no_waiters = i.no_waiters;
      sleepers = i.sleepers;
      sleepers_live = i.sleepers_live;
      sleeps_once = i.sleeps_once;
      queued_awake = λ d p t h e. elim (Bool-cases (c == p)) [
        | inl eq ↦
            subst (λ x. has x (ys d) ≡ false) (ground (arith, joined p, e, eq)) (i.cur_awake d h)
        | inr ne ↦ i.queued_awake d p t h (sym (joined p ∙ rw ne refl) ∙ e)
      ];
    }

  -- a lock is held: the current task joins the run queue at the highest priority, and is taken again
  module _ (busy : ((k.system_tcb c).holds_lock == 0) ≡ false) (nx : ℕ)
      (next : IsNext (with_current c k) nx) (at : Resume) (past : past_lock at ≡ true) where
    abbrev top : ℕ
    top = highest_prio (with_current c k)

    top_slot : own_prio ≡ 0
    unfolding own_prio
    top_slot = i.cur_prio ∙ ground (arith, busy)

    zero_free : k.run_queue.run_list 0 ≡ none
    zero_free = elim (Option-cases (k.run_queue.run_list 0)) [
      | inl e ↦ e
      | inr (t, e) ↦ absurd (ground (arith, i.queue.queued_live 0 t e))
    ]

    in_front :
        (p : ℕ)
        → (with_current c k).run_list p ≡ (if 0 == p then some c else k.run_queue.run_list p)
    in_front p = ground (arith, added p, top_slot, zero_free)

    top-zero : top ≡ 0
    top-zero = elim (Bool-cases (0 == top)) [
      | inl e ↦ ground (arith, e)
      | inr e ↦ absurd (ground (arith, next.least 0 (ground (arith, e)), in_front 0))
    ]

    again : nx ≡ c
    again = ground (arith, next.chosen, in_front top, top-zero)

    as_before :
        (p : ℕ) → (runqueue_remove top (with_current c k)).1.run_list p ≡ k.run_queue.run_list p
    as_before p =
        (runqueue_remove_lem (with_current c k) top added-IsValid next.prio_lt).1 p
        ∙ ground (arith, in_front p, top-zero, zero_free)

    IsQueued-still :
        (t : ℕ)
        → (c ≡ t) ⊎ IsQueued k.run_queue.run_list ys t
        → (c ≡ t) ⊎ IsQueued (runqueue_remove top (with_current c k)).1.run_list ys t
    IsQueued-still t (inl e) = inl e
    IsQueued-still t (inr (inl here)) = inr (inl (as_before t ∙ here))
    IsQueued-still t (inr (inr asleep)) = inr (inr asleep)

    goes_on-Inv : Inv n c ys (switched (with_current c k) c at c k)
    goes_on-Inv = record {
      few = i.few;
      cur = refl;
      cur_live = i.cur_live;
      valid = runqueue_remove-IsValid (with_current c k) top added-IsValid next.prio_lt;
      queue = record {
        own = λ p t h. i.queue.own p t (sym (as_before p) ∙ h);
        queued_live = λ p t h. i.queue.queued_live p t (sym (as_before p) ∙ h);
        cur_free = as_before c ∙ i.queue.cur_free;
      };
      idle = λ ne. as_before 63 ∙ i.idle ne;
      tasks = λ t l. saved-IsTask c at k t past (i.tasks t l);
      placed = λ t l. IsQueued-still t (i.placed t l);
      cur_prio =
          saved-cur_prio c at k c
          ∙ (i.cur_prio ∙ ap (λ h. if h == 0 then c else 0) (sym (saved-holds_lock c at k c)));
      others_prio = λ t l ne. saved-cur_prio c at k t ∙ i.others_prio t l ne;
      others_hold = λ t l ne. saved-holds_lock c at k t ∙ i.others_hold t l ne;
      held = saved-holds_lock c at k c ∙ i.held;
      holder = i.holder;
      no_waiters = i.no_waiters;
      sleepers = λ d h.
          Sleepers-frame k _ d (ys d) refl (λ t _. saved-sleep_queue c at k t) (i.sleepers d h);
      sleepers_live = i.sleepers_live;
      sleeps_once = i.sleeps_once;
      cur_awake = i.cur_awake;
      queued_awake = λ d p t h e. i.queued_awake d p t h (sym (as_before p) ∙ e);
    }

  -- whoever is chosen, the invariant holds
  pub chosen-Inv :
      (at : Resume) (nx : ℕ)
      → past_lock at ≡ true
      → IsNext (with_current c k) nx
      → Inv n nx ys (switched (with_current c k) c at nx k)
  chosen-Inv at nx past next = elim (Bool-cases ((k.system_tcb c).holds_lock == 0)) [
    | inl e ↦ Poised-Inv (with_current c k) k (joined-Poised (ground (arith, e))) nx c at next past
    | inr e ↦
        subst (λ x. Inv n x ys (switched (with_current c k) c at x k))
          (sym (again e nx next at past)) (goes_on-Inv e nx next at past)
  ]

  pub chosen-IsBest :
      (at : Resume) (nx : ℕ)
      → past_lock at ≡ true
      → IsNext (with_current c k) nx
      → IsBest nx (switched (with_current c k) c at nx k)
  chosen-IsBest at nx past next = elim (Bool-cases ((k.system_tcb c).holds_lock == 0)) [
    | inl e ↦
        Poised-IsBest (with_current c k) k (joined-Poised (ground (arith, e))) nx c at next past
    | inr e ↦ λ p h. absurd (
        ground (
          arith,
          h,
          saved-cur_prio c at k nx,
          i.cur_prio,
          e,
          ap (λ x. (k.system_tcb x).cur_prio) (again e nx next at past),
        ))
  ]

  pub dispatch_save-Inv :
      (at : Resume)
      → past_lock at ≡ true
      → (nx : ℕ) × IsNext (with_current c k) nx
        × (dispatch_save at k ≡ some (tt, switched (with_current c k) c at nx k))
        × Inv n nx ys (switched (with_current c k) c at nx k)
        × IsBest nx (switched (with_current c k) c at nx k)
  unfolding own_prio
  dispatch_save-Inv at past =
      let (nx, next, run) =
        dispatch_save_lem k at c i.cur i.valid prio_small
          (ground (arith, (i.tasks c i.cur_live).awake)) in
      (nx, next, run, chosen-Inv at nx past next, chosen-IsBest at nx past next)
