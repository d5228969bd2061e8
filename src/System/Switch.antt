-- ===== src/System/Switch.antt =====
-- A dispatch between two tasks that are past their locks.
use embedlab.Prelude.{
  update-same, ℕ, ◌<◌, ◌≤◌, ◌≡◌, refl, ap, sym, subst, ◌∙◌, true, false, Bool-cases, inl, inr, ◌⊎◌,
  none, some, Option-cases, List, has, ◌==◌, if◌then◌else◌, zero-count, arith, update,
}
use embedlab.RunQueue.{RunQueue, runqueue_remove, highest_prio}
use embedlab.RunQueue.Laws.{IsValid, runqueue_remove-IsValid, runqueue_remove_lem}
use embedlab.Kernel.{Kernel, Tcb, Resume}
use embedlab.Device.Queue.{Sleepers}
use embedlab.Dispatch.Laws.{switched, IsNext}
use embedlab.System.Invariant.{live, past_lock, IsTask, IsQueued, IsBest, Inv}
use embedlab.System.Frame.{Sleepers-frame}

-- No task holds a lock or runs: all that are awake stand in `q`.
pub record Poised (n : ℕ) (ys : ℕ → List ℕ) (q : RunQueue) (k : Kernel) : Type 0 where
  pub few : n ≤ 62
  pub valid : IsValid q
  pub own : (p t : ℕ) → q.run_list p ≡ some t → t ≡ p
  pub queued_live : (p t : ℕ) → q.run_list p ≡ some t → live n p ≡ true
  pub idle : q.run_list 63 ≡ some 63
  pub tasks : (t : ℕ) → live n t ≡ true → IsTask t (k.system_tcb t)
  pub placed : (t : ℕ) → live n t ≡ true → IsQueued q.run_list ys t
  pub prios : (t : ℕ) → live n t ≡ true → (k.system_tcb t).cur_prio ≡ t
  pub holds : (t : ℕ) → live n t ≡ true → (k.system_tcb t).holds_lock ≡ 0
  pub unlocked : (m : ℕ) → m < 32 → (k.gt_mutex m).lock ≡ false
  pub no_waiters : (m : ℕ) → m < 32 → (k.gt_mutex m).sleep_queue ≡ none
  pub sleepers : (d : ℕ) → d < 60 → Sleepers k d (ys d)
  pub sleepers_live : (d t : ℕ) → d < 60 → has t (ys d) ≡ true → live n t ≡ true
  pub sleeps_once :
      (d e t : ℕ) → d < 60 → e < 60 → has t (ys d) ≡ true → has t (ys e) ≡ true → d ≡ e
  pub queued_awake : (d p t : ℕ) → d < 60 → q.run_list p ≡ some t → has t (ys d) ≡ false

-- a TCB with its place to go on stored
IsTask-saved :
    (t : ℕ) (b : Tcb) (at : Resume)
    → past_lock at ≡ true
    → IsTask t b
    → IsTask t (record b { resume = at })
IsTask-saved t b at past w = record { native = w.native; awake = w.awake; resumes = past }

module _ (last : ℕ) (at : Resume) (k : Kernel) where
  abbrev pub saved : ℕ → Tcb
  saved = update k.system_tcb last (record (k.system_tcb last) { resume = at })

  pub saved-IsTask : (t : ℕ) → past_lock at ≡ true → IsTask t (k.system_tcb t) → IsTask t (saved t)
  saved-IsTask t past w = elim (Bool-cases (last == t)) [
    | inl e ↦
        rw e (IsTask-saved t _ at past (subst (λ x. IsTask t (k.system_tcb x)) (sym (same e)) w))
    | inr e ↦ rw e w
  ]
    where
      same : (last == t) ≡ true → last ≡ t
      same e = ground (arith, e)

  pub saved-cur_prio : (t : ℕ) → (saved t).cur_prio ≡ (k.system_tcb t).cur_prio
  saved-cur_prio =
      update-same (λ (b : Tcb). b.cur_prio) k.system_tcb last
        (record (k.system_tcb last) { resume = at }) refl

  pub saved-holds_lock : (t : ℕ) → (saved t).holds_lock ≡ (k.system_tcb t).holds_lock
  saved-holds_lock =
      update-same (λ (b : Tcb). b.holds_lock) k.system_tcb last
        (record (k.system_tcb last) { resume = at }) refl

  pub saved-sleep_queue : (t : ℕ) → (saved t).sleep_queue ≡ (k.system_tcb t).sleep_queue
  saved-sleep_queue =
      update-same (λ (b : Tcb). b.sleep_queue) k.system_tcb last
        (record (k.system_tcb last) { resume = at }) refl

-- the task that a dispatch takes from a poised queue runs
module _ {n : ℕ} {ys : ℕ → List ℕ} (q : RunQueue) (k : Kernel) (w : Poised n ys q k) (nx last : ℕ)
    (at : Resume) (next : IsNext q nx) (past : past_lock at ≡ true) where
  abbrev top : ℕ
  top = highest_prio q

  top-own : nx ≡ top
  top-own = w.own top nx next.chosen

  removed :
      (p : ℕ) → (runqueue_remove top q).1.run_list p ≡ (if top == p then none else q.run_list p)
  removed = (runqueue_remove_lem q top w.valid next.prio_lt).1

  kept : (p t : ℕ) → (runqueue_remove top q).1.run_list p ≡ some t → q.run_list p ≡ some t
  kept p t h = ground (arith, removed p, h)

  pub Poised-IsBest : IsBest nx (switched q last at nx k)
  Poised-IsBest p h = elim (Option-cases (q.run_list p)) [
    | inl free ↦ removed p ∙ (if_none p free)
    | inr (t, taken) ↦ absurd (ground (arith, next.least p above, taken))
  ]
    where
      if_none : (p : ℕ) → q.run_list p ≡ none → (if top == p then none else q.run_list p) ≡ none
      if_none p free = ground (arith, free)

      above : p < top
      above = omega (
        arith,
        h,
        saved-cur_prio last at k nx,
        w.prios nx (ap (λ x. live n x) top-own ∙ w.queued_live top nx next.chosen),
        top-own,
      )

  taken :
      (t : ℕ) → q.run_list t ≡ some t → (nx ≡ t) ⊎ IsQueued (runqueue_remove top q).1.run_list ys t
  taken t here = elim (Bool-cases (top == t)) [
    | inl e ↦ inl (ground (arith, top-own, e))
    | inr e ↦ inr (inl (removed t ∙ ground (arith, e, here)))
  ]

  nx_live : live n nx ≡ true
  nx_live = ap (λ x. live n x) top-own ∙ w.queued_live top nx next.chosen

  pub Poised-Inv : Inv n nx ys (switched q last at nx k)
  Poised-Inv = record {
    few = w.few;
    cur = refl;
    cur_live = ap (λ x. live n x) top-own ∙ w.queued_live top nx next.chosen;
    valid = runqueue_remove-IsValid q top w.valid next.prio_lt;
    queue = record {
      own = λ p t h. w.own p t (kept p t h);
      queued_live = λ p t h. w.queued_live p t (kept p t h);
      cur_free = removed nx ∙ ground (arith, top-own);
    };
    idle = λ ne. removed 63 ∙ ground (arith, top-own, ne, w.idle);
    tasks = λ t l. saved-IsTask last at k t past (w.tasks t l);
    placed = λ t l. elim (w.placed t l) [ inl here ↦ taken t here | inr asleep ↦ inr (inr asleep) ];
    cur_prio =
        saved-cur_prio last at k nx
        ∙ (w.prios nx nx_live ∙ ground (arith, saved-holds_lock last at k nx, w.holds nx nx_live));
    others_prio = λ t l ne. saved-cur_prio last at k t ∙ w.prios t l;
    others_hold = λ t l ne. saved-holds_lock last at k t ∙ w.holds t l;
    held =
        saved-holds_lock last at k nx
        ∙ (w.holds nx nx_live ∙ sym (zero-count (λ m. (k.gt_mutex m).lock) 32 w.unlocked));
    holder = λ m h locked. absurd (ground (arith, w.unlocked m h, locked));
    no_waiters = w.no_waiters;
    sleepers = λ d h.
        Sleepers-frame k _ d (ys d) refl (λ t _. saved-sleep_queue last at k t) (w.sleepers d h);
    sleepers_live = w.sleepers_live;
    sleeps_once = w.sleeps_once;
    cur_awake = λ d h. w.queued_awake d top nx h next.chosen;
    queued_awake = λ d p t h e. w.queued_awake d p t h (kept p t e);
  }
