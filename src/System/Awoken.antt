-- ===== src/System/Awoken.antt =====
-- The state once a tick has woken the sleepers of every due device, and before the dispatch.
use embedlab.Prelude.{
  ℕ, ◌+◌, ◌<◌, ◌≡◌, ◌≢◌, refl, ap, sym, subst, ◌∙◌, Bool, true, false, ◌&&◌, not, Bool-cases, inl,
  inr, ◌⊎◌, none, some, Option-cases, is_some, List, [], has, if◌then◌else◌, ltb, arith, u32,
}
use embedlab.Kernel.{Kernel, Dev}
use embedlab.RunQueue.Laws.{IsValid}
use embedlab.Device.{freq}
use embedlab.Device.Queue.{Sleepers}
use embedlab.Device.Update.{add_all, due}
use embedlab.System.Invariant.{live, IsQueued, Inv}
use embedlab.System.Frame.{Sleepers-frame}
use embedlab.System.Save.{live-lt}
use embedlab.System.Wakes.{add_all-slots}

module _ {n c : ℕ} {ys : ℕ → List ℕ} (k : Kernel) (i : Inv n c ys k) (millis : ℕ) where
  abbrev pub is_due : ℕ → Bool
  is_due d = ltb d 60 && due k.devices millis d

  -- who still sleeps
  abbrev pub asleep : ℕ → List ℕ
  asleep d = if is_due d then [] else ys d

  pub still : (d t : ℕ) → has t (asleep d) ≡ true → (is_due d ≡ false) × (has t (ys d) ≡ true)
  still d t h = elim (Bool-cases (is_due d)) [
    | inl e ↦ absurd (nobody t (sym (rw e refl) ∙ h))
    | inr e ↦ (e, sym (rw e refl) ∙ h)
  ]
    where
      nobody : (t : ℕ) → false ≢ true
      nobody t h = cc

  -- a list of tasks that sleep on due devices is woken
  module _ (ws : List ℕ)
      (wakes : (t : ℕ)
        → has t ws ≡ true
        → (d : ℕ) × (is_due d ≡ true) × (d < 60) × (has t (ys d) ≡ true))
      (all : (d t : ℕ) → d < 60 → is_due d ≡ true → has t (ys d) ≡ true → has t ws ≡ true)
      (ds : ℕ → Dev)
      (devs : (j : ℕ)
        → ds j ≡ (
            if ltb j 60 && due k.devices millis j
            then record { sleep_q = none; next_match = u32 ((k.devices j).next_match + freq j) }
            else k.devices j))
      (b : Bool) where
    abbrev pub after : Kernel
    after = record k { devices = ds; run_queue = add_all k.system_tcb ws k.run_queue; irq_on = b }

    woken-live : (t : ℕ) → has t ws ≡ true → live n t ≡ true
    woken-live t h = let (d, _, small, asleep) = wakes t h in i.sleepers_live d t small asleep

    filled :
        IsValid after.run_queue
        × ((p : ℕ)
            → after.run_queue.run_list p ≡ (
                if has p ws && not (is_some (k.run_queue.run_list p))
                then some p
                else k.run_queue.run_list p))
    filled =
        add_all-slots k.system_tcb ws k.run_queue
          (λ t h. ((i.tasks t (woken-live t h)).native, live-lt n t i.few (woken-live t h))) i.valid

    slot :
        (p t : ℕ)
        → after.run_queue.run_list p ≡ some t
        → (k.run_queue.run_list p ≡ some t) ⊎ ((has p ws ≡ true) × (p ≡ t))
    slot p t h = elim (Bool-cases (has p ws && not (is_some (k.run_queue.run_list p)))) [
      | inl new ↦ inr (ground (arith, new), ground (arith, filled.1 p, h, new))
      | inr old ↦ inl (ground (arith, filled.1 p, h, old))
    ]

    cur_out : has c ws ≡ false
    cur_out = elim (Bool-cases (has c ws)) [
      | inl e ↦
          let (d, _, small, asleep) = wakes c e in
          absurd (ground (arith, i.cur_awake d small, asleep))
      | inr e ↦ e
    ]

    emptied :
        (d : ℕ)
        → is_due d ≡ true
        → ds d ≡ record { sleep_q = none; next_match = u32 ((k.devices d).next_match + freq d) }
    emptied d e = devs d ∙ rw e refl

    unchanged : (d : ℕ) → is_due d ≡ false → ds d ≡ k.devices d
    unchanged d e = devs d ∙ rw e refl

    Sleepers-now : (d : ℕ) → d < 60 → Sleepers after d (asleep d)
    Sleepers-now d h = elim (Bool-cases (is_due d)) [
      | inl e ↦ rw e (record {
        chain = ap (λ (v : Dev). v.sleep_q) (emptied d e);
        distinct = tt;
        fits = omega arith;
      })
      | inr e ↦
          rw e (Sleepers-frame k after d (ys d) (unchanged d e) (λ t _. refl) (i.sleepers d h))
    ]

    awake_slot : (t : ℕ) → has t ws ≡ true → after.run_queue.run_list t ≡ some t
    awake_slot t h = elim (Option-cases (k.run_queue.run_list t)) [
      | inl free ↦ filled.1 t ∙ ground (arith, h, free)
      | inr (s, taken) ↦ filled.1 t ∙ ground (arith, h, taken, i.queue.own t s taken)
    ]

    place_of :
        (t : ℕ)
        → (c ≡ t) ⊎ IsQueued k.run_queue.run_list ys t
        → (c ≡ t) ⊎ IsQueued after.run_queue.run_list asleep t
    place_of t (inl e) = inl e
    place_of t (inr (inl here)) = inr (inl (filled.1 t ∙ ground (arith, here)))
    place_of t (inr (inr (d, h, there))) = elim (Bool-cases (is_due d)) [
      | inl on ↦ inr (inl (awake_slot t (all d t h on there)))
      | inr off ↦ inr (inr (d, h, rw off there))
    ]

    not_asleep : (d t : ℕ) → d < 60 → has t (ys d) ≡ false → has t (asleep d) ≡ false
    not_asleep d t h out = elim (Bool-cases (has t (asleep d))) [
      | inl e ↦ absurd (ground (arith, (still d t e).1, out))
      | inr e ↦ e
    ]

    woken_out : (d p : ℕ) → d < 60 → has p ws ≡ true → has p (asleep d) ≡ false
    woken_out d p h awoken = elim (Bool-cases (has p (asleep d))) [
      | inr e ↦ e
      | inl e ↦
          let (f, on, small, there) = wakes p awoken in
          let (off, here) = still d p e in
          absurd (ground (arith, ap is_due (i.sleeps_once d f p h small here there), on, off))
    ]

    pub after-Inv : Inv n c asleep after
    after-Inv = record {
      few = i.few;
      cur = i.cur;
      cur_live = i.cur_live;
      valid = filled.0;
      queue = record {
        own = λ p t h. elim (slot p t h) [ inl old ↦ i.queue.own p t old | inr (_, new) ↦ sym new ];
        queued_live = λ p t h. elim (slot p t h) [
          | inl old ↦ i.queue.queued_live p t old
          | inr (awoken, _) ↦ woken-live p awoken
        ];
        cur_free = filled.1 c ∙ ground (arith, cur_out, i.queue.cur_free);
      };
      idle = λ ne. filled.1 63 ∙ ground (arith, i.idle ne);
      tasks = i.tasks;
      placed = λ t l. place_of t (i.placed t l);
      cur_prio = i.cur_prio;
      others_prio = i.others_prio;
      others_hold = i.others_hold;
      held = i.held;
      holder = i.holder;
      no_waiters = i.no_waiters;
      sleepers = Sleepers-now;
      sleepers_live = λ d t h l. i.sleepers_live d t h (still d t l).1;
      sleeps_once = λ d e t h g l m. i.sleeps_once d e t h g (still d t l).1 (still e t m).1;
      cur_awake = λ d h. not_asleep d c h (i.cur_awake d h);
      queued_awake = λ d p t h taken. elim (slot p t taken) [
        | inl old ↦ not_asleep d t h (i.queued_awake d p t h old)
        | inr (awoken, new) ↦ subst (λ x. has x (asleep d) ≡ false) new (woken_out d p h awoken)
      ];
    }
