-- ===== src/RunQueue/Spec.antt =====
-- What the run queue promises: a table with one place for each of 64 priorities, from which the
-- occupied place of the least number is taken.
use embedlab.Prelude.{
  ℕ, zero, suc, ◌+◌, ◌≤◌, ◌<◌, ◌≡◌, inl, inr, true, false, arith, Bool-cases, Option, none, some,
  List, [], ◌∷◌, is_some, update, ◌==◌, if◌then◌else◌,
}

abbrev pub Slots : Type 0
Slots = ℕ → Option ℕ

-- the first occupied place among the `n` from `p` on
unfoldable pub first_from : ℕ → ℕ → Slots → Option ℕ
first_from zero p s = none
first_from (suc n) p s = let rest = first_from n (p + 1) s in if is_some (s p) then some p else rest

pub data Op : Type 0 where
  put : (tcb prio : ℕ) → Op
  take_first : Op

unfoldable pub put_slot : ℕ → ℕ → Slots → Slots
put_slot tcb prio s = if is_some (s prio) then s else update s prio (some tcb)

unfoldable pub take_at : Slots → Option ℕ → Option ℕ × Slots
take_at s none = (none, s)
take_at s (some p) = (s p, update s p none)

-- what each `take_first` yields; an empty table yields nothing and stays as it is
unfoldable pub take_slot : Slots → Option ℕ × Slots
unfolding take_at
take_slot s = take_at s (first_from 64 0 s)

unfoldable pub run : Slots → List Op → List (Option ℕ)
unfolding put_slot take_slot first_from
run s [] = []
run s (put tcb prio ∷ ops) = run (put_slot tcb prio s) ops
run s (take_first ∷ ops) = let (t, s') = take_slot s in t ∷ run s' ops

-- what the search finds
module _ (s : Slots) where
  pub data Found (p q : ℕ) : Option ℕ → Type 0 where
    nowhere : ((r : ℕ) → p ≤ r → r < q → is_some (s r) ≡ false) → Found p q none
    at :
        (h : ℕ)
        → p ≤ h
        → h < q
        → is_some (s h) ≡ true
        → ((r : ℕ) → p ≤ r → r < h → is_some (s r) ≡ false)
        → Found p q (some h)

  pub first_from-Found : (n p q : ℕ) → p + n ≡ q → Found p q (first_from n p s)
  unfolding first_from
  first_from-Found zero p q e = nowhere (λ r a b. absurd (omega arith))
  first_from-Found (suc n) p q e = elim (Bool-cases (is_some (s p))) [
    | inl yes_p ↦ rw yes_p (at p (omega arith) (omega arith) yes_p (λ r a b. absurd (omega arith)))
    | inr no_p ↦ rw no_p (widen no_p (first_from-Found n (p + 1) q (omega arith)))
  ]
    where
      widen : {o : Option ℕ} → is_some (s p) ≡ false → Found (p + 1) q o → Found p q o
      widen no_p (nowhere f) = nowhere (λ r a b. elim (Bool-cases (p == r)) [
        | inl e ↦ ground (arith, no_p)
        | inr ne ↦ f r (ground arith) b
      ])
      widen no_p (at h a b t f) = at h (omega arith) b t (λ r c d. elim (Bool-cases (p == r)) [
        | inl e ↦ ground (arith, no_p)
        | inr ne ↦ f r (ground arith) d
      ])
