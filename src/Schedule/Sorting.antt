-- ===== src/Schedule/Sorting.antt =====
-- The loops of `assign_schedule` sort all the entries that they touch by period.
use mathlib.Core.List.{Perm}
use mathlib.Core.List.Perm
use embedlab.Prelude.{
  ℕ, zero, suc, ◌+◌, ◌≤◌, ◌≡◌, refl, false, ltb, if◌then◌else◌, List, [], ◌∷◌, length, All, arith,
  Bool-cases, inl, inr, drop,
}
use embedlab.Schedule.{Task, bubble, passes}

-- every entry of `xs` has a period of at least `n`
abbrev pub AtLeast : ℕ → List Task → Type 0
AtLeast n xs = All (λ (x : Task). n ≤ x.t) xs

abbrev pub IsSorted : List Task → Type 0
IsSorted [] = Unit
IsSorted (x ∷ xs) = AtLeast x.t xs × IsSorted xs

-- From position `i` on, each entry is at least as large as all entries before it.
abbrev SortedFrom : ℕ → List Task → Type 0
SortedFrom i [] = Unit
SortedFrom zero (x ∷ xs) = AtLeast x.t xs × SortedFrom zero xs
SortedFrom (suc i) (x ∷ xs) = AtLeast x.t (drop i xs) × SortedFrom i xs

length-bubble : (n : ℕ) (xs : List Task) → length (bubble n xs) ≡ length xs
unfolding bubble
length-bubble zero xs = refl
length-bubble (suc n) [] = refl
length-bubble (suc n) (x ∷ []) = refl
length-bubble (suc n) (x ∷ y ∷ xs) =
    omega (arith, length-bubble n ((if ltb y.t x.t then x else y) ∷ xs))

pub bubble-perm : (n : ℕ) (xs : List Task) → Perm (bubble n xs) xs
unfolding bubble
bubble-perm zero xs = Perm.refl xs
bubble-perm (suc n) [] = Perm.refl []
bubble-perm (suc n) (x ∷ []) = Perm.refl (x ∷ [])
bubble-perm (suc n) (x ∷ y ∷ xs) = elim (Bool-cases (ltb y.t x.t)) [
  | inl swap ↦ rw swap (Perm.trans (Perm.cons y (bubble-perm n (x ∷ xs))) (Perm.swap x y xs))
  | inr keep ↦ rw keep (Perm.cons x (bubble-perm n (y ∷ xs)))
]

AtLeast-mono : (m n : ℕ) (xs : List Task) → m ≤ n → AtLeast n xs → AtLeast m xs
AtLeast-mono m n [] h a = tt
AtLeast-mono m n (x ∷ xs) h a = (omega (arith, a.0), AtLeast-mono m n xs h a.1)

drop-AtLeast : (m j : ℕ) (xs : List Task) → AtLeast m xs → AtLeast m (drop j xs)
drop-AtLeast m zero xs a = a
drop-AtLeast m (suc j) [] a = tt
drop-AtLeast m (suc j) (x ∷ xs) a = drop-AtLeast m j xs a.1

-- what is at least `m` behind position `j` and at the head, is so after a pass
bubble-AtLeast :
    (m n j : ℕ) (x : Task) (xs : List Task)
    → m ≤ x.t
    → AtLeast m (drop j xs)
    → length xs ≤ n
    → AtLeast m (drop j (bubble n (x ∷ xs)))
unfolding bubble
bubble-AtLeast m zero j x [] h a l = drop-AtLeast m j (x ∷ []) (h, tt)
bubble-AtLeast m zero j x (y ∷ xs) h a l = absurd (omega arith)
bubble-AtLeast m (suc n) j x [] h a l = drop-AtLeast m j (x ∷ []) (h, tt)
bubble-AtLeast m (suc n) zero x (y ∷ xs) h a l = elim (Bool-cases (ltb y.t x.t)) [
  | inl swap ↦ rw swap (a.0, bubble-AtLeast m n zero x xs h a.1 (omega arith))
  | inr keep ↦ rw keep (h, bubble-AtLeast m n zero y xs a.0 a.1 (omega arith))
]
bubble-AtLeast m (suc n) (suc j) x (y ∷ xs) h a l = elim (Bool-cases (ltb y.t x.t)) [
  | inl swap ↦ rw swap (bubble-AtLeast m n j x xs h a (omega arith))
  | inr keep ↦ rw keep (bubble-AtLeast m n j y xs (ground arith) a (omega arith))
]

-- a pass sorts one more position from the end
bubble-SortedFrom :
    (n i : ℕ) (xs : List Task)
    → length xs ≤ suc n
    → SortedFrom (suc i) xs
    → SortedFrom i (bubble n xs)
unfolding bubble
bubble-SortedFrom zero i [] l s = tt
bubble-SortedFrom zero zero (x ∷ []) l s = (tt, tt)
bubble-SortedFrom zero (suc i) (x ∷ []) l s = (drop-AtLeast x.t i [] tt, tt)
bubble-SortedFrom zero i (x ∷ y ∷ xs) l s = absurd (omega arith)
bubble-SortedFrom (suc n) i [] l s = tt
bubble-SortedFrom (suc n) zero (x ∷ []) l s = (tt, tt)
bubble-SortedFrom (suc n) (suc i) (x ∷ []) l s = (drop-AtLeast x.t i [] tt, tt)
bubble-SortedFrom (suc n) zero (x ∷ y ∷ xs) l s =
    let keep : ltb y.t x.t ≡ false = ground (arith, s.0.0) in
    rw keep (
      bubble-AtLeast x.t n zero y xs s.0.0 s.0.1 (omega arith),
      bubble-SortedFrom n zero (y ∷ xs) (omega arith) s.1,
    )
bubble-SortedFrom (suc n) (suc j) (x ∷ y ∷ xs) l s = elim (Bool-cases (ltb y.t x.t)) [
  | inl swap ↦ rw swap (
    bubble-AtLeast y.t n j x xs (ground arith) s.1.0 (omega arith),
    bubble-SortedFrom n j (x ∷ xs) (omega arith) (s.0, s.1.1),
  )
  | inr keep ↦ rw keep (
    bubble-AtLeast x.t n j y xs (ground arith) s.0 (omega arith),
    bubble-SortedFrom n j (y ∷ xs) (omega arith) s.1,
  )
]

SortedFrom-length : (i : ℕ) (xs : List Task) → length xs ≤ i → SortedFrom i xs
SortedFrom-length i [] h = tt
SortedFrom-length zero (x ∷ xs) h = absurd (omega arith)
SortedFrom-length (suc i) (x ∷ xs) h =
    (drop_all x.t i xs (omega arith), SortedFrom-length i xs (omega arith))
  where
    drop_all : (m i : ℕ) (ys : List Task) → length ys ≤ i → AtLeast m (drop i ys)
    drop_all m zero [] h = tt
    drop_all m zero (y ∷ ys) h = absurd (omega arith)
    drop_all m (suc i) [] h = tt
    drop_all m (suc i) (y ∷ ys) h = drop_all m i ys (omega arith)

IsSorted-of_zero : (xs : List Task) → SortedFrom zero xs → IsSorted xs
IsSorted-of_zero [] s = tt
IsSorted-of_zero (x ∷ xs) s = (s.0, IsSorted-of_zero xs s.1)

IsSorted-of_one : (xs : List Task) → SortedFrom 1 xs → IsSorted xs
IsSorted-of_one [] s = tt
IsSorted-of_one (x ∷ xs) s = (s.0, IsSorted-of_zero xs s.1)

passes-SortedFrom :
    (count n i : ℕ) (xs : List Task)
    → length xs ≤ suc n
    → SortedFrom (i + count) xs
    → SortedFrom i (passes count n xs)
unfolding passes
passes-SortedFrom zero n i xs l s = let e : i + 0 ≡ i = omega arith in rw e at s
passes-SortedFrom (suc count) n i xs l s =
    passes-SortedFrom count n i (bubble n xs) (omega (arith, length-bubble n xs)) (
      bubble-SortedFrom n (i + count) xs l
        (let e : i + suc count ≡ suc (i + count) = omega arith in rw e at s))

-- The passes only reorder the entries.
pub passes-perm : (count n : ℕ) (xs : List Task) → Perm (passes count n xs) xs
unfolding passes
passes-perm zero n xs = Perm.refl xs
passes-perm (suc count) n xs = Perm.trans (passes-perm count n (bubble n xs)) (bubble-perm n xs)

-- `n` passes over `n + 1` entries put them into the order of their periods, and only reorder them:
-- none is lost and none appears twice.
pub passes-IsSorted :
    (n : ℕ) (xs : List Task)
    → length xs ≡ n + 1
    → IsSorted (passes n n xs) × Perm (passes n n xs) xs
passes-IsSorted n xs l = (
  IsSorted-of_one (passes n n xs)
      (passes-SortedFrom n n 1 xs (omega arith) (SortedFrom-length (1 + n) xs (omega arith))),
  passes-perm n n xs,
)
