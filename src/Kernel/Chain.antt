-- ===== src/Kernel/Chain.antt =====
-- Sleep queues: TCBs linked by a pointer field, `next`, from a head pointer to the null pointer.
use embedlab.Prelude.{
  ℕ, zero, suc, ◌<◌, ◌≡◌, ◌≢◌, refl, ◌∙◌, ap, true, false, Option, none, some, List, [], ◌∷◌, ◌++◌,
  arith, length, has, ◌≤◌, count, count-le, count-more, zero-count,
}
use embedlab.RunQueue.{TcbPtr}

-- `while (p->next) p = p->next;` with fuel
unfoldable pub walk_last : ℕ → (ℕ → TcbPtr) → ℕ → Option ℕ
walk_last zero next p = none
walk_last (suc fuel) next p = elim (next p) [ none ↦ some p | some n ↦ walk_last fuel next n ]

-- The links lead from `p` through `xs` to the null pointer.
abbrev pub Chain : (ℕ → TcbPtr) → TcbPtr → List ℕ → Type 0
Chain next p [] = p ≡ none
Chain next p (x ∷ xs) = (p ≡ some x) × Chain next (next x) xs

abbrev pub Distinct : List ℕ → Type 0
Distinct [] = Unit
Distinct (x ∷ xs) = (has x xs ≡ false) × Distinct xs

abbrev pub last_of : ℕ → List ℕ → ℕ
last_of x [] = x
last_of x (y ∷ ys) = last_of y ys

pub walk_last-Chain :
    (next : ℕ → TcbPtr) (x : ℕ) (xs : List ℕ) (fuel : ℕ)
    → Chain next (next x) xs
    → length xs < fuel
    → walk_last fuel next x ≡ some (last_of x xs)
unfolding walk_last
walk_last-Chain next x [] zero c h = absurd (omega arith)
walk_last-Chain next x [] (suc fuel) c h = rw (c, walk_last) refl
walk_last-Chain next x (y ∷ ys) zero c h = absurd (omega arith)
walk_last-Chain next x (y ∷ ys) (suc fuel) c h =
    rw (c.0, walk_last) (walk_last-Chain next y ys fuel c.1 (omega arith))

-- A link outside the queue may change.
pub Chain-frame :
    (next next' : ℕ → TcbPtr) (p : TcbPtr) (xs : List ℕ)
    → Chain next p xs
    → ((a : ℕ) → has a xs ≡ true → next' a ≡ next a)
    → Chain next' p xs
Chain-frame next next' p [] c same = c
Chain-frame next next' p (x ∷ xs) c same = (
  c.0,
  rw (same x (ground arith))
      (Chain-frame next next' (next x) xs c.1 (λ a h. same a (ground (arith, h)))),
)

pub has-last_of : (x : ℕ) (xs : List ℕ) → has (last_of x xs) (x ∷ xs) ≡ true
has-last_of x [] = ground arith
has-last_of x (y ∷ ys) = ground (arith, has-last_of y ys)

-- Linking `c` behind the last element appends it.
pub Chain-append :
    (next next' : ℕ → TcbPtr) (c x : ℕ) (xs : List ℕ)
    → Chain next (next x) xs
    → Distinct (x ∷ xs)
    → has c (x ∷ xs) ≡ false
    → next' c ≡ none
    → next' (last_of x xs) ≡ some c
    → ((a : ℕ) → a ≢ c → a ≢ last_of x xs → next' a ≡ next a)
    → Chain next' (next' x) (xs ++ (c ∷ []))
Chain-append next next' c x [] ch d out nc nl same = (nl, nc)
Chain-append next next' c x (y ∷ ys) ch d out nc nl same = (
  same x (λ e. ground arith) (λ e. ground (arith, has-last_of y ys, ap (λ a. has a (y ∷ ys)) e))
      ∙ ch.0,
  Chain-append next next' c y ys ch.1 d.1 (ground arith) nc nl same,
)

-- A list without repetition of numbers below `n` has at most `n` entries.
module _ (n : ℕ) where
  Distinct-count :
      (xs : List ℕ)
      → Distinct xs
      → ((t : ℕ) → has t xs ≡ true → t < n)
      → count (λ t. has t xs) n ≡ length xs
  Distinct-count [] d below = zero-count (λ t. false) n (λ j h. refl)
  Distinct-count (x ∷ xs) d below =
      let rest = Distinct-count xs d.1 (λ t h. below t (ground (arith, h))) in
      count-more (λ t. has t xs) (λ t. has t (x ∷ xs)) x n (below x (ground arith)) d.0
        (ground arith) (λ j ne. ground (arith, ne))
      ∙ omega (arith, rest)

  pub Distinct-length :
      (xs : List ℕ) → Distinct xs → ((t : ℕ) → has t xs ≡ true → t < n) → length xs ≤ n
  Distinct-length xs d below = omega (arith, Distinct-count xs d below, count-le (λ t. has t xs) n)
