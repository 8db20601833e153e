-- ===== src/Infra/Ends.antt =====
-- src/ha_backend/infra_errors.py: that iter_exception_chain ends, also on a cyclic chain.
use healtharchive.Base.{
  ℕ, zero, suc, ◌+◌, ◌≤◌, ◌<◌, ◌≡◌, refl, Bool, true, false, Option, none, some, List, [], ◌∷◌,
  arith, is_some, if◌then◌else◌,
}
use healtharchive.Infra.{FailureHeap}
use healtharchive.Infra.Chain.{seen_has, next_failure, yield_first, walk, iter_exception_chain}

-- The number of identities below `n` that were not seen.
abbrev unseen : ℕ → List ℕ → ℕ
unseen zero seen = 0
unseen (suc m) seen = (if seen_has m seen then 0 else 1) + unseen m seen

unseen-cons : (m i : ℕ) (seen : List ℕ) → unseen m (i ∷ seen) ≤ unseen m seen
unfolding seen_has
unseen-cons zero i seen = omega arith
unseen-cons (suc m) i seen = ground (arith, unseen-cons m i seen)

unseen-less :
    (m i : ℕ) (seen : List ℕ)
    → i < m
    → seen_has i seen ≡ false
    → unseen m (i ∷ seen) < unseen m seen
unfolding seen_has
unseen-less zero i seen l h = absurd (omega arith)
unseen-less (suc m) i seen l h = ground (arith, unseen-less m i seen, unseen-cons m i seen)

unseen-limit : (m : ℕ) → unseen m [] ≤ m
unfolding seen_has
unseen-limit zero = omega arith
unseen-limit (suc m) = omega (arith, unseen-limit m)

is_some-yield_first : (i : ℕ) (o : Option (List ℕ)) → is_some (yield_first i o) ≡ is_some o
unfolding yield_first
is_some-yield_first i none = refl
is_some-yield_first i (some rest) = refl

if-ends :
    (b : Bool) (o : Option (List ℕ))
    → (b ≡ false → is_some o ≡ true)
    → is_some (if b then some [] else o) ≡ true
if-ends true o h = refl
if-ends false o h = h refl

-- The identity that the loop goes on with is below `n`.
abbrev Below : ℕ → Option ℕ → Type 0
Below n none = Unit
Below n (some i) = i < n

module _ (heap : FailureHeap) (n : ℕ) (closed : (i : ℕ) → Below n (next_failure (heap i))) where
  walk-ends :
      (rounds : ℕ) (seen : List ℕ) (o : Option ℕ)
      → Below n o
      → unseen n seen < rounds
      → is_some (walk heap rounds seen o) ≡ true
  unfolding walk
  walk-ends rounds seen none b l = refl
  walk-ends zero seen (some i) b l = absurd (omega arith)
  walk-ends (suc rounds) seen (some i) b l =
      if-ends (seen_has i seen)
        (yield_first i (walk heap rounds (i ∷ seen) (next_failure (heap i))))
        (λ e. rw (is_some-yield_first i (walk heap rounds (i ∷ seen) (next_failure (heap i)))) (
          walk-ends rounds (i ∷ seen) (next_failure (heap i)) (closed i)
            (omega (arith, unseen-less n i seen b e))))

  -- Where every cause and context lies among `n` exceptions, the walk from any of them ends within
  -- `n + 1` rounds, also where the chain is cyclic.
  pub iter_exception_chain-ends :
      (exc : ℕ) → exc < n → is_some (iter_exception_chain heap (suc n) exc) ≡ true
  unfolding iter_exception_chain
  iter_exception_chain-ends exc b =
      walk-ends (suc n) [] (some exc) b (omega (arith, unseen-limit n))
