-- ===== src/Infra/Chain.antt =====
-- src/ha_backend/infra_errors.py: iter_exception_chain.
use healtharchive.Base.{
  if◌then◌else◌, ℕ, zero, suc, Bool, false, ◌||◌, Option, none, some, List, [], ◌∷◌, ◌==◌,
}
use healtharchive.Infra.{Failure, FailureHeap}

-- i in seen
unfoldable pub seen_has : ℕ → List ℕ → Bool
seen_has i [] = false
seen_has i (j ∷ js) = i == j || seen_has i js

-- cur.__cause__ or cur.__context__
unfoldable pub next_failure : Failure → Option ℕ
next_failure f = elim f.cause [ some i ↦ some i | none ↦ f.context ]

-- yield cur, and the rest of the loop
unfoldable pub yield_first : ℕ → Option (List ℕ) → Option (List ℕ)
yield_first i none = none
yield_first i (some rest) = some (i ∷ rest)

-- The loop: `some ids` are the identities in the order of the yields, `none` means that the rounds
-- ran out before the loop ended.
unfoldable pub walk : FailureHeap → ℕ → List ℕ → Option ℕ → Option (List ℕ)
walk heap rounds seen none = some []
walk heap zero seen (some i) = none
walk heap (suc rounds) seen (some i) =
    let rest = walk heap rounds (i ∷ seen) (next_failure (heap i)) in
    if seen_has i seen then some [] else yield_first i rest

unfoldable pub iter_exception_chain : FailureHeap → ℕ → ℕ → Option (List ℕ)
unfolding walk
iter_exception_chain heap rounds exc = walk heap rounds [] (some exc)
