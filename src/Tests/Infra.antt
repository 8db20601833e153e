-- ===== src/Tests/Infra.antt =====
-- A cyclic exception chain.
use healtharchive.Base.{◌≡◌, refl, true, none, some, [], ◌∷◌, arith, is_some}
use healtharchive.Infra.{FailureHeap}
use healtharchive.Infra.Chain.{next_failure, walk, seen_has, yield_first, iter_exception_chain}
use healtharchive.Infra.Ends.{iter_exception_chain-ends}

-- Every exception has the exception 0 for its cause.
abbrev cyclic : FailureHeap
cyclic i = record {
  is_os_error = true;
  errno = some 5;
  filename = none;
  cause = some 0;
  context = none;
}

-- Each of the two is yielded once.
two_items : iter_exception_chain cyclic 3 1 ≡ some (1 ∷ 0 ∷ [])
two_items = unfold iter_exception_chain walk next_failure seen_has yield_first in refl

iter_exception_chain-ends_example : is_some (iter_exception_chain cyclic 3 1) ≡ true
iter_exception_chain-ends_example =
    iter_exception_chain-ends cyclic 2 (λ i. unfold next_failure in omega arith) 1 (omega arith)
