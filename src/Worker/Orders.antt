-- ===== src/Worker/Orders.antt =====
-- src/ha_backend/worker/main.py: the two sort orders of the worker's queries.
use healtharchive.Base.{arith}
use healtharchive.Base.First.{IsSortOrder}
use healtharchive.Worker.Selection.{crawl_before, index_before}

pub crawl_before-IsSortOrder : IsSortOrder crawl_before
unfolding crawl_before
crawl_before-IsSortOrder = record {
  irreflexive = λ a. ground arith;
  asymmetric = λ a b h. ground arith;
  negatively_transitive = λ a b c h k. ground arith;
}

pub index_before-IsSortOrder : IsSortOrder index_before
unfolding index_before
index_before-IsSortOrder = record {
  irreflexive = λ a. ground arith;
  asymmetric = λ a b h. ground arith;
  negatively_transitive = λ a b c h k. ground arith;
}
