-- ===== src/Crawl/Counts.antt =====
-- src/archive_tool/strategies.py: the four numbers that the adaptations move, one move of them, and
-- the limits that a move respects.
use healtharchive.Base.{zero, suc, ◌+◌, ◌≡◌, false, arith}
use healtharchive.Base.Int.{
  ℤ, pos, negsuc, ◌≤ℤ◌, leb_ℤ, min_ℤ, max_ℤ, pos_part, neg_part, succ, pred,
}
use healtharchive.Crawl.State.{CrawlState}
use healtharchive.Crawl.Strategies.{Args}

-- The four numbers that the adaptations move.
pub record Counts : Type 0 where
  pub workers : ℤ
  pub reductions : ℤ
  pub rotations : ℤ
  pub restarts : ℤ

abbrev pub counts : CrawlState → Counts
counts s = record {
  workers = s.current_workers;
  reductions = s.worker_reductions_done;
  rotations = s.vpn_rotations_done;
  restarts = s.container_restarts_done;
}

-- What every run from `b` keeps: no count passes the larger of its limit and its start, the workers
-- do not go below the smaller of the minimum and their start, and each worker that is gone was taken
-- by one counted reduction.
pub record IsWithin (a : Args) (b c : Counts) : Type 0 where
  pub reductions : c.reductions ≤ℤ max_ℤ a.max_worker_reductions b.reductions
  pub rotations : c.rotations ≤ℤ max_ℤ a.max_vpn_rotations b.rotations
  pub restarts : c.restarts ≤ℤ max_ℤ a.max_container_restarts b.restarts
  pub floor : min_ℤ a.min_workers b.workers ≤ℤ c.workers
  pub conserved :
      pos_part c.workers + pos_part c.reductions + neg_part b.workers + neg_part b.reductions
      ≡ pos_part b.workers + pos_part b.reductions + neg_part c.workers + neg_part c.reductions

-- One adaptation within its limit, or none.
pub data Move (a : Args) (c d : Counts) : Type 0 where
  stay : d ≡ c → Move a c d
  reduce :
      leb_ℤ a.max_worker_reductions c.reductions ≡ false
      → leb_ℤ c.workers a.min_workers ≡ false
      → d ≡ record c {
        workers = max_ℤ a.min_workers (pred c.workers);
        reductions = succ c.reductions;
      }
      → Move a c d
  rotate :
      leb_ℤ a.max_vpn_rotations c.rotations ≡ false
      → d ≡ record c { rotations = succ c.rotations }
      → Move a c d
  restart :
      leb_ℤ a.max_container_restarts c.restarts ≡ false
      → d ≡ record c { restarts = succ c.restarts }
      → Move a c d

succ_le : (x y : ℤ) → leb_ℤ y x ≡ false → succ x ≤ℤ y
succ_le (pos n) y h = ground arith
succ_le (negsuc zero) y h = ground arith
succ_le (negsuc (suc n)) y h = ground arith

succ_parts : (x : ℤ) → pos_part (succ x) + neg_part x ≡ pos_part x + neg_part (succ x) + 1
succ_parts (pos n) = omega arith
succ_parts (negsuc zero) = omega arith
succ_parts (negsuc (suc n)) = omega arith

pred_parts : (x : ℤ) → pos_part (pred x) + neg_part x + 1 ≡ pos_part x + neg_part (pred x)
pred_parts (pos zero) = omega arith
pred_parts (pos (suc n)) = omega arith
pred_parts (negsuc n) = omega arith

le_max : (x y : ℤ) → x ≤ℤ max_ℤ x y
le_max x y = ground arith

min_le : (x y : ℤ) → min_ℤ x y ≤ℤ x
min_le x y = ground arith

pub max_right : (x y : ℤ) → y ≤ℤ max_ℤ x y
max_right x y = ground arith

pub min_right : (x y : ℤ) → min_ℤ x y ≤ℤ y
min_right x y = ground arith

max_pred : (m w : ℤ) → leb_ℤ w m ≡ false → max_ℤ m (pred w) ≡ pred w
max_pred m w h = ground (arith, pred_parts w)

-- A count below its limit is within it after one more.
within_limit : (x limit start : ℤ) → leb_ℤ limit x ≡ false → succ x ≤ℤ max_ℤ limit start
within_limit x limit start h =
    let below = succ_le x limit h in let top = le_max limit start in omega arith

module _ (a : Args) (b : Counts) where
  pub Move-IsWithin : (c d : Counts) → Move a c d → IsWithin a b c → IsWithin a b d
  Move-IsWithin c d (stay e) w = rw e w
  Move-IsWithin c d (reduce r f e) w = rw e (record {
    reductions = within_limit c.reductions a.max_worker_reductions b.reductions r;
    rotations = w.rotations;
    restarts = w.restarts;
    floor =
        let low = min_le a.min_workers b.workers in
        let top = le_max a.min_workers (pred c.workers) in omega arith;
    conserved =
        rw (max_pred a.min_workers c.workers f)
          (omega (arith, w.conserved, succ_parts c.reductions, pred_parts c.workers));
  })
  Move-IsWithin c d (rotate r e) w = rw e (record {
    reductions = w.reductions;
    rotations = within_limit c.rotations a.max_vpn_rotations b.rotations r;
    restarts = w.restarts;
    floor = w.floor;
    conserved = w.conserved;
  })
  Move-IsWithin c d (restart r e) w = rw e (record {
    reductions = w.reductions;
    rotations = w.rotations;
    restarts = within_limit c.restarts a.max_container_restarts b.restarts r;
    floor = w.floor;
    conserved = w.conserved;
  })
