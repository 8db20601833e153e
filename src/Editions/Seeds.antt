-- ===== src/Editions/Seeds.antt =====
-- src/ha_backend/annual_editions.py: the rows that the seeds of the shards give in the target ledger.
use mathlib.Core.Path.{subst}
use mathlib.Core.List.{map-append}
use healtharchive.Base.{
  ℕ, ◌≡◌, refl, sym, ◌∙◌, inl, inr, String, true, false, ◌||◌, List, [], ◌∷◌, ◌++◌, map, str_eq,
  str_mem, arith, All, Bool-cases,
}
use healtharchive.Editions.{ArchiveJob}
use healtharchive.Editions.Report.{SeedRow, seed_rows_of, seed_rows_from, seed_rows_for_jobs}
use healtharchive.Editions.Urls.{AreApart, str_eq_swap, str_mem-append}

abbrev pub urls : List SeedRow → List String
urls rows = map (λ r. r.url) rows

-- No URL of the list was seen before, and none is there twice.
abbrev pub AreFresh : List String → List String → Type 0
AreFresh seen [] = Unit
AreFresh seen (u ∷ us) = (str_mem u seen ≡ false) × (str_mem u us ≡ false) × AreFresh seen us

-- Each row says whether its URL was captured.
abbrev pub AreMarked : List String → List SeedRow → Type 0
AreMarked captured = All (λ r. r.captured ≡ str_mem r.url captured)

AreFresh-weaken :
    (u : String) (seen us : List String)
    → AreFresh (u ∷ seen) us
    → AreFresh seen us × (str_mem u us ≡ false)
AreFresh-weaken u seen [] f = (tt, refl)
AreFresh-weaken u seen (v ∷ us) f =
    let (rest, apart) = AreFresh-weaken u seen us f.2 in
    let swap = str_eq_swap u v in
    let old : str_mem v seen ≡ false = ground arith in
    let other : (str_eq u v || str_mem u us) ≡ false = ground arith in ((old, f.1, rest), other)

module _ (captured : List String) (job_id : ℕ) where
  abbrev rows_of : List String → List String → List SeedRow
  rows_of seen seeds = (seed_rows_of job_id captured seen seeds).0

  abbrev after_of : List String → List String → List String
  after_of seen seeds = (seed_rows_of job_id captured seen seeds).1

  pass_lem :
      (url : String) (seen seeds : List String)
      → (str_eq url "" || str_mem url seen) ≡ true
      → seed_rows_of job_id captured seen (url ∷ seeds) ≡ seed_rows_of job_id captured seen seeds
  unfolding seed_rows_of
  pass_lem url seen seeds e = rw (e, seed_rows_of) refl

  abbrev row : String → SeedRow
  row url = record { url = url; captured = str_mem url captured; job_id = job_id }

  row_lem :
      (url : String) (seen seeds : List String)
      → (str_eq url "" || str_mem url seen) ≡ false
      → seed_rows_of job_id captured seen (url ∷ seeds)
        ≡ (row url ∷ rows_of (url ∷ seen) seeds, after_of (url ∷ seen) seeds)
  unfolding seed_rows_of
  row_lem url seen seeds e = rw (e, seed_rows_of) refl

  -- What the loop keeps: fresh rows that say whether they were captured, and a record of them.
  pub IsGood : List String → List SeedRow × List String → Type 0
  IsGood seen r =
      AreFresh seen (urls r.0)
      × AreMarked captured r.0
      × ((x : String) → str_mem x r.1 ≡ str_mem x seen || str_mem x (urls r.0))

  pub seed_rows_of-IsGood :
      (seen seeds : List String) → IsGood seen (seed_rows_of job_id captured seen seeds)
  unfolding IsGood
  seed_rows_of-IsGood seen [] = unfold seed_rows_of in (tt, tt, (λ x. ground arith))
  seed_rows_of-IsGood seen (url ∷ seeds) = elim (Bool-cases (str_eq url "" || str_mem url seen)) [
    | inl e ↦ subst (IsGood seen) (sym (pass_lem url seen seeds e)) (seed_rows_of-IsGood seen seeds)
    | inr e ↦
        let (fresh, marked, known) = seed_rows_of-IsGood (url ∷ seen) seeds in
        let (rest, apart) = AreFresh-weaken url seen (urls (rows_of (url ∷ seen) seeds)) fresh in
        let new : str_mem url seen ≡ false = ground arith in
        subst (IsGood seen) (sym (row_lem url seen seeds e))
          ((new, apart, rest), (refl, marked), (λ x. known x ∙ ground arith))
  ]

-- All shards.
AreFresh-equal :
    (a b us : List String)
    → ((x : String) → str_mem x a ≡ str_mem x b)
    → AreFresh a us
    → AreFresh b us
AreFresh-equal a b [] h f = tt
AreFresh-equal a b (u ∷ us) h f = (sym (h u) ∙ f.0, f.1, AreFresh-equal a b us h f.2)

str_mem_moved :
    (x u : String) (seen a : List String)
    → str_mem x (seen ++ (u ∷ a)) ≡ str_mem x (u ∷ (seen ++ a))
str_mem_moved x u seen a = ground (arith, str_mem-append x seen (u ∷ a), str_mem-append x seen a)

AreFresh-append :
    (seen a b : List String) → AreFresh seen a → AreFresh (seen ++ a) b → AreFresh seen (a ++ b)
AreFresh-append seen [] b f g =
    AreFresh-equal (seen ++ []) seen b (λ x. ground (arith, str_mem-append x seen [])) g
AreFresh-append seen (u ∷ a) b f g =
    let h =
      AreFresh-equal (seen ++ (u ∷ a)) (u ∷ (seen ++ a)) b (λ x. str_mem_moved x u seen a) g in
    let (rest, apart) = AreFresh-weaken u (seen ++ a) b h in
    (f.0, str_mem-append u a b ∙ rw (f.1, apart) refl, AreFresh-append seen a b f.2 rest)

urls-append : (a b : List SeedRow) → urls (a ++ b) ≡ urls a ++ urls b
urls-append a b = map-append (λ r. r.url) a b

All-append {ℓ} : {A : Type ℓ} (P : A → Type 0) (a b : List A) → All P a → All P b → All P (a ++ b)
All-append P [] b f g = g
All-append P (x ∷ a) b f g = (f.0, All-append P a b f.1 g)

seed_rows_from-AreFresh :
    (captured seen : List String) (jobs : List ArchiveJob)
    → AreFresh seen (urls (seed_rows_from captured seen jobs))
unfolding seed_rows_from IsGood
seed_rows_from-AreFresh captured seen [] = tt
seed_rows_from-AreFresh captured seen (j ∷ jobs) =
    let (fresh, marked, known) = seed_rows_of-IsGood captured j.id seen j.config.seeds in
    let (rows, after) = seed_rows_of j.id captured seen j.config.seeds in
    let later = seed_rows_from captured after jobs in
    let g : AreFresh (seen ++ urls rows) (urls later) =
      AreFresh-equal after (seen ++ urls rows) (urls later)
        (λ x. known x ∙ sym (str_mem-append x seen (urls rows)))
        (seed_rows_from-AreFresh captured after jobs) in
    subst (AreFresh seen) (sym (urls-append rows later))
      (AreFresh-append seen (urls rows) (urls later) fresh g)

seed_rows_from-AreMarked :
    (captured seen : List String) (jobs : List ArchiveJob)
    → AreMarked captured (seed_rows_from captured seen jobs)
unfolding seed_rows_from IsGood
seed_rows_from-AreMarked captured seen [] = tt
seed_rows_from-AreMarked captured seen (j ∷ jobs) =
    let (rows, after) = seed_rows_of j.id captured seen j.config.seeds in
    All-append _ rows (seed_rows_from captured after jobs)
      (seed_rows_of-IsGood captured j.id seen j.config.seeds).1
      (seed_rows_from-AreMarked captured after jobs)

AreFresh-AreApart : (seen us : List String) → AreFresh seen us → AreApart us
AreFresh-AreApart seen [] f = tt
AreFresh-AreApart seen (u ∷ us) f = (f.1, AreFresh-AreApart seen us f.2)

pub seed_rows-AreApart :
    (jobs : List ArchiveJob) (captured : List String)
    → AreApart (urls (seed_rows_for_jobs jobs captured))
unfolding seed_rows_for_jobs
seed_rows-AreApart jobs captured = AreFresh-AreApart [] _ (seed_rows_from-AreFresh captured [] jobs)

pub seed_rows-AreMarked :
    (jobs : List ArchiveJob) (captured : List String)
    → AreMarked captured (seed_rows_for_jobs jobs captured)
unfolding seed_rows_for_jobs
seed_rows-AreMarked jobs captured = seed_rows_from-AreMarked captured [] jobs
