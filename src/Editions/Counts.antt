-- ===== src/Editions/Counts.antt =====
-- src/ha_backend/annual_editions.py: how the counts of a coverage report belong together.
use healtharchive.Base.{
  ℕ, ◌+◌, ◌≡◌, refl, sym, ap, ◌∙◌, inl, inr, String, Bool, true, false, ◌&&◌, not, Option, List, [],
  ◌∷◌, ◌++◌, map, str_eq, str_mem, keep, length, num_mem, arith, Bool-cases, str_eq_iff,
  str_eq_refl,
}
use healtharchive.Editions.{ArchiveJob, Snapshot, AnnualEdition}
use healtharchive.Editions.Report.{
  SeedRow, distinct, ledger, captured_seed_urls, coverage_of, reported, generate_coverage_report,
  seed_rows_for_jobs, jobs_of_edition,
}
use healtharchive.Editions.Urls.{
  AreApart, AreApart-distinct, distinct-AreApart, length-distinct, length-inside, length-outside,
  inside, outside,
}
use healtharchive.Editions.Seeds.{urls, AreMarked, seed_rows-AreApart, seed_rows-AreMarked}

captured-inside :
    (c : List String) (rows : List SeedRow)
    → AreMarked c rows
    → captured_seed_urls rows ≡ keep (inside c) (urls rows)
captured-inside c [] m = refl
captured-inside c (r ∷ rows) m = elim (Bool-cases (str_mem r.url c)) [
  | inl e ↦ rw (m.0, e) (ap (λ l. r.url ∷ l) (captured-inside c rows m.1))
  | inr e ↦ rw (m.0, e) (captured-inside c rows m.1)
]

abbrev missing_urls : List SeedRow → List String
missing_urls rows = urls (keep (λ r. not r.captured) rows)

missing-outside :
    (c : List String) (rows : List SeedRow)
    → AreMarked c rows
    → missing_urls rows ≡ keep (outside c) (urls rows)
missing-outside c [] m = refl
missing-outside c (r ∷ rows) m = elim (Bool-cases (str_mem r.url c)) [
  | inl e ↦ rw (m.0, e) (missing-outside c rows m.1)
  | inr e ↦ rw (m.0, e) (ap (λ l. r.url ∷ l) (missing-outside c rows m.1))
]

keep-keep : (p : String → Bool) (l : List String) → keep p (keep p l) ≡ keep p l
keep-keep p [] = refl
keep-keep p (x ∷ l) = elim (Bool-cases (p x)) [
  | inl e ↦ rw (e, e) (ap (λ k. x ∷ k) (keep-keep p l))
  | inr e ↦ rw (e) (keep-keep p l)
]

str_mem-keep-false :
    (p : String → Bool) (x : String) (l : List String)
    → str_mem x l ≡ false
    → str_mem x (keep p l) ≡ false
str_mem-keep-false p x [] h = refl
str_mem-keep-false p x (y ∷ l) h = ground (arith, str_mem-keep-false p x l)

keep-AreApart : (p : String → Bool) (l : List String) → AreApart l → AreApart (keep p l)
keep-AreApart p [] d = tt
keep-AreApart p (x ∷ l) d = elim (Bool-cases (p x)) [
  | inl e ↦ rw (e) (str_mem-keep-false p x l d.0, keep-AreApart p l d.1)
  | inr e ↦ rw (e) (keep-AreApart p l d.1)
]

str_mem-keep :
    (p : String → Bool) (x : String) (l : List String) → str_mem x (keep p l) ≡ str_mem x l && p x
str_mem-keep p x [] = refl
str_mem-keep p x (y ∷ l) = elim (Bool-cases (str_eq x y)) [
  | inl e ↦
      let same : p y ≡ p x = ap p (sym ((str_eq_iff x y).0 e)) in ground (arith, str_mem-keep p x l)
  | inr e ↦ ground (arith, str_mem-keep p x l)
]

-- A test that every text of a list passes keeps the list.
keep-all :
    (p : String → Bool) (l : List String)
    → ((x : String) → str_mem x l ≡ true → p x ≡ true)
    → keep p l ≡ l
keep-all p [] h = refl
keep-all p (x ∷ l) h =
    rw (h x (rw (str_eq_refl x) refl)) (ap (λ k. x ∷ k) (keep-all p l (λ y m. h y (ground arith))))

module _ (c s : List String) (apart_c : AreApart c) (apart_s : AreApart s) where
  abbrev both : List String
  both = keep (inside c) s

  abbrev others : List String
  others = keep (outside both) c

  others_missed : (x : String) → str_mem x s ≡ true → outside others x ≡ true
  others_missed x h =
      let a = str_mem-keep (outside both) x c in let b = str_mem-keep (inside c) x s in ground arith

  -- The union of both lists is counted by the texts of the second that the first has not.
  length-union : length (distinct (s ++ others)) ≡ length c + length (keep (outside c) s)
  length-union =
      let whole = length-distinct s others apart_s (keep-AreApart (outside both) c apart_c) in
      let all_s : length (keep (outside others) s) ≡ length s =
        ap length (keep-all (outside others) s others_missed) in
      let split_s = length-outside c s in
      let split_c = length-outside both c in
      let swap = length-inside both c (keep-AreApart (inside c) s apart_s) apart_c in
      let twice : length (keep (inside c) both) ≡ length both =
        ap length (keep-keep (inside c) s) in
      omega arith

-- The intended URLs of a reported edition are its captured URLs and its missing seeds.
pub generate_coverage_report-urls :
    (root : String) (source_code : Option String) (now : ℕ) (e : AnnualEdition)
    (jobs : List ArchiveJob) (snapshots : List Snapshot)
    → (generate_coverage_report root source_code now e jobs snapshots).0.intended_url_count
      ≡ (generate_coverage_report root source_code now e jobs snapshots).0.captured_url_count
        + (generate_coverage_report root source_code now e jobs snapshots).0.missing_url_count
unfolding generate_coverage_report reported coverage_of ledger
generate_coverage_report-urls root source_code now e jobs snapshots =
    let shards = jobs_of_edition e.id jobs in
    let ids = map (λ j. j.id) shards in
    let c = distinct (map (λ s. s.url) (keep (λ s. num_mem s.job_id ids) snapshots)) in
    let rows = seed_rows_for_jobs shards c in
    let marked = seed_rows-AreMarked shards c in
    let apart = seed_rows-AreApart shards c in
    let count = length-union c (urls rows) (distinct-AreApart _) apart in
    let missing : length (distinct (missing_urls rows)) ≡ length (keep (outside c) (urls rows)) =
      ap (λ l. length (distinct l)) (missing-outside c rows marked)
      ∙ ap length (AreApart-distinct _ (keep-AreApart (outside c) (urls rows) apart)) in
    ap (λ l. length (distinct (urls rows ++ keep (outside l) c))) (captured-inside c rows marked)
    ∙ count
    ∙ ap (λ n. length c + n) (sym missing)
