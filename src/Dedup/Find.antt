-- ===== src/Dedup/Find.antt =====
-- src/ha_backend/indexing/deduplication.py: find_same_day_duplicates. The groups come in the order of
-- their canonical rows and the duplicates in that of the table; the queries promise no order.
use healtharchive.Base.{
  ℕ, String, Bool, true, false, ◌&&◌, not, Option, none, some, List, [], ◌∷◌, ◌++◌, ◌==◌, ltb, leb,
  str_eq, keep, all, length, map, or_else,
}
use healtharchive.Dedup.{Snapshot, DedupCandidate}

-- coalesce(normalized_url_group, url)
abbrev pub group_key : Snapshot → String
group_key s = or_else s.normalized_url_group s.url

abbrev pub same_text : Option String → Option String → Bool
same_text (some a) (some b) = str_eq a b
same_text none b = false
same_text (some a) none = false

-- NULL stands with NULL in a group, and `column == None` is IS NULL.
abbrev pub same_number : Option ℕ → Option ℕ → Bool
same_number (some a) (some b) = a == b
same_number none none = true
same_number none (some b) = false
same_number (some a) none = false

-- `column == value`, where a value is given
abbrev pub matches : Option ℕ → Option ℕ → Bool
matches none column = true
matches (some v) column = same_number column (some v)

abbrev pub has_hash : Option String → Bool
has_hash none = false
has_hash (some h) = not (str_eq h "")

-- base_filter
unfoldable pub is_considered : Option ℕ → Option ℕ → Snapshot → Bool
is_considered job source s =
    has_hash s.content_hash
    && not s.deduplicated
    && matches job s.job_id
    && matches source s.source_id

-- Two rows of one group (source, key, day, hash).
unfoldable pub same_group : Snapshot → Snapshot → Bool
same_group c s =
    same_number s.source_id c.source_id
    && str_eq (group_key s) (group_key c)
    && s.capture_day == c.capture_day
    && same_text s.content_hash c.content_hash

-- The rows of the first query that are in the group of `c`.
abbrev pub group_of : Option ℕ → Option ℕ → Snapshot → List Snapshot → List Snapshot
group_of job source c ss = keep (λ s. is_considered job source s && same_group c s) ss

-- min(id), having count(id) > 1
unfoldable pub is_canonical : Option ℕ → Option ℕ → List Snapshot → Snapshot → Bool
is_canonical job source ss c =
    is_considered job source c
    && ltb 1 (length (group_of job source c ss))
    && all (λ s. leb c.id s.id) (group_of job source c ss)

-- The second query, which asks neither for the job nor for the source that were given.
unfoldable pub is_duplicate : Snapshot → Snapshot → Bool
is_duplicate c s = same_group c s && not s.deduplicated && not (s.id == c.id)

abbrev pub candidate : Snapshot → Snapshot → DedupCandidate
candidate c s = record {
  duplicate_id = s.id;
  canonical_id = c.id;
  url = s.url;
  capture_date = c.capture_day;
  content_hash = c.content_hash;
}

unfoldable pub duplicates_of : List Snapshot → Snapshot → List DedupCandidate
duplicates_of ss c = map (candidate c) (keep (is_duplicate c) ss)

unfoldable pub candidates_of : List Snapshot → List Snapshot → List DedupCandidate
candidates_of ss [] = []
candidates_of ss (c ∷ cs) = duplicates_of ss c ++ candidates_of ss cs

unfoldable pub find_same_day_duplicates : Option ℕ → Option ℕ → List Snapshot → List DedupCandidate
find_same_day_duplicates job source ss = candidates_of ss (keep (is_canonical job source ss) ss)
