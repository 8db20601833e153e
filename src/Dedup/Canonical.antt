-- ===== src/Dedup/Canonical.antt =====
-- src/ha_backend/indexing/deduplication.py: that no canonical snapshot is a duplicate.
use healtharchive.Base.{
  ℕ, ◌≡◌, refl, sym, inl, inr, Bool, true, false, ◌&&◌, Option, none, some, List, [], ◌∷◌, leb,
  keep, all, arith, Bool-cases, str_eq, str_eq_iff, String,
}
use healtharchive.Dedup.{Snapshot}
use healtharchive.Dedup.Find.{
  group_key, same_number, same_text, group_of, is_considered, same_group, is_canonical,
  is_duplicate,
}

-- `s` is a row of the table.
pub data IsIn (s : Snapshot) : List Snapshot → Type 0 where
  here : {ss : List Snapshot} → IsIn s (s ∷ ss)
  there : {r : Snapshot} {ss : List Snapshot} → IsIn s ss → IsIn s (r ∷ ss)

IsIn-keep :
    (p : Snapshot → Bool) (s : Snapshot) (ss : List Snapshot)
    → IsIn s ss
    → p s ≡ true
    → IsIn s (keep p ss)
IsIn-keep p s [] m h = elim m [ ]
IsIn-keep p s (r ∷ ss) here h = rw h here
IsIn-keep p s (r ∷ ss) (there m) h = elim (Bool-cases (p r)) [
  | inl e ↦ rw e (there (IsIn-keep p s ss m h))
  | inr e ↦ rw e (IsIn-keep p s ss m h)
]

IsIn-all :
    (p : Snapshot → Bool) (s : Snapshot) (ss : List Snapshot)
    → IsIn s ss
    → all p ss ≡ true
    → p s ≡ true
IsIn-all p s [] m h = elim m [ ]
IsIn-all p s (r ∷ ss) here h = ground arith
IsIn-all p s (r ∷ ss) (there m) h = IsIn-all p s ss m (ground arith)

same_number-flip : (a b : Option ℕ) → same_number a b ≡ true → same_number b a ≡ true
same_number-flip none none h = refl
same_number-flip none (some b) h = h
same_number-flip (some a) none h = h
same_number-flip (some a) (some b) h = ground arith

str_eq-flip : (a b : String) → str_eq a b ≡ true → str_eq b a ≡ true
str_eq-flip a b h = (str_eq_iff b a).1 (sym ((str_eq_iff a b).0 h))

same_text-flip : (a b : Option String) → same_text a b ≡ true → same_text b a ≡ true
same_text-flip none b h = absurd cc
same_text-flip (some a) none h = h
same_text-flip (some a) (some b) h = str_eq-flip a b h

same_group-flip : (c s : Snapshot) → same_group c s ≡ true → same_group s c ≡ true
unfolding same_group
same_group-flip c s h = ground (
  arith,
  same_number-flip s.source_id c.source_id,
  str_eq-flip (group_key s) (group_key c),
  same_text-flip s.content_hash c.content_hash,
)

module _ (job source : Option ℕ) (ss : List Snapshot) where
  least :
      (c s : Snapshot)
      → is_canonical job source ss c ≡ true
      → is_considered job source s ≡ true
      → same_group c s ≡ true
      → IsIn s ss
      → leb c.id s.id ≡ true
  unfolding is_canonical
  least c s k considered same m =
      IsIn-all (λ r. leb c.id r.id) s (group_of job source c ss)
        (IsIn-keep (λ r. is_considered job source r && same_group c r) s ss m
          (rw (considered, same) refl))
        (ground arith)

  considered-canonical :
      (c : Snapshot) → is_canonical job source ss c ≡ true → is_considered job source c ≡ true
  unfolding is_canonical
  considered-canonical c k = ground arith

  -- Under any filter, the row that stands for a group is a duplicate in no group: the rows that the
  -- marking keeps are the ones that the audit rows point to.
  pub is_duplicate-canonical :
      (c d : Snapshot)
      → IsIn c ss
      → IsIn d ss
      → is_canonical job source ss c ≡ true
      → is_canonical job source ss d ≡ true
      → is_duplicate c d ≡ false
  unfolding is_duplicate
  is_duplicate-canonical c d mc md kc kd = elim (Bool-cases (same_group c d)) [
    | inr e ↦ rw e refl
    | inl e ↦
        let low = least c d kc (considered-canonical d kd) e md in
        let high = least d c kd (considered-canonical c kc) (same_group-flip c d e) mc in
        ground (arith, low, high)
  ]
