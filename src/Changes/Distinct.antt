-- ===== src/Changes/Distinct.antt =====
-- src/ha_backend/changes.py: the rows of a query keep their ids apart.
use healtharchive.Base.{
  ◌≡◌, refl, ap, ◌∙◌, inl, inr, Bool, false, ◌||◌, List, [], ◌∷◌, ◌==◌, keep, any, insert_by,
  sort_by, arith, Bool-cases,
}
use healtharchive.Changes.{Snapshot}
use healtharchive.Changes.Resume.{AreDistinct}

any-keep-false :
    (p q : Snapshot → Bool) (l : List Snapshot) → any q l ≡ false → any q (keep p l) ≡ false
any-keep-false p q [] h = refl
any-keep-false p q (s ∷ l) h = ground (arith, any-keep-false p q l)

pub AreDistinct-keep :
    (p : Snapshot → Bool) (l : List Snapshot) → AreDistinct l → AreDistinct (keep p l)
AreDistinct-keep p [] d = d
AreDistinct-keep p (s ∷ l) d = elim (Bool-cases (p s)) [
  | inl e ↦ rw (e) (any-keep-false p (λ t. t.id == s.id) l d.0, AreDistinct-keep p l d.1)
  | inr e ↦ rw (e) (AreDistinct-keep p l d.1)
]

any-insert_by :
    (p : Snapshot → Bool) (le : Snapshot → Snapshot → Bool) (s : Snapshot) (l : List Snapshot)
    → any p (insert_by le s l) ≡ p s || any p l
any-insert_by p le s [] = refl
any-insert_by p le s (t ∷ l) = ground (arith, any-insert_by p le s l)

AreDistinct-insert_by :
    (le : Snapshot → Snapshot → Bool) (s : Snapshot) (l : List Snapshot)
    → any (λ t. t.id == s.id) l ≡ false
    → AreDistinct l
    → AreDistinct (insert_by le s l)
AreDistinct-insert_by le s [] h d = (refl, tt)
AreDistinct-insert_by le s (t ∷ l) h d = elim (Bool-cases (le s t)) [
  | inl e ↦ rw (e) (h, d)
  | inr e ↦
      let apart : (t.id == s.id) ≡ false = ground arith in
      let rest : any (λ u. u.id == s.id) l ≡ false = ground arith in
      let first : any (λ u. u.id == t.id) (insert_by le s l) ≡ false =
        any-insert_by (λ u. u.id == t.id) le s l ∙ rw (d.0) ground arith in
      rw (e) (first, AreDistinct-insert_by le s l rest d.1)
]

any-sort_by :
    (p : Snapshot → Bool) (le : Snapshot → Snapshot → Bool) (l : List Snapshot)
    → any p (sort_by le l) ≡ any p l
any-sort_by p le [] = refl
any-sort_by p le (s ∷ l) =
    any-insert_by p le s (sort_by le l) ∙ ap (λ b. p s || b) (any-sort_by p le l)

pub AreDistinct-sort_by :
    (le : Snapshot → Snapshot → Bool) (l : List Snapshot)
    → AreDistinct l
    → AreDistinct (sort_by le l)
AreDistinct-sort_by le [] d = d
AreDistinct-sort_by le (s ∷ l) d =
    AreDistinct-insert_by le s (sort_by le l) (any-sort_by (λ t. t.id == s.id) le l ∙ d.0)
      (AreDistinct-sort_by le l d.1)
