-- ===== src/Dedup/Marks.antt =====
-- src/ha_backend/indexing/deduplication.py: the marked rows of the table.
use healtharchive.Base.{
  ℕ, suc, ◌≡◌, refl, sym, ap, ◌∙◌, inl, inr, Bool, true, false, ◌&&◌, none, List, [], ◌∷◌, ◌==◌,
  keep, any, All, map, length, arith, Bool-cases, if◌then◌else◌,
}
use healtharchive.Dedup.{Snapshot, get_snapshot, mark, is_skipped, is_restorable, cleared}

-- A marked row of this id is in the table.
abbrev pub IsMarked : ℕ → List Snapshot → Type 0
IsMarked i ss = any (λ s. s.id == i && s.deduplicated) ss ≡ true

-- No row is marked.
abbrev pub AllFresh : List Snapshot → Type 0
AllFresh = All (λ s. s.deduplicated ≡ false)

abbrev pub marked_rows : List Snapshot → List Snapshot
marked_rows = keep (is_restorable none)

pub map-cleared-fresh : (ss : List Snapshot) → AllFresh ss → map cleared ss ≡ ss
map-cleared-fresh [] h = refl
map-cleared-fresh (s ∷ ss) h =
    ap (λ b. record s { deduplicated = b } ∷ map cleared ss) (sym h.0)
    ∙ ap (λ l. s ∷ l) (map-cleared-fresh ss h.1)

pub map-cleared-mark : (i : ℕ) (ss : List Snapshot) → map cleared (mark i ss) ≡ map cleared ss
unfolding mark
map-cleared-mark i [] = refl
map-cleared-mark i (s ∷ ss) = elim (Bool-cases (s.id == i)) [
  | inl e ↦ rw e refl
  | inr e ↦ rw e (ap (λ l. cleared s ∷ l) (map-cleared-mark i ss))
]

pub IsMarked-mark : (i k : ℕ) (ss : List Snapshot) → IsMarked k ss → IsMarked k (mark i ss)
unfolding mark
IsMarked-mark i k [] h = h
IsMarked-mark i k (s ∷ ss) h = ground (arith, IsMarked-mark i k ss)

pub IsMarked-mark_self :
    (i : ℕ) (ss : List Snapshot) → is_skipped (get_snapshot i ss) ≡ false → IsMarked i (mark i ss)
unfolding mark get_snapshot is_skipped
IsMarked-mark_self i [] h = absurd cc
IsMarked-mark_self i (s ∷ ss) h = ground (arith, IsMarked-mark_self i ss)

pub length-marked :
    (i : ℕ) (ss : List Snapshot)
    → is_skipped (get_snapshot i ss) ≡ false
    → length (marked_rows (mark i ss)) ≡ suc (length (marked_rows ss))
unfolding mark get_snapshot is_skipped is_restorable
length-marked i [] h = absurd cc
length-marked i (s ∷ ss) h = ground (arith, length-marked i ss)

pub clear_one :
    (b : Bool) (s : Snapshot) → s.deduplicated ≡ b → (if b then cleared s else s) ≡ cleared s
clear_one true s e = refl
clear_one false s e = ap (λ b. record s { deduplicated = b }) e

pub map-restored :
    (ss : List Snapshot)
    → map (λ s. if is_restorable none s then cleared s else s) ss ≡ map cleared ss
unfolding is_restorable
map-restored [] = refl
map-restored (s ∷ ss) =
    ap (λ x. x ∷ map (λ r. if is_restorable none r then cleared r else r) ss)
      (clear_one s.deduplicated s refl)
    ∙ ap (λ l. cleared s ∷ l) (map-restored ss)
