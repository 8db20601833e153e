-- ===== src/Recovery/Circuit.antt =====
-- scripts/vps-crawl-auto-recover.py: the circuit breaker for jobs that make no progress.
use healtharchive.Base.{
  ℕ, suc, ◌+◌, ◌-◌, ◌*◌, ◌≤◌, ◌<◌, ◌≡◌, refl, sym, ap, ◌∙◌, Bool, true, false, ◌&&◌, not, List, [],
  ◌∷◌, ◌++◌, map, leb, ltb, ◌==◌, length, drop, arith, if◌then◌else◌,
}
use mathlib.Core.Path.{subst}
use native.Mathlib.Nat.{suc-mul}
use healtharchive.Recovery.State.{State, ProgressEntry, items_of}

-- entries[-window:]; a window of 0 takes all of them.
unfoldable pub last_entries : {A : Type 0} → ℕ → List A → List A
last_entries window entries =
    if window == 0 then entries else drop (length entries - window) entries

-- No count exceeds the one before it by `min_progress` pages.
unfoldable pub is_stuck : ℕ → ℕ → List ℕ → Bool
is_stuck min_progress count [] = true
is_stuck min_progress count (next ∷ counts) =
    not (leb (count + min_progress) next) && is_stuck min_progress next counts

unfoldable pub all_stuck : ℕ → List ℕ → Bool
all_stuck min_progress [] = true
all_stuck min_progress (count ∷ counts) = is_stuck min_progress count counts

-- `min_progress` and `window` are not negative.
unfoldable pub is_progress_circuit_open : State → ℕ → ℕ → ℕ → ℕ → Bool
is_progress_circuit_open s i current_crawled min_progress window =
    let entries = items_of i s.recovery_progress in
    let counts =
      map (λ e. e.crawled_count) (last_entries window entries) ++ (current_crawled ∷ []) in
    if ltb (length entries) window then false else all_stuck min_progress counts

mul_more : (n p : ℕ) → suc n * p ≡ p + n * p
mul_more n p = omega (arith, suc-mul n p)

is_stuck-bound :
    (p c : ℕ) (counts : List ℕ) (last : ℕ)
    → is_stuck p c (counts ++ (last ∷ [])) ≡ true
    → last + suc (length counts) ≤ c + suc (length counts) * p
unfolding is_stuck
is_stuck-bound p c [] last h = let e = mul_more 0 p in ground arith
is_stuck-bound p c (n ∷ counts) last h =
    let e = mul_more (suc (length counts)) p in
    let later : is_stuck p n (counts ++ (last ∷ [])) ≡ true = ground arith in
    let step : n < c + p = ground arith in omega (arith, is_stuck-bound p n counts last later)

counts_of : List ProgressEntry → List ℕ
counts_of entries = map (λ e. e.crawled_count) entries

length-counts_of : (entries : List ProgressEntry) → length (counts_of entries) ≡ length entries
unfolding counts_of
length-counts_of [] = refl
length-counts_of (e ∷ entries) = ap suc (length-counts_of entries)

if_opened : (a b : Bool) → (if a then false else b) ≡ true → b ≡ true
if_opened true b h = absurd (ground arith)
if_opened false b h = h

-- Where the circuit is open and the window has `n` entries, of which `e` is the first, the pages that
-- were crawled since `e` are at least `n` fewer than `n * min_progress`.
pub is_progress_circuit_open-bound :
    (s : State) (i current min_progress window : ℕ) (e : ProgressEntry) (rest : List ProgressEntry)
    → is_progress_circuit_open s i current min_progress window ≡ true
    → last_entries window (items_of i s.recovery_progress) ≡ e ∷ rest
    → current + suc (length rest) ≤ e.crawled_count + suc (length rest) * min_progress
unfolding is_progress_circuit_open all_stuck counts_of
is_progress_circuit_open-bound s i current min_progress window e rest h w =
    let stuck : all_stuck min_progress (counts_of (e ∷ rest) ++ (current ∷ [])) ≡ true =
      sym (ap (λ l. all_stuck min_progress (counts_of l ++ (current ∷ []))) w)
      ∙ if_opened (ltb (length (items_of i s.recovery_progress)) window) _ h in
    let bound = is_stuck-bound min_progress e.crawled_count (counts_of rest) current stuck in
    subst (λ n. current + suc n ≤ e.crawled_count + suc n * min_progress) (length-counts_of rest)
      bound
