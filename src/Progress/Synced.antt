-- ===== src/Progress/Synced.antt =====
-- src/ha_backend/indexing/progress.py: a reporter and its row over any calls.
use healtharchive.Base.{
  ℕ, ◌≡◌, refl, ap, ◌∙◌, Bool, true, ◌||◌, not, Option, none, some, List, [], ◌∷◌, str_mem, or_else,
  arith, if_both, if_true,
}
use healtharchive.Progress.{
  Reporter, Progress, Update, Moment, Call, call_update, call_mark_failed, call_clear, update,
  mark_failed, clear, write, with_values, written_row, changed_context, interval_elapsed,
  indexing_progress_phases, run_call, run_calls, or_same, row_start,
}

-- After a write at `last` the row has the start of the reporter, and the phase and the WARC that the
-- reporter compares the next call with.
abbrev pub AgreesAfter : Option ℕ → Reporter → Progress → Type 0
AgreesAfter none r p = Unit
AgreesAfter (some last) r p =
    (r.started_at ≡ some p.started_at)
    × (r.last_phase ≡ some p.phase)
    × (r.last_warc ≡ p.current_warc)

abbrev pub IsSynced : Reporter × Option Progress → Type 0
IsSynced (r, none) = Unit
IsSynced (r, some p) = AgreesAfter r.last_write_monotonic r p

some-or_else : (o : Option ℕ) (a b : ℕ) → o ≡ some a → some (or_else o b) ≡ some a
some-or_else none a b h = absurd (ground arith)
some-or_else (some c) a b h = h

disabled-AgreesAfter :
    (last : Option ℕ) (r : Reporter) (p : Progress)
    → AgreesAfter last r p
    → AgreesAfter last (record r { disabled = true }) p
disabled-AgreesAfter none r p h = tt
disabled-AgreesAfter (some last) r p h = h

module _ (u : Update) (m : Moment) where
  -- A write that fails leaves the row and what the reporter compares with.
  failed-AgreesAfter :
      (last : Option ℕ) (r : Reporter) (p : Progress)
      → AgreesAfter last r p
      → AgreesAfter last (record (with_values u m r) { disabled = true }) p
  unfolding with_values
  failed-AgreesAfter none r p h = tt
  failed-AgreesAfter (some last) r p h =
      (some-or_else r.started_at p.started_at m.now h.0, h.1, h.2)

  failed-IsSynced :
      (r : Reporter) (row : Option Progress)
      → IsSynced (r, row)
      → IsSynced (record (with_values u m r) { disabled = true }, row)
  unfolding with_values
  failed-IsSynced r none h = tt
  failed-IsSynced r (some p) h = failed-AgreesAfter r.last_write_monotonic r p h

  -- The start that is written is that of the reporter.
  row_start-IsSynced :
      (last : Option ℕ) (r : Reporter) (p : Progress)
      → AgreesAfter last r p
      → some (or_else r.started_at m.now)
        ≡ some (row_start (some p) last (or_else r.started_at m.now))
  row_start-IsSynced none r p h = refl
  row_start-IsSynced (some last) r p h = some-or_else r.started_at p.started_at m.now h.0

  written_start :
      (r : Reporter) (row : Option Progress)
      → IsSynced (r, row)
      → some (or_else r.started_at m.now)
        ≡ some (row_start row r.last_write_monotonic (or_else r.started_at m.now))
  written_start r none h = refl
  written_start r (some p) h = row_start-IsSynced r.last_write_monotonic r p h

  write-IsSynced :
      (r : Reporter) (row : Option Progress)
      → IsSynced (r, row)
      → IsSynced (write u m (with_values u m r) row)
  unfolding write with_values written_row
  write-IsSynced r row h =
      if_both IsSynced m.write_fails _ _ (failed-IsSynced r row h)
        (written_start r row h, refl, refl)

  update-IsSynced :
      (r : Reporter) (row : Option Progress)
      → IsSynced (r, row)
      → IsSynced (or_same (r, row) (update u m r row))
  unfolding update
  update-IsSynced r row h =
      let after : Option (Reporter × Option Progress) → Type 0 =
        λ o. IsSynced (or_same (r, row) o) in
      if_both after r.disabled _ _ h (
        if_both after (not (str_mem u.phase indexing_progress_phases)) _ _ h (
          if_both after (not (u.force || (changed_context r u || interval_elapsed r m))) _ _ h
            (write-IsSynced r row h)))

disabled-IsSynced :
    (r : Reporter) (row : Option Progress)
    → IsSynced (r, row)
    → IsSynced (record r { disabled = true }, row)
disabled-IsSynced r none h = h
disabled-IsSynced r (some p) h = disabled-AgreesAfter r.last_write_monotonic r p h

clear-IsSynced :
    (fails : Bool) (r : Reporter) (row : Option Progress)
    → IsSynced (r, row)
    → IsSynced (clear fails r row)
unfolding clear
clear-IsSynced fails r row h =
    if_both IsSynced r.disabled _ _ h (if_both IsSynced fails _ _ (disabled-IsSynced r row h) tt)

run_call-IsSynced :
    (c : Call) (s : Reporter × Option Progress) → IsSynced s → IsSynced (run_call c s)
unfolding run_call mark_failed
run_call-IsSynced (call_update u m) (r, row) h = update-IsSynced u m r row h
run_call-IsSynced (call_mark_failed m) (r, row) h = update-IsSynced _ m r row h
run_call-IsSynced (call_clear fails) (r, row) h = clear-IsSynced fails r row h

-- Whatever calls are made of a reporter and whichever of their writes fail, a row that it wrote has
-- the start of the reporter and the phase and WARC with which the reporter compares the next call.
pub run_calls-IsSynced :
    (calls : List Call) (s : Reporter × Option Progress) → IsSynced s → IsSynced (run_calls calls s)
unfolding run_calls
run_calls-IsSynced [] s h = h
run_calls-IsSynced (c ∷ calls) s h =
    run_calls-IsSynced calls (run_call c s) (run_call-IsSynced c s h)

run_call_disabled :
    (c : Call) (r : Reporter) (row : Option Progress)
    → r.disabled ≡ true
    → run_call c (r, row) ≡ (r, row)
unfolding run_call mark_failed update clear
run_call_disabled (call_update u m) r row h = ap (or_same (r, row)) (if_true r.disabled _ _ h)
run_call_disabled (call_mark_failed m) r row h = ap (or_same (r, row)) (if_true r.disabled _ _ h)
run_call_disabled (call_clear fails) r row h = if_true r.disabled _ _ h

run_calls_disabled :
    (calls : List Call) (r : Reporter) (row : Option Progress)
    → r.disabled ≡ true
    → run_calls calls (r, row) ≡ (r, row)
unfolding run_calls
run_calls_disabled [] r row h = refl
run_calls_disabled (c ∷ calls) r row h =
    ap (run_calls calls) (run_call_disabled c r row h) ∙ run_calls_disabled calls r row h

call_failed :
    (u : Update) (m : Moment) (r : Reporter) (row : Option Progress)
    → u.force ≡ true
    → str_mem u.phase indexing_progress_phases ≡ true
    → m.write_fails ≡ true
    → ((run_call (call_update u m) (r, row)).1 ≡ row)
      × ((run_call (call_update u m) (r, row)).0.disabled ≡ true)
unfolding run_call update write
call_failed u m r row force valid fails = ground arith

-- After a forced update of a known phase whose write fails, the row stays as it was before that update
-- through whatever calls follow, and the reporter is disabled.
pub run_calls_failed :
    (u : Update) (m : Moment) (calls : List Call) (r : Reporter) (row : Option Progress)
    → u.force ≡ true
    → str_mem u.phase indexing_progress_phases ≡ true
    → m.write_fails ≡ true
    → ((run_calls (call_update u m ∷ calls) (r, row)).1 ≡ row)
      × ((run_calls (call_update u m ∷ calls) (r, row)).0.disabled ≡ true)
unfolding run_calls
run_calls_failed u m calls r row force valid fails =
    let (kept, disabled) = call_failed u m r row force valid fails in
    let same =
      run_calls_disabled calls (run_call (call_update u m) (r, row)).0
        (run_call (call_update u m) (r, row)).1 disabled in
    rw same (kept, disabled)
