-- ===== src/Tests/Progress.antt =====
-- A reporter that is told of a WARC, and then cannot write.
use healtharchive.Base.{◌≡◌, refl, true, false, none, some, List, [], ◌∷◌}
use healtharchive.Base.Int.{pos}
use healtharchive.Progress.{
  Progress, Update, Call, call_update, call_mark_failed, no_counters, init, run_calls,
}
use healtharchive.Progress.Synced.{IsSynced, run_calls-IsSynced, run_calls_failed}

abbrev reading : Update
reading = record {
  phase = "read_warc";
  warc_name = some "a.warc.gz";
  warc_index = some (pos 1);
  warc_total = some (pos 3);
  records_processed = none;
  bytes_processed = none;
  bytes_total = none;
  force = false;
}

abbrev three_calls : List Call
three_calls =
    call_update reading (record { monotonic = 10; now = 1000; write_fails = false })
    ∷ call_update reading (record { monotonic = 20000; now = 1020; write_fails = true })
    ∷ call_mark_failed (record { monotonic = 30000; now = 1030; write_fails = false })
    ∷ []

abbrev old_row : Progress
old_row = record {
  phase = "verify";
  current_warc = none;
  counters = no_counters;
  started_at = 5;
  last_progress_at = 6;
}

old_row-IsSynced : IsSynced (init (pos 10000), some old_row)
old_row-IsSynced = unfold init in tt

run_calls-IsSynced_example : IsSynced (run_calls three_calls (init (pos 10000), some old_row))
run_calls-IsSynced_example =
    run_calls-IsSynced three_calls (init (pos 10000), some old_row) old_row-IsSynced

abbrev forced : Update
forced = record reading { force = true }

run_calls_failed_example :
    ((run_calls
        (call_update forced (record { monotonic = 20; now = 7; write_fails = true }) ∷ three_calls)
        (init (pos 10000), some old_row)).1
      ≡ some old_row)
    × ((run_calls
          (call_update forced (record { monotonic = 20; now = 7; write_fails = true })
            ∷ three_calls)
          (init (pos 10000), some old_row)).0.disabled
        ≡ true)
run_calls_failed_example =
    run_calls_failed forced (record { monotonic = 20; now = 7; write_fails = true }) three_calls
      (init (pos 10000)) (some old_row) refl refl refl
