-- ===== src/Timeline/Tests.antt =====
-- Witnesses and tests for the timeline.
use llvm_mca_daemon.Prelude.{◌≡◌, refl, some, [], ◌∷◌, arith}
use llvm_mca_daemon.Timeline.{
  dispatched, executed, retired, waiting, executing, retire_lag, dot, blank, TimelineViewEntry,
  cells, execution_cells, retire_cells, print_timeline_view_entry,
}
use llvm_mca_daemon.Timeline.Columns.{state_at, print_timeline_view_entry_lem}

abbrev entry : TimelineViewEntry
entry = record {
  cycle_dispatched = some 3;
  cycle_ready = 4;
  cycle_issued = 5;
  cycle_executed = 7;
  cycle_retired = 9;
}

print_timeline_view_entry_lem_example :
    print_timeline_view_entry entry 2 12 ≡ some (cells (state_at 2 12 3 5 7 9) 2 13)
print_timeline_view_entry_lem_example =
    print_timeline_view_entry_lem entry 3 2 12 refl (omega arith) (omega arith) (omega arith)
      (omega arith) (omega arith) (omega arith)

row_of-entry :
    print_timeline_view_entry entry 2 12
    ≡ some (
        dot ∷ dispatched ∷ waiting ∷ executing ∷ executing ∷ executed ∷ retire_lag ∷ retired ∷ dot
        ∷ blank ∷ dot ∷ [])
unfolding print_timeline_view_entry execution_cells retire_cells cells
row_of-entry = refl
