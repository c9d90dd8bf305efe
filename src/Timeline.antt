-- ===== src/Timeline.antt =====
-- MCAViews/TimelineView.cpp: the row that `printTimelineViewEntry` prints for an instruction, behind its
-- index.
pub mod Columns
mod Tests
use llvm_mca_daemon.Prelude.{
  ℕ, zero, suc, ◌+◌, ◌-◌, ◌%◌, Bool, true, false, ◌||◌, Option, none, some, List, [], ◌∷◌, ◌++◌,
  ltb, ◌==◌, u32, if◌then◌else◌,
}

-- `DisplayChar`, and the two marks of the columns outside of an instruction's life.
pub data Cell : Type 0 where
  dispatched executed retired waiting executing retire_lag dot blank : Cell

-- `TimelineViewEntry`; the negative value of the first cycle is none.
pub record TimelineViewEntry : Type 0 where
  pub cycle_dispatched : Option ℕ
  pub cycle_ready : ℕ
  pub cycle_issued : ℕ
  pub cycle_executed : ℕ
  pub cycle_retired : ℕ

abbrev pub repeat_cells : (ℕ → Cell) → ℕ → ℕ → List Cell
repeat_cells f zero k = []
repeat_cells f (suc n) k = f k ∷ repeat_cells f n (k + 1)

-- A loop that prints a cell for each cycle from one on and below another.
unfoldable pub cells : (ℕ → Cell) → ℕ → ℕ → List Cell
cells f from to = repeat_cells f (to - from) from

abbrev pub cells_before : ℕ → ℕ → Cell
cells_before first i = if (i - first) % 5 == 0 then dot else blank

abbrev pub cells_after : ℕ → ℕ → ℕ → Cell
cells_after end last i = if (i - end) % 5 == 0 || i == last then dot else blank

-- The part from behind the dispatch up to the end of the execution.
unfoldable pub execution_cells : ℕ → TimelineViewEntry → List Cell
execution_cells d e =
    if d == e.cycle_executed
    then []
    else cells (λ i. waiting) (u32 (d + 1)) e.cycle_issued
      ++ (if e.cycle_issued == e.cycle_executed
          then executed ∷ []
          else (if d == e.cycle_issued then [] else executing ∷ [])
            ++ cells (λ i. executing) (u32 (e.cycle_issued + 1)) e.cycle_executed
            ++ (executed ∷ []))

unfoldable pub retire_cells : TimelineViewEntry → List Cell
retire_cells e =
    cells (λ i. retire_lag) (u32 (e.cycle_executed + 1)) e.cycle_retired
    ++ (if ltb e.cycle_executed e.cycle_retired then retired ∷ [] else [])

-- `printTimelineViewEntry`, which asserts that the instruction was dispatched.
abbrev pub row_of : Option ℕ → TimelineViewEntry → ℕ → ℕ → Option (List Cell)
row_of none e first last = none
row_of (some d) e first last =
    let end = u32 (e.cycle_retired + 1) in
    some (
      cells (cells_before first) first d
      ++ (dispatched ∷ [])
      ++ execution_cells d e
      ++ retire_cells e
      ++ cells (cells_after end last) end (last + 1))

unfoldable pub print_timeline_view_entry : TimelineViewEntry → ℕ → ℕ → Option (List Cell)
print_timeline_view_entry e first last = row_of e.cycle_dispatched e first last
