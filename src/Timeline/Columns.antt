-- ===== src/Timeline/Columns.antt =====
-- A row of the timeline has the state of the instruction in each cycle.
use llvm_mca_daemon.Prelude.{
  ℕ, zero, suc, ◌+◌, ◌-◌, ◌<◌, ◌≤◌, ◌≡◌, refl, sym, ◌∙◌, ap, ap₂, some, [], ◌∷◌, ◌++◌, ltb, ◌==◌,
  u32, arith, if◌then◌else◌, Bool-cases, inl, inr,
}
use llvm_mca_daemon.Timeline.{
  Cell, dispatched, executed, retired, waiting, executing, retire_lag, TimelineViewEntry,
  repeat_cells, cells, cells_before, cells_after, execution_cells, retire_cells, row_of,
  print_timeline_view_entry,
}

-- The state of an instruction in a cycle, by the cycles of its dispatch, issue, execution and
-- retirement.
unfoldable pub state_at : ℕ → ℕ → ℕ → ℕ → ℕ → ℕ → ℕ → Cell
state_at first last d i x r c =
    if ltb c d
    then cells_before first c
    else if c == d
    then dispatched
    else if ltb c i
    then waiting
    else if ltb c x
    then executing
    else if c == x
    then executed
    else if ltb c r
    then retire_lag
    else if c == r
    then retired
    else cells_after (r + 1) last c

repeat_cells-same :
    (f g : ℕ → Cell) (n k : ℕ)
    → ((j : ℕ) → k ≤ j → j < k + n → f j ≡ g j)
    → repeat_cells f n k ≡ repeat_cells g n k
repeat_cells-same f g zero k h = refl
repeat_cells-same f g (suc n) k h =
    ap₂ ◌∷◌ (h k (omega arith) (omega arith))
      (repeat_cells-same f g n (k + 1) (λ j p q. h j (omega arith) (omega arith)))

repeat_cells-append :
    (f : ℕ → Cell) (n m k : ℕ)
    → repeat_cells f n k ++ repeat_cells f m (k + n) ≡ repeat_cells f (n + m) k
repeat_cells-append f zero m k =
    let here : k + 0 ≡ k = omega arith in
    let all : m ≡ 0 + m = omega arith in
    ap (repeat_cells f m) here ∙ ap (λ n. repeat_cells f n k) all
repeat_cells-append f (suc n) m k =
    let next : k + suc n ≡ k + 1 + n = omega arith in
    let all : suc (n + m) ≡ suc n + m = omega arith in
    ap (λ j. f k ∷ (repeat_cells f n (k + 1) ++ repeat_cells f m j)) next
    ∙ ap (λ l. f k ∷ l) (repeat_cells-append f n m (k + 1))
    ∙ ap (λ a. repeat_cells f a k) all

cells-same :
    (f g : ℕ → Cell) (a b : ℕ) → ((j : ℕ) → a ≤ j → j < b → f j ≡ g j) → cells f a b ≡ cells g a b
unfolding cells
cells-same f g a b h = repeat_cells-same f g (b - a) a (λ j p q. h j p (omega (arith, p, q)))

cells-append : (f : ℕ → Cell) (a b c : ℕ) → a ≤ b → b ≤ c → cells f a b ++ cells f b c ≡ cells f a c
unfolding cells
cells-append f a b c p q =
    let at : b ≡ a + (b - a) = omega (arith, p) in
    let all : (b - a) + (c - b) ≡ c - a = omega (arith, p, q) in
    ap (λ k. repeat_cells f (b - a) a ++ repeat_cells f (c - b) k) at
    ∙ repeat_cells-append f (b - a) (c - b) a
    ∙ ap (λ n. repeat_cells f n a) all

cells-one : (f : ℕ → Cell) (a b : ℕ) → b ≡ a + 1 → cells f a b ≡ f a ∷ []
unfolding cells
cells-one f a b e = let one : b - a ≡ 1 = omega (arith, e) in ap (λ n. repeat_cells f n a) one

cells-none : (f : ℕ → Cell) (a b : ℕ) → b ≤ a → cells f a b ≡ []
unfolding cells
cells-none f a b e = let no : b - a ≡ 0 = omega (arith, e) in ap (λ n. repeat_cells f n a) no

module _ (first last d i x r : ℕ) (di : d ≤ i) (ix : i ≤ x) (xr : x ≤ r) (rl : r ≤ last)
    (small : last + 1 < 4294967296) where
  abbrev state : ℕ → Cell
  state c = state_at first last d i x r c

  before : cells (cells_before first) first d ≡ cells state first d
  unfolding state_at
  before = cells-same _ _ first d (λ j p q. ground (arith, q))

  waits : cells (λ c. waiting) (d + 1) i ≡ cells state (d + 1) i
  unfolding state_at
  waits = cells-same _ _ (d + 1) i (λ j p q. ground (arith, p, q))

  executes : (a : ℕ) → i ≤ a → d < a → cells (λ c. executing) a x ≡ cells state a x
  unfolding state_at
  executes a ia da = cells-same _ _ a x (λ j p q. ground (arith, p, q, ia, da))

  lags : cells (λ c. retire_lag) (x + 1) r ≡ cells state (x + 1) r
  unfolding state_at
  lags = cells-same _ _ (x + 1) r (λ j p q. ground (arith, p, q, di, ix))

  after : cells (cells_after (r + 1) last) (r + 1) (last + 1) ≡ cells state (r + 1) (last + 1)
  unfolding state_at
  after = cells-same _ _ (r + 1) (last + 1) (λ j p q. ground (arith, p, di, ix, xr))

  state-dispatched : state d ≡ dispatched
  unfolding state_at
  state-dispatched = ground arith

  state-executing : d < i → i < x → state i ≡ executing
  unfolding state_at
  state-executing p q = ground (arith, p, q)

  state-executed : d < x → state x ≡ executed
  unfolding state_at
  state-executed p = ground (arith, p, ix)

  state-retired : x < r → state r ≡ retired
  unfolding state_at
  state-retired p = ground (arith, p, di, ix)

  -- A cell of the row, and the cells before it.
  then_cell :
      (c : Cell) (a b : ℕ)
      → a ≤ b
      → state b ≡ c
      → cells state a b ++ (c ∷ []) ≡ cells state a (b + 1)
  then_cell c a b p e =
      ap (λ l. cells state a b ++ l)
        (ap (λ c. c ∷ []) (sym e) ∙ sym (cells-one state b (b + 1) refl))
      ∙ cells-append state a b (b + 1) p (omega arith)

  running :
      d < x
      → i < x
      → cells (λ c. waiting) (d + 1) i
          ++ ((if d == i then [] else executing ∷ [])
              ++ cells (λ c. executing) (i + 1) x
              ++ (executed ∷ []))
        ≡ cells state (d + 1) (x + 1)
  running dx ix' =
      let finish =
        ap (λ l. l ++ (executed ∷ [])) (executes (i + 1) (omega arith) (omega (arith, di)))
        ∙ then_cell executed (i + 1) x (omega (arith, ix')) (state-executed dx) in
      elim (Bool-cases (d == i)) [
        | inl t ↦
            let same : i ≡ d = ground (arith, t) in
            rw t (
              ap₂ (λ l m. l ++ m) (cells-none (λ c. waiting) (d + 1) i (omega (arith, same)))
                (finish ∙ ap (λ k. cells state (k + 1) (x + 1)) same))
        | inr t ↦
            let lt : d < i = ground (arith, t, di) in
            rw t (
              ap₂ (λ l m. l ++ m) waits
                (ap₂ (λ c m. c ∷ m) (sym (state-executing lt ix')) finish
                  ∙ ap (λ l. l ++ cells state (i + 1) (x + 1))
                      (sym (cells-one state i (i + 1) refl))
                  ∙ cells-append state i (i + 1) (x + 1) (omega arith) (omega arith))
              ∙ cells-append state (d + 1) i (x + 1) (omega (arith, lt)) (omega (arith, ix')))
      ]

  module _ (e : TimelineViewEntry) (ei : e.cycle_issued ≡ i) (ex : e.cycle_executed ≡ x)
      (er : e.cycle_retired ≡ r) where
    execution : execution_cells d e ≡ cells state (d + 1) (x + 1)
    unfolding execution_cells
    execution =
        let next_d : u32 (d + 1) ≡ d + 1 = omega (arith, di, ix, xr, rl, small) in
        let next_i : u32 (i + 1) ≡ i + 1 = omega (arith, ix, xr, rl, small) in
        rw (ei, ex, next_d, next_i)
          (elim (Bool-cases (d == x)) [
            | inl t ↦ rw t (sym (cells-none state (d + 1) (x + 1) (ground (arith, t))))
            | inr t ↦
                let dx : d < x = ground (arith, t, di, ix) in
                rw t (elim (Bool-cases (i == x)) [
                  | inl u ↦
                      let same : i ≡ x = ground (arith, u) in
                      rw u (
                        ap (λ l. l ++ (executed ∷ [])) (waits ∙ ap (cells state (d + 1)) same)
                        ∙ then_cell executed (d + 1) x (omega (arith, dx)) (state-executed dx))
                  | inr u ↦ let ix' : i < x = ground (arith, u, ix) in rw u (running dx ix')
                ])
          ])

    retirement : retire_cells e ≡ cells state (x + 1) (r + 1)
    unfolding retire_cells
    retirement =
        let next_x : u32 (x + 1) ≡ x + 1 = omega (arith, xr, rl, small) in
        rw (ex, er, next_x)
          (elim (Bool-cases (ltb x r)) [
            | inl t ↦
                let lt : x < r = ground (arith, t) in
                rw t (
                  ap (λ l. l ++ (retired ∷ [])) lags
                  ∙ then_cell retired (x + 1) r (omega (arith, lt)) (state-retired lt))
            | inr t ↦
                let le : r + 1 ≤ x + 1 = ground (arith, t) in
                rw t (
                  ap (λ l. l ++ []) (cells-none (λ c. retire_lag) (x + 1) r (omega (arith, le)))
                  ∙ sym (cells-none state (x + 1) (r + 1) le))
          ])

-- For an instruction that was dispatched, issued, executed and retired in this order, from the
-- first cycle to the last, the last below 2 ^ 32 - 1: the printed row has one cell for each cycle
-- from the first to the last, and the cell shows the state of the instruction in that cycle.
pub print_timeline_view_entry_lem :
    (e : TimelineViewEntry) (d first last : ℕ)
    → e.cycle_dispatched ≡ some d
    → first ≤ d
    → d ≤ e.cycle_issued
    → e.cycle_issued ≤ e.cycle_executed
    → e.cycle_executed ≤ e.cycle_retired
    → e.cycle_retired ≤ last
    → last + 1 < 4294967296
    → print_timeline_view_entry e first last
      ≡ some (
          cells
            (state_at first last d e.cycle_issued e.cycle_executed e.cycle_retired)
            first
            (last + 1))
unfolding print_timeline_view_entry
print_timeline_view_entry_lem e d first last h fd di ix xr rl small =
    let i = e.cycle_issued in
    let x = e.cycle_executed in
    let r = e.cycle_retired in
    let state = state_at first last d i x r in
    let next_r : u32 (r + 1) ≡ r + 1 = omega (arith, rl, small) in
    let to_dispatch =
      ap (λ l. l ++ (dispatched ∷ [])) (before first last d i x r di ix xr rl small)
      ∙ then_cell first last d i x r di ix xr rl small dispatched first d fd
          (state-dispatched first last d i x r di ix xr rl small) in
    let to_execute =
      ap₂ ◌++◌ to_dispatch (execution first last d i x r di ix xr rl small e refl refl refl)
      ∙ cells-append state first (d + 1) (x + 1) (omega (arith, fd)) (omega (arith, di, ix)) in
    let to_retire =
      ap₂ ◌++◌ to_execute (retirement first last d i x r di ix xr rl small e refl refl refl)
      ∙ cells-append state first (x + 1) (r + 1) (omega (arith, fd, di, ix)) (omega (arith, xr)) in
    let to_end =
      ap₂ ◌++◌ to_retire (
        ap (λ end. cells (cells_after end last) end (last + 1)) next_r
        ∙ after first last d i x r di ix xr rl small)
      ∙ cells-append state first (r + 1) (last + 1) (omega (arith, fd, di, ix, xr))
          (omega (arith, rl)) in
    ap (λ o. row_of o e first last) h ∙ ap some to_end
