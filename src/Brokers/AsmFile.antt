-- ===== src/Brokers/AsmFile.antt =====
-- Brokers/AsmFileBroker.h and .cpp: the broker that reads an assembly file. LLVM's parser and its
-- instructions are the parameters: `parse` is what `parseCodeRegions` returns, `none` for an error.
pub mod Stream
pub mod Batches
pub mod Regions
use llvm_mca_daemon.Prelude.{
  ℕ, zero, suc, ◌+◌, Bool, true, false, not, ◌&&◌, Option, none, some, List, [], ◌∷◌, ltb, leb,
  ◌==◌, length, get_elem?, if◌then◌else◌, asserted,
}
use llvm_mca_daemon.Brokers.{RegionDescriptor, feature_region, max_len, fits}

-- `CodeRegion`, as far as the broker reads it. The empty description, which the default region and
-- anonymous ones have, is none.
pub record CodeRegion (Inst Text : Type 0) : Type 0 where
  pub instructions : List Inst
  pub description : Option Text

module _ (Inst Text : Type 0) where
  -- `AsmFileBroker`: the two iterators are the list of the regions between them.
  pub record AsmFileBroker : Type 0 where
    pub parse : Option (List (CodeRegion Inst Text))
    pub has_regions : Bool
    pub iter_region : List (CodeRegion Inst Text)
    pub cur_inst_idx : ℕ
    pub is_invalid : Bool

  unfoldable pub new_broker : Option (List (CodeRegion Inst Text)) → AsmFileBroker
  new_broker parse = record {
    parse = parse;
    has_regions = false;
    iter_region = [];
    cur_inst_idx = 0;
    is_invalid = false;
  }

  abbrev pub get_features : ℕ
  get_features = feature_region

  -- The part of `parseIfNeeded` under its test.
  unfoldable pub parse_regions :
      Option (List (CodeRegion Inst Text)) → AsmFileBroker → AsmFileBroker
  parse_regions none s = record s { is_invalid = true }
  parse_regions (some regions) s = record s { has_regions = true; iter_region = regions }

  -- `parseIfNeeded`; it returns whether the result is not invalid.
  unfoldable pub parse_if_needed : AsmFileBroker → AsmFileBroker
  parse_if_needed s = if not s.is_invalid && not s.has_regions then parse_regions s.parse s else s

  -- The loop of `fetch` over the regions, up to one that has the current index.
  unfoldable pub skip_regions : List (CodeRegion Inst Text) → ℕ → List (CodeRegion Inst Text) × ℕ
  skip_regions [] cur = ([], cur)
  skip_regions (r ∷ []) cur = if leb (length r.instructions) cur then ([], cur) else (r ∷ [], cur)
  skip_regions (r ∷ r' ∷ rs) cur =
      let rest = skip_regions (r' ∷ rs) 0 in
      if leb (length r.instructions) cur then rest else (r ∷ r' ∷ rs, cur)

  -- Its return: a null pointer at the end, or the instruction at the index, which moves on.
  unfoldable pub take_current :
      List (CodeRegion Inst Text) → ℕ → AsmFileBroker → Option Inst × AsmFileBroker
  take_current [] cur s = (none, record s { iter_region = []; cur_inst_idx = cur })
  take_current (r ∷ rs) cur s =
      (get_elem? r.instructions cur, record s { iter_region = r ∷ rs; cur_inst_idx = suc cur })

  -- `fetch()`
  unfoldable pub fetch : AsmFileBroker → Option Inst × AsmFileBroker
  fetch s =
      let s' = parse_if_needed s in
      if s'.is_invalid
      then (none, s')
      else (let p = skip_regions s'.iter_region s'.cur_inst_idx in take_current p.0 p.1 s')

  -- The loop of the batch `fetch`.
  unfoldable pub fetch_loop : ℕ → AsmFileBroker → List Inst × AsmFileBroker
  fetch_loop zero s = ([], s)
  fetch_loop (suc n) s =
      let (i, s') = fetch s in
      elim i [
        | none ↦ ([], s')
        | some inst ↦ (let (insts, s'') = fetch_loop n s' in (inst ∷ insts, s''))
      ]

  -- The number that both batch operations return: `none` is -1, for no instruction though one was
  -- asked for.
  abbrev pub batch_size : ℕ → List Inst → Option ℕ
  batch_size zero insts = some 0
  batch_size (suc n) [] = none
  batch_size (suc n) (i ∷ insts) = some (suc (length insts))

  -- `fetch(MCIS, Size)`, for `MaxLen`: the number, what was written to `MCIS`, and the broker.
  unfoldable pub take_batch : ℕ → AsmFileBroker → Option ℕ × List Inst × AsmFileBroker
  unfolding fetch_loop
  take_batch n s = let (insts, s') = fetch_loop n s in (batch_size n insts, insts, s')

  -- It returns nothing where the assertion on its size fails.
  abbrev pub fetch_batch :
      Option ℕ → ℕ → AsmFileBroker → Option (Option ℕ × List Inst × AsmFileBroker)
  fetch_batch size room s = asserted (fits size room) (some (take_batch (max_len size room) s))

  -- `(*IterRegion)`, where there is one.
  abbrev pub region_size : List (CodeRegion Inst Text) → ℕ
  region_size [] = 0
  region_size (r ∷ rs) = length r.instructions

  abbrev pub region_text : List (CodeRegion Inst Text) → Option Text
  region_text [] = none
  region_text (r ∷ rs) = r.description

  -- The loop of `fetchRegion`: the rounds left, `NumInsts`, `LastRegionDescription` and the broker.
  unfoldable pub region_loop :
      ℕ → ℕ → Option Text → AsmFileBroker → List Inst × RegionDescriptor Text × AsmFileBroker
  region_loop zero num text s = ([], record { is_end = false; description = text }, s)
  region_loop (suc n) num text s =
      let (i, s') = fetch s in
      elim i [
        | none ↦ ([], record { is_end = true; description = text }, s')
        | some inst ↦
            (let num' = if num == 0 then region_size s'.iter_region else num in
              let text' = if num == 0 then region_text s'.iter_region else text in
              let (insts, d, s'') = region_loop n num' text' s' in
              if leb num' s'.cur_inst_idx
              then (inst ∷ [], record { is_end = true; description = text' }, s')
              else (inst ∷ insts, d, s''))
      ]

  -- `fetchRegion` after its assertion, for `MaxLen`.
  unfoldable pub take_region :
      ℕ → AsmFileBroker → Option ℕ × List Inst × RegionDescriptor Text × AsmFileBroker
  unfolding region_loop
  take_region n s =
      let (insts, d, s') = region_loop n 0 none s in (batch_size n insts, insts, d, s')

  -- `fetchRegion`; it returns nothing where the assertion on its size fails.
  abbrev pub fetch_region :
      Option ℕ
      → ℕ
      → AsmFileBroker
      → Option (Option ℕ × List Inst × RegionDescriptor Text × AsmFileBroker)
  fetch_region size room s = asserted (fits size room) (some (take_region (max_len size room) s))
