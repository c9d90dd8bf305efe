-- ===== src/FetchDelay/Foresight.antt =====
-- What `MCADFetchDelayStage::execute` tells the branch predictor, and what it remembers of it.
use llvm_mca_daemon.Prelude.{
  ℕ, ◌+◌, ◌≡◌, refl, Bool, true, false, Option, none, some, u64, ◌==◌, if◌then◌else◌,
}
use llvm_mca_daemon.Metadata.{InstrAddr}
use llvm_mca_daemon.Branch.{BranchDirection, taken, not_taken, BranchPredictor}
use llvm_mca_daemon.FetchDelay.{
  NextStage, FetchStage, resolve, resolve_branch, predict_next, model_branch,
}

module _ (next : NextStage) (bpu : BranchPredictor) where
  open next use {Ir}

  -- The predictor after it was told of a resolved branch.
  abbrev pub informed :
      bpu.State → Option BranchDirection → Option InstrAddr → Option InstrAddr → bpu.State
  informed p (some predicted) (some ia) (some previous) =
      bpu.record_taken_branch p previous
        (if ia.addr == u64 (previous.addr + previous.size) then not_taken else taken)
  informed p _ _ _ = p

  -- The predictor and the direction that is remembered after an instruction: a prediction for a branch
  -- with an address, none for any other instruction.
  abbrev pub predicted_for :
      bpu.State → Option InstrAddr → Bool → Option bpu.State × Option BranchDirection
  predicted_for p (some ia) true =
      (some (bpu.predict_branch p ia).0, some (bpu.predict_branch p ia).1)
  predicted_for p _ _ = (some p, none)

  -- Both, where modelling is off too.
  abbrev pub foresight :
      Option bpu.State
      → Bool
      → Option BranchDirection
      → Option InstrAddr
      → Option InstrAddr
      → Bool
      → Option bpu.State × Option BranchDirection
  foresight (some p) true predicted addr previous branch =
      predicted_for (informed p predicted addr previous) addr branch
  foresight p _ predicted addr previous branch = (p, predicted)

  informed_lem :
      (predicted : Option BranchDirection) (addr previous : Option InstrAddr) (p : bpu.State)
      (n : ℕ) (s : FetchStage next bpu)
      → s.predictor ≡ some p
      → (resolve_branch next bpu predicted addr previous p n s).1.predictor
        ≡ some (informed p predicted addr previous)
  unfolding resolve_branch resolve
  informed_lem (some predicted) (some ia) (some previous) p n s e = refl
  informed_lem (some predicted) (some ia) none p n s e = e
  informed_lem (some predicted) none previous p n s e = e
  informed_lem none addr previous p n s e = e

  predicted_for_lem :
      (p : bpu.State) (addr : Option InstrAddr) (branch : Bool) (s : FetchStage next bpu)
      → s.predictor ≡ some p
      → ((predict_next next bpu (some p) addr branch s).predictor ≡ (predicted_for p addr branch).0)
        × ((predict_next next bpu (some p) addr branch s).predicted_direction
            ≡ (predicted_for p addr branch).1)
  unfolding predict_next
  predicted_for_lem p (some ia) true s e = (refl, refl)
  predicted_for_lem p (some ia) false s e = (e, refl)
  predicted_for_lem p none branch s e = (e, refl)

  pub foresight_lem :
      (p : Option bpu.State) (enabled : Bool) (addr : Option InstrAddr) (ir : Ir) (n : ℕ)
      (s : FetchStage next bpu)
      → s.predictor ≡ p
      → (let r = model_branch next bpu p enabled addr ir n s in
          let f =
            foresight p enabled s.predicted_direction addr s.previous_addr (next.is_branch ir) in
          (r.1.predictor ≡ f.0) × (r.1.predicted_direction ≡ f.1))
  unfolding model_branch
  foresight_lem (some p) true addr ir n s e =
      let r = resolve_branch next bpu s.predicted_direction addr s.previous_addr p n s in
      let told = informed_lem s.predicted_direction addr s.previous_addr p n s e in
      rw (told) (
        predicted_for_lem (informed p s.predicted_direction addr s.previous_addr) addr
          (next.is_branch ir) r.1 told)
  foresight_lem (some p) false addr ir n s e = (e, refl)
  foresight_lem none enabled addr ir n s e = (e, refl)
