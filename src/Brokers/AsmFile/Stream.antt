-- ===== src/Brokers/AsmFile/Stream.antt =====
-- The instructions that an `AsmFileBroker` has left, and what one `fetch` takes of them.
use llvm_mca_daemon.Prelude.{
  ℕ, zero, suc, ◌+◌, ◌-◌, ◌≤◌, ◌<◌, ◌≡◌, ◌⊎◌, refl, sym, subst, ◌∙◌, false, not, ◌&&◌, Option, none,
  some, List, [], ◌∷◌, arith, leb, leb→le, length, drop, get_elem?, Bool-cases, inl, inr,
  if◌then◌else◌,
}
use llvm_mca_daemon.Brokers.AsmFile.{
  CodeRegion, AsmFileBroker, parse_regions, parse_if_needed, skip_regions, take_current, fetch,
}

module _ (Inst Text : Type 0) where
  -- A region with instructions left, put before the others; an empty one is left out.
  abbrev pub put :
      List Inst → Option Text → List (CodeRegion Inst Text) → List (CodeRegion Inst Text)
  put [] text rs = rs
  put (i ∷ is) text rs = record { instructions = i ∷ is; description = text } ∷ rs

  -- The regions from an index of the first one on, without the empty ones.
  abbrev pub pieces : List (CodeRegion Inst Text) → ℕ → List (CodeRegion Inst Text)
  pieces [] cur = []
  pieces (r ∷ rs) cur = put (drop cur r.instructions) r.description (pieces rs 0)

  -- What a broker has left to give, parsed or not.
  abbrev pub stream_of : AsmFileBroker Inst Text → List (CodeRegion Inst Text)
  stream_of s = if s.is_invalid then [] else pieces s.iter_region s.cur_inst_idx

  abbrev pub stream : AsmFileBroker Inst Text → List (CodeRegion Inst Text)
  stream s = stream_of (parse_if_needed Inst Text s)

  pub put-drop_past :
      (is : List Inst) (cur : ℕ) (text : Option Text) (rs : List (CodeRegion Inst Text))
      → length is ≤ cur
      → put (drop cur is) text rs ≡ rs
  put-drop_past [] zero text rs h = refl
  put-drop_past [] (suc cur) text rs h = refl
  put-drop_past (i ∷ is) zero text rs h = absurd (omega (arith, h))
  put-drop_past (i ∷ is) (suc cur) text rs h = put-drop_past is cur text rs (omega arith)

  pub drop-at :
      (is : List Inst) (cur : ℕ)
      → cur < length is
      → (i : Inst) × (get_elem? is cur ≡ some i) × (drop cur is ≡ i ∷ drop (suc cur) is)
  drop-at [] cur h = elim h [ ]
  drop-at (i ∷ is) zero h = (i, refl, refl)
  drop-at (i ∷ is) (suc cur) h = let (j, e, d) = drop-at is cur (omega arith) in (j, e, d)

  length-drop : (cur : ℕ) (is : List Inst) → length (drop cur is) ≡ length is - cur
  length-drop zero is = omega arith
  length-drop (suc cur) [] = omega arith
  length-drop (suc cur) (i ∷ is) = omega (arith, length-drop cur is)

  -- The first region that is not used up, with its index, or none.
  Found : List (CodeRegion Inst Text) → ℕ → Type 0
  Found [] cur = Unit {0}
  Found (r ∷ rs) cur = cur < length r.instructions

  skip_regions_lem :
      (rs : List (CodeRegion Inst Text)) (cur : ℕ)
      → (pieces (skip_regions Inst Text rs cur).0 (skip_regions Inst Text rs cur).1 ≡ pieces rs cur)
        × Found (skip_regions Inst Text rs cur).0 (skip_regions Inst Text rs cur).1
  unfolding skip_regions Found
  skip_regions_lem [] cur = (refl, tt)
  skip_regions_lem (r ∷ []) cur = elim (Bool-cases (leb (length r.instructions) cur)) [
    | inl past ↦
        rw (past) (sym (put-drop_past r.instructions cur r.description [] (leb→le _ _ past)), tt)
    | inr more ↦ rw (more) (refl, ground arith)
  ]
  skip_regions_lem (r ∷ r' ∷ rs) cur = elim (Bool-cases (leb (length r.instructions) cur)) [
    | inl past ↦
        let (same, found) = skip_regions_lem (r' ∷ rs) 0 in
        rw (past) (
          same
              ∙ sym (
                  put-drop_past r.instructions cur r.description (pieces (r' ∷ rs) 0)
                    (leb→le _ _ past)),
          found,
        )
    | inr more ↦ rw (more) (refl, ground arith)
  ]

  parsed_new :
      (parse : Option (List (CodeRegion Inst Text))) (s : AsmFileBroker Inst Text)
      → (not (parse_regions Inst Text parse s).is_invalid
          && not (parse_regions Inst Text parse s).has_regions)
        ≡ false
  unfolding parse_regions
  parsed_new none s = refl
  parsed_new (some rs) s = ground arith

  -- Once the broker has tried to parse, it does not do so again.
  parse_again :
      (s : AsmFileBroker Inst Text)
      → (not s.is_invalid && not s.has_regions) ≡ false
      → parse_if_needed Inst Text s ≡ s
  unfolding parse_if_needed
  parse_again s h = rw h refl

  parsed_lem :
      (s : AsmFileBroker Inst Text)
      → (not (parse_if_needed Inst Text s).is_invalid
          && not (parse_if_needed Inst Text s).has_regions)
        ≡ false
  unfolding parse_if_needed
  parsed_lem s = elim (Bool-cases (not s.is_invalid && not s.has_regions)) [
    | inl new ↦ rw (new) (parsed_new s.parse s)
    | inr old ↦ rw (old) old
  ]

  -- The instruction is the first of the first region left, and the iterator is on that region.
  pub record Given (l : List (CodeRegion Inst Text)) (inst : Inst) (s' : AsmFileBroker Inst Text)
      : Type 0 where
    pub piece : CodeRegion Inst Text
    pub others : List (CodeRegion Inst Text)
    pub rest : List Inst
    pub left : l ≡ piece ∷ others
    pub front : piece.instructions ≡ inst ∷ rest
    pub after : stream s' ≡ put rest piece.description others
    pub region : CodeRegion Inst Text
    pub regions : List (CodeRegion Inst Text)
    pub on : s'.iter_region ≡ region ∷ regions
    pub text : region.description ≡ piece.description
    pub size : length region.instructions ≡ s'.cur_inst_idx + length rest
    pub parsed : (not s'.is_invalid && not s'.has_regions) ≡ false
    pub valid : s'.is_invalid ≡ false

  -- What one `fetch` does: at the end it returns null and stays there; otherwise it gives an
  -- instruction.
  abbrev pub Step : List (CodeRegion Inst Text) → Option Inst → AsmFileBroker Inst Text → Type 0
  Step l i s' =
      ((l ≡ []) × (i ≡ none) × (stream s' ≡ []))
      ⊎ ((inst : Inst) × (i ≡ some inst) × Given l inst s')

  take-Step :
      (rs : List (CodeRegion Inst Text)) (cur : ℕ) (s : AsmFileBroker Inst Text)
      → Found rs cur
      → (not s.is_invalid && not s.has_regions) ≡ false
      → s.is_invalid ≡ false
      → Step (pieces rs cur) (take_current Inst Text rs cur s).0 (take_current Inst Text rs cur s).1
  unfolding take_current Found
  take-Step [] cur s f h v =
      inl
        (refl, refl, rw (parse_again (record s { iter_region = []; cur_inst_idx = cur }) h, v) refl)
  take-Step (r ∷ rs) cur s f h v =
      let (i, at, d) = drop-at r.instructions cur f in
      inr (
        i,
        at,
        record {
          piece = record { instructions = drop cur r.instructions; description = r.description };
          others = pieces rs 0;
          rest = drop (suc cur) r.instructions;
          left = rw d refl;
          front = d;
          after =
              rw (parse_again (record s { iter_region = r ∷ rs; cur_inst_idx = suc cur }) h, v)
                refl;
          region = r;
          regions = rs;
          on = refl;
          text = refl;
          size = omega (arith, length-drop (suc cur) r.instructions, f);
          parsed = h;
          valid = v;
        },
      )

  skip_stays :
      (r : CodeRegion Inst Text) (rs : List (CodeRegion Inst Text)) (cur : ℕ)
      → cur < length r.instructions
      → skip_regions Inst Text (r ∷ rs) cur ≡ (r ∷ rs, cur)
  unfolding skip_regions
  skip_stays r [] cur h = ground (arith)
  skip_stays r (r' ∷ rs) cur h = ground (arith)

  -- A broker whose region is not used up stays on it.
  pub fetch_stays :
      (s : AsmFileBroker Inst Text) (r : CodeRegion Inst Text) (rs : List (CodeRegion Inst Text))
      → s.iter_region ≡ r ∷ rs
      → s.cur_inst_idx < length r.instructions
      → (not s.is_invalid && not s.has_regions) ≡ false
      → s.is_invalid ≡ false
      → (fetch Inst Text s).1.iter_region ≡ r ∷ rs
  unfolding fetch take_current
  fetch_stays s r rs on h parsed valid =
      rw (parse_again s parsed, valid, on, skip_stays r rs s.cur_inst_idx h) refl

  pub fetch-Step :
      (s : AsmFileBroker Inst Text) → Step (stream s) (fetch Inst Text s).0 (fetch Inst Text s).1
  unfolding fetch parse_if_needed
  fetch-Step s = elim (Bool-cases (parse_if_needed Inst Text s).is_invalid) [
    | inl bad ↦
        rw (bad) (
          inl (refl, refl, rw (parse_again (parse_if_needed Inst Text s) (parsed_lem s), bad) refl))
    | inr good ↦
        let p = parse_if_needed Inst Text s in
        let (same, found) = skip_regions_lem p.iter_region p.cur_inst_idx in
        rw (good) (
          subst
            (λ l.
              Step l
                (take_current Inst Text (skip_regions Inst Text p.iter_region p.cur_inst_idx).0
                  (skip_regions Inst Text p.iter_region p.cur_inst_idx).1 p).0
                (take_current Inst Text (skip_regions Inst Text p.iter_region p.cur_inst_idx).0
                  (skip_regions Inst Text p.iter_region p.cur_inst_idx).1 p).1)
            same (take-Step _ _ p found (parsed_lem s) good))
  ]
