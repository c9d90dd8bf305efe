-- ===== src/Binja/Jam.antt =====
-- What becomes of the queue of the Binary Ninja broker once an instruction does not disassemble.
use llvm_mca_daemon.Prelude.{
  ℕ, suc, ◌+◌, ◌<◌, ◌≤◌, ◌≡◌, refl, ap, ◌∙◌, true, false, Option, none, some, List, [], ◌∷◌, ◌++◌,
  arith, length, All, u32, ltb,
}
use llvm_mca_daemon.Prelude.Assoc.{lookup}
use llvm_mca_daemon.Qemu.{Run, returns}
use llvm_mca_daemon.Binja.{
  Status, invalid_argument, BinjaBroker, accept_request, reply, signal_worker_complete, fetch_loop,
  fetch_region, signal_instruction_error,
}

module _ (Inst Error : Type 0) (decode : List ℕ → Option Inst) (reported_fail : Error) where
  -- The answer to a request of `n` instructions, after the worker took the batch and signalled that
  -- it is complete. Nothing where the worker does not get that far.
  abbrev pub after_fetch :
      ℕ
      → Run (Option ℕ × List Inst × BinjaBroker Inst Error decode reported_fail)
      → Option (Status × BinjaBroker Inst Error decode reported_fail)
  after_fetch n (returns r) =
      let p =
        reply Inst Error decode reported_fail n
          (signal_worker_complete Inst Error decode reported_fail r.2) in
      some (p.0, p.2)
  after_fetch n _ = none

  abbrev pub after_accept :
      ℕ
      → ℕ
      → Option Status × BinjaBroker Inst Error decode reported_fail
      → Option (Status × BinjaBroker Inst Error decode reported_fail)
  after_accept room n (some status, s) = some (status, s)
  after_accept room n (none, s) =
      after_fetch n (fetch_region Inst Error decode reported_fail room s)

  -- A request with instructions, from its arrival to the answer.
  abbrev pub serve :
      ℕ
      → List (List ℕ)
      → BinjaBroker Inst Error decode reported_fail
      → Option (Status × BinjaBroker Inst Error decode reported_fail)
  serve room insns s =
      after_accept room (length insns)
        (accept_request Inst Error decode reported_fail (some insns) s)

  -- Every request of a sequence is answered by `invalid_argument`.
  abbrev pub AllRefused :
      ℕ → List (List (List ℕ)) → BinjaBroker Inst Error decode reported_fail → Type 0
  AllRefused room [] s = Unit
  AllRefused room (insns ∷ later) s =
      (s' : BinjaBroker Inst Error decode reported_fail) × (serve room insns s
        ≡ some (invalid_argument, s'))
      × AllRefused room later s'

  -- A broker between two requests.
  pub record IsIdle (s : BinjaBroker Inst Error decode reported_fail) : Type 0 where
    pub runs : s.running ≡ true
    pub no_errors : s.instruction_errors ≡ []

  record IsJammed (s : BinjaBroker Inst Error decode reported_fail) : Type 0 where
    idle : IsIdle s
    insn : List ℕ
    others : List (List ℕ)
    front : s.insn_queue ≡ insn ∷ others
    undecoded : decode insn ≡ none

  fetch_loop-next :
      (room i : ℕ) (b : List ℕ) (queue left : List (List ℕ)) (x : Inst) (insts : List Inst)
      (stop : Option ℕ)
      → decode b ≡ some x
      → ltb i room ≡ true
      → fetch_loop Inst Error decode reported_fail room (u32 (i + 1)) queue
        ≡ returns (insts, left, stop)
      → fetch_loop Inst Error decode reported_fail room i (b ∷ queue)
        ≡ returns (x ∷ insts, left, stop)
  unfolding fetch_loop
  fetch_loop-next room i b queue left x insts stop e inside h = rw (fetch_loop, e, inside, h) refl

  -- Instructions that disassemble in front of one that does not.
  stops_lem :
      (room i : ℕ) (front : List (List ℕ)) (insn : List ℕ) (others : List (List ℕ))
      → All (λ b. (x : Inst) × (decode b ≡ some x)) front
      → decode insn ≡ none
      → i + length front ≤ room
      → room < 4294967296
      → (insts : List Inst) × (fetch_loop Inst Error decode reported_fail room i
            (front ++ (insn ∷ others))
          ≡ returns (insts, insn ∷ others, some (i + length front)))
  unfolding fetch_loop
  stops_lem room i [] insn others made undecoded fit small =
      let place : i ≡ i + 0 = omega arith in
      ([], rw undecoded (ap (λ k. returns ([], insn ∷ others, some k)) place))
  stops_lem room i (b ∷ front) insn others made undecoded fit small =
      let next : u32 (i + 1) ≡ i + 1 = ground (arith, fit, small) in
      let place : (i + 1) + length front ≡ i + suc (length front) = omega arith in
      let (insts, f) =
        stops_lem room (i + 1) front insn others made.1 undecoded (omega (arith, fit)) small in
      (
        made.0.0 ∷ insts,
        fetch_loop-next room i b (front ++ (insn ∷ others)) (insn ∷ others) made.0.0 insts _
            made.0.1 (ground (arith, fit))
            (ap (λ k. fetch_loop Inst Error decode reported_fail room k (front ++ (insn ∷ others)))
                next
              ∙ f
              ∙ ap (λ k. returns (insts, insn ∷ others, some k)) place),
      )

  arrived :
      List ℕ
      → List (List ℕ)
      → BinjaBroker Inst Error decode reported_fail
      → BinjaBroker Inst Error decode reported_fail
  arrived i is s = record s {
    insn_queue = s.insn_queue ++ (i ∷ is);
    done_handling_input = false;
    is_waiting_for_worker = true;
  }

  accepted_lem :
      (i : List ℕ) (is : List (List ℕ)) (s : BinjaBroker Inst Error decode reported_fail)
      → s.running ≡ true
      → accept_request Inst Error decode reported_fail (some (i ∷ is)) s ≡ (none, arrived i is s)
  unfolding accept_request arrived
  accepted_lem i is s runs = rw runs refl

  fetched_lem :
      (room : ℕ) (s : BinjaBroker Inst Error decode reported_fail) (insts : List Inst)
      (left : List (List ℕ)) (stop : ℕ)
      → s.done_handling_input ≡ false
      → s.running ≡ true
      → s.instruction_errors ≡ []
      → fetch_loop Inst Error decode reported_fail room 0 s.insn_queue
        ≡ returns (insts, left, some stop)
      → fetch_region Inst Error decode reported_fail room s
        ≡ returns (
          some stop,
          insts,
          record s {
            insn_queue = left;
            local_mcis = s.local_mcis ++ insts;
            instruction_errors = (stop, reported_fail) ∷ [];
          },
        )
  unfolding fetch_region signal_instruction_error lookup
  fetched_lem room s insts left stop input runs fine loop = rw (input, runs, loop, fine) refl

  -- A request that finds such a queue is refused, and leaves the instruction in front.
  refused_lem :
      (room : ℕ) (i : List ℕ) (is front : List (List ℕ)) (insn : List ℕ) (others : List (List ℕ))
      (s : BinjaBroker Inst Error decode reported_fail)
      → IsIdle s
      → s.insn_queue ++ (i ∷ is) ≡ front ++ (insn ∷ others)
      → All (λ b. (x : Inst) × (decode b ≡ some x)) front
      → decode insn ≡ none
      → length front ≤ room
      → room < 4294967296
      → (s' : BinjaBroker Inst Error decode reported_fail) × (serve room (i ∷ is) s
          ≡ some (invalid_argument, s'))
        × IsJammed s'
  unfolding reply arrived
  refused_lem room i is front insn others s idle queued made undecoded fit small =
      let (insts, f) =
        stops_lem room 0 front insn others made undecoded (omega (arith, fit)) small in
      let loop : fetch_loop Inst Error decode reported_fail room 0 (s.insn_queue ++ (i ∷ is))
          ≡ returns (insts, insn ∷ others, some (0 + length front)) =
        ap (fetch_loop Inst Error decode reported_fail room 0) queued ∙ f in
      (
        record s {
          insn_queue = insn ∷ others;
          is_waiting_for_worker = false;
          done_handling_input = true;
          instruction_errors = [];
          local_mcis = s.local_mcis ++ insts;
        },
        ap (after_accept room (suc (length is))) (accepted_lem i is s idle.runs)
            ∙ ap (after_fetch (suc (length is))) (
                fetched_lem room (arrived i is s) insts (insn ∷ others) (0 + length front) refl
                  idle.runs idle.no_errors loop),
        record {
          idle = record { runs = idle.runs; no_errors = refl };
          insn = insn;
          others = others;
          front = refl;
          undecoded = undecoded;
        },
      )

  jammed_lem :
      (room : ℕ) (requests : List (List (List ℕ))) (s : BinjaBroker Inst Error decode reported_fail)
      → IsJammed s
      → All (λ insns. 0 < length insns) requests
      → room < 4294967296
      → AllRefused room requests s
  jammed_lem room [] s jam filled small = tt
  jammed_lem room ([] ∷ requests) s jam filled small = absurd (omega (arith, filled.0))
  jammed_lem room ((i ∷ is) ∷ requests) s jam filled small =
      let (s', e, jam') =
        refused_lem room i is [] jam.insn (jam.others ++ (i ∷ is)) s jam.idle
          (ap (λ q. q ++ (i ∷ is)) jam.front) tt jam.undecoded (omega arith) small in
      (s', e, jammed_lem room requests s' jam' filled.1 small)

  -- Let an idle broker with an empty queue get a request with an instruction that does not
  -- disassemble, and before it no more instructions than the buffer of fewer than 2 ^ 32 places
  -- holds, all of which do. Where the worker takes one batch for each request, that request and
  -- every later one with instructions is answered by INVALID_ARGUMENT: the instruction stays at the
  -- front of the queue.
  pub bad_request_jams :
      (room : ℕ) (front : List (List ℕ)) (insn : List ℕ) (others : List (List ℕ))
      (later : List (List (List ℕ))) (s : BinjaBroker Inst Error decode reported_fail)
      → IsIdle s
      → s.insn_queue ≡ []
      → All (λ b. (x : Inst) × (decode b ≡ some x)) front
      → decode insn ≡ none
      → length front ≤ room
      → room < 4294967296
      → All (λ insns. 0 < length insns) later
      → AllRefused room ((front ++ (insn ∷ others)) ∷ later) s
  bad_request_jams room front insn others later s idle empty made undecoded fit small filled =
      split_lem front made fit
    where
      split_lem :
          (front : List (List ℕ))
          → All (λ b. (x : Inst) × (decode b ≡ some x)) front
          → length front ≤ room
          → AllRefused room ((front ++ (insn ∷ others)) ∷ later) s
      split_lem [] made fit =
          let (s', e, jam) =
            refused_lem room insn others [] insn others s idle
              (ap (λ q. q ++ (insn ∷ others)) empty) tt undecoded (omega arith) small in
          (s', e, jammed_lem room later s' jam filled small)
      split_lem (b ∷ front) made fit =
          let (s', e, jam) =
            refused_lem room b (front ++ (insn ∷ others)) (b ∷ front) insn others s idle
              (ap (λ q. q ++ (b ∷ (front ++ (insn ∷ others)))) empty) made undecoded fit small in
          (s', e, jammed_lem room later s' jam filled small)
