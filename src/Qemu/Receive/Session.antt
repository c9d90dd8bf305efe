-- ===== src/Qemu/Receive/Session.antt =====
-- A whole session: what the plugin sends, taken in by the broker.
use llvm_mca_daemon.Prelude.{
  ℕ, suc, ◌+◌, ◌<◌, ◌≤◌, ◌≡◌, refl, sym, ◌∙◌, ap, subst, Bool, true, false, ◌&&◌, none, some, List,
  [], ◌∷◌, ◌++◌, map, map-append, append-nil, append_assoc, ◌==◌, arith, if◌then◌else◌, length,
  length-append, length-map, set,
}
use llvm_mca_daemon.Qemu.Regions.{trim}
use llvm_mca_daemon.Qemu.{Run, returns, waits, spins, faults, ◌>>=◌, TbSlice, QemuBroker}
use llvm_mca_daemon.Qemu.Block.{Decoder, Target, use_disassembler, add_tb}
use llvm_mca_daemon.Qemu.Exec.{
  ExecTb, put_block, regions_in, enqueue_slice, tb_exec, handle_metadata,
}
use llvm_mca_daemon.Qemu.Receive.{
  Message, metadata, translated_block, executed_tb, handle_message, receive_all,
}
use llvm_mca_daemon.Qemu.Receive.Table.{
  table, table-set, table-block_at, table-resize_tbs, length-table, translate-Keeps,
}
use llvm_mca_daemon.Qemu.Plugin.{Relay, flush_previous_tb_exec, on_plugin_exit}
use llvm_mca_daemon.Qemu.Plugin.Events.{executed, end_signal}
use llvm_mca_daemon.Qemu.Plugin.Steps.{Reaches}
use llvm_mca_daemon.Qemu.Plugin.Wire.{IsNumbered, count_blocks}
use llvm_mca_daemon.Qemu.Plugin.Numbers.{numbers_lem, exit_wire}

-- The announced blocks among the messages, by their bytes.
abbrev pub announced : List Message → List (List (List ℕ))
announced [] = []
announced (metadata a ∷ ms) = announced ms
announced (translated_block i raws ∷ ms) = raws ∷ announced ms
announced (executed_tb e ∷ ms) = announced ms

module _ {Inst Text : Type 0} where
  -- A broker with the blocks `rs` in its table, slices of the blocks `is` in its queue.
  pub record Holds (rs : List (List (List ℕ))) (is : List ℕ) (s : QemuBroker Inst Text)
      : Type 0 where
    pub blocks : table s.tbs ≡ map some rs
    pub queue : map (λ (c : TbSlice Text). c.index) s.tb_queue ≡ is
    pub untrimmed : regions_in trim s.bin_regions ≡ none

  add_tb-Holds :
      (rs : List (List (List ℕ))) (is : List ℕ) (raws : List (List ℕ)) (i : ℕ)
      (s : QemuBroker Inst Text)
      → i ≡ length rs
      → Holds rs is s
      → Holds (rs ++ (raws ∷ [])) is (add_tb i raws s)
  unfolding add_tb
  add_tb-Holds rs is raws i s e h =
      let at : i ≡ length s.tbs =
        e ∙ sym (length-map some rs) ∙ sym (ap length h.blocks) ∙ length-table s.tbs in
      record {
        blocks = rw at (
            table-resize_tbs raws s.tbs
            ∙ ap (λ l. l ++ (some raws ∷ [])) h.blocks
            ∙ sym (map-append some rs (raws ∷ [])));
        queue = h.queue;
        untrimmed = h.untrimmed;
      }

  tb_exec-Holds :
      (t : Target Inst) (d : Decoder Inst) (rs : List (List (List ℕ))) (is : List ℕ) (e : ExecTb)
      (s : QemuBroker Inst Text)
      → use_disassembler t e.pc ≡ some d
      → e.index < length rs
      → e.index < 4294967295
      → Holds rs is s
      → (s' : QemuBroker Inst Text) × (tb_exec t e s ≡ returns s')
        × Holds rs (is ++ (e.index ∷ [])) s'
        × (s'.is_end_of_stream ≡ s.is_end_of_stream)
  unfolding tb_exec enqueue_slice
  tb_exec-Holds t d rs is e s chosen lt small h =
      let (tb, found) = table-block_at s.tbs rs e.index h.blocks lt in
      let (tb', s1, trans, k) = translate-Keeps t d e.pc tb s chosen in
      let go : (e.index == 4294967295 && e.pc == 18446744073709551615) ≡ false = ground arith in
      let untrimmed1 : regions_in trim s1.bin_regions ≡ none =
        ap (regions_in trim) k.bin_regions ∙ h.untrimmed in
      (
        enqueue_slice e.index e.mem_accesses tb' (put_block e.index tb' s1),
        rw (go, found, trans) refl,
        record {
          blocks = rw untrimmed1 (
              ap (λ m. table (set m e.index (some tb'))) k.tbs
              ∙ table-set s.tbs e.index tb tb' found k.raws
              ∙ h.blocks);
          queue = rw untrimmed1 (
              map-append (λ (c : TbSlice Text). c.index) s1.tb_queue _
              ∙ ap (λ q. map (λ (c : TbSlice Text). c.index) q ++ (e.index ∷ [])) k.tb_queue
              ∙ ap (λ l. l ++ (e.index ∷ [])) h.queue);
          untrimmed = rw untrimmed1 untrimmed1;
        },
        rw untrimmed1 k.ended,
      )

  module _ (t : Target Inst)
      (total : (a : ℕ) → (d : Decoder Inst) × (use_disassembler t a ≡ some d)) where
    receive-Holds :
        (ms : List Message) (rs : List (List (List ℕ))) (is : List ℕ) (s : QemuBroker Inst Text)
        → IsNumbered (length rs) ms
        → length rs + count_blocks ms ≤ 4294967295
        → Holds rs is s
        → (s' : QemuBroker Inst Text) × (receive_all t ms s ≡ returns s')
          × Holds (rs ++ announced ms) (is ++ map (λ (e : ExecTb). e.index) (executed ms)) s'
          × (s'.is_end_of_stream ≡ s.is_end_of_stream)
    unfolding receive_all handle_message add_tb
    receive-Holds [] rs is s n fit h = (s, refl, rw (append-nil rs, append-nil is) h, refl)
    receive-Holds (metadata a ∷ ms) rs is s n fit h =
        receive-Holds ms rs is (handle_metadata a s) n fit
          (record { blocks = h.blocks; queue = h.queue; untrimmed = h.untrimmed })
    receive-Holds (translated_block i raws ∷ ms) rs is s n fit h =
        let longer : suc (length rs) ≡ length (rs ++ (raws ∷ [])) =
          omega (arith, length-append rs (raws ∷ [])) in
        let (s', runs, holds, ended) =
          receive-Holds ms (rs ++ (raws ∷ [])) is (add_tb i raws s)
            (subst (λ k. IsNumbered k ms) longer n.1) (omega (arith, longer, fit))
            (add_tb-Holds rs is raws i s n.0 h) in
        (
          s',
          runs,
          subst (λ l. Holds l (is ++ map (λ (e : ExecTb). e.index) (executed ms)) s')
              (append_assoc rs (raws ∷ []) (announced ms)) holds,
          ended,
        )
    receive-Holds (executed_tb e ∷ ms) rs is s n fit h =
        let (d, chosen) = total e.pc in
        let (s1, goes, holds1, ended1) =
          tb_exec-Holds t d rs is e s chosen n.0 (omega (arith, n.0, fit)) h in
        let (s', runs, holds, ended) =
          receive-Holds ms rs (is ++ (e.index ∷ [])) s1 n.1 fit holds1 in
        (
          s',
          ap (λ r. r >>= λ s2. receive_all t ms s2) goes ∙ runs,
          subst (λ l. Holds (rs ++ announced ms) l s')
              (append_assoc is (e.index ∷ []) (map (λ (e : ExecTb). e.index) (executed ms))) holds,
          ended ∙ ended1,
        )

    receive_all-append :
        (xs ys : List Message) (s : QemuBroker Inst Text)
        → receive_all t (xs ++ ys) s ≡ (receive_all t xs s >>= λ s'. receive_all t ys s')
    unfolding receive_all
    receive_all-append [] ys s = refl
    receive_all-append (x ∷ xs) ys s =
        after (handle_message t x s) (λ s'. receive_all-append xs ys s')
      where
        after :
            (r : Run (QemuBroker Inst Text))
            → ((s' : QemuBroker Inst Text)
                → receive_all t (xs ++ ys) s' ≡ (receive_all t xs s' >>= λ s2. receive_all t ys s2))
            → (r >>= λ s'. receive_all t (xs ++ ys) s')
              ≡ ((r >>= λ s'. receive_all t xs s') >>= λ s'. receive_all t ys s')
        after (returns s') h = h s'
        after waits h = refl
        after spins h = refl
        after faults h = refl

    -- The end signal, if it goes through, after the other messages.
    receive_end :
        (b : Bool) (ms : List Message) (rs : List (List (List ℕ))) (is : List ℕ)
        (s s1 : QemuBroker Inst Text)
        → receive_all t ms s ≡ returns s1
        → Holds rs is s1
        → s1.is_end_of_stream ≡ false
        → (s' : QemuBroker Inst Text) × (receive_all t
              (ms ++ (if b then executed_tb end_signal ∷ [] else []))
              s
            ≡ returns s')
          × Holds rs is s'
          × (s'.is_end_of_stream ≡ b)
    unfolding receive_all handle_message tb_exec
    receive_end true ms rs is s s1 runs holds ended = (
      record s1 { is_end_of_stream = true },
      receive_all-append ms (executed_tb end_signal ∷ []) s
          ∙ ap (λ r. r >>= λ s2. receive_all t (executed_tb end_signal ∷ []) s2) runs,
      record { blocks = holds.blocks; queue = holds.queue; untrimmed = holds.untrimmed },
      refl,
    )
    receive_end false ms rs is s s1 runs holds ended =
        (s1, ap (λ l. receive_all t l s) (append-nil ms) ∙ runs, holds, ended)

    -- Take a session of the plugin in which any callbacks came in any order and any writes failed,
    -- with fewer than 2 ^ 32 - 1 blocks announced and each executed by the number of its callback,
    -- and a target whose disassemblers are there. A broker with an empty table and queue that does
    -- not trim takes in all that went through up to the exit: its table holds the bytes of the
    -- announced blocks, each at the place of its announcement, its queue has the executed blocks in
    -- their order, and it is at the end of the stream exactly if the end signal went through.
    pub receive_session :
        (accepted : ℕ → Bool) (r : Relay) (s : QemuBroker Inst Text)
        → Reaches accepted r
        → Holds [] [] s
        → s.is_end_of_stream ≡ false
        → let sent = flush_previous_tb_exec accepted r in
          (s' : QemuBroker Inst Text) × (receive_all t (on_plugin_exit accepted r).wire s
            ≡ returns s')
          × Holds (announced sent.wire) (map (λ (e : ExecTb). e.index) (executed sent.wire)) s'
          × (s'.is_end_of_stream ≡ accepted sent.num_writes)
    receive_session accepted r s reach h running =
        let sent = flush_previous_tb_exec accepted r in
        let (numbered, count, small, opened) = numbers_lem accepted r reach in
        let (s1, runs, holds, ended) =
          receive-Holds sent.wire [] [] s numbered (omega (arith, count, small)) h in
        let (s', all_runs, all_holds, all_ended) =
          receive_end (accepted sent.num_writes) sent.wire _ _ s s1 runs holds (ended ∙ running) in
        (
          s',
          ap (λ l. receive_all t l s) (exit_wire accepted r opened) ∙ all_runs,
          all_holds,
          all_ended,
        )
