-- ===== src/Qemu/Block.antt =====
-- `QemuBroker::addTB` and `disassemble`: a translation block from its bytes. LLVM's disassembler,
-- `getInstruction`, is the parameter: an instruction with its size, or a failure.
pub mod Aligned
pub mod Skew
pub mod Offsets
use Prim.Native.Nat.{bit_and}
use llvm_mca_daemon.Prelude.{
  ℕ, zero, suc, ◌+◌, ◌-◌, ◌%◌, max, Bool, true, false, ◌&&◌, ◌||◌, Option, none, some, List, [],
  ◌∷◌, ◌++◌, ltb, leb, ◌==◌, u32, u64, if◌then◌else◌, length, set, replicate, map,
}
use llvm_mca_daemon.Prelude.Assoc.{Assoc, lookup, insert}
use llvm_mca_daemon.Qemu.{Run, returns, faults, TranslationBlock, QemuBroker}

-- `MCDisassembler::getInstruction` on the bytes from an address on.
abbrev pub Decoder : Type 0 → Type 0
Decoder Inst = List ℕ → ℕ → Option (Inst × ℕ)

-- The target's triple and the disassemblers that `initializeDisassembler` makes for it.
pub record Target (Inst : Type 0) : Type 0 where
  pub is_arm : Bool
  pub is_thumb : Bool
  pub primary : Decoder Inst
  pub secondary : Option (Decoder Inst)

-- `uint8_t` and `uint16_t`
abbrev pub u8 : ℕ → ℕ
u8 n = n % 256

abbrev pub u16 : ℕ → ℕ
u16 n = n % 65536

-- The lowest bit cleared, as `&= (~0b1)` does.
abbrev pub clear_lsb : ℕ → ℕ
clear_lsb n = n - n % 2

-- An instruction out of the bytes of a raw one, with its address and its size.
pub record Decoded (Inst : Type 0) : Type 0 where
  pub inst : Inst
  pub addr : ℕ
  pub size : ℕ

-- `BitVector::resize`
unfoldable pub resize_bits : ℕ → List Bool → List Bool
resize_bits zero bits = []
resize_bits (suc n) [] = false ∷ resize_bits n []
resize_bits (suc n) (b ∷ bits) = b ∷ resize_bits n bits

abbrev pub has_bytes : List (List ℕ) → Bool
has_bytes [] = false
has_bytes (raw ∷ raws) = ltb 0 (length raw) || has_bytes raws

module _ {Inst : Type 0} where
  -- `TranslationBlock(Size)` with its raw instructions.
  unfoldable pub new_block : List (List ℕ) → TranslationBlock Inst
  new_block raws = record {
    raw_insts = raws;
    mc_insts = [];
    skew_indices = [];
    mc_inst_addrs = [];
    mc_inst_sizes = [];
    vaddr = 0;
    vaddr_offsets = [];
    begin_marks = [];
    end_marks = [];
  }

  -- `operator bool`
  abbrev pub is_translated : TranslationBlock Inst → Bool
  is_translated tb = ltb 0 (length tb.mc_insts)

  -- `TBs.resize`
  abbrev pub resize_tbs :
      ℕ → List (Option (TranslationBlock Inst)) → List (Option (TranslationBlock Inst))
  resize_tbs n tbs = if leb n (length tbs) then tbs else tbs ++ replicate (n - length tbs) none

  -- `addTB`
  unfoldable pub add_tb :
      {Text : Type 0} → ℕ → List (List ℕ) → QemuBroker Inst Text → QemuBroker Inst Text
  add_tb index raws s = record s {
    tbs = set (resize_tbs (index + 1) s.tbs) index (some (new_block raws));
  }

  -- The inner loop of `disassemble`. `Index` goes up by the size of an instruction; the bytes under
  -- it are passed one by one, `skip` of them still to go.
  unfoldable pub decode_raw : Decoder Inst → ℕ → ℕ → ℕ → List ℕ → List (Decoded Inst)
  decode_raw decode vaddr index skip [] = []
  decode_raw decode vaddr index (suc skip) (b ∷ bs) = decode_raw decode vaddr (index + 1) skip bs
  decode_raw decode vaddr index zero (b ∷ bs) = elim (decode (b ∷ bs) (u64 (vaddr + index))) [
    | none ↦ []
    | some (i, n) ↦
        record { inst = i; addr = u64 (vaddr + index); size = max n 1 }
        ∷ decode_raw decode vaddr (index + 1) (max n 1 - 1) bs
  ]

  -- Its `emplace_back`s.
  unfoldable pub add_decoded :
      ℕ → List (Decoded Inst) → TranslationBlock Inst → TranslationBlock Inst
  add_decoded start ds tb = record tb {
    mc_insts = tb.mc_insts ++ map (λ d. d.inst) ds;
    mc_inst_addrs = tb.mc_inst_addrs ++ map (λ d. d.addr) ds;
    mc_inst_sizes = tb.mc_inst_sizes ++ map (λ d. u32 d.size) ds;
    vaddr_offsets = tb.vaddr_offsets ++ map (λ d. u8 (d.addr + (18446744073709551616 - start))) ds;
  }

  -- The entry of `SkewIndicies` for a raw instruction.
  unfoldable pub note_skew : ℕ → ℕ → TranslationBlock Inst → TranslationBlock Inst
  note_skew idx skew tb =
      if ltb 0 skew
      then record tb { skew_indices = insert idx (u32 (idx + skew)) tb.skew_indices }
      else tb

  -- The loop over the raw instructions: the start address, then `VAddr`, `RawInstIdx` and
  -- `SkewIdxOffset`, which grows by one for each instruction of a raw one but the first.
  unfoldable pub disassemble_loop :
      Decoder Inst → ℕ → ℕ → ℕ → ℕ → List (List ℕ) → TranslationBlock Inst → TranslationBlock Inst
  unfolding note_skew add_decoded
  disassemble_loop decode start vaddr idx skew [] tb = tb
  disassemble_loop decode start vaddr idx skew (raw ∷ raws) tb =
      let ds = decode_raw decode vaddr 0 0 raw in
      disassemble_loop decode start (u64 (vaddr + length raw)) (u32 (idx + 1))
        (u32 (skew + (length ds - 1))) raws (add_decoded start ds (note_skew idx skew tb))

  -- `useDisassembler`; `none` is a null pointer.
  unfoldable pub use_disassembler : Target Inst → ℕ → Option (Decoder Inst)
  use_disassembler t vaddr =
      let wants_primary = if vaddr % 2 == 1 then t.is_thumb else t.is_arm in
      if t.is_arm || t.is_thumb
      then (if wants_primary then some t.primary else t.secondary)
      else some t.primary

  -- A call through a null pointer happens only where there is a byte.
  abbrev pub checked_decoder : Option (Decoder Inst) → List (List ℕ) → Run (Decoder Inst)
  checked_decoder (some d) raws = returns d
  checked_decoder none raws = if has_bytes raws then faults else returns (λ bs a. none)

  unfoldable pub start_vaddr : Target Inst → ℕ → ℕ
  start_vaddr t vaddr = if t.is_arm || t.is_thumb then clear_lsb vaddr else vaddr

  abbrev pub resize_marks : TranslationBlock Inst → TranslationBlock Inst
  resize_marks tb = record tb {
    begin_marks = resize_bits (length tb.mc_insts) tb.begin_marks;
    end_marks = resize_bits (length tb.mc_insts) tb.end_marks;
  }

  -- The part of `disassemble` after its early return, with the disassembler chosen.
  unfoldable pub disassemble_with : Decoder Inst → ℕ → TranslationBlock Inst → TranslationBlock Inst
  unfolding disassemble_loop
  disassemble_with decode start tb =
      resize_marks (disassemble_loop decode start start 0 0 tb.raw_insts tb)

  -- `disassemble`
  unfoldable pub disassemble : Target Inst → TranslationBlock Inst → Run (TranslationBlock Inst)
  disassemble t tb =
      if is_translated tb
      then returns tb
      else elim (checked_decoder (use_disassembler t tb.vaddr) tb.raw_insts) [
        | returns decode ↦ returns (disassemble_with decode (start_vaddr t tb.vaddr) tb)
        | _ ↦ faults
      ]
