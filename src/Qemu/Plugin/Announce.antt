-- ===== src/Qemu/Plugin/Announce.antt =====
-- A translated block leaves the executed ones alone, pending and sent.
use llvm_mca_daemon.Prelude.{
  ℕ, ◌≡◌, refl, ◌∙◌, ap, Bool, true, false, Option, none, some, List, [], ◌∷◌, ◌++◌, append-nil,
  u32, if◌then◌else◌, Bool-cases, inl, inr, map,
}
use llvm_mca_daemon.Qemu.Receive.{Message, metadata, translated_block}
use llvm_mca_daemon.Qemu.Plugin.{
  Relay, GuestInsn, send, note_start, note_end, announce, tb_translate_callback,
}
use llvm_mca_daemon.Qemu.Plugin.Events.{executed, executed-append}

-- What a translated block leaves alone.
pub record SameBlock (s s' : Relay) : Type 0 where
  pub current : s'.current_exec_tb ≡ s.current_exec_tb
  pub sent : executed s'.wire ≡ executed s.wire
  pub still_open : s'.remote_open ≡ s.remote_open

SameBlock-trans : (r s t : Relay) → SameBlock r s → SameBlock s t → SameBlock r t
SameBlock-trans r s t h k = record {
  current = k.current ∙ h.current;
  sent = k.sent ∙ h.sent;
  still_open = k.still_open ∙ h.still_open;
}

note_end-SameBlock : (o : Option ℕ) (stop : ℕ) (s : Relay) → SameBlock s (note_end o stop s)
note_end-SameBlock none stop s = record { current = refl; sent = refl; still_open = refl }
note_end-SameBlock (some a) stop s = record { current = refl; sent = refl; still_open = refl }

outcome-SameBlock :
    (went : Bool) (n k : ℕ) (s s' : Relay)
    → SameBlock s s'
    → SameBlock s
        (if◌then◌else◌ {A = Option ℕ × Relay} went
          (some n, record s' { num_translation_block = k })
          (none, s')).1
outcome-SameBlock true n k s s' h = record {
  current = h.current;
  sent = h.sent;
  still_open = h.still_open;
}
outcome-SameBlock false n k s s' h = h

module _ (accepted : ℕ → Bool) where
  send-SameBlock :
      (m : Message) (s : Relay) → executed (m ∷ []) ≡ [] → SameBlock s (send accepted m s).1
  unfolding send
  send-SameBlock m s other = record {
    current = refl;
    sent = elim (Bool-cases (accepted s.num_writes)) [
      | inl e ↦
          rw e
            (executed-append s.wire (m ∷ []) ∙ ap (λ l. executed s.wire ++ l) other ∙ append-nil _)
      | inr e ↦ rw e refl
    ];
    still_open = refl;
  }

  note_start-SameBlock :
      (o : Option ℕ) (start : ℕ) (s : Relay) → SameBlock s (note_start accepted o start s)
  note_start-SameBlock none start s =
      let h = send-SameBlock (metadata start) (record s { code_start_addr = some start }) refl in
      record { current = h.current; sent = h.sent; still_open = h.still_open }
  note_start-SameBlock (some a) start s = record { current = refl; sent = refl; still_open = refl }

  announce-SameBlock :
      (regs : List (ℕ × List ℕ)) (s : Relay) → SameBlock s (announce accepted regs s).1
  unfolding announce
  announce-SameBlock [] s = record { current = refl; sent = refl; still_open = refl }
  announce-SameBlock (r ∷ rs) s =
      let m = translated_block (u32 s.num_translation_block) (map (λ p. p.1) (r ∷ rs)) in
      outcome-SameBlock (send accepted m s).0 _ _ s _ (send-SameBlock m s refl)

  pub translate-SameBlock :
      (only : Bool) (start stop : ℕ) (insns : List GuestInsn) (s : Relay)
      → SameBlock s (tb_translate_callback accepted only start stop insns s).2
  unfolding tb_translate_callback
  translate-SameBlock only start stop insns s =
      let s1 = note_start accepted s.code_start_addr start s in
      let s2 = note_end s1.code_end_addr stop s1 in
      SameBlock-trans s s2 _
        (SameBlock-trans s s1 s2 (note_start-SameBlock s.code_start_addr start s)
          (note_end-SameBlock s1.code_end_addr stop s1))
        (announce-SameBlock _ s2)
