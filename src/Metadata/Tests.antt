-- ===== src/Metadata/Tests.antt =====
-- Accesses, markers and a registry at concrete values.
use llvm_mca_daemon.Prelude.{◌≡◌, ◌&&◌, none, some, [], ◌∷◌, ◌==◌, if◌then◌else◌}
use llvm_mca_daemon.Metadata.{Any, instr_addr}
use llvm_mca_daemon.Metadata.Registry.{Registry, peek, assign}
use llvm_mca_daemon.Metadata.Registry.Laws.{peek-assign}

abbrev address : Any
address = instr_addr (record { addr = 64; size = 4 })

abbrev registry : Registry
registry = none ∷ none ∷ some ((5, address) ∷ []) ∷ []

peek-assign_example :
    peek 2 5 (assign 4 5 address registry)
    ≡ (if 4 == 2 && 5 == 5 then some address else peek 2 5 registry)
peek-assign_example = peek-assign 4 5 address 2 5 registry
