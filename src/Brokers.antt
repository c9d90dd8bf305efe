-- ===== src/Brokers.antt =====
-- The brokers, which feed instructions to the worker, and Brokers/Broker.h, their interface.
pub mod AsmFile
pub mod Vivisect
mod Tests
use llvm_mca_daemon.Prelude.{ℕ, Bool, true, Option, none, some, ltb, leb, u32, ◌&&◌, ◌||◌, ◌==◌}
use llvm_mca_daemon.Prelude.Assoc.{Assoc}
use llvm_mca_daemon.Metadata.Registry.{Registry}

-- `MDExchanger`
pub record Exchanger : Type 0 where
  pub registry : Registry
  pub index_map : Assoc ℕ

-- `RegionDescriptor`
pub record RegionDescriptor (Text : Type 0) : Type 0 where
  pub is_end : Bool
  pub description : Option Text

-- The bits of `getFeatures`.
abbrev pub feature_region : ℕ
feature_region = 1

-- The `Size` of a fetch, `none` for a negative one, against the room in the caller's array.
abbrev pub max_len : Option ℕ → ℕ → ℕ
max_len none room = room
max_len (some size) room = size

-- `assert(Size <= int(MCIS.size()))`, where `none` is -1: the number of places as an `int` of 32
-- bits, which is negative from 2 ^ 31 on.
abbrev pub fits : Option ℕ → ℕ → Bool
fits none room = ltb (u32 room) 2147483648 || u32 room == 4294967295
fits (some size) room = ltb (u32 room) 2147483648 && leb size (u32 room)
