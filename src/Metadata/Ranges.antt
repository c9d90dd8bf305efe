-- ===== src/Metadata/Ranges.antt =====
-- The extended address range of bundled memory accesses (`MDMemoryAccess::append`), the order on
-- memory accesses by which a memory group looks for aliases, and region markers.
use llvm_mca_daemon.Prelude.{suc, ◌+◌, ◌≤◌, ◌<◌, ◌≡◌, refl, ◌↔◌, true, ◌||◌, arith, max}
use llvm_mca_daemon.Metadata.{
  Access, Bundle, MemoryAccess, RegionMarker, start_addr, end_addr, bundle_of, extend, append,
  access_lt, access_equiv, is_begin, is_end, marker_or,
}

-- No end address of the range wraps, and its size is an `unsigned`.
pub record FitsIn (b : Bundle) : Type 0 where
  pub fits_addr : b.extended_addr + b.extended_size < 18446744073709551616
  pub fits_size : b.extended_size < 4294967296

module _ (b : Bundle) (m : Access) (f : FitsIn b)
    (wide : m.addr + m.size < 18446744073709551616) where
  extend_above :
      b.extended_addr ≤ m.addr
      → m.addr + m.size < b.extended_addr + 4294967296
      → ((extend b m).extended_addr ≡ b.extended_addr)
        × ((extend b m).extended_addr + (extend b m).extended_size
            ≡ max (b.extended_addr + b.extended_size) (m.addr + m.size))
        × FitsIn (extend b m)
  unfolding extend
  extend_above low near = (ground arith, ground arith, ground arith)

  extend_below :
      m.addr < b.extended_addr
      → m.size ≤ b.extended_size
      → ((extend b m).extended_addr ≡ m.addr) × ((extend b m).extended_size ≡ b.extended_size)
  unfolding extend
  extend_below low short = (ground arith, ground arith)

start_addr-bundle_of : (a : MemoryAccess) → start_addr a ≡ (bundle_of a).extended_addr
unfolding start_addr
start_addr-bundle_of a = ground arith

end_addr-bundle_of :
    (a : MemoryAccess)
    → FitsIn (bundle_of a)
    → end_addr a ≡ (bundle_of a).extended_addr + (bundle_of a).extended_size
unfolding end_addr
end_addr-bundle_of a f = ground arith

-- Appending an access at or above the start of a range, where neither end wraps at 2 ^ 64 nor the
-- size at 2 ^ 32, keeps the start and moves the end to the larger of both ends; the range still
-- fits.
append_range :
    (a : MemoryAccess) (m : Access)
    → FitsIn (bundle_of a)
    → start_addr a ≤ m.addr
    → m.addr + m.size < 18446744073709551616
    → m.addr + m.size < start_addr a + 4294967296
    → (start_addr (append a m) ≡ start_addr a)
      × (end_addr (append a m) ≡ max (end_addr a) (m.addr + m.size))
      × FitsIn (bundle_of (append a m))
unfolding append start_addr end_addr
append_range a m f low wide near =
    ground
      (arith, start_addr-bundle_of a, end_addr-bundle_of a f, extend_above (bundle_of a) m f wide)

-- Appending an access that starts below a range that fits and is no longer than it: the range
-- starts at the access, and its end moves down.
append_below_loses_end :
    (a : MemoryAccess) (m : Access)
    → FitsIn (bundle_of a)
    → m.addr < start_addr a
    → m.size ≤ (bundle_of a).extended_size
    → (start_addr (append a m) ≡ m.addr) × (end_addr (append a m) < end_addr a)
unfolding append start_addr end_addr
append_below_loses_end a m f below short =
    ground (arith, start_addr-bundle_of a, end_addr-bundle_of a f, extend_below (bundle_of a) m f)

-- Two accesses are equivalent keys exactly when their extended ranges meet.
access_equiv_iff :
    (a b : MemoryAccess)
    → (access_equiv a b ≡ true) ↔ ((start_addr a < end_addr b) × (start_addr b < end_addr a))
unfolding access_equiv access_lt
access_equiv_iff a b = (λ h. ground arith, λ h. ground arith)

-- The union of two markers of two bits begins a region exactly when one of them does, and ends one
-- likewise.
marker_or_lem :
    (m n : RegionMarker)
    → m < 4
    → n < 4
    → (is_begin (marker_or m n) ≡ (is_begin m || is_begin n))
      × (is_end (marker_or m n) ≡ (is_end m || is_end n))
unfolding is_begin is_end marker_or
marker_or_lem (suc (suc (suc (suc m)))) n h k = absurd (omega arith)
marker_or_lem m (suc (suc (suc (suc n)))) h k = absurd (omega arith)
marker_or_lem _ _ h k = (refl, refl)
