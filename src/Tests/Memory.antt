-- ===== src/Tests/Memory.antt =====
-- AetherWebOS/src/kernel/memory.c and AetherWebOS/arch/aarch64/mmu.c on concrete inputs.

use mathlib.Core.List.{Perm}
use aether_webos.Prelude.{
  ℕ, ◌+◌, ◌*◌, ◌≤◌, ◌<◌, ◌≡◌, ◌≢◌, ◌↔◌, ◌⊎◌, refl, arith, List, [], ◌∷◌, All, false, none, some,
  inl, inr,
}
use aether_webos.Memory.Heap.{
  Heap, heap_start, heap_size, header_size, initial, align8, reuse, bump, mark_free, heads, kmalloc,
  kfree,
}
use aether_webos.Memory.Heap.Invariant.{IsValid}
use aether_webos.Memory.Heap.Live.{live, Inside, Separate, IsFresh, kmalloc-IsFresh}
use aether_webos.Memory.Heap.Calls.{Call, calls, AllProper, calls-Separate}
use aether_webos.Memory.Heap.Release.{kfree-live, kmalloc-kfree}
use aether_webos.Memory.Paging.{Space, vmalloc_start, vmalloc_max, ioremap}
use aether_webos.Memory.Paging.Translate.{IsSpace, map_pages}
use aether_webos.Memory.Paging.Ioremap.{ioremap-none}
use aether_webos.Memory.Paging.Cache.{clean_cache_range, Cleaned, Touched, clean_cache_range-lines}

-- Two blocks in use, of 104 and 16 bytes.
abbrev two_blocks : Heap
two_blocks = record {
  ptr = 0x41000000 + 168;
  blocks =
      record { addr = 0x41000000 + 128; size = 16; is_free = false }
      ∷ record { addr = 0x41000000; size = 104; is_free = false }
      ∷ [];
  strays = [];
}

two_blocks-IsValid : IsValid two_blocks
two_blocks-IsValid = record { laid = (refl, refl, (refl, refl, refl)); within = omega arith }

served : (kmalloc 20 two_blocks).1 ≡ some (0x41000000 + 192)
unfolding kmalloc reuse bump align8
served = refl

kmalloc-IsFresh_example :
    IsFresh 20
      (0x41000000 + 192)
      (heap_start + heap_size)
      (live two_blocks.blocks)
      (live (kmalloc 20 two_blocks).0.blocks)
kmalloc-IsFresh_example =
    kmalloc-IsFresh 20 two_blocks (0x41000000 + 192) two_blocks-IsValid (omega arith) served

-- A block is given back, and another one is taken.
abbrev three_calls : List Call
three_calls = Call.alloc 100 ∷ Call.release (some 0x41000018) ∷ Call.alloc 20 ∷ []

three_calls-AllProper : AllProper three_calls initial
unfolding heads kmalloc reuse bump align8 initial kfree mark_free
three_calls-AllProper = (omega arith, (refl, (omega arith, tt)))

calls-Separate_example :
    let h = calls three_calls initial in
    IsValid h
    × (h.ptr ≤ heap_start + heap_size)
    × All (Inside (heap_start + header_size) h.ptr) (live h.blocks)
    × Separate (live h.blocks)
    × (h.strays ≡ [])
calls-Separate_example = calls-Separate three_calls three_calls-AllProper

kfree-live_example :
    Perm
      (live two_blocks.blocks)
      ((0x41000000 + 24, 104) ∷ live (kfree (some (0x41000000 + 24)) two_blocks).blocks)
kfree-live_example = kfree-live two_blocks (0x41000000 + 24) 104 two_blocks-IsValid (inr (inl refl))

fits : align8 100 ≤ 104
unfolding align8
fits = omega arith

kmalloc-kfree_example :
    ((kmalloc 100 (kfree (some (0x41000000 + 24)) two_blocks)).1 ≢ none)
    × ((kmalloc 100 (kfree (some (0x41000000 + 24)) two_blocks)).0.ptr ≡ 0x41000000 + 168)
kmalloc-kfree_example = kmalloc-kfree two_blocks (0x41000000 + 24) 104 100 (inr (inl refl)) fits

abbrev unmapped : Space
unmapped = record { vmalloc_ptr = vmalloc_start; pool = λ i j. 0 }

unmapped-IsSpace : IsSpace unmapped
unmapped-IsSpace = record { low = omega arith; high = omega arith; page_aligned = refl }

ioremap-none_example :
    (((ioremap 0xFE000000 0x900000 unmapped).1 ≡ none) ↔ (
      (◌≡◌ {A = ℕ} 0x900000 0)
      ⊎ (vmalloc_max < vmalloc_start + map_pages 0xFE000000 0x900000 * 4096)))
    × ((ioremap 0xFE000000 0x900000 unmapped).1 ≡ none
        → (ioremap 0xFE000000 0x900000 unmapped).0 ≡ unmapped)
ioremap-none_example =
    ioremap-none 0xFE000000 0x900000 unmapped unmapped-IsSpace (omega arith) (omega arith)

clean_cache_range-lines_example :
    ((a : ℕ) → 0x1010 ≤ a → a < 0x1090 → Cleaned a (clean_cache_range 0x1010 0x1090))
    × All (Touched 0x1010 0x1090) (clean_cache_range 0x1010 0x1090)
clean_cache_range-lines_example = clean_cache_range-lines 0x1010 0x1090 (omega arith) (omega arith)
