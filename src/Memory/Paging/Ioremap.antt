-- ===== src/Memory/Paging/Ioremap.antt =====
-- `ioremap` of AetherWebOS/src/kernel/memory.c: every byte of the device's range is reached, and
-- earlier mappings stay.
use aether_webos.Prelude.{
  ℕ, ◌+◌, ◌-◌, ◌*◌, ◌/◌, ◌%◌, ◌^◌, ◌≤◌, ◌<◌, ◌≡◌, ◌⊎◌, ◌↔◌, arith, ap, ◌∙◌, none, some,
}
use aether_webos.Memory.Paging.{Space, vmalloc_start, vmalloc_max, ioremap}
use aether_webos.Memory.Paging.Translate.{
  translate, IsSpace, map_pages, mapped, ioremap_lem, mapped-at, translate_page, translate_same,
}

mapped-new :
    (phys size k : ℕ) (s : Space)
    → IsSpace s
    → phys + size ≤ 2 ^ 48
    → s.vmalloc_ptr + map_pages phys size * 4096 ≤ vmalloc_max
    → k < size
    → translate
        (mapped (phys / 4096 * 4096) (map_pages phys size) s).pool
        (s.vmalloc_ptr + phys % 4096 + k)
      ≡ some (phys + k)
mapped-new phys size k s v hp fits hk =
    let w : ℕ = (s.vmalloc_ptr + phys % 4096 + k) / 4096 in
    translate_page (mapped (phys / 4096 * 4096) (map_pages phys size) s).pool
      (s.vmalloc_ptr + phys % 4096 + k) (phys / 4096 + (w - s.vmalloc_ptr / 4096)) (omega arith)
      (ground (
        arith,
        mapped-at (phys / 4096) (map_pages phys size) w s v fits (omega arith) (omega arith),
      ))
    ∙ ap some (omega arith)

mapped-old :
    (phys size a : ℕ) (s : Space)
    → IsSpace s
    → phys + size ≤ 2 ^ 48
    → s.vmalloc_ptr + map_pages phys size * 4096 ≤ vmalloc_max
    → vmalloc_start ≤ a
    → a < s.vmalloc_ptr
    → translate (mapped (phys / 4096 * 4096) (map_pages phys size) s).pool a ≡ translate s.pool a
mapped-old phys size a s v hp fits lo hi =
    translate_same (mapped (phys / 4096 * 4096) (map_pages phys size) s).pool s.pool a (
      ground (
        arith,
        mapped-at (phys / 4096) (map_pages phys size) (a / 4096) s v fits (omega arith)
            (omega arith),
      ))

-- A successful `ioremap` of a range below `2 ^ 48`: every byte of the range is reached through the
-- address that is returned, at its place; the addresses handed out before still lead where they
-- led; the new addresses lie in the area between the old and the new end of what is handed out.
pub ioremap-translate :
    (phys size va : ℕ) (s : Space)
    → IsSpace s
    → phys + size ≤ 2 ^ 48
    → (ioremap phys size s).1 ≡ some va
    → IsSpace (ioremap phys size s).0
      × ((k : ℕ) → k < size → translate (ioremap phys size s).0.pool (va + k) ≡ some (phys + k))
      × ((a : ℕ)
          → vmalloc_start ≤ a
          → a < s.vmalloc_ptr
          → translate (ioremap phys size s).0.pool a ≡ translate s.pool a)
      × (s.vmalloc_ptr ≤ va)
      × (va + size ≤ (ioremap phys size s).0.vmalloc_ptr)
ioremap-translate phys size va s v hp e =
    let parts : (0 < size)
        × (va ≡ s.vmalloc_ptr + phys % 4096)
        × ((ioremap phys size s).0 ≡ mapped (phys / 4096 * 4096) (map_pages phys size) s)
        × (s.vmalloc_ptr + map_pages phys size * 4096 ≤ vmalloc_max) =
      ground (arith, ioremap_lem phys size s v (omega arith) (omega arith)) in
    rw (parts.2) (
      record { low = omega arith; high = omega arith; page_aligned = omega arith },
      λ k hk. rw parts.1 (mapped-new phys size k s v hp parts.3 hk),
      λ a lo hi. mapped-old phys size a s v hp parts.3 lo hi,
      omega arith,
      omega arith,
    )

-- For a physical address below 2^63 and a size below 2^62, `ioremap` returns NULL exactly for an empty
-- range and for one whose pages do not fit the area that is left; it changes nothing then.
pub ioremap-none :
    (phys size : ℕ) (s : Space)
    → IsSpace s
    → phys < 2 ^ 63
    → size < 2 ^ 62
    → (((ioremap phys size s).1 ≡ none)
        ↔ ((size ≡ 0) ⊎ (vmalloc_max < s.vmalloc_ptr + map_pages phys size * 4096)))
      × ((ioremap phys size s).1 ≡ none → (ioremap phys size s).0 ≡ s)
ioremap-none phys size s v hp hs = ground (arith, ioremap_lem phys size s v hp hs)
