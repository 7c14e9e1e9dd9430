-- ===== src/Memory/Paging/Translate.antt =====
-- The address that the processor reads through the tables of AetherWebOS/arch/aarch64/mmu.c, and
-- `ioremap` of AetherWebOS/src/kernel/memory.c in closed form.
use aether_webos.Prelude.{
  ℕ, ◌+◌, ◌-◌, ◌*◌, ◌/◌, ◌%◌, ◌^◌, ◌≤◌, ◌<◌, ◌≡◌, arith, ap, ◌∙◌, ◌&&◌, Option, none, some, ◌==◌,
  ltb, leb, if◌then◌else◌, Bool-cases, inl, inr, bit_and, bit_and_low, bit_and_field,
}
use aether_webos.Memory.Paging.{
  Pool, Space, vmalloc_start, vmalloc_max, prot_device_page, map_loop, mmu_map_region, vmalloc,
  ioremap_pages, ioremap,
}
use aether_webos.Memory.Paging.Mapping.{at, IsDynamic, map_loop-at}

-- The walk for an address of the dynamic area: bits 20 to 12 index a level 3 table; a valid entry
-- has 3 in its low two bits and the page's address in bits 47 to 12.
unfoldable pub translate : Pool → ℕ → Option ℕ
translate pool va =
    let entry = at pool (va / 4096) in
    if entry % 4 == 3 then some (entry / 4096 % 2 ^ 36 * 4096 + va % 4096) else none

-- The next address is that of a page of the dynamic area, or its end.
pub record IsSpace (s : Space) : Type 0 where
  pub low : vmalloc_start ≤ s.vmalloc_ptr
  pub high : s.vmalloc_ptr ≤ vmalloc_max
  pub page_aligned : s.vmalloc_ptr % 4096 ≡ 0

page_round :
    (n : ℕ)
    → n < 2 ^ 63
    → bit_and ((n + 4096 - 1) % 2 ^ 64) (2 ^ 64 - 4096) ≡ (n + 4095) / 4096 * 4096
page_round n h = omega (arith, bit_and_field 12 52 ((n + 4096 - 1) % 2 ^ 64))

page_floor : (n : ℕ) → n < 2 ^ 63 → bit_and n (2 ^ 64 - 4096) ≡ n / 4096 * 4096
page_floor n h = omega (arith, bit_and_field 12 52 n)

-- The pages of a mapping: enough for the offset and the size.
abbrev pub map_pages : ℕ → ℕ → ℕ
map_pages phys size = (phys % 4096 + size + 4095) / 4096

-- The state after a mapping of `m` pages that starts at the physical address `page`.
abbrev pub mapped : ℕ → ℕ → Space → Space
mapped page m s = record {
  vmalloc_ptr = s.vmalloc_ptr + m * 4096;
  pool = mmu_map_region s.vmalloc_ptr page (m * 4096) prot_device_page s.pool;
}

vmalloc_lem :
    (m : ℕ) (s : Space)
    → IsSpace s
    → m < 2 ^ 51
    → vmalloc (m * 4096) s ≡ (
        if ltb vmalloc_max (s.vmalloc_ptr + m * 4096)
        then (s, none)
        else (record s { vmalloc_ptr = s.vmalloc_ptr + m * 4096 }, some s.vmalloc_ptr))
unfolding vmalloc
vmalloc_lem m s v h = ground (arith, page_round (m * 4096))

ioremap_pages_lem :
    (page offset m : ℕ) (s : Space)
    → IsSpace s
    → m < 2 ^ 51
    → offset < 4096
    → ioremap_pages (page * 4096) offset (m * 4096) s ≡ (
        if ltb vmalloc_max (s.vmalloc_ptr + m * 4096)
        then (s, none)
        else (mapped (page * 4096) m s, some (s.vmalloc_ptr + offset)))
unfolding ioremap_pages
ioremap_pages_lem page offset m s v h ho =
    elim (Bool-cases (ltb vmalloc_max (s.vmalloc_ptr + m * 4096))) [
      | inl full ↦ ground (arith, vmalloc_lem m s v h, full)
      | inr fits ↦ ground (arith, vmalloc_lem m s v h, fits)
    ]

-- Whatever physical address is asked for: the area stays well formed, and what is handed out lies
-- in it.
pub ioremap-IsSpace :
    (phys size : ℕ) (s : Space)
    → IsSpace s
    → size < 2 ^ 62
    → IsSpace (ioremap phys size s).0
      × ((va : ℕ)
          → (ioremap phys size s).1 ≡ some va
          → (vmalloc_start ≤ va) × (va < vmalloc_max + 4096))
unfolding ioremap ioremap_pages
ioremap-IsSpace phys size s v hs =
    let m : ℕ = (phys % 4096 + size + 4095) / 4096 in
    let low : vmalloc_start ≤ s.vmalloc_ptr = v.low in
    let high : s.vmalloc_ptr ≤ vmalloc_max = v.high in
    let even : s.vmalloc_ptr % 4096 ≡ 0 = v.page_aligned in
    let offset : bit_and phys 4095 ≡ phys % 4096 = bit_and_low 12 phys in
    let pages : bit_and ((phys % 4096 + size + 4096 - 1) % 2 ^ 64) (2 ^ 64 - 4096) ≡ m * 4096 =
      page_round (phys % 4096 + size) (omega arith) in
    let room = vmalloc_lem m s v (omega arith) in
    rw (offset, pages)
      (elim (Bool-cases (size == 0)) [
        | inl none_asked ↦ rw none_asked (v, λ va e. absurd (ground (arith, e)))
        | inr some_asked ↦ elim (Bool-cases (ltb vmalloc_max (s.vmalloc_ptr + m * 4096))) [
          | inl full ↦
              let refused : vmalloc (m * 4096) s ≡ (s, none) = rw full at room in
              rw (some_asked, ioremap_pages, refused, refused)
                (v, λ va e. absurd (ground (arith, e)))
          | inr fits ↦
              let given : vmalloc (m * 4096) s
                  ≡ (record s { vmalloc_ptr = s.vmalloc_ptr + m * 4096 }, some s.vmalloc_ptr) =
                rw fits at room in
              rw (some_asked, ioremap_pages, given, given)
                (
                  record {
                    low = omega arith;
                    high = ground (arith, fits);
                    page_aligned = omega arith;
                  },
                  λ va e. ground (arith, e),
                )
        ]
      ])

-- `ioremap` in closed form.
pub ioremap_lem :
    (phys size : ℕ) (s : Space)
    → IsSpace s
    → phys < 2 ^ 63
    → size < 2 ^ 62
    → ioremap phys size s ≡ (
        if size == 0
        then (s, none)
        else if ltb vmalloc_max (s.vmalloc_ptr + map_pages phys size * 4096)
        then (s, none)
        else (
          mapped (phys / 4096 * 4096) (map_pages phys size) s,
          some (s.vmalloc_ptr + phys % 4096),
        ))
unfolding ioremap
ioremap_lem phys size s v hp hs =
    rw (page_floor phys hp, bit_and_low 12 phys, page_round (phys % 4096 + size) (omega arith))
      (ap (λ t. if size == 0 then (s, none) else t)
        (ioremap_pages_lem (phys / 4096) (phys % 4096) (map_pages phys size) s v (omega arith)
          (omega arith)))

mmu_map_region_lem :
    (v q m : ℕ) (pool : Pool)
    → q * 4096 < 2 ^ 63
    → v % 4096 ≡ 0
    → mmu_map_region v (q * 4096) (m * 4096) prot_device_page pool
      ≡ map_loop (m + 1) 0 (0 + m * 4096) (v / 4096 * 4096) (q * 4096) prot_device_page pool
unfolding mmu_map_region
mmu_map_region_lem v q m pool hq hv = ground (arith, page_floor (q * 4096))

-- What a page of the dynamic area holds after `m` pages were mapped at `vmalloc_ptr`.
pub mapped-at :
    (q m w : ℕ) (s : Space)
    → IsSpace s
    → s.vmalloc_ptr + m * 4096 ≤ vmalloc_max
    → q + m ≤ 2 ^ 36
    → IsDynamic w
    → at (mapped (q * 4096) m s).pool w ≡ (
        if leb (s.vmalloc_ptr / 4096) w && ltb w (s.vmalloc_ptr / 4096 + m)
        then (q + (w - s.vmalloc_ptr / 4096)) * 4096 + 0x403
        else at s.pool w)
mapped-at q m w s v fits hq hw =
    ap (λ (t : Pool). at t w)
      (mmu_map_region_lem s.vmalloc_ptr q m s.pool (omega arith) v.page_aligned)
    ∙ map_loop-at m (m + 1) 0 (s.vmalloc_ptr / 4096) q w s.pool (omega arith) (omega arith)
        (omega arith) hw (omega arith) hq

pub translate_page :
    (pool : Pool) (va q : ℕ)
    → q < 2 ^ 36
    → at pool (va / 4096) ≡ q * 4096 + 0x403
    → translate pool va ≡ some (q * 4096 + va % 4096)
unfolding translate
translate_page pool va q hq e = ground arith

pub translate_same :
    (pool pool' : Pool) (va : ℕ)
    → at pool (va / 4096) ≡ at pool' (va / 4096)
    → translate pool va ≡ translate pool' va
unfolding translate
translate_same pool pool' va e = ground arith
