-- ===== src/Memory/Paging/Mapping.antt =====
-- What `mmu_map_region` of AetherWebOS/arch/aarch64/mmu.c leaves in the level 3 tables, page by page.
use aether_webos.Prelude.{
  ℕ, zero, suc, ◌+◌, ◌-◌, ◌*◌, ◌/◌, ◌%◌, ◌^◌, ◌≤◌, ◌<◌, ◌≡◌, arith, ap, ◌∙◌, ◌&&◌, ◌==◌, ltb, leb,
  if◌then◌else◌, bit_or, bit_and_low, bit_or_disjoint, bit_or_low, lt→ltb,
}
use aether_webos.Memory.Paging.{Pool, prot_device_page, set_entry, map_page, map_loop}

-- The entry for a page by its number, the address without the 12 bits of the offset.
abbrev pub at : Pool → ℕ → ℕ
at pool w = pool (w / 512 % 512) (w % 512)

-- The pages of the dynamic area, 0x80000000 to 0x80800000.
abbrev pub IsDynamic : ℕ → Type 0
IsDynamic w = (0x80000 ≤ w) × (w < 0x80800)

entry_bits :
    (q : ℕ) → bit_or (bit_or (bit_or (q * 4096) prot_device_page) 1024) 3 ≡ q * 4096 + 0x403
entry_bits q =
    ap (λ (t : ℕ). bit_or (bit_or t 1024) 3) (bit_or_disjoint 12 q 0x403 (omega arith))
    ∙ ap (λ (t : ℕ). bit_or t 3) (bit_or_low 12 q 0x403 1024 (omega arith) (omega arith))
    ∙ bit_or_low 12 q 0x403 3 (omega arith) (omega arith)

map_page-at :
    (v p w : ℕ) (pool : Pool)
    → IsDynamic v
    → IsDynamic w
    → at (map_page (v * 4096) (p * 4096) prot_device_page pool) w
      ≡ (if v == w then p * 4096 + 0x403 else at pool w)
unfolding map_page set_entry
map_page-at v p w pool hv hw =
    ground
      (arith, bit_and_low 9 (v * 4096 / 2097152), bit_and_low 9 (v * 4096 / 4096), entry_bits p)

map_loop-step :
    (n fuel mapped v p : ℕ) (pool : Pool)
    → v < 0x80800
    → mapped + suc n * 4096 < 2 ^ 63
    → p < 2 ^ 36
    → map_loop (suc fuel) mapped (mapped + suc n * 4096) (v * 4096) (p * 4096) prot_device_page pool
      ≡ map_loop fuel
          (mapped + 4096)
          (mapped + 4096 + n * 4096)
          ((v + 1) * 4096)
          ((p + 1) * 4096)
          prot_device_page
          (map_page (v * 4096) (p * 4096) prot_device_page pool)
unfolding map_loop
map_loop-step n fuel mapped v p pool hv hm hp =
    ground (arith, lt→ltb mapped (mapped + suc n * 4096) (omega arith))

-- `n` rounds of the loop map `n` pages, one after the other, and no other page.
pub map_loop-at :
    (n fuel mapped v p w : ℕ) (pool : Pool)
    → n < fuel
    → 0x80000 ≤ v
    → v + n ≤ 0x80800
    → IsDynamic w
    → mapped + n * 4096 < 2 ^ 63
    → p + n ≤ 2 ^ 36
    → at (map_loop fuel mapped (mapped + n * 4096) (v * 4096) (p * 4096) prot_device_page pool) w
      ≡ (if leb v w && ltb w (v + n) then (p + (w - v)) * 4096 + 0x403 else at pool w)
unfolding map_loop
map_loop-at zero zero mapped v p w pool hf lo hi hw hm hp = absurd (omega arith)
map_loop-at zero (suc fuel) mapped v p w pool hf lo hi hw hm hp = ground arith
map_loop-at (suc n) zero mapped v p w pool hf lo hi hw hm hp = absurd (omega arith)
map_loop-at (suc n) (suc fuel) mapped v p w pool hf lo hi hw hm hp =
    ap (λ (t : Pool). at t w)
      (map_loop-step n fuel mapped v p pool (omega arith) (omega arith) (omega arith))
    ∙ map_loop-at n fuel (mapped + 4096) (v + 1) (p + 1) w
        (map_page (v * 4096) (p * 4096) prot_device_page pool) (omega arith) (omega arith)
        (omega arith) hw (omega arith) (omega arith)
    ∙ ground (arith, map_page-at v p w pool)
