-- ===== src/Memory/Paging/Cache.antt =====
-- `clean_cache_range` of AetherWebOS/arch/aarch64/mmu.c: the cache lines that are written back.
use aether_webos.Prelude.{
  ℕ, zero, suc, ◌+◌, ◌-◌, ◌*◌, ◌/◌, ◌%◌, ◌^◌, ◌≤◌, ◌<◌, ◌≡◌, ◌⊎◌, inl, inr, arith, List, [], ◌∷◌,
  All, true, false, ltb, Bool-cases, bit_and, bit_and_field, u64,
}

-- `for (; addr < end; addr += 64)`, the addresses of the lines in order; the fuel bounds the rounds.
unfoldable pub clean_loop : ℕ → ℕ → ℕ → List ℕ
clean_loop zero addr end = []
clean_loop (suc fuel) addr end = elim (ltb addr end) [
  | true ↦ addr ∷ clean_loop fuel (u64 (addr + 64)) end
  | false ↦ []
]

unfoldable pub clean_cache_range : ℕ → ℕ → List ℕ
clean_cache_range start end = clean_loop ((end - start) / 64 + 2) (bit_and start (2 ^ 64 - 64)) end

-- One of the lines holds the address.
abbrev pub Cleaned : ℕ → List ℕ → Type 0
Cleaned a [] = ⊥
Cleaned a (line ∷ lines) = (a / 64 ≡ line / 64) ⊎ Cleaned a lines

-- A line that the range touches.
abbrev pub Touched : ℕ → ℕ → ℕ → Type 0
Touched start end line = (line % 64 ≡ 0) × (start < line + 64) × (line < end)

loop-Cleaned :
    (fuel q a end : ℕ)
    → end < 2 ^ 63
    → q * 64 ≤ a
    → a < end
    → end ≤ (q + fuel) * 64
    → Cleaned a (clean_loop fuel (q * 64) end)
unfolding clean_loop
loop-Cleaned zero q a end small from upto room = absurd (omega arith)
loop-Cleaned (suc fuel) q a end small from upto room =
    let more : ltb (q * 64) end ≡ true = ground arith in
    let next : u64 (q * 64 + 64) ≡ (q + 1) * 64 = omega arith in
    rw (more, clean_loop, next)
      (elim (Bool-cases (ltb a (q * 64 + 64))) [
        | inl here ↦ inl (ground (arith, here))
        | inr later ↦
            inr (loop-Cleaned fuel (q + 1) a end small (ground (arith, later)) upto (omega arith))
      ])

loop-Touched :
    (fuel q start end : ℕ)
    → end < 2 ^ 63
    → start < q * 64 + 64
    → All (Touched start end) (clean_loop fuel (q * 64) end)
unfolding clean_loop
loop-Touched zero q start end small from = tt
loop-Touched (suc fuel) q start end small from = elim (Bool-cases (ltb (q * 64) end)) [
  | inl more ↦
      let next : u64 (q * 64 + 64) ≡ (q + 1) * 64 = ground (arith, more) in
      rw (more, clean_loop, next)
        (
          (omega arith, from, ground (arith, more)),
          loop-Touched fuel (q + 1) start end small (omega arith),
        )
  | inr done ↦ rw (done, clean_loop) tt
]

-- For a range that ends below 2^63, every byte of the range lies in a line that is written back, and
-- only lines that the range touches are.
pub clean_cache_range-lines :
    (start end : ℕ)
    → start ≤ end
    → end < 2 ^ 63
    → ((a : ℕ) → start ≤ a → a < end → Cleaned a (clean_cache_range start end))
      × All (Touched start end) (clean_cache_range start end)
unfolding clean_cache_range
clean_cache_range-lines start end h small =
    let first : bit_and start (2 ^ 64 - 64) ≡ start / 64 * 64 =
      omega (arith, bit_and_field 6 58 start) in
    rw first (
      λ a from upto.
          loop-Cleaned ((end - start) / 64 + 2) (start / 64) a end small (omega arith) upto
            (omega arith),
      loop-Touched ((end - start) / 64 + 2) (start / 64) start end small (omega arith),
    )
