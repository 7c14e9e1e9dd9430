-- ===== src/Bus/Pcie/Windows.antt =====
-- The memory windows that the search for devices hands out (AetherWebOS/src/drivers/pcie.c).
use aether_webos.Prelude.{
  ℕ, zero, suc, ◌+◌, ◌-◌, ◌*◌, ◌%◌, ◌^◌, ◌≤◌, ◌<◌, ◌≡◌, refl, arith, ap, ◌∙◌, List, [], ◌∷◌, some,
  Bool, true, false, not, ◌&&◌, ◌==◌, if◌then◌else◌, ltb, leb, Bool-cases, inl, inr, u32, bit_and,
}
use aether_webos.Memory.Paging.{pcie_ext_cfg_data}
use aether_webos.Bus.{Access, Trace, Answers, mmio_read32, mmio_write32}
use aether_webos.Bus.Pcie.{
  config_offset, pcie_read_config, pcie_write_config, dump_words, dump_rows, InitFn, Pci, bar_mask,
  assign_bar, assign_bars, Start,
}
use aether_webos.Bus.Pcie.Address.{config_offset_sum}

-- The address is that of a BAR of some function in the configuration space.
abbrev pub is_bar : ℕ → Bool
is_bar addr =
    leb pcie_ext_cfg_data addr
    && ltb addr (pcie_ext_cfg_data + 2 ^ 28)
    && leb 0x10 ((addr - pcie_ext_cfg_data) % 4096)
    && ltb ((addr - pcie_ext_cfg_data) % 4096) 0x28

-- What was written to BARs, the newest first.
abbrev pub bars : Trace → List ℕ
bars [] = []
bars (Access.read addr val ∷ t) = bars t
bars (Access.write addr val ∷ t) = if is_bar addr then val ∷ bars t else bars t

-- The last `n` windows of 1 MiB from 256 MiB on, the newest first.
abbrev pub windows : ℕ → List ℕ
windows zero = []
windows (suc n) = (0x10000000 + n * 0x100000) ∷ windows n

-- At most `limit` windows are handed out, one behind the other.
abbrev pub Placed : {S : Type 0} → ℕ → Pci S → Type 0
Placed limit p =
    (n : ℕ) × (n ≤ limit)
    × (bars p.trace ≡ windows n)
    × (p.next_pci_mem_addr ≡ 0x10000000 + n * 0x100000)

-- Starting a driver keeps what the drivers rely on, and writes to no BAR.
abbrev pub Quiet : {S : Type 0} → (S → Type 0) → Start S → Type 0
Quiet {S} Relied start =
    (f : InitFn) (bus dev func : ℕ) (t : Trace) (s : S) (t' : Trace) (s' : S)
    → Relied s
    → start f bus dev func t s ≡ some (t', s')
    → Relied s' × (bars t' ≡ bars t)

pub read-bars :
    (device : Answers) (bus dev func reg : ℕ) (t : Trace)
    → bars (pcie_read_config device bus dev func reg t).1 ≡ bars t
unfolding pcie_read_config mmio_read32
read-bars device bus dev func reg t = refl

dump_words-bars :
    (n : ℕ) (device : Answers) (bus dev func reg : ℕ) (t : Trace)
    → bars (dump_words n device bus dev func reg t) ≡ bars t
unfolding dump_words
dump_words-bars zero device bus dev func reg t = refl
dump_words-bars (suc n) device bus dev func reg t =
    dump_words-bars n device bus dev func (reg + 4) (pcie_read_config device bus dev func reg t).1
    ∙ read-bars device bus dev func reg t

pub dump_rows-bars :
    (n : ℕ) (device : Answers) (bus dev func reg : ℕ) (t : Trace)
    → bars (dump_rows n device bus dev func reg t) ≡ bars t
unfolding dump_rows
dump_rows-bars zero device bus dev func reg t = refl
dump_rows-bars (suc n) device bus dev func reg t =
    dump_rows-bars n device bus dev func (reg + 16) (dump_words 4 device bus dev func reg t)
    ∙ dump_words-bars 4 device bus dev func reg t

is_bar-bar :
    (bus dev func i : ℕ)
    → i < 6
    → is_bar (pcie_ext_cfg_data + config_offset bus dev func (0x10 + i * 4)) ≡ true
is_bar-bar bus dev func i small =
    let s = config_offset_sum bus dev func (0x10 + i * 4) in ground arith

pub is_bar-command :
    (bus dev func : ℕ) → is_bar (pcie_ext_cfg_data + config_offset bus dev func 0x04) ≡ false
is_bar-command bus dev func = let s = config_offset_sum bus dev func 0x04 in ground arith

module _ {S : Type 0} where
  assign_bar-Placed :
      (limit : ℕ) (device : Answers) (bus dev func i : ℕ) (p : Pci S)
      → i < 6
      → limit < 192
      → Placed limit p
      → Placed (suc limit) (assign_bar device bus dev func i p)
  unfolding assign_bar pcie_write_config mmio_write32
  assign_bar-Placed limit device bus dev func i p small near (n, le, handed, next) =
      let read = pcie_read_config device bus dev func (0x10 + i * 4) p.trace in
      elim (Bool-cases (not (read.0 == 0) && (bit_and read.0 bar_mask == 0))) [
        | inl e ↦
            rw (e, is_bar-bar bus dev func i small)
              (
                suc n,
                omega arith,
                ap (λ v. u32 p.next_pci_mem_addr ∷ v)
                      (read-bars device bus dev func (0x10 + i * 4) p.trace ∙ handed)
                    ∙ (ap (λ (v : ℕ). v ∷ windows n) (omega (arith, next))),
                omega (arith, next),
              )
        | inr e ↦
            rw e
              (n, omega arith, read-bars device bus dev func (0x10 + i * 4) p.trace ∙ handed, next)
      ]

  pub Placed-wider : (a b : ℕ) (p : Pci S) → a ≤ b → Placed a p → Placed b p
  Placed-wider a b p le (n, few, handed, next) = (n, omega arith, handed, next)

  pub assign_bars-Placed :
      (k limit : ℕ) (device : Answers) (bus dev func i : ℕ) (p : Pci S)
      → i + k ≤ 6
      → limit + k ≤ 192
      → Placed limit p
      → Placed (limit + k) (assign_bars k i device bus dev func p)
  unfolding assign_bars
  assign_bars-Placed zero limit device bus dev func i p small near h =
      Placed-wider limit (limit + 0) p (omega arith) h
  assign_bars-Placed (suc k) limit device bus dev func i p small near h =
      let one = assign_bar-Placed limit device bus dev func i p (omega arith) (omega arith) h in
      let q = assign_bar device bus dev func i p in
      Placed-wider (suc limit + k) (limit + suc k) (assign_bars k (i + 1) device bus dev func q)
        (omega arith)
        (assign_bars-Placed k (suc limit) device bus dev func (i + 1) q (omega arith) (omega arith)
          one)
