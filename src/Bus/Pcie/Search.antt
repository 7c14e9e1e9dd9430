-- ===== src/Bus/Pcie/Search.antt =====
-- The search for devices of AetherWebOS/src/drivers/pcie.c, over any drivers that write to no BAR.
use aether_webos.Prelude.{
  ℕ, zero, suc, ◌+◌, ◌*◌, ◌≤◌, ◌≡◌, refl, arith, ◌∙◌, List, [], ◌∷◌, Option, none, some, ◌||◌, ◌==◌,
  Bool-cases, Option-cases, sym, inl, inr, u16, u32, bit_and, bit_or, ◌>>>◌,
}
use aether_webos.Bus.{Trace, Answers, mmio_write32}
use aether_webos.Bus.Pcie.{
  pcie_read_config, pcie_write_config, pcie_dump_header, InitFn, PciDriver, driver_registry, Pci,
  assign_bar, assign_bars, driver_matches, Start, run_init, bind_driver, match_loop,
  pcie_probe_device, scan_device, scan_loop, pcie_init,
}
use aether_webos.Bus.Pcie.Windows.{
  bars, Placed, Quiet, read-bars, dump_rows-bars, is_bar-command, assign_bars-Placed, Placed-wider,
}

module _ {S : Type 0} (Relied : S → Type 0) where
  -- If the search comes back: at most `limit` windows, and what the drivers rely on.
  abbrev Final : ℕ → Option (Pci S) → Type 0
  Final limit none = Unit
  Final limit (some p) = Placed limit p × Relied p.drivers

  Final-wider : (a b : ℕ) (o : Option (Pci S)) → a ≤ b → Final a o → Final b o
  Final-wider a b none le h = tt
  Final-wider a b (some p) le (h, r) = (Placed-wider a b p le h, r)

  assign_bars-drivers :
      (k i : ℕ) (device : Answers) (bus dev func : ℕ) (p : Pci S)
      → (assign_bars k i device bus dev func p).drivers ≡ p.drivers
  unfolding assign_bars assign_bar
  assign_bars-drivers zero i device bus dev func p = refl
  assign_bars-drivers (suc k) i device bus dev func p =
      assign_bars-drivers k (i + 1) device bus dev func (assign_bar device bus dev func i p) ∙ one
    where
      one : (assign_bar device bus dev func i p).drivers ≡ p.drivers
      one = ground arith

  run_init-Quiet :
      (start : Start S) (init : Option InitFn) (bus dev func : ℕ) (t : Trace) (s : S) (t' : Trace)
      (s' : S)
      → Quiet Relied start
      → Relied s
      → run_init start init bus dev func t s ≡ some (t', s')
      → Relied s' × (bars t' ≡ bars t)
  run_init-Quiet start none bus dev func t s t' s' quiet r e =
      let parts : (t ≡ t') × (s ≡ s') = ground (arith, e) in rw (sym parts.0, sym parts.1) (r, refl)
  run_init-Quiet start (some f) bus dev func t s t' s' quiet r e =
      quiet f bus dev func t s t' s' r e

  bind_driver-Final :
      (limit : ℕ) (device : Answers) (start : Start S) (bus dev func : ℕ) (drv : PciDriver)
      (p : Pci S)
      → Quiet Relied start
      → limit + 6 ≤ 192
      → Placed limit p
      → Relied p.drivers
      → Final (limit + 6) (bind_driver device start bus dev func drv p)
  unfolding bind_driver pcie_write_config mmio_write32
  bind_driver-Final limit device start bus dev func drv p quiet near h r =
      let q : Pci S = assign_bars 6 0 device bus dev func p in
      let (n, few, handed, next) =
        assign_bars-Placed 6 limit device bus dev func 0 p (omega arith) near h in
      let word = pcie_read_config device bus dev func 0x04 q.trace in
      let cmd = bit_or (bit_and word.0 0xFFFF) 0x0006 in
      let t1 : Trace = pcie_write_config bus dev func 0x04 cmd word.1 in
      let kept : Relied q.drivers = rw (assign_bars-drivers 6 0 device bus dev func p) r in
      elim (Option-cases (run_init start drv.init bus dev func t1 q.drivers)) [
        | inl stuck ↦ rw (stuck, bind_driver) tt
        | inr ((t2, s), back) ↦
            let (after, same) =
              run_init-Quiet start drv.init bus dev func t1 q.drivers t2 s quiet kept back in
            rw (back, bind_driver)
              (
                (
                  n,
                  few,
                  same
                      ∙ rw (is_bar-command bus dev func)
                          (read-bars device bus dev func 0x04 q.trace)
                      ∙ handed,
                  next,
                ),
                after,
              )
      ]

  match_loop-Final :
      (drvs : List PciDriver) (limit : ℕ) (device : Answers) (start : Start S)
      (bus dev func vendor class_code : ℕ) (p : Pci S)
      → Quiet Relied start
      → limit + 6 ≤ 192
      → Placed limit p
      → Relied p.drivers
      → Final (limit + 6) (match_loop drvs device start bus dev func vendor class_code p)
  unfolding match_loop
  match_loop-Final [] limit device start bus dev func vendor class_code p quiet near h r =
      (Placed-wider limit (limit + 6) p (omega arith) h, r)
  match_loop-Final (drv ∷ drvs) limit device start bus dev func vendor class_code p quiet near h r =
      elim (Bool-cases (driver_matches vendor class_code drv)) [
        | inl e ↦ rw e (bind_driver-Final limit device start bus dev func drv p quiet near h r)
        | inr e ↦ rw e (
            match_loop-Final drvs limit device start bus dev func vendor class_code p quiet near h
              r)
      ]

  Placed-trace :
      (limit : ℕ) (p q : Pci S)
      → bars q.trace ≡ bars p.trace
      → q.next_pci_mem_addr ≡ p.next_pci_mem_addr
      → Placed limit p
      → Placed limit q
  Placed-trace limit p q same kept (n, few, handed, next) = (n, few, same ∙ handed, kept ∙ next)

  probe-Final :
      (limit : ℕ) (device : Answers) (start : Start S) (bus dev func : ℕ) (p : Pci S)
      → Quiet Relied start
      → limit + 6 ≤ 192
      → Placed limit p
      → Relied p.drivers
      → Final (limit + 6) (pcie_probe_device device start bus dev func p)
  unfolding pcie_probe_device
  probe-Final limit device start bus dev func p quiet near h r =
      let ids = pcie_read_config device bus dev func 0x00 p.trace in
      let classes = pcie_read_config device bus dev func 0x08 ids.1 in
      let q : Pci S = record p {
        total_pci_devices = u32 (p.total_pci_devices + 1);
        trace = classes.1;
      } in
      match_loop-Final driver_registry limit device start bus dev func (u16 (bit_and ids.0 0xFFFF))
        (bit_and (classes.0 >>> 8) 0xFFFFFF) q quiet near
        (Placed-trace limit p q
          (read-bars device bus dev func 0x08 ids.1 ∙ read-bars device bus dev func 0x00 p.trace)
          refl h)
        r

  scan_device-Final :
      (limit : ℕ) (device : Answers) (start : Start S) (dev : ℕ) (p : Pci S)
      → Quiet Relied start
      → limit + 6 ≤ 192
      → Placed limit p
      → Relied p.drivers
      → Final (limit + 6) (scan_device device start dev p)
  unfolding scan_device pcie_dump_header
  scan_device-Final limit device start dev p quiet near h r =
      let ids = pcie_read_config device 0 dev 0 0x00 p.trace in
      let idle : Pci S = record p { trace = ids.1 } in
      let dumped : Pci S = record p { trace = pcie_dump_header device 0 dev 0 ids.1 } in
      let vendor = bit_and ids.0 0xFFFF in
      elim (Bool-cases ((vendor == 0xFFFF) || (vendor == 0x0000))) [
        | inl e ↦ rw e (
          Placed-wider limit (limit + 6) idle (omega arith)
              (Placed-trace limit p idle (read-bars device 0 dev 0 0x00 p.trace) refl h),
          r,
        )
        | inr e ↦ rw e (
            probe-Final limit device start 0 dev 0 dumped quiet near
              (Placed-trace limit p dumped
                (dump_rows-bars 4 device 0 dev 0 0 ids.1 ∙ read-bars device 0 dev 0 0x00 p.trace)
                refl h)
              r)
      ]

  scan_loop-Final :
      (n dev limit : ℕ) (device : Answers) (start : Start S) (p : Pci S)
      → Quiet Relied start
      → limit + n * 6 ≤ 192
      → Placed limit p
      → Relied p.drivers
      → Final (limit + n * 6) (scan_loop n dev device start p)
  unfolding scan_loop
  scan_loop-Final zero dev limit device start p quiet near h r =
      (Placed-wider limit (limit + 0 * 6) p (omega arith) h, r)
  scan_loop-Final (suc n) dev limit device start p quiet near h r =
      let one = scan_device-Final limit device start dev p quiet (omega arith) h r in
      elim (Option-cases (scan_device device start dev p)) [
        | inl stuck ↦ rw (stuck, scan_loop) tt
        | inr (q, back) ↦
            let (placed, after) = rw back at one in
            rw (back, scan_loop)
              (Final-wider (limit + 6 + n * 6) (limit + suc n * 6)
                (scan_loop n (dev + 1) device start q) (omega arith)
                (scan_loop-Final n (dev + 1) (limit + 6) device start q quiet (omega arith) placed
                  after))
      ]

  -- Whatever the devices answer, and however the drivers are started, if starting one writes to no BAR
  -- and the search comes back, then what it writes to BARs, in order, are the addresses of windows of
  -- 1 MiB one behind the other from 256 MiB on, so that no two overlap, and at most 192 of them.
  pub pcie_init-windows :
      (device : Answers) (start : Start S) (devices : ℕ) (s : S) (p : Pci S)
      → Quiet Relied start
      → Relied s
      → pcie_init device start (record {
        next_pci_mem_addr = 0x10000000;
        total_pci_devices = devices;
        trace = [];
        drivers = s;
      })
        ≡ some p
      → Placed 192 p × Relied p.drivers
  unfolding pcie_init
  pcie_init-windows device start devices s p quiet r e = rw e at (
      scan_loop-Final 32 0 0 device start
        (record { next_pci_mem_addr = 0x10000000; total_pci_devices = 0; trace = []; drivers = s })
        quiet (omega arith) (0, omega arith, refl, omega arith) r)
