-- ===== src/Bus/Drivers/Areas.antt =====
-- The areas that `virtio_pci_cap_lookup` of AetherWebOS/src/drivers/virtio/virtio_pci.c maps.
use aether_webos.Prelude.{
  ℕ, zero, suc, ◌+◌, ◌*◌, ◌^◌, ◌≤◌, ◌<◌, ◌≡◌, arith, sym, ◌∙◌, some, not, ◌&&◌, ◌==◌, ltb,
  Bool-cases, Option-cases, inl, inr, u8, u64, bit_and, bit_and_low, ◌>>>◌,
}
use aether_webos.Memory.Paging.{vmalloc_start, ioremap}
use aether_webos.Memory.Paging.Translate.{IsSpace, ioremap-IsSpace}
use aether_webos.Bus.{Trace, Answers}
use aether_webos.Bus.Pcie.{pcie_read_config}
use aether_webos.Bus.Pcie.Windows.{bars}
use aether_webos.Bus.VirtioPci.{
  Transport, bar_address, store_area, virtio_pci_map_capability, visit, cap_loop,
}
use aether_webos.Bus.Drivers.Quiet.{read-lt, config-bars, bar_address-bars}

shift-lt : (r val : ℕ) → r < 4 → val < 2 ^ 32 → val >>> (r * 8) < 2 ^ 32
shift-lt zero val h small = omega arith
shift-lt (suc zero) val h small = omega arith
shift-lt (suc (suc zero)) val h small = omega arith
shift-lt (suc (suc (suc zero))) val h small = omega arith
shift-lt (suc (suc (suc (suc r)))) val h small = absurd (omega arith)

config-lt :
    (device : Answers) (bus dev func reg : ℕ) (t : Trace)
    → (pcie_read_config device bus dev func reg t).0 < 2 ^ 32
unfolding pcie_read_config
config-lt device bus dev func reg t =
    let small = read-lt device _ t in
    elim (Bool-cases (bit_and reg 3 == 0)) [
      | inl whole ↦ rw whole small
      | inr part ↦ rw part (shift-lt (bit_and reg 3) _ (omega (arith, bit_and_low 2 reg)) small)
    ]

-- Since the trace `t0` nothing was written to a BAR, and the areas lie behind the fixed mappings.
pub record Safe (t0 : Trace) (v : Transport) : Type 0 where
  pub quiet : bars v.trace ≡ bars t0
  pub laid : IsSpace v.space
  pub above : (c : ℕ) → v.common ≡ some c → vmalloc_start ≤ c

store_area-Safe :
    (t0 : Trace) (device : Answers) (type cap_ptr a : ℕ) (v : Transport)
    → vmalloc_start ≤ a
    → Safe t0 v
    → Safe t0 (store_area device type cap_ptr a v)
unfolding store_area
store_area-Safe t0 device type cap_ptr a v h s = elim (Bool-cases (type == 1)) [
  | inl e ↦ rw e (record { quiet = s.quiet; laid = s.laid; above = λ c at. ground (arith, at) })
  | inr e1 ↦ elim (Bool-cases (type == 4)) [
    | inl e ↦ rw (e1, e) (record { quiet = s.quiet; laid = s.laid; above = s.above })
    | inr e4 ↦ elim (Bool-cases (type == 3)) [
      | inl e ↦ rw (e1, e4, e) (record { quiet = s.quiet; laid = s.laid; above = s.above })
      | inr e3 ↦ elim (Bool-cases (type == 2)) [
        | inl e ↦
            rw (e1, e4, e3, e)
              (record {
                quiet = config-bars device v.bus v.dev v.func (cap_ptr + 16) v.trace ∙ s.quiet;
                laid = s.laid;
                above = s.above;
              })
        | inr e2 ↦ rw (e1, e4, e3, e2) s
      ]
    ]
  ]
]

map_capability-Safe :
    (t0 : Trace) (device : Answers) (type bar offset length cap_ptr : ℕ) (v : Transport)
    → length < 2 ^ 32
    → Safe t0 v
    → Safe t0 (virtio_pci_map_capability device type bar offset length cap_ptr v)
unfolding virtio_pci_map_capability
map_capability-Safe t0 device type bar offset length cap_ptr v small s =
    let (phys_addr, t) = bar_address device v.bus v.dev v.func (0x10 + bar * 4) v.trace in
    let phys : ℕ = u64 (phys_addr + offset) in
    let (after, within) = ioremap-IsSpace phys length v.space s.laid (omega arith) in
    let quiet : bars t ≡ bars t0 =
      bar_address-bars device v.bus v.dev v.func (0x10 + bar * 4) v.trace ∙ s.quiet in
    elim (Bool-cases (phys_addr == 0)) [
      | inl unset ↦ rw unset (record { quiet = quiet; laid = s.laid; above = s.above })
      | inr set ↦ elim (Option-cases (ioremap phys length v.space).1) [
        | inl refused ↦
            rw (set, virtio_pci_map_capability, refused)
              (record { quiet = quiet; laid = after; above = s.above })
        | inr (a, mapped) ↦
            rw (set, virtio_pci_map_capability, mapped)
              (store_area-Safe t0 device type cap_ptr a
                (record v { trace = t; space = (ioremap phys length v.space).0 })
                ((within a mapped).0) (record { quiet = quiet; laid = after; above = s.above }))
      ]
    ]

visit-Safe :
    (t0 : Trace) (device : Answers) (cap_ptr d0 : ℕ) (v : Transport)
    → Safe t0 v
    → Safe t0 (visit device cap_ptr d0 v)
unfolding visit
visit-Safe t0 device cap_ptr d0 v s =
    let (d1, t1) = pcie_read_config device v.bus v.dev v.func (cap_ptr + 4) v.trace in
    let (offset, t2) = pcie_read_config device v.bus v.dev v.func (cap_ptr + 8) t1 in
    let (length, t3) = pcie_read_config device v.bus v.dev v.func (cap_ptr + 12) t2 in
    elim (Bool-cases (u8 (bit_and d0 0xFF) == 0x09)) [
      | inl vendor ↦ rw vendor (
          map_capability-Safe t0 device (bit_and (d0 >>> 24) 0xFF) (bit_and d1 0xFF) offset length
            cap_ptr (record v { trace = t3 })
            (config-lt device v.bus v.dev v.func (cap_ptr + 12) t2)
            (record {
              quiet =
                  config-bars device v.bus v.dev v.func (cap_ptr + 12) t2
                  ∙ config-bars device v.bus v.dev v.func (cap_ptr + 8) t1
                  ∙ config-bars device v.bus v.dev v.func (cap_ptr + 4) v.trace
                  ∙ s.quiet;
              laid = s.laid;
              above = s.above;
            }))
      | inr other ↦ rw other s
    ]

pub cap_loop-Safe :
    (t0 : Trace) (fuel : ℕ) (device : Answers) (cap_ptr : ℕ) (v w : Transport)
    → Safe t0 v
    → cap_loop fuel device cap_ptr v ≡ some w
    → Safe t0 w
unfolding cap_loop
cap_loop-Safe t0 zero device cap_ptr v w s e = absurd (ground (arith, e))
cap_loop-Safe t0 (suc fuel) device cap_ptr v w s e =
    let (d0, t) = pcie_read_config device v.bus v.dev v.func cap_ptr v.trace in
    elim (Bool-cases (not (cap_ptr == 0) && ltb cap_ptr 0xFF)) [
      | inl more ↦
          cap_loop-Safe t0 fuel device (u8 (bit_and (d0 >>> 8) 0xFF))
            (visit device cap_ptr d0 (record v { trace = t })) w
            (visit-Safe t0 device cap_ptr d0 (record v { trace = t })
              (record {
                quiet = config-bars device v.bus v.dev v.func cap_ptr v.trace ∙ s.quiet;
                laid = s.laid;
                above = s.above;
              }))
            (rw (more, cap_loop) at e)
      | inr done ↦ let same : v ≡ w = ground (arith, rw (done, cap_loop) at e) in rw (sym same) s
    ]
