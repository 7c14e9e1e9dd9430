-- ===== src/Bus/Drivers/Quiet.antt =====
-- The drivers of AetherWebOS/src/drivers/virtio and AetherWebOS/src/drivers/usb/xhci.c write to no BAR:
-- they write behind addresses that `ioremap` returned.
use aether_webos.Prelude.{
  ℕ, zero, suc, ◌+◌, ◌^◌, ◌≤◌, ◌<◌, ◌≡◌, refl, arith, sym, ◌∙◌, some, false, ◌==◌, Bool-cases,
  Option-cases, inl, inr, u8, u64, bit_and, bit_or, bit_and_low, ◌<<<◌, ◌>>>◌,
}
use aether_webos.Memory.Paging.{Space, vmalloc_start, ioremap}
use aether_webos.Memory.Paging.Translate.{IsSpace, ioremap-IsSpace}
use aether_webos.Bus.{Trace, Answers, mmio_read32, mmio_write32}
use aether_webos.Bus.Pcie.{pcie_read_config}
use aether_webos.Bus.Pcie.Windows.{bars, is_bar}
use aether_webos.Bus.VirtioPci.{bar_address}
use aether_webos.Bus.Xhci.{
  wait_clear, timeout_start, request_ownership, Claim, claim_loop, xhci_claim_ownership,
  reset_controller, XhciResult, xhci_init,
}

-- A write into the dynamic area is none to a BAR.
pub write-bars :
    (addr val : ℕ) (t : Trace) → vmalloc_start ≤ addr → bars (mmio_write32 addr val t) ≡ bars t
unfolding mmio_write32
write-bars addr val t h = let outside : is_bar addr ≡ false = ground arith in rw outside refl

pub read-bars :
    (device : Answers) (addr : ℕ) (t : Trace) → bars (mmio_read32 device addr t).1 ≡ bars t
unfolding mmio_read32
read-bars device addr t = refl

pub read-lt : (device : Answers) (addr : ℕ) (t : Trace) → (mmio_read32 device addr t).0 < 2 ^ 32
unfolding mmio_read32
read-lt device addr t = omega arith

wait_clear-bars :
    (timeout : ℕ) (device : Answers) (addr mask : ℕ) (t : Trace)
    → bars (wait_clear timeout device addr mask t).1 ≡ bars t
unfolding wait_clear mmio_read32
wait_clear-bars zero device addr mask t = refl
wait_clear-bars (suc timeout) device addr mask t =
    let read = mmio_read32 device addr t in
    elim (Bool-cases (bit_and read.0 mask == 0)) [
      | inl e ↦ rw e refl
      | inr e ↦ rw e (wait_clear-bars timeout device addr mask read.1)
    ]

request-bars :
    (device : Answers) (ext_ptr : ℕ) (t : Trace)
    → vmalloc_start ≤ ext_ptr
    → bars (request_ownership device ext_ptr t).1 ≡ bars t
unfolding request_ownership
request-bars device ext_ptr t h =
    let read = mmio_read32 device (ext_ptr + 4) t in
    wait_clear-bars timeout_start device (ext_ptr + 4) 0x10000 _
    ∙ write-bars (ext_ptr + 4) (bit_or read.0 0x1000000) read.1 (omega arith)
    ∙ read-bars device (ext_ptr + 4) t

reset_controller-bars :
    (device : Answers) (op_base : ℕ) (t : Trace)
    → vmalloc_start ≤ op_base
    → bars (reset_controller device op_base t).1 ≡ bars t
unfolding reset_controller
reset_controller-bars device op_base t h =
    wait_clear-bars timeout_start device (op_base + 0x04) 0x800 _
    ∙ wait_clear-bars timeout_start device (op_base + 0x00) 2 _
    ∙ write-bars (op_base + 0x00) _ _ (omega arith)
    ∙ read-bars device (op_base + 0x00) _
    ∙ write-bars (op_base + 0x00) _ _ (omega arith)
    ∙ read-bars device (op_base + 0x00) t

claim_loop-bars :
    (fuel : ℕ) (device : Answers) (base ext_ptr : ℕ) (t : Trace) (claim : Claim) (t' : Trace)
    → vmalloc_start ≤ base
    → base < 2 ^ 63
    → vmalloc_start ≤ ext_ptr
    → claim_loop fuel device base ext_ptr t ≡ some (claim, t')
    → bars t' ≡ bars t
unfolding claim_loop
claim_loop-bars zero device base ext_ptr t claim t' lo hi above e = absurd (ground (arith, e))
claim_loop-bars (suc fuel) device base ext_ptr t claim t' lo hi above e =
    let (header, t1) = mmio_read32 device ext_ptr t in
    let next_ptr : ℕ = bit_and (header >>> 8) 0xFF in
    let present : (ext_ptr == 0) ≡ false = ground arith in
    elim (Bool-cases (bit_and header 0xFF == 1)) [
      | inl legacy ↦
          let same : (request_ownership device ext_ptr t1).1 ≡ t' =
            ground (arith, rw (present, claim_loop, legacy) at e) in
          rw (sym same) (request-bars device ext_ptr t1 above ∙ read-bars device ext_ptr t)
      | inr other ↦ elim (Bool-cases (next_ptr == 0)) [
        | inl last ↦
            let same : t1 ≡ t' = ground (arith, rw (present, claim_loop, other, last) at e) in
            rw (sym same) (read-bars device ext_ptr t)
        | inr more ↦
            claim_loop-bars fuel device base (u64 (base + (next_ptr <<< 2))) t1 claim t' lo hi
              (omega (arith, bit_and_low 8 (header >>> 8)))
              (rw (present, claim_loop, other, more) at e)
            ∙ read-bars device ext_ptr t
      ]
    ]

pub config-bars :
    (device : Answers) (bus dev func reg : ℕ) (t : Trace)
    → bars (pcie_read_config device bus dev func reg t).1 ≡ bars t
unfolding pcie_read_config
config-bars device bus dev func reg t = read-bars device _ t

pub bar_address-bars :
    (device : Answers) (bus dev func reg : ℕ) (t : Trace)
    → bars (bar_address device bus dev func reg t).1 ≡ bars t
unfolding bar_address
bar_address-bars device bus dev func reg t =
    let (bar_low, t') = pcie_read_config device bus dev func reg t in
    elim (Bool-cases (bit_and bar_low 0x6 == 0x4)) [
      | inl wide ↦
          rw (wide, bar_address)
            (config-bars device bus dev func (reg + 4) t' ∙ config-bars device bus dev func reg t)
      | inr narrow ↦ rw (narrow, bar_address) (config-bars device bus dev func reg t)
    ]

xhci_claim-bars :
    (fuel : ℕ) (device : Answers) (base : ℕ) (t : Trace) (claim : Claim) (t' : Trace)
    → vmalloc_start ≤ base
    → base < 2 ^ 62
    → xhci_claim_ownership fuel device base t ≡ some (claim, t')
    → bars t' ≡ bars t
unfolding xhci_claim_ownership
xhci_claim-bars fuel device base t claim t' lo hi e =
    let (hcc, t1) = mmio_read32 device (base + 0x10) t in
    let offset : ℕ = (hcc >>> 16) <<< 2 in
    elim (Bool-cases (offset == 0)) [
      | inl empty ↦
          let same : t1 ≡ t' = ground (arith, rw (empty, xhci_claim_ownership) at e) in
          rw (sym same) (read-bars device (base + 0x10) t)
      | inr some_list ↦
          claim_loop-bars fuel device base (u64 (base + offset)) t1 claim t' lo (omega arith)
            (omega (arith, read-lt device (base + 0x10) t))
            (rw (some_list, xhci_claim_ownership) at e)
          ∙ read-bars device (base + 0x10) t
    ]

pub xhci_init-Quiet :
    (fuel : ℕ) (device : Answers) (bus dev func : ℕ) (t t' : Trace) (space space' : Space)
    (result : XhciResult)
    → IsSpace space
    → xhci_init fuel device bus dev func t space ≡ some (result, t', space')
    → IsSpace space' × (bars t' ≡ bars t)
unfolding xhci_init
xhci_init-Quiet fuel device bus dev func t t' space space' result v e =
    let (phys_addr, t1) = bar_address device bus dev func 0x10 t in
    let (after, within) = ioremap-IsSpace phys_addr 0x4000 space v (omega arith) in
    let first : bars t1 ≡ bars t = bar_address-bars device bus dev func 0x10 t in
    elim (Option-cases (ioremap phys_addr 0x4000 space).1) [
      | inl refused ↦
          let parts : (t1 ≡ t') × ((ioremap phys_addr 0x4000 space).0 ≡ space') =
            ground (arith, rw (refused, xhci_init) at e) in
          rw (sym parts.0, sym parts.1) (after, first)
      | inr (base, mapped) ↦
          let (lo, hi) = within base mapped in
          let version : Trace = (mmio_read32 device base t1).1 in
          elim (Option-cases (xhci_claim_ownership fuel device base version)) [
            | inl stuck ↦ absurd (ground (arith, rw (mapped, xhci_init, stuck) at e))
            | inr ((claim, t2), claimed) ↦
                let (cap_reg, t3) = mmio_read32 device base t2 in
                let op_base : ℕ = base + u8 (bit_and cap_reg 0xFF) in
                let parts : ((reset_controller device op_base t3).1 ≡ t')
                    × ((ioremap phys_addr 0x4000 space).0 ≡ space') =
                  ground (arith, rw (mapped, xhci_init, claimed) at e) in
                rw (sym parts.0, sym parts.1)
                  (
                    after,
                    reset_controller-bars device op_base t3 (omega arith)
                        ∙ read-bars device base t2
                        ∙ xhci_claim-bars fuel device base version claim t2 lo (omega arith) claimed
                        ∙ read-bars device base t1
                        ∙ first,
                  )
          ]
    ]
