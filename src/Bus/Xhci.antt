-- ===== src/Bus/Xhci.antt =====
-- AetherWebOS/src/drivers/usb/xhci.c: taking the USB controller over from the firmware, and its
-- reset. The UART output and the pause are left out.
pub mod Wait
use aether_webos.Prelude.{
  ℕ, zero, suc, ◌+◌, ◌-◌, ◌*◌, ◌^◌, Option, none, some, Bool, true, false, not, ◌&&◌, ◌||◌, ◌==◌,
  if◌then◌else◌, bit_and, bit_or, u8, u64, ◌<<<◌, ◌>>>◌,
}
use aether_webos.Memory.Paging.{Space, ioremap}
use aether_webos.Bus.{Trace, Answers, mmio_read32, mmio_write32}
use aether_webos.Bus.VirtioPci.{bar_address}

-- `while ((mmio_read32(addr) & mask) && --timeout > 0)`, with the timeout that is left.
unfoldable pub wait_clear : ℕ → Answers → ℕ → ℕ → Trace → ℕ × Trace
wait_clear zero device addr mask t = (0, t)
wait_clear (suc timeout) device addr mask t =
    let (val, t') = mmio_read32 device addr t in
    let rest = wait_clear timeout device addr mask t' in
    if bit_and val mask == 0 then (suc timeout, t') else rest

abbrev pub timeout_start : ℕ
timeout_start = 1000000

-- The handshake at a legacy capability: whether the firmware let go.
unfoldable pub request_ownership : Answers → ℕ → Trace → Bool × Trace
request_ownership device ext_ptr t =
    let (ctrl, t1) = mmio_read32 device (ext_ptr + 4) t in
    let t2 = mmio_write32 (ext_ptr + 4) (bit_or ctrl 0x1000000) t1 in
    let (timeout, t3) = wait_clear timeout_start device (ext_ptr + 4) 0x10000 t2 in
    (if timeout == 0 then false else true, t3)

-- What the search for the legacy capability comes to.
pub data Claim : Type 0 where
  absent : Claim
  released : Claim
  timed_out : Claim

-- `while (ext_ptr)`, with the rounds that it may take; `none` if they do not suffice.
unfoldable pub claim_loop : ℕ → Answers → ℕ → ℕ → Trace → Option (Claim × Trace)
claim_loop zero device base ext_ptr t = none
claim_loop (suc fuel) device base ext_ptr t =
    let (header, t') = mmio_read32 device ext_ptr t in
    let next_ptr = bit_and (header >>> 8) 0xFF in
    let (free, t'') = request_ownership device ext_ptr t' in
    elim (ext_ptr == 0) [
      | true ↦ some (Claim.absent, t)
      | false ↦ elim (bit_and header 0xFF == 1) [
        | true ↦ some (if free then Claim.released else Claim.timed_out, t'')
        | false ↦ elim (next_ptr == 0) [
          | true ↦ some (Claim.absent, t')
          | false ↦ claim_loop fuel device base (u64 (base + (next_ptr <<< 2))) t'
        ]
      ]
    ]

unfoldable pub xhci_claim_ownership : ℕ → Answers → ℕ → Trace → Option (Claim × Trace)
xhci_claim_ownership fuel device base t =
    let (hcc, t') = mmio_read32 device (base + 0x10) t in
    let offset = (hcc >>> 16) <<< 2 in
    if offset == 0
    then some (Claim.absent, t')
    else claim_loop fuel device base (u64 (base + offset)) t'

-- Stop, reset, and the two waits: whether both bits were seen clear.
unfoldable pub reset_controller : Answers → ℕ → Trace → Bool × Trace
reset_controller device op_base t0 =
    let (usb_cmd, t1) = mmio_read32 device (op_base + 0x00) t0 in
    let t2 = mmio_write32 (op_base + 0x00) (bit_and usb_cmd (2 ^ 32 - 2)) t1 in
    let (cmd, t3) = mmio_read32 device (op_base + 0x00) t2 in
    let t4 = mmio_write32 (op_base + 0x00) (bit_or cmd 2) t3 in
    let (reset_timeout, t5) = wait_clear timeout_start device (op_base + 0x00) 2 t4 in
    let (cnr_timeout, t6) = wait_clear timeout_start device (op_base + 0x04) 0x800 t5 in
    (if (reset_timeout == 0) || (cnr_timeout == 0) then false else true, t6)

-- How the initialisation ends.
pub data XhciResult : Type 0 where
  not_mapped : XhciResult
  ready : XhciResult
  reset_timed_out : XhciResult

unfoldable pub xhci_init :
    ℕ → Answers → ℕ → ℕ → ℕ → Trace → Space → Option (XhciResult × Trace × Space)
xhci_init fuel device bus dev func t space =
    let (phys_addr, t1) = bar_address device bus dev func 0x10 t in
    let (space', mapped) = ioremap phys_addr 0x4000 space in
    elim mapped [
      | none ↦ some (XhciResult.not_mapped, t1, space')
      | some base ↦ elim (xhci_claim_ownership fuel device base (mmio_read32 device base t1).1) [
        | none ↦ none
        | some (claim, t2) ↦
            let (cap_reg, t3) = mmio_read32 device base t2 in
            let (done, t4) = reset_controller device (base + u8 (bit_and cap_reg 0xFF)) t3 in
            some (if done then XhciResult.ready else XhciResult.reset_timed_out, t4, space')
      ]
    ]
