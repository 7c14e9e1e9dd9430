-- ===== src/Bus/Xhci/Wait.antt =====
-- The waits with a timeout in AetherWebOS/src/drivers/usb/xhci.c, and the result of the reset.
use aether_webos.Prelude.{
  ℕ, zero, suc, ◌+◌, ◌-◌, ◌^◌, ◌≡◌, ◌≢◌, ◌↔◌, ◌⊎◌, refl, arith, true, false, ◌||◌, ◌==◌,
  if◌then◌else◌, Bool-cases, inl, inr, bit_and, bit_or,
}
use aether_webos.Bus.{Trace, Answers, mmio_read32, mmio_write32}
use aether_webos.Bus.Xhci.{wait_clear, timeout_start, reset_controller}

-- One of the next `n` reads of the address shows no bit of the mask.
abbrev pub Clears : ℕ → Answers → ℕ → ℕ → Trace → Type 0
Clears zero device addr mask t = ⊥
Clears (suc n) device addr mask t =
    (bit_and (mmio_read32 device addr t).0 mask ≡ 0)
    ⊎ Clears n device addr mask (mmio_read32 device addr t).1

pub wait_clear_iff :
    (n : ℕ) (device : Answers) (addr mask : ℕ) (t : Trace)
    → ((wait_clear n device addr mask t).0 ≢ 0) ↔ Clears n device addr mask t
unfolding wait_clear
wait_clear_iff zero device addr mask t = (λ left. left refl, λ never. absurd never)
wait_clear_iff (suc n) device addr mask t =
    let read = mmio_read32 device addr t in
    let ih = wait_clear_iff n device addr mask read.1 in
    elim (Bool-cases (bit_and read.0 mask == 0)) [
      | inl clear ↦
          (λ left. inl (ground arith), λ seen. rw (clear, wait_clear) (λ e. absurd (omega arith)))
      | inr still ↦ (
        λ left. inr (ih.0 (rw (still, wait_clear) at left)),
        λ seen. elim seen [
          | inl clear ↦ absurd (ground arith)
          | inr later ↦ rw (still, wait_clear) (ih.1 later)
        ],
      )
    ]

-- Both timeouts are left, or one is not.
both_left :
    (a b : ℕ) → ((if (a == 0) || (b == 0) then false else true) ≡ true) ↔ ((a ≢ 0) × (b ≢ 0))
both_left a b = ground arith

-- The accesses before the wait for the end of the reset.
abbrev pub reset_requested : Answers → ℕ → Trace → Trace
reset_requested device op_base t0 =
    let (usb_cmd, t1) = mmio_read32 device (op_base + 0x00) t0 in
    let t2 = mmio_write32 (op_base + 0x00) (bit_and usb_cmd (2 ^ 32 - 2)) t1 in
    let (cmd, t3) = mmio_read32 device (op_base + 0x00) t2 in
    mmio_write32 (op_base + 0x00) (bit_or cmd 2) t3

-- `xhci_init` takes the controller to be ready exactly if, after the reset was requested, one of at
-- most 1000000 reads of USBCMD shows HCRST clear, and after that one of at most 1000000 reads of
-- USBSTS shows CNR clear; a controller that is that fast is never reported as timed out.
pub reset_controller_iff :
    (device : Answers) (op_base : ℕ) (t : Trace)
    → let requested = reset_requested device op_base t in
      let after = (wait_clear timeout_start device (op_base + 0x00) 2 requested).1 in
      ((reset_controller device op_base t).0 ≡ true) ↔ (
        Clears timeout_start device (op_base + 0x00) 2 requested
        × Clears timeout_start device (op_base + 0x04) 0x800 after)
unfolding reset_controller
reset_controller_iff device op_base t =
    let requested = reset_requested device op_base t in
    let reset = wait_clear timeout_start device (op_base + 0x00) 2 requested in
    let ready = wait_clear timeout_start device (op_base + 0x04) 0x800 reset.1 in
    let first = wait_clear_iff timeout_start device (op_base + 0x00) 2 requested in
    let second = wait_clear_iff timeout_start device (op_base + 0x04) 0x800 reset.1 in
    let both = both_left reset.0 ready.0 in
    (
      λ ok. (first.0 (both.0 ok).0, second.0 (both.0 ok).1),
      λ seen. both.1 (first.1 seen.0, second.1 seen.1),
    )
