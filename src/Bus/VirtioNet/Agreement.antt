-- ===== src/Bus/VirtioNet/Agreement.antt =====
-- The handshake of AetherWebOS/src/drivers/virtio/virtio_net.c against rules of the specification.
use aether_webos.Prelude.{
  ℕ, zero, suc, ◌+◌, ◌-◌, ◌*◌, ◌/◌, ◌%◌, ◌≡◌, refl, arith, ◌∙◌, some, true, ◌==◌, if◌then◌else◌,
  leb, min, bit_and, bit_and_field, bit_and_high, and_digit, bit_and-zero, Bool-cases, Option-cases,
  inl, inr, u32,
}
use aether_webos.Bus.{Trace, Answers, mmio_read32, mmio_write32}
use aether_webos.Bus.VirtioNet.{
  wait_zero, accept_low, accept_high, Handshake, read_mac, negotiate, finish_handshake, Queues,
  virtio_net_init,
}
use aether_webos.Bus.VirtioNet.Protocol.{Phase, Monitor, on_read, on_write, observe}

accept_low-offered : (f : ℕ) → bit_and f (accept_low f) ≡ accept_low f
unfolding accept_low
accept_low-offered f =
    let mac : bit_and f 0x20 ≡ f / 32 % 2 * 32 = bit_and_field 5 1 f in
    let layout : bit_and f 0x8000000 ≡ f / 134217728 % 2 * 134217728 = bit_and_field 27 1 f in
    let upper : bit_and (f / 32 / 2) 0x200000 ≡ f / 32 / 2 / 2097152 % 2 * 2097152 =
      bit_and_field 21 1 (f / 32 / 2) in
    let both : bit_and f 0x8000020 ≡ bit_and (f / 32) 0x400001 * 32 = bit_and_high 5 0x400001 f in
    let digit : bit_and (f / 32) 0x400001 ≡ bit_and (f / 32 / 2) 0x200000 * 2 + min (f / 32 % 2) 1 =
      and_digit (f / 32) 0x400001 in
    let nothing : bit_and f 0 ≡ 0 = bit_and-zero f in ground arith

accept_high-offered : (f : ℕ) → bit_and f (accept_high f) ≡ accept_high f
unfolding accept_high
accept_high-offered f =
    let version : bit_and f 1 ≡ f / 1 % 2 * 1 = bit_and_field 0 1 f in
    let nothing : bit_and f 0 ≡ 0 = bit_and-zero f in ground arith

accept_low_word : (f : ℕ) → u32 (accept_low f) ≡ accept_low f
unfolding accept_low
accept_low_word f = ground arith

accept_high_word : (f : ℕ) → u32 (accept_high f) ≡ accept_high f
unfolding accept_high
accept_high_word f = ground arith

same_test : (n : ℕ) → (n == n) ≡ true
same_test n = ground arith

at_offset : (common k : ℕ) → common + k - common ≡ k
at_offset common k = omega arith

in_area : (common k : ℕ) → leb common (common + k) ≡ true
in_area common k = ground arith

write-observe :
    (common k val : ℕ) (t : Trace)
    → observe common (mmio_write32 (common + k) val t) ≡ on_write k (u32 val) (observe common t)
unfolding mmio_write32
write-observe common k val t = rw (in_area common k, at_offset common k) refl

read-observe :
    (device : Answers) (common k : ℕ) (t : Trace)
    → observe common (mmio_read32 device (common + k) t).1
      ≡ on_read k (mmio_read32 device (common + k) t).0 (observe common t)
unfolding mmio_read32
read-observe device common k t = rw (in_area common k, at_offset common k) refl

negotiate-phase :
    (device : Answers) (common : ℕ) (t : Trace)
    → (observe common t).phase ≡ Phase.reset_done
    → (observe common (negotiate device common t).1).phase
      ≡ (if bit_and (negotiate device common t).0 8 == 0 then Phase.refused else Phase.features_ok)
unfolding negotiate
negotiate-phase device common t h =
    rw
      (
        read-observe device common 0x14,
        write-observe common 0x14,
        write-observe common 0x0C,
        write-observe common 0x08,
        write-observe common 0x0C,
        write-observe common 0x08,
        read-observe device common 0x04,
        write-observe common 0x00,
        read-observe device common 0x04,
        write-observe common 0x00,
        write-observe common 0x14,
        h,
        accept_low_word f0,
        accept_low-offered f0,
        same_test,
        accept_high_word,
        accept_high-offered,
        same_test,
      )
      refl
  where
    f0 : ℕ
    f0 =
        (mmio_read32 device (common + 0x04)
          (mmio_write32 (common + 0x00) 0 (mmio_write32 (common + 0x14) 3 t))).0

wait_zero-phase :
    (fuel : ℕ) (device : Answers) (common : ℕ) (t t' : Trace)
    → (observe common t).phase ≡ Phase.resetting
    → wait_zero fuel device (common + 0x14) t ≡ some t'
    → (observe common t').phase ≡ Phase.reset_done
unfolding wait_zero
wait_zero-phase zero device common t t' h e = absurd (ground arith)
wait_zero-phase (suc fuel) device common t t' h e = elim (Bool-cases (val == 0)) [
  | inl cleared ↦
      let same : t' ≡ next = ground (arith, rw (cleared, wait_zero) at e) in
      rw (same, read-observe device common 0x14, h, cleared) refl
  | inr pending ↦
      wait_zero-phase fuel device common next t'
        (rw (read-observe device common 0x14, h, pending) refl) (rw (pending, wait_zero) at e)
]
  where
    val : ℕ
    val = (mmio_read32 device (common + 0x14) t).0

    next : Trace
    next = (mmio_read32 device (common + 0x14) t).1

reset-phase :
    (common : ℕ) (t : Trace)
    → (observe common (mmio_write32 (common + 0x14) 0 t)).phase ≡ Phase.resetting
reset-phase common t = rw (write-observe common 0x14) refl

on_read-live :
    (offset val : ℕ) (m : Monitor)
    → m.phase ≡ Phase.live
    → (on_read offset val m).phase ≡ Phase.live
on_read-live offset val m h = elim (Bool-cases (offset == 0x14)) [
  | inl status ↦ rw (status, h) refl
  | inr other ↦ elim (Bool-cases (offset == 0x04)) [
    | inl features ↦ rw (other, features) h
    | inr rest ↦ rw (other, rest) h
  ]
]

-- A read does not end the live phase.
read-live :
    (device : Answers) (common addr : ℕ) (t : Trace)
    → (observe common t).phase ≡ Phase.live
    → (observe common (mmio_read32 device addr t).1).phase ≡ Phase.live
unfolding mmio_read32
read-live device common addr t h = elim (Bool-cases (leb common addr)) [
  | inl inside ↦ rw inside (on_read-live (addr - common) (u32 (device t addr)) (observe common t) h)
  | inr outside ↦ rw outside h
]

finish_handshake-phase :
    (device : Answers) (common cfg : ℕ) (t : Trace)
    → (observe common t).phase ≡ Phase.reset_done
    → (observe common (finish_handshake device common cfg t).trace).phase
      ≡ (if (finish_handshake device common cfg t).live then Phase.live else Phase.refused)
unfolding finish_handshake read_mac
finish_handshake-phase device common cfg t h =
    let done = negotiate-phase device common t h in
    let said = negotiate device common t in
    let started = mmio_write32 (common + 0x14) 15 said.1 in
    elim (Bool-cases (bit_and said.0 8 == 0)) [
      | inl no_features ↦ rw no_features (done ∙ rw no_features refl)
      | inr agreed ↦
          let ok : (observe common said.1).phase ≡ Phase.features_ok = done ∙ rw agreed refl in
          rw agreed (
            read-live device common (cfg + 4) (mmio_read32 device cfg started).1
              (read-live device common cfg started (rw (write-observe common 0x14, ok) refl)))
    ]

-- Whatever the device answers, the accesses of the handshake in `virtio_net_init` keep three of the
-- specification's rules: the status 0 is awaited before ACKNOWLEDGE and DRIVER, only features that
-- the device offered are accepted, and DRIVER_OK is written only after the device has confirmed
-- FEATURES_OK. The device is live at the end exactly if the function goes on to the queues. The rule
-- that the queues are set up before DRIVER_OK is none of the three: the function sets them up after
-- the handshake, and those accesses are not judged.
pub virtio_net_init-obeys :
    (fuel : ℕ) (device : Answers) (queue_sizes : ℕ → ℕ)
    (rx_ring_mem tx_ring_mem rx_buffers common cfg : ℕ) (t : Trace) (q q' : Queues) (h : Handshake)
    → virtio_net_init fuel device queue_sizes rx_ring_mem tx_ring_mem rx_buffers common cfg t q
      ≡ some (h, q')
    → (observe common h.trace).phase ≡ (if h.live then Phase.live else Phase.refused)
unfolding virtio_net_init
virtio_net_init-obeys fuel device queue_sizes rx_ring_mem tx_ring_mem rx_buffers common cfg t q q' h
      e =
    let zeroed = mmio_write32 (common + 0x14) 0 t in
    elim (Option-cases (wait_zero fuel device (common + 0x14) zeroed)) [
      | inl never ↦ absurd (ground (arith, rw (never, virtio_net_init) at e))
      | inr (t', waited) ↦
          let same : finish_handshake device common cfg t' ≡ h =
            ground (arith, rw (waited, virtio_net_init) at e) in
          rw (← same) (
            finish_handshake-phase device common cfg t'
              (wait_zero-phase fuel device common zeroed t' (reset-phase common t) waited))
    ]
