-- ===== src/Bus/Drivers/Network.antt =====
-- `virtio_pci_init` of AetherWebOS/src/drivers/virtio/virtio_pci.c writes to no BAR.
use aether_webos.Prelude.{
  ℕ, zero, suc, ◌+◌, ◌≤◌, ◌≡◌, refl, arith, sym, ◌∙◌, Option, none, some, ◌==◌, Bool-cases,
  Option-cases, inl, inr, u8, bit_and,
}
use aether_webos.Memory.Heap.{kmalloc}
use aether_webos.Memory.Paging.{Space, vmalloc_start}
use aether_webos.Memory.Paging.Translate.{IsSpace}
use aether_webos.Bus.{Trace, Answers, mmio_read32, mmio_write32}
use aether_webos.Bus.Pcie.{pcie_read_config}
use aether_webos.Bus.Pcie.Windows.{bars}
use aether_webos.Bus.VirtioNet.{
  wait_zero, negotiate, read_mac, finish_handshake, virtio_net_init, Handshake, Queues,
}
use aether_webos.Bus.VirtioPci.{Transport, virtio_pci_cap_lookup, unmapped}
use aether_webos.Bus.VirtioStart.{found_doorbells, Started, start_device, virtio_pci_init}
use aether_webos.Bus.Drivers.{after_virtio}
use aether_webos.Bus.Drivers.Quiet.{write-bars, read-bars, config-bars}
use aether_webos.Bus.Drivers.Areas.{Safe, cap_loop-Safe}

wait_zero-bars :
    (fuel : ℕ) (device : Answers) (addr : ℕ) (t t' : Trace)
    → wait_zero fuel device addr t ≡ some t'
    → bars t' ≡ bars t
unfolding wait_zero
wait_zero-bars zero device addr t t' e = absurd (ground (arith, e))
wait_zero-bars (suc fuel) device addr t t' e =
    let (val, t1) = mmio_read32 device addr t in
    elim (Bool-cases (val == 0)) [
      | inl done ↦
          let same : t1 ≡ t' = ground (arith, rw (done, wait_zero) at e) in
          rw (sym same) (read-bars device addr t)
      | inr busy ↦
          wait_zero-bars fuel device addr t1 t' (rw (busy, wait_zero) at e)
          ∙ read-bars device addr t
    ]

negotiate-bars :
    (device : Answers) (common : ℕ) (t : Trace)
    → vmalloc_start ≤ common
    → bars (negotiate device common t).1 ≡ bars t
unfolding negotiate
negotiate-bars device common t h =
    read-bars device (common + 0x14) _
    ∙ write-bars (common + 0x14) _ _ (omega arith)
    ∙ write-bars (common + 0x0C) _ _ (omega arith)
    ∙ write-bars (common + 0x08) _ _ (omega arith)
    ∙ write-bars (common + 0x0C) _ _ (omega arith)
    ∙ write-bars (common + 0x08) _ _ (omega arith)
    ∙ read-bars device (common + 0x04) _
    ∙ write-bars (common + 0x00) _ _ (omega arith)
    ∙ read-bars device (common + 0x04) _
    ∙ write-bars (common + 0x00) _ _ (omega arith)
    ∙ write-bars (common + 0x14) _ _ (omega arith)

finish-bars :
    (device : Answers) (common cfg : ℕ) (t : Trace)
    → vmalloc_start ≤ common
    → bars (finish_handshake device common cfg t).trace ≡ bars t
unfolding finish_handshake read_mac
finish-bars device common cfg t h =
    let (status, t1) = negotiate device common t in
    elim (Bool-cases (bit_and status 8 == 0)) [
      | inl refused ↦ rw (refused, finish_handshake) (negotiate-bars device common t h)
      | inr agreed ↦
          rw (agreed, finish_handshake)
            (read-bars device (cfg + 4) _
              ∙ read-bars device cfg _
              ∙ write-bars (common + 0x14) 15 t1 (omega arith)
              ∙ negotiate-bars device common t h)
    ]

-- The fuel, what the device answers, and what the drivers are told.
module _ (fuel : ℕ) (device : Answers) (queue_sizes : ℕ → ℕ)
    (rx_ring_mem tx_ring_mem rx_buffers : ℕ) where
  net_init-bars :
      (common cfg : ℕ) (t : Trace) (q q' : Queues) (h : Handshake)
      → vmalloc_start ≤ common
      → virtio_net_init fuel device queue_sizes rx_ring_mem tx_ring_mem rx_buffers common cfg t q
        ≡ some (h, q')
      → bars h.trace ≡ bars t
  unfolding virtio_net_init
  net_init-bars common cfg t q q' h lo e =
      elim (Option-cases
        (wait_zero fuel device (common + 0x14) (mmio_write32 (common + 0x14) 0 t))) [
          | inl stuck ↦ absurd (ground (arith, rw (stuck, virtio_net_init) at e))
          | inr (t1, waited) ↦
              let same : finish_handshake device common cfg t1 ≡ h =
                ground (arith, rw (waited, virtio_net_init) at e) in
              rw (sym same) (
                finish-bars device common cfg t1 lo
                ∙ wait_zero-bars fuel device (common + 0x14) _ t1 waited
                ∙ write-bars (common + 0x14) 0 t (omega arith))
        ]

  -- What `virtio_pci_init` leaves, seen from the search.
  abbrev pub Kept : Trace → Space → Started → Type 0
  Kept t space s =
      IsSpace (after_virtio t space s).1.space × (bars (after_virtio t space s).0 ≡ bars t)

  start_device-Kept :
      (t : Trace) (space : Space) (vdev : ℕ) (v : Transport) (s r : Started) (common cfg : Option ℕ)
      → Safe t v
      → ((c : ℕ) → common ≡ some c → vmalloc_start ≤ c)
      → start_device fuel device queue_sizes rx_ring_mem tx_ring_mem rx_buffers vdev v s common cfg
        ≡ some r
      → Kept t space r
  unfolding start_device
  start_device-Kept t space vdev v s r (some common) (some cfg) safe above e =
      elim (Option-cases (
        virtio_net_init fuel device queue_sizes rx_ring_mem tx_ring_mem rx_buffers common cfg
          v.trace (found_doorbells v s.queues))) [
            | inl stuck ↦ absurd (ground (arith, rw (stuck, start_device) at e))
            | inr ((h, q), shaken) ↦
                let same : record s {
                  global_vnet_dev = some vdev;
                  transport = some (record v { trace = h.trace });
                  handshake = some h;
                  queues = q;
                }
                    ≡ r =
                  ground (arith, rw (shaken, start_device) at e) in
                rw (sym same) (
                  safe.laid,
                  net_init-bars common cfg v.trace (found_doorbells v s.queues) q h
                        (above common refl) shaken
                      ∙ safe.quiet,
                )
          ]
  start_device-Kept t space vdev v s r none cfg safe above e =
      let same : record s { transport = some v } ≡ r = ground (arith, e) in
      rw (sym same) (safe.laid, safe.quiet)
  start_device-Kept t space vdev v s r (some common) none safe above e =
      let same : record s { transport = some v } ≡ r = ground (arith, e) in
      rw (sym same) (safe.laid, safe.quiet)

  pub virtio_init-Kept :
      (bus dev func multiplier : ℕ) (t : Trace) (space : Space) (s r : Started)
      → IsSpace space
      → s.transport ≡ none
      → virtio_pci_init fuel device queue_sizes rx_ring_mem tx_ring_mem rx_buffers bus dev func
          multiplier t space s
        ≡ some r
      → Kept t space r
  unfolding virtio_pci_init virtio_pci_cap_lookup
  virtio_init-Kept bus dev func multiplier t space s r laid fresh e =
      elim (Option-cases (kmalloc 72 s.heap).1) [
        | inl full ↦
            let same : record s { heap = (kmalloc 72 s.heap).0 } ≡ r =
              ground (arith, rw (full, virtio_pci_init) at e) in
            rw (sym same, fresh) (laid, refl)
        | inr (vdev, given) ↦
            let start : Transport = unmapped bus dev func multiplier t space in
            elim (Option-cases (virtio_pci_cap_lookup fuel device start)) [
              | inl lost ↦ absurd (ground (arith, rw (given, virtio_pci_init, lost) at e))
              | inr (v, found) ↦
                  let (word, t1) = pcie_read_config device bus dev func 0x34 t in
                  let safe : Safe t v =
                    cap_loop-Safe t fuel device (u8 (bit_and word 0xFF))
                      (record start { trace = t1 }) v
                      (record {
                        quiet = config-bars device bus dev func 0x34 t;
                        laid = laid;
                        above = λ c at. absurd (ground (arith, at));
                      })
                      found in
                  start_device-Kept t space vdev v (record s { heap = (kmalloc 72 s.heap).0 }) r
                    v.common v.device_cfg safe safe.above (rw (given, virtio_pci_init, found) at e)
            ]
      ]
