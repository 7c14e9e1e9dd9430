-- ===== src/Bus/Drivers/Search.antt =====
-- `pcie_init` of AetherWebOS/src/drivers/pcie.c with the drivers of its registry.
use aether_webos.Prelude.{ℕ, ◌≡◌, refl, arith, sym, [], none, some, Option-cases, inl, inr}
use aether_webos.Memory.Paging.Translate.{IsSpace}
use aether_webos.Bus.{Answers}
use aether_webos.Bus.Pcie.{InitFn, Pci}
use aether_webos.Bus.Pcie.Windows.{Placed, Quiet}
use aether_webos.Bus.Pcie.Search.{pcie_init-windows}
use aether_webos.Bus.VirtioStart.{Started, virtio_pci_init}
use aether_webos.Bus.Xhci.{xhci_init}
use aether_webos.Bus.Drivers.{Machine, after_virtio, start_driver, pcie_start}
use aether_webos.Bus.Drivers.Quiet.{xhci_init-Quiet}
use aether_webos.Bus.Drivers.Network.{virtio_init-Kept}

-- The fuel, what the device answers, and what the drivers are told.
module _ (fuel : ℕ) (device : Answers) (queue_sizes : ℕ → ℕ)
    (rx_ring_mem tx_ring_mem rx_buffers : ℕ) where
  start_driver-Quiet :
      (multiplier : ℕ)
      → Quiet
          (λ (m : Machine). IsSpace m.space)
          (start_driver fuel device queue_sizes rx_ring_mem tx_ring_mem rx_buffers multiplier)
  unfolding start_driver
  start_driver-Quiet multiplier InitFn.virtio_pci_init_fn bus dev func t m t' m' laid e =
      let fresh : Started = record m.started { transport = none; handshake = none } in
      elim (Option-cases (
        virtio_pci_init fuel device queue_sizes rx_ring_mem tx_ring_mem rx_buffers bus dev func
          multiplier t m.space fresh)) [
            | inl stuck ↦ absurd (ground (arith, rw (stuck, start_driver) at e))
            | inr (r, back) ↦
                let same : after_virtio t m.space r ≡ (t', m') =
                  ground (arith, rw (back, start_driver) at e) in
                let kept =
                  virtio_init-Kept fuel device queue_sizes rx_ring_mem tx_ring_mem rx_buffers bus
                    dev func multiplier t m.space fresh r laid refl back in
                rw same at kept
          ]
  start_driver-Quiet multiplier InitFn.xhci_init_fn bus dev func t m t' m' laid e =
      elim (Option-cases (xhci_init fuel device bus dev func t m.space)) [
        | inl stuck ↦ absurd (ground (arith, rw (stuck, start_driver) at e))
        | inr ((result, t1, space), back) ↦
            let parts : (t1 ≡ t') × (record m { space = space } ≡ m') =
              ground (arith, rw (back, start_driver) at e) in
            rw (sym parts.0, sym parts.1)
              (xhci_init-Quiet fuel device bus dev func t t1 m.space space result laid back)
      ]

  -- The search for devices with the kernel's own drivers, whatever the devices answer: if it comes
  -- back, then what the recorded accesses wrote to BARs are in order the addresses of windows of 1 MiB
  -- one behind the other from 256 MiB on, at most 192 of them, so that no two overlap; and the area
  -- of the virtual memory is well formed. Recorded are the accesses of the search, of the walk over
  -- the capabilities, of the network device's handshake and of the USB driver; those of the set-up
  -- of the queues, to the common area and to a doorbell, are not.
  pub pcie_start-windows :
      (multiplier devices : ℕ) (m : Machine) (p : Pci Machine)
      → IsSpace m.space
      → pcie_start fuel device queue_sizes rx_ring_mem tx_ring_mem rx_buffers multiplier (record {
        next_pci_mem_addr = 0x10000000;
        total_pci_devices = devices;
        trace = [];
        drivers = m;
      })
        ≡ some p
      → Placed 192 p × IsSpace p.drivers.space
  unfolding pcie_start
  pcie_start-windows multiplier devices m p laid e =
      pcie_init-windows (λ (m : Machine). IsSpace m.space) device
        (start_driver fuel device queue_sizes rx_ring_mem tx_ring_mem rx_buffers multiplier) devices
        m p (start_driver-Quiet multiplier) laid e
