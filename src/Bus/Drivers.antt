-- ===== src/Bus/Drivers.antt =====
-- The drivers that `pcie_init` of AetherWebOS/src/drivers/pcie.c starts, as its registry names them:
-- `virtio_pci_init` and `xhci_init`.
pub mod Quiet
pub mod Areas
pub mod Network
pub mod Search
use aether_webos.Prelude.{ℕ, Option, none, some}
use aether_webos.Memory.Paging.{Space}
use aether_webos.Bus.{Trace, Answers}
use aether_webos.Bus.Pcie.{InitFn, Pci, Start, pcie_init}
use aether_webos.Bus.VirtioPci.{Transport}
use aether_webos.Bus.VirtioStart.{Started, virtio_pci_init}
use aether_webos.Bus.Xhci.{xhci_init}

-- What both drivers change: the virtual memory, and what the network driver keeps.
pub record Machine : Type 0 where
  pub space : Space
  pub started : Started

-- The accesses and the virtual memory after `virtio_pci_init`; they are those before if there is no
-- device structure.
abbrev pub after_virtio : Trace → Space → Started → Trace × Machine
after_virtio t space s = elim s.transport [
  | none ↦ (t, record { space = space; started = s })
  | some v ↦ (v.trace, record { space = v.space; started = s })
]

-- The fuel bounds the walks and the waits; the sizes are what the device answers for its queues; the
-- multiplier is what the memory of the device structure held.
module _ (fuel : ℕ) (device : Answers) (queue_sizes : ℕ → ℕ)
    (rx_ring_mem tx_ring_mem rx_buffers multiplier : ℕ) where
  unfoldable pub start_driver : Start Machine
  start_driver InitFn.virtio_pci_init_fn bus dev func t m =
      elim (virtio_pci_init fuel device queue_sizes rx_ring_mem tx_ring_mem rx_buffers bus dev func
        multiplier t m.space (record m.started { transport = none; handshake = none })) [
          | none ↦ none
          | some s ↦ some (after_virtio t m.space s)
        ]
  start_driver InitFn.xhci_init_fn bus dev func t m =
      elim (xhci_init fuel device bus dev func t m.space) [
        | none ↦ none
        | some (result, t', space') ↦ some (t', record m { space = space' })
      ]

  -- The search with these drivers.
  unfoldable pub pcie_start : Pci Machine → Option (Pci Machine)
  pcie_start p = pcie_init device start_driver p
