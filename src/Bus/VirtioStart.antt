-- ===== src/Bus/VirtioStart.antt =====
-- `virtio_pci_init` and `virtio_pci_reset` of AetherWebOS/src/drivers/virtio/virtio_pci.c.
use aether_webos.Prelude.{
  ℕ, zero, suc, ◌+◌, Option, none, some, Bool, true, false, if◌then◌else◌, ◌==◌, ◌∷◌, u8,
}
use aether_webos.Memory.Heap.{Heap, kmalloc}
use aether_webos.Memory.Paging.{Space}
use aether_webos.Bus.{Access, Trace, Answers}
use aether_webos.Bus.VirtioPci.{Transport, unmapped, virtio_pci_cap_lookup}
use aether_webos.Bus.VirtioNet.{Handshake, Queues, virtio_net_init}

-- What the initialisation of a device comes to: `global_vnet_dev`, where the device structure
-- lies, its contents, and the result of the handshake, if it is reached.
pub record Started : Type 0 where
  pub heap : Heap
  pub global_vnet_dev : Option ℕ
  pub transport : Option Transport
  pub handshake : Option Handshake
  pub queues : Queues

-- The queues' device has the doorbells that the walk over the capabilities found; an area that was
-- not found is NULL.
unfoldable pub found_doorbells : Transport → Queues → Queues
found_doorbells v q = record q {
  device = record (q.device) {
    notify_base = elim v.notify_base [ none ↦ 0 | some base ↦ base ];
    notify_off_multiplier = v.notify_off_multiplier;
  };
}

-- The part after the capabilities were looked up; both areas have to be there.
unfoldable pub start_device :
    ℕ
    → Answers
    → (ℕ → ℕ)
    → ℕ
    → ℕ
    → ℕ
    → ℕ
    → Transport
    → Started
    → Option ℕ
    → Option ℕ
    → Option Started
start_device fuel device queue_sizes rx_ring_mem tx_ring_mem rx_buffers vdev v s (some common)
      (some cfg) =
    elim (virtio_net_init fuel device queue_sizes rx_ring_mem tx_ring_mem rx_buffers common cfg
      v.trace (found_doorbells v s.queues)) [
        | none ↦ none
        | some (h, queues') ↦ some (record s {
          global_vnet_dev = some vdev;
          transport = some (record v { trace = h.trace });
          handshake = some h;
          queues = queues';
        })
      ]
start_device fuel device queue_sizes rx_ring_mem tx_ring_mem rx_buffers vdev v s _ _ =
    some (record s { transport = some v })

-- `sizeof(struct virtio_pci_device)` is 72. The multiplier is what the memory held. The fuel bounds
-- the walk and the wait for the reset; `none` if it does not suffice.
unfoldable pub virtio_pci_init :
    ℕ → Answers → (ℕ → ℕ) → ℕ → ℕ → ℕ → ℕ → ℕ → ℕ → ℕ → Trace → Space → Started → Option Started
virtio_pci_init fuel device queue_sizes rx_ring_mem tx_ring_mem rx_buffers bus dev func multiplier t
      space s =
    let (heap', allocated) = kmalloc 72 s.heap in
    let s' = record s { heap = heap' } in
    elim allocated [
      | none ↦ some s'
      | some vdev ↦
          elim (virtio_pci_cap_lookup fuel device (unmapped bus dev func multiplier t space)) [
            | none ↦ none
            | some v ↦
                start_device fuel device queue_sizes rx_ring_mem tx_ring_mem rx_buffers vdev v s'
                  v.common v.device_cfg
          ]
    ]

-- `while (vdev->common->device_status != 0)`, a read of a byte, with the reads that it may take.
unfoldable pub reset_loop : ℕ → Answers → ℕ → Trace → Option Trace
reset_loop zero device addr t = none
reset_loop (suc fuel) device addr t =
    let val = u8 (device t addr) in
    elim (val == 0) [
      | true ↦ some (Access.read addr val ∷ t)
      | false ↦ reset_loop fuel device addr (Access.read addr val ∷ t)
    ]

-- The common area of the device structure, if there are both. The status is no volatile variable,
-- and 0 was just stored to it: `rereads` tells whether the compiled loop reads the device, or takes
-- the stored 0 and ends at once.
unfoldable pub virtio_pci_reset : Bool → ℕ → Answers → Option ℕ → Trace → Option Trace
virtio_pci_reset rereads fuel device none t = some t
virtio_pci_reset rereads fuel device (some common) t =
    let asked = Access.write (common + 0x14) 0 ∷ t in
    if rereads then reset_loop fuel device (common + 0x14) asked else some asked
