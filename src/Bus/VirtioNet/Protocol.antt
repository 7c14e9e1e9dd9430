-- ===== src/Bus/VirtioNet/Protocol.antt =====
-- Rules of the VirtIO specification for a driver's handshake in the common configuration area, on the
-- reset, the features and the status: an automaton that reads the accesses. The set-up of the queues
-- is not among them.
use aether_webos.Prelude.{ℕ, ◌-◌, [], ◌∷◌, ◌==◌, if◌then◌else◌, bit_and, leb}
use aether_webos.Bus.{Access, Trace}

pub data Phase : Type 0 where
  unknown : Phase
  resetting : Phase
  reset_done : Phase
  driver : Phase
  features_set : Phase
  features_ok : Phase
  live : Phase
  refused : Phase
  broken : Phase

-- The phase, the halves of the features that are selected for reading and for writing, and the
-- features that the device was seen to offer.
pub record Monitor : Type 0 where
  pub phase : Phase
  pub device_select : ℕ
  pub driver_select : ℕ
  pub offered : ℕ → ℕ

-- Writing the status: 0 starts a reset; after it, ACKNOWLEDGE with DRIVER, then FEATURES_OK, then,
-- confirmed by the device, DRIVER_OK.
abbrev pub next_status : ℕ → Phase → Phase
next_status status Phase.reset_done = if status == 3 then Phase.driver else Phase.broken
next_status status Phase.driver = if status == 11 then Phase.features_set else Phase.broken
next_status status Phase.features_ok = if status == 15 then Phase.live else Phase.broken
next_status status phase = Phase.broken

abbrev pub write_status : ℕ → Phase → Phase
write_status status phase = if status == 0 then Phase.resetting else next_status status phase

abbrev pub read_status : ℕ → Phase → Phase
read_status status Phase.resetting = if status == 0 then Phase.reset_done else Phase.resetting
read_status status Phase.features_set =
    if bit_and status 8 == 0 then Phase.refused else Phase.features_ok
read_status status phase = phase

-- Features are accepted between DRIVER and FEATURES_OK, and only those that are offered.
abbrev pub write_features : ℕ → Monitor → Phase → Phase
write_features accepted m Phase.driver =
    if bit_and (m.offered m.driver_select) accepted == accepted then Phase.driver else Phase.broken
write_features accepted m phase = Phase.broken

-- A read or a write at an offset into the area.
abbrev pub on_read : ℕ → ℕ → Monitor → Monitor
on_read offset val m =
    if offset == 0x14
    then record m { phase = read_status val m.phase }
    else if offset == 0x04
    then record m { offered = λ half. if half == m.device_select then val else m.offered half }
    else m

abbrev pub on_write : ℕ → ℕ → Monitor → Monitor
on_write offset val m =
    if offset == 0x14
    then record m { phase = write_status val m.phase }
    else if offset == 0x00
    then record m { device_select = val }
    else if offset == 0x08
    then record m { driver_select = val }
    else if offset == 0x0C
    then record m { phase = write_features val m m.phase }
    else m

-- The monitor after the accesses, the newest first; those outside the area do not count.
abbrev pub observe : ℕ → Trace → Monitor
observe common [] = record {
  phase = Phase.unknown;
  device_select = 0;
  driver_select = 0;
  offered = λ half. 0;
}
observe common (Access.read addr val ∷ t) =
    if leb common addr then on_read (addr - common) val (observe common t) else observe common t
observe common (Access.write addr val ∷ t) =
    if leb common addr then on_write (addr - common) val (observe common t) else observe common t
