-- ===== src/Kernel/Power.antt =====
-- `kernel_shutdown` of AetherWebOS/src/kernel/kernel.c, and AetherWebOS/src/drivers/psci.c. What is said
-- on the UART is left out.
use aether_webos.Prelude.{
  ℕ, zero, suc, ◌+◌, ◌≡◌, refl, arith, sym, List, [], ◌∷◌, Option, none, some, ◌==◌, Bool-cases,
  Option-cases, inl, inr, u8, Bool, true, false,
}
use aether_webos.Bus.{Access, Trace, Answers}
use aether_webos.Bus.VirtioStart.{reset_loop, virtio_pci_reset}

-- What the firmware and the processor are told, newest first, each with the device accesses until
-- then.
pub data Command : Type 0 where
  mask_interrupts : Trace → Command
  hvc : ℕ → Trace → Command

pub record Power : Type 0 where
  pub commands : List Command
  pub trace : Trace

unfoldable pub psci_call : ℕ → Power → Power
psci_call function_id p = record p { commands = Command.hvc function_id p.trace ∷ p.commands }

abbrev pub psci_system_off_id : ℕ
psci_system_off_id = 0x84000008

abbrev pub psci_system_reset_id : ℕ
psci_system_reset_id = 0x84000009

-- Both wait for ever when the firmware returns.
unfoldable pub psci_system_off : Power → Power
psci_system_off p = psci_call psci_system_off_id p

unfoldable pub psci_system_reset : Power → Power
psci_system_reset p = psci_call psci_system_reset_id p

-- `vnet` is the common area of `global_vnet_dev`, if there are both. The fuel bounds the wait for the
-- device; `none` if it does not suffice. `rereads` is that of `virtio_pci_reset`.
unfoldable pub kernel_shutdown : Bool → ℕ → Answers → Option ℕ → Power → Option Power
kernel_shutdown rereads fuel device vnet p =
    let masked = Command.mask_interrupts p.trace ∷ p.commands in
    elim (virtio_pci_reset rereads fuel device vnet p.trace) [
      | none ↦ none
      | some t ↦ some (psci_system_off (record { commands = masked; trace = t }))
    ]

-- The reset was asked for, and since then the device was only asked whether it is done.
abbrev pub Waited : ℕ → Trace → Trace → Type 0
Waited common t0 [] = ⊥
Waited common t0 (Access.read addr val ∷ t) = (addr ≡ common + 0x14) × Waited common t0 t
Waited common t0 (Access.write addr val ∷ t) = (addr ≡ common + 0x14) × (val ≡ 0) × (t ≡ t0)

-- The last answer is that it is done.
abbrev pub Parked : ℕ → Trace → Trace → Type 0
Parked common t0 (Access.read addr val ∷ t) =
    (val ≡ 0) × (addr ≡ common + 0x14) × Waited common t0 t
Parked common t0 _ = ⊥

reset_loop-Parked :
    (fuel : ℕ) (device : Answers) (common : ℕ) (t0 t t' : Trace)
    → Waited common t0 t
    → reset_loop fuel device (common + 0x14) t ≡ some t'
    → Parked common t0 t'
unfolding reset_loop
reset_loop-Parked zero device common t0 t t' w e = absurd (ground (arith, e))
reset_loop-Parked (suc fuel) device common t0 t t' w e =
    let val : ℕ = u8 (device t (common + 0x14)) in
    elim (Bool-cases (val == 0)) [
      | inl done ↦
          let same : Access.read (common + 0x14) val ∷ t ≡ t' =
            ground (arith, rw (done, reset_loop) at e) in
          rw (sym same) (ground (arith, done), refl, w)
      | inr busy ↦
          reset_loop-Parked fuel device common t0 (Access.read (common + 0x14) val ∷ t) t' (refl, w)
            (rw (busy, reset_loop) at e)
    ]

abbrev ended : Power → Trace → Power
ended p t =
    psci_system_off (record { commands = Command.mask_interrupts p.trace ∷ p.commands; trace = t })

-- What the network device was asked, if there is one: the reset, and when the compiled loop reads
-- the device, until it confirmed it.
abbrev pub Quiesced : Bool → Option ℕ → Trace → Trace → Type 0
Quiesced rereads none t0 t = t ≡ t0
Quiesced true (some common) t0 t = Parked common t0 t
Quiesced false (some common) t0 t = t ≡ Access.write (common + 0x14) 0 ∷ t0

-- Whatever the device answers: when `kernel_shutdown` gets to the end, it has made exactly one call of
-- the firmware, SYSTEM_OFF, as its last command; before, it masked the interrupts; and between the two
-- it asked the network device, if there is one, for a reset, with no other access than the reads of
-- its status. When the compiled loop reads the status from the device, it saw the reset confirmed;
-- when it takes the 0 that was just stored, the power goes off without a read.
pub kernel_shutdown-Quiesced :
    (rereads : Bool) (fuel : ℕ) (device : Answers) (vnet : Option ℕ) (p q : Power)
    → kernel_shutdown rereads fuel device vnet p ≡ some q
    → (q.commands
        ≡ Command.hvc psci_system_off_id q.trace ∷ Command.mask_interrupts p.trace ∷ p.commands)
      × Quiesced rereads vnet p.trace q.trace
unfolding kernel_shutdown psci_system_off psci_call virtio_pci_reset
kernel_shutdown-Quiesced rereads fuel device none p q e =
    let same : ended p p.trace ≡ q = ground (arith, e) in rw (sym same) (refl, refl)
kernel_shutdown-Quiesced false fuel device (some common) p q e =
    let same : ended p (Access.write (common + 0x14) 0 ∷ p.trace) ≡ q = ground (arith, e) in
    rw (sym same) (refl, refl)
kernel_shutdown-Quiesced true fuel device (some common) p q e =
    let asked : Trace = Access.write (common + 0x14) 0 ∷ p.trace in
    elim (Option-cases (reset_loop fuel device (common + 0x14) asked)) [
      | inl stuck ↦ absurd (ground (arith, rw (stuck, kernel_shutdown) at e))
      | inr (t, parked) ↦
          let same : ended p t ≡ q = ground (arith, rw (parked, kernel_shutdown) at e) in
          rw (sym same)
            (refl, reset_loop-Parked fuel device common p.trace asked t (refl, refl, refl) parked)
    ]
