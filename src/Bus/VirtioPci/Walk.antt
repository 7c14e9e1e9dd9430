-- ===== src/Bus/VirtioPci/Walk.antt =====
-- The walk over the capability list in AetherWebOS/src/drivers/virtio/virtio_pci.c, for a device
-- whose configuration space keeps its contents.
use aether_webos.Prelude.{
  ℕ, zero, suc, ◌+◌, ◌*◌, ◌<◌, ◌≡◌, refl, arith, sym, ap, ◌∙◌, List, [], ◌∷◌, some, Bool, true,
  false, not, ◌&&◌, ◌==◌, ltb, length, Bool-cases, Option-cases, inl, inr, bit_and, u8, u64, ◌>>>◌,
}
use aether_webos.Memory.Paging.{pcie_ext_cfg_data, ioremap}
use aether_webos.Bus.{Trace, Answers, mmio_read32}
use aether_webos.Bus.Pcie.{config_offset, pcie_read_config}
use aether_webos.Bus.VirtioPci.{
  Transport, bar_address, store_area, virtio_pci_map_capability, visit, cap_loop,
  virtio_pci_cap_lookup,
}

-- What a register holds, if an address always reads the same.
abbrev pub word : (ℕ → ℕ) → ℕ → ℕ → ℕ → ℕ → ℕ
word cfg bus dev func reg = (pcie_read_config (λ t a. cfg a) bus dev func reg []).0

read-word :
    (device : Answers) (cfg : ℕ → ℕ) (bus dev func reg : ℕ) (t : Trace)
    → ((t' : Trace) (a : ℕ) → device t' a ≡ cfg a)
    → (pcie_read_config device bus dev func reg t).0 ≡ word cfg bus dev func reg
unfolding pcie_read_config mmio_read32
read-word device cfg bus dev func reg t fixed =
    rw (fixed t (pcie_ext_cfg_data + config_offset bus dev func reg)) refl

-- The device stands at this place of the bus.
abbrev At : ℕ → ℕ → ℕ → Transport → Type 0
At bus dev func v = (v.bus ≡ bus) × (v.dev ≡ dev) × (v.func ≡ func)

store_area-At :
    (bus dev func : ℕ) (device : Answers) (type cap_ptr a : ℕ) (v : Transport)
    → At bus dev func v
    → At bus dev func (store_area device type cap_ptr a v)
unfolding store_area
store_area-At bus dev func device type cap_ptr a v h = ground (arith, h)

map_capability-At :
    (bus dev func : ℕ) (device : Answers) (type bar offset size cap_ptr : ℕ) (v : Transport)
    → At bus dev func v
    → At bus dev func (virtio_pci_map_capability device type bar offset size cap_ptr v)
unfolding virtio_pci_map_capability
map_capability-At bus dev func device type bar offset size cap_ptr v h =
    let address = bar_address device v.bus v.dev v.func (0x10 + bar * 4) v.trace in
    let mapped = ioremap (u64 (address.0 + offset)) size v.space in
    elim (Bool-cases (address.0 == 0)) [
      | inl e ↦ rw e h
      | inr e ↦ elim (Option-cases mapped.1) [
        | inl failed ↦ rw (e, failed) h
        | inr (a, got) ↦
            rw (e, got)
              (store_area-At bus dev func device type cap_ptr a
                (record v { trace = address.1; space = mapped.0 }) h)
      ]
    ]

visit-At :
    (bus dev func : ℕ) (device : Answers) (cap_ptr d0 : ℕ) (v : Transport)
    → At bus dev func v
    → At bus dev func (visit device cap_ptr d0 v)
unfolding visit
visit-At bus dev func device cap_ptr d0 v h =
    let d1 = pcie_read_config device v.bus v.dev v.func (cap_ptr + 4) v.trace in
    let offset = pcie_read_config device v.bus v.dev v.func (cap_ptr + 8) d1.1 in
    let size = pcie_read_config device v.bus v.dev v.func (cap_ptr + 12) offset.1 in
    elim (Bool-cases (u8 (bit_and d0 0xFF) == 0x09)) [
      | inl e ↦ rw e (
          map_capability-At bus dev func device (bit_and (d0 >>> 24) 0xFF) (bit_and d1.0 0xFF)
            offset.0 size.0 cap_ptr (record v { trace = size.1 }) h)
      | inr e ↦ rw e h
    ]

abbrev is_cap : ℕ → Bool
is_cap cap_ptr = not (cap_ptr == 0) && ltb cap_ptr 0xFF

abbrev pub next_cap : (ℕ → ℕ) → ℕ → ℕ → ℕ → ℕ → ℕ
next_cap cfg bus dev func cap_ptr = u8 (bit_and (word cfg bus dev func cap_ptr >>> 8) 0xFF)

-- The capabilities that are linked from `cap_ptr` on, up to a pointer of 0 or 255.
abbrev pub Caps : (ℕ → ℕ) → ℕ → ℕ → ℕ → ℕ → List ℕ → Type 0
Caps cfg bus dev func cap_ptr [] = is_cap cap_ptr ≡ false
Caps cfg bus dev func cap_ptr (i ∷ is) =
    (is_cap cap_ptr ≡ true)
    × (cap_ptr ≡ i)
    × Caps cfg bus dev func (next_cap cfg bus dev func cap_ptr) is

-- Each capability of a list visited once, in order.
abbrev pub visit_all : Answers → List ℕ → Transport → Transport
visit_all device [] v = v
visit_all device (i ∷ is) v =
    let (d0, t) = pcie_read_config device v.bus v.dev v.func i v.trace in
    visit_all device is (visit device i d0 (record v { trace = t }))

cap_loop-Caps :
    (device : Answers) (cfg : ℕ → ℕ) (bus dev func cap_ptr : ℕ) (is : List ℕ) (fuel : ℕ)
    (v : Transport)
    → ((t : Trace) (a : ℕ) → device t a ≡ cfg a)
    → At bus dev func v
    → Caps cfg bus dev func cap_ptr is
    → length is < fuel
    → cap_loop fuel device cap_ptr v ≡ some (visit_all device is v)
unfolding cap_loop
cap_loop-Caps device cfg bus dev func cap_ptr is zero v fixed h caps enough = absurd (omega arith)
cap_loop-Caps device cfg bus dev func cap_ptr [] (suc fuel) v fixed h caps enough =
    rw (caps, cap_loop) refl
cap_loop-Caps device cfg bus dev func cap_ptr (i ∷ is) (suc fuel) v fixed h caps enough =
    let d0 = pcie_read_config device v.bus v.dev v.func cap_ptr v.trace in
    let w = visit device cap_ptr d0.0 (record v { trace = d0.1 }) in
    let same : next_cap cfg bus dev func cap_ptr ≡ u8 (bit_and (d0.0 >>> 8) 0xFF) = sym (
      ap (λ (x : ℕ). u8 (bit_and (x >>> 8) 0xFF))
        (read-word device cfg v.bus v.dev v.func cap_ptr v.trace fixed ∙ at_home)) in
    let rest : Caps cfg bus dev func (u8 (bit_and (d0.0 >>> 8) 0xFF)) is = rw same at caps.2 in
    rw (caps.0, cap_loop)
      (cap_loop-Caps device cfg bus dev func (u8 (bit_and (d0.0 >>> 8) 0xFF)) is fuel w fixed
          (visit-At bus dev func device cap_ptr d0.0 (record v { trace = d0.1 }) h) rest
          (omega arith)
        ∙ rw caps.1 refl)
  where
    at_home : word cfg v.bus v.dev v.func cap_ptr ≡ word cfg bus dev func cap_ptr
    at_home = rw (h.0, h.1, h.2) refl

ended-Caps :
    (device : Answers) (cfg : ℕ → ℕ) (bus dev func : ℕ) (fuel cap_ptr : ℕ) (v w : Transport)
    → ((t : Trace) (a : ℕ) → device t a ≡ cfg a)
    → At bus dev func v
    → cap_loop fuel device cap_ptr v ≡ some w
    → (is : List ℕ) × (length is < fuel) × Caps cfg bus dev func cap_ptr is
unfolding cap_loop
ended-Caps device cfg bus dev func zero cap_ptr v w fixed h e = absurd (ground arith)
ended-Caps device cfg bus dev func (suc fuel) cap_ptr v w fixed h e =
    elim (Bool-cases (is_cap cap_ptr)) [
      | inl valid ↦
          let (is, short, caps) =
            ended-Caps device cfg bus dev func fuel (u8 (bit_and (d0.0 >>> 8) 0xFF)) next w fixed
              (visit-At bus dev func device cap_ptr d0.0 (record v { trace = d0.1 }) h)
              (rw (valid, cap_loop) at e) in
          (cap_ptr ∷ is, omega arith, (valid, refl, rw same at caps))
      | inr last ↦ ([], omega arith, last)
    ]
  where
    d0 : ℕ × Trace
    d0 = pcie_read_config device v.bus v.dev v.func cap_ptr v.trace

    next : Transport
    next = visit device cap_ptr d0.0 (record v { trace = d0.1 })

    same : u8 (bit_and (d0.0 >>> 8) 0xFF) ≡ next_cap cfg bus dev func cap_ptr
    same =
        ap (λ (x : ℕ). u8 (bit_and (x >>> 8) 0xFF))
          (read-word device cfg v.bus v.dev v.func cap_ptr v.trace fixed ∙ rw (h.0, h.1, h.2) refl)

-- For a device whose configuration space keeps its contents, `virtio_pci_cap_lookup` ends exactly
-- if its capability list ends; it then visits each capability of the list once, in order, and
-- takes a round for each and one more. On a list that loops it never ends.
pub cap_lookup_iff :
    (device : Answers) (cfg : ℕ → ℕ) (v : Transport)
    → ((t : Trace) (a : ℕ) → device t a ≡ cfg a)
    → let head = u8 (bit_and (word cfg v.bus v.dev v.func 0x34) 0xFF) in
      let start = record v {
        trace = (pcie_read_config device v.bus v.dev v.func 0x34 v.trace).1;
      } in
      ((is : List ℕ) (fuel : ℕ)
        → Caps cfg v.bus v.dev v.func head is
        → length is < fuel
        → virtio_pci_cap_lookup fuel device v ≡ some (visit_all device is start))
      × ((fuel : ℕ) (w : Transport)
          → virtio_pci_cap_lookup fuel device v ≡ some w
          → (is : List ℕ) × (length is < fuel) × Caps cfg v.bus v.dev v.func head is)
unfolding virtio_pci_cap_lookup
cap_lookup_iff device cfg v fixed =
    let same = read-word device cfg v.bus v.dev v.func 0x34 v.trace fixed in
    let start = record v { trace = (pcie_read_config device v.bus v.dev v.func 0x34 v.trace).1 } in
    let head = u8 (bit_and (word cfg v.bus v.dev v.func 0x34) 0xFF) in
    (
      λ is fuel caps enough. rw same (
          cap_loop-Caps device cfg v.bus v.dev v.func head is fuel start fixed (refl, refl, refl)
            caps enough),
      λ fuel w e.
          ended-Caps device cfg v.bus v.dev v.func fuel head start w fixed (refl, refl, refl)
            (rw same at e),
    )
