-- ===== src/Interrupts/Gic/Delivery.antt =====
-- `gic_init` of AetherWebOS/src/kernel/gic.c leaves the controller such that the timer's interrupt
-- reaches the processor.
use aether_webos.Prelude.{
  ℕ, zero, suc, ◌+◌, ◌%◌, ◌^◌, ◌<◌, ◌≡◌, ◌≢◌, refl, arith, sym, ap, ◌∙◌, [], ◌∷◌, Option, none,
  some, true, ◌||◌, not, ◌==◌, if◌then◌else◌, bit_and, bit_or, bit_at, bit_at-or, bit_at-and,
  Bool-cases, Option-cases, inl, inr, u64, ◌<<<◌, ◌>>>◌,
}
use aether_webos.Interrupts.{Register, Event, History, Board, load_word, read_register}
use aether_webos.Interrupts.Gic.{
  gic_dist_base, complement32, find_frame, wait_awake, wake, configure, open_interface, gic_init,
}

-- The last value stored at an address, and the last one loaded from it.
abbrev pub stored : ℕ → History → Option ℕ
stored addr [] = none
stored addr (Event.store a val ∷ h) =
    let before = stored addr h in if a == addr then some val else before
stored addr (_ ∷ h) = stored addr h

abbrev pub loaded : ℕ → History → Option ℕ
loaded addr [] = none
loaded addr (Event.load a val ∷ h) =
    let before = loaded addr h in if a == addr then some val else before
loaded addr (_ ∷ h) = loaded addr h

-- The processor's priority mask, and whether it takes interrupts of group 1.
abbrev pub mask : History → Option ℕ
mask [] = none
mask (Event.msr Register.icc_pmr_el1 val ∷ h) = some val
mask (_ ∷ h) = mask h

abbrev pub group_enable : History → Option ℕ
group_enable [] = none
group_enable (Event.msr Register.icc_igrpen1_el1 val ∷ h) = some val
group_enable (_ ∷ h) = group_enable h

-- There is such a value, and it has the property.
abbrev pub Last : (ℕ → Type 0) → Option ℕ → Type 0
Last P o = (v : ℕ) × (o ≡ some v) × P v

-- The frame of a processor: it is its own, or the last.
abbrev pub Ends : ℕ → ℕ → Type 0
Ends aff typer = ((typer >>> 32 == aff) || not (bit_and typer 16 == 0)) ≡ true

configure-timer :
    (b : Board) (sgi : ℕ) (h : History)
    → let h' : History = configure b sgi h in
      Last (λ v. bit_at 30 v ≡ 1) (stored (sgi + 0x080) h')
      × Last (λ v. bit_at 30 v ≡ 0) (stored (sgi + 0x088) h')
      × Last (λ v. bit_at 29 v ≡ 1) (stored (sgi + 0xC04) h')
      × (stored (sgi + 0x41E) h' ≡ some 0xA0)
      × (stored (sgi + 0x100) h' ≡ some (2 ^ 30))
unfolding configure load_word
configure-timer b sgi h =
    let group : ℕ = b.memory h (sgi + 0x080) % 2 ^ 32 in
    let set : ℕ = bit_or group (2 ^ 30) in
    let h2 : History = Event.store (sgi + 0x080) set ∷ Event.load (sgi + 0x080) group ∷ h in
    let modifier : ℕ = b.memory h2 (sgi + 0x088) % 2 ^ 32 in
    let cleared : ℕ = bit_and modifier (complement32 (2 ^ 30)) in
    let h5 : History =
      Event.store (sgi + 0x400 + 30) 0xA0
      ∷ Event.store (sgi + 0x088) cleared
      ∷ Event.load (sgi + 0x088) modifier
      ∷ h2 in
    let trigger : ℕ = b.memory h5 (sgi + 0xC04) % 2 ^ 32 in
    (
      (set, ground arith, bit_at-or 30 group (2 ^ 30) refl),
      (cleared, ground arith, bit_at-and 30 modifier (complement32 (2 ^ 30)) refl),
      (bit_or trigger (2 <<< 28), ground arith, bit_at-or 29 trigger (2 <<< 28) refl),
      ground arith,
      ground arith,
    )

-- The affinity that the processor reported.
abbrev pub affinity : History → Option ℕ
affinity [] = none
affinity (Event.mrs Register.mpidr_el1 val ∷ h) = some (bit_and val 0xFFFFFF)
affinity (_ ∷ h) = affinity h

find_frame-Ends :
    (fuel : ℕ) (b : Board) (aff base : ℕ) (h : History) (r : ℕ) (h' : History)
    → find_frame fuel b aff base h ≡ some (r, h')
    → Last (Ends aff) (loaded (r + 0x08) h') × (affinity h' ≡ affinity h)
unfolding find_frame load_word
find_frame-Ends zero b aff base h r h' e = absurd (ground (arith, e))
find_frame-Ends (suc fuel) b aff base h r h' e =
    let typer : ℕ = b.memory h (base + 0x08) % 2 ^ 64 in
    elim (Bool-cases ((typer >>> 32 == aff) || not (bit_and typer 16 == 0))) [
      | inl found ↦
          let parts : (base ≡ r) × (Event.load (base + 0x08) typer ∷ h ≡ h') =
            ground (arith, rw (found, find_frame) at e) in
          rw (sym parts.0, sym parts.1) ((typer, ground arith, found), refl)
      | inr next ↦
          find_frame-Ends fuel b aff (u64 (base + 0x20000)) (Event.load (base + 0x08) typer ∷ h) r
            h' (rw (next, find_frame) at e)
    ]

-- The wait changes only what was loaded from the register that it waits on.
wait_awake-Last :
    (fuel : ℕ) (b : Board) (waker : ℕ) (h h' : History)
    → wait_awake fuel b waker h ≡ some h'
    → Last (λ v. bit_and v 4 ≡ 0) (loaded waker h')
      × (affinity h' ≡ affinity h)
      × ((addr : ℕ) → stored addr h' ≡ stored addr h)
      × ((addr : ℕ) → waker ≢ addr → loaded addr h' ≡ loaded addr h)
unfolding wait_awake load_word
wait_awake-Last zero b waker h h' e = absurd (ground (arith, e))
wait_awake-Last (suc fuel) b waker h h' e =
    let val : ℕ = b.memory h waker % 2 ^ 32 in
    let seen : History = Event.load waker val ∷ h in
    elim (Bool-cases (bit_and val 4 == 0)) [
      | inl awake ↦
          let same : seen ≡ h' = ground (arith, rw (awake, wait_awake) at e) in
          rw (sym same) (
            (val, ground arith, ground (arith, awake)),
            refl,
            λ addr. refl,
            λ addr other. ground (arith, other),
          )
      | inr asleep ↦
          let (last, aff, kept, others) =
            wait_awake-Last fuel b waker seen h' (rw (asleep, wait_awake) at e) in
          (last, aff, kept, λ addr other. others addr other ∙ ground (arith, other))
    ]

wake-Last :
    (fuel : ℕ) (b : Board) (base : ℕ) (h h' : History)
    → wake fuel b base h ≡ some h'
    → Last (λ v. bit_and v 4 ≡ 0) (loaded (base + 0x14) h')
      × Last (λ v. bit_at 1 v ≡ 0) (stored (base + 0x14) h')
      × (affinity h' ≡ affinity h)
      × (loaded (base + 0x08) h' ≡ loaded (base + 0x08) h)
unfolding wake load_word
wake-Last fuel b base h h' e =
    let val : ℕ = b.memory h (base + 0x14) % 2 ^ 32 in
    let written : ℕ = bit_and val (complement32 2) in
    let woken : History = Event.store (base + 0x14) written ∷ Event.load (base + 0x14) val ∷ h in
    let (last, aff, kept, others) = wait_awake-Last fuel b (base + 0x14) woken h' e in
    (
      last,
      (written, kept (base + 0x14) ∙ ground arith, bit_at-and 1 val (complement32 2) refl),
      aff,
      others (base + 0x08) (omega arith) ∙ ground arith,
    )

-- What the controller has to be told for the timer's interrupt to reach the processor. The frame
-- at `base` is the processor's own or the last; its second half starts at `base + 0x10000`.
pub record Delivers (base : ℕ) (h : History) : Type 0 where
  pub own_frame : (aff : ℕ) × (affinity h ≡ some aff) × Last (Ends aff) (loaded (base + 0x08) h)
  pub not_asleep : Last (λ v. bit_at 1 v ≡ 0) (stored (base + 0x14) h)
  pub children_awake : Last (λ v. bit_and v 4 ≡ 0) (loaded (base + 0x14) h)
  pub group_one : Last (λ v. bit_at 30 v ≡ 1) (stored (base + 0x10080) h)
  pub non_secure : Last (λ v. bit_at 30 v ≡ 0) (stored (base + 0x10088) h)
  pub edge : Last (λ v. bit_at 29 v ≡ 1) (stored (base + 0x10C04) h)
  pub enabled : stored (base + 0x10100) h ≡ some (2 ^ 30)
  pub urgent : (m : ℕ) × (mask h ≡ some m) × Last (λ p. p < m) (stored (base + 0x1041E) h)
  pub taken : group_enable h ≡ some 1

-- The interface of the processor changes nothing in the frame.
interface-Last :
    (b : Board) (h : History)
    → ((addr : ℕ) → stored addr (open_interface b h) ≡ stored addr h)
      × ((addr : ℕ) → loaded addr (open_interface b h) ≡ loaded addr h)
      × (affinity (open_interface b h) ≡ affinity h)
      × (mask (open_interface b h) ≡ some 0xFF)
      × (group_enable (open_interface b h) ≡ some 1)
unfolding open_interface read_register
interface-Last b h = (λ addr. refl, λ addr. refl, refl, refl, refl)

configure-rest :
    (b : Board) (base : ℕ) (h : History)
    → let h' : History = configure b (base + 0x10000) h in
      (stored (base + 0x14) h' ≡ stored (base + 0x14) h)
      × (loaded (base + 0x14) h' ≡ loaded (base + 0x14) h)
      × (loaded (base + 0x08) h' ≡ loaded (base + 0x08) h)
      × (affinity h' ≡ affinity h)
unfolding configure load_word
configure-rest b base h = ground arith

Last-same : (P : ℕ → Type 0) (o o' : Option ℕ) → o' ≡ o → Last P o → Last P o'
Last-same P o o' e (v, found, holds) = (v, e ∙ found, holds)

-- Behind `wake`.
finish-Delivers :
    (b : Board) (base aff : ℕ) (h : History)
    → affinity h ≡ some aff
    → Last (Ends aff) (loaded (base + 0x08) h)
    → Last (λ v. bit_and v 4 ≡ 0) (loaded (base + 0x14) h)
    → Last (λ v. bit_at 1 v ≡ 0) (stored (base + 0x14) h)
    → Delivers base (open_interface b (configure b (base + 0x10000) h))
finish-Delivers b base aff h own frame awake woken =
    let h1 : History = configure b (base + 0x10000) h in
    let (st, ld, af, ma, ge) = interface-Last b h1 in
    let (waker, children, typer, same_aff) = configure-rest b base h in
    let (group, modifier, trigger, prio, enable) = configure-timer b (base + 0x10000) h in
    let at : (k : ℕ)
        → stored (base + (0x10000 + k)) (open_interface b h1) ≡ stored (base + 0x10000 + k) h1 =
      λ k. st (base + (0x10000 + k)) ∙ ap (λ (a : ℕ). stored a h1) (omega arith) in
    record {
      own_frame = (aff, af ∙ same_aff ∙ own, Last-same _ _ _ (ld (base + 0x08) ∙ typer) frame);
      not_asleep = Last-same _ _ _ (st (base + 0x14) ∙ waker) woken;
      children_awake = Last-same _ _ _ (ld (base + 0x14) ∙ children) awake;
      group_one = Last-same _ _ _ (at 0x80) group;
      non_secure = Last-same _ _ _ (at 0x88) modifier;
      edge = Last-same _ _ _ (at 0xC04) trigger;
      enabled = at 0x100 ∙ enable;
      urgent = (0xFF, ma, (0xA0, at 0x41E ∙ prio, omega arith));
      taken = ge;
    }

-- Whatever the board answers: when `gic_init` returns, with the redistributor at `base`, that frame
-- is the one of the processor's affinity or the last; it was told to wake and its children reported
-- awake; the timer's interrupt is in group 1, not secure, edge-triggered and enabled, with a priority
-- that the processor's mask lets pass; and the processor takes interrupts of group 1.
pub gic_init-Delivers :
    (fuel : ℕ) (b : Board) (h : History) (base : ℕ) (h' : History)
    → gic_init fuel b h ≡ some (base, h')
    → Delivers base h'
unfolding gic_init read_register
gic_init-Delivers fuel b h base h' e =
    let enabled : History = Event.store gic_dist_base 0x33 ∷ h in
    let mpidr : ℕ = u64 (b.registers enabled Register.mpidr_el1) in
    let aff : ℕ = bit_and mpidr 0xFFFFFF in
    let h1 : History = Event.mrs Register.mpidr_el1 mpidr ∷ enabled in
    elim (Option-cases (find_frame fuel b aff (gic_dist_base + 0xA0000) h1)) [
      | inl lost ↦ absurd (ground (arith, rw (lost, gic_init) at e))
      | inr ((r, h2), found) ↦ elim (Option-cases (wake fuel b r h2)) [
        | inl stuck ↦ absurd (ground (arith, rw (found, gic_init, stuck) at e))
        | inr (h3, woken) ↦
            let parts : (r ≡ base) × (open_interface b (configure b (r + 0x10000) h3) ≡ h') =
              ground (arith, rw (found, gic_init, woken) at e) in
            let (frame, own) = find_frame-Ends fuel b aff (gic_dist_base + 0xA0000) h1 r h2 found in
            let (children, waker, kept, typer) = wake-Last fuel b r h2 h3 woken in
            rw (sym parts.0, sym parts.1)
              (finish-Delivers b r aff h3 (kept ∙ own) (Last-same _ _ _ typer frame) children waker)
      ]
    ]
