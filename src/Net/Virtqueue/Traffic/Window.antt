-- ===== src/Net/Virtqueue/Traffic/Window.antt =====
-- A window of a ring: the entries that one side has written and the other has not read, at
-- positions that count on without end.
use native.Mathlib.Nat.{mod-add-mod, add-mul-mod_self_left, mod-eq_of_lt, mod-eq-sub-mod, mul_assoc}
use aether_webos.Prelude.{
  ℕ, suc, ◌+◌, ◌-◌, ◌*◌, ◌/◌, ◌%◌, ◌^◌, ◌<◌, ◌≤◌, ◌≡◌, ◌≢◌, arith, sym, ap, ◌∙◌, List, [], ◌∷◌,
  ◌++◌, length, u16,
}
use native.Mathlib.Decide.{dec_lt}
use aether_webos.Net.Virtqueue.{update}
use aether_webos.Net.Virtqueue.FreeList.{update-same, update-ne}

abbrev pub Window : (ℕ → ℕ) → ℕ → ℕ → List ℕ → Type 0
Window ring size g [] = Unit
Window ring size g (i ∷ is) = (ring (g % size) ≡ i) × Window ring size (g + 1) is

-- A counter of 16 bits finds the place if the size divides `2 ^ 16`.
pub u16_mod : (size g : ℕ) → 2 ^ 16 % size ≡ 0 → u16 g % size ≡ g % size
u16_mod size g h =
    let c : ℕ = 65536 / size in
    let q : ℕ = g / 65536 in
    let whole : size * c ≡ 65536 = grind arith in
    let turns : size * (c * q) ≡ 65536 * q =
      sym (mul_assoc size c q) ∙ ap (λ (t : ℕ). t * q) whole in
    let all : g % 65536 + size * (c * q) ≡ g = omega arith in
    sym (add-mul-mod_self_left (g % 65536) size (c * q)) ∙ ap (λ (t : ℕ). t % size) all

pub mod_ne : (size g h : ℕ) → g < h → h < g + size → g % size ≢ h % size
mod_ne size g h lt near e =
    let r : ℕ = g % size in
    let small : r < size = grind arith in
    let moved : (r + (h - g)) % size ≡ r =
      mod-add-mod g size (h - g) ∙ ap (λ (t : ℕ). t % size) (omega arith) ∙ sym e in
    elim (dec_lt (r + (h - g)) size) [
      | yes p ↦ absurd (omega (arith, mod-eq_of_lt p))
      | no p ↦
          let d : ℕ = r + (h - g) - size in
          let back : (r + (h - g)) % size ≡ d % size = mod-eq-sub-mod (omega arith) in
          let at_d : d % size ≡ d = mod-eq_of_lt (omega arith) in absurd (omega arith)
    ]

-- The place behind a window that leaves room can be written.
pub Window-update :
    (ring : ℕ → ℕ) (size g h v : ℕ) (is : List ℕ)
    → g + length is ≤ h
    → h < g + size
    → Window ring size g is
    → Window (update ring (h % size) v) size g is
Window-update ring size g h v [] le near w = tt
Window-update ring size g h v (i ∷ is) le near w = (
  update-ne ring (h % size) (g % size) v (λ e. mod_ne size g h (omega arith) near (sym e)) ∙ w.0,
  Window-update ring size (g + 1) h v is (omega arith) (omega arith) w.1,
)

pub Window-append :
    (ring : ℕ → ℕ) (size g i : ℕ) (is : List ℕ)
    → Window ring size g is
    → ring ((g + length is) % size) ≡ i
    → Window ring size g (is ++ i ∷ [])
Window-append ring size g i [] w e = let here : g + 0 ≡ g = omega arith in (rw here at e, tt)
Window-append ring size g i (j ∷ is) w e =
    let there : g + suc (length is) ≡ g + 1 + length is = omega arith in
    (w.0, Window-append ring size (g + 1) i is w.1 (rw there at e))

-- An entry is written behind the window.
pub Window-write :
    (ring : ℕ → ℕ) (size g i : ℕ) (is : List ℕ)
    → length is < size
    → Window ring size g is
    → Window (update ring ((g + length is) % size) i) size g (is ++ i ∷ [])
Window-write ring size g i is room w =
    Window-append (update ring ((g + length is) % size) i) size g i is
      (Window-update ring size g (g + length is) i is (omega arith) (omega arith) w)
      (update-same ring ((g + length is) % size) i)
