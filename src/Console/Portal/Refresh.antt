-- ===== src/Console/Portal/Refresh.antt =====
-- How often the loop of AetherWebOS/src/kernel/kernel.c draws.
use aether_webos.Prelude.{
  ℕ, ◌+◌, ◌-◌, ◌*◌, ◌^◌, ◌≤◌, ◌<◌, arith, List, [], ◌∷◌, Option, none, some, Bool, Bool-cases, inl,
  inr, ltb, u64,
}
use aether_webos.Kernel.Keys.{KernelMode}
use aether_webos.Console.Portal.{PortalState, Screen, Draw, ui_refresh}

-- What a round of the loop finds: the time, the mode, and the refreshed state.
pub record Round : Type 0 where
  pub current_time : ℕ
  pub current_mode : KernelMode
  pub refreshed : PortalState

abbrev drawn : Option (Bool × Draw) → ℕ
drawn none = 0
drawn (some d) = 1

-- The number of refreshes in a sequence of rounds, and the screen after it.
abbrev pub refreshes : List Round → Screen → ℕ × Screen
refreshes [] s = (0, s)
refreshes (r ∷ rs) s =
    let (s', d) = ui_refresh r.current_time r.current_mode r.refreshed s in
    let (n, last) = refreshes rs s' in (drawn d + n, last)

-- The times do not go back from `start` on, and stay below 2^64.
abbrev pub Ascending : ℕ → List Round → Type 0
Ascending start [] = Unit
Ascending start (r ∷ rs) =
    (start ≤ r.current_time) × (r.current_time < 2 ^ 64) × Ascending r.current_time rs

-- Whatever the modes are in between, a sequence of rounds whose clock does not go back refreshes the
-- screen at most once in 100 milliseconds: `n` refreshes take 100 * n milliseconds at least.
pub refreshes-rate :
    (rs : List Round) (start : ℕ) (s : Screen)
    → s.last_refresh ≤ start
    → Ascending start rs
    → s.last_refresh + 100 * (refreshes rs s).0 ≤ (refreshes rs s).1.last_refresh
unfolding ui_refresh
refreshes-rate [] start s le up = omega arith
refreshes-rate (r ∷ rs) start s le up =
    elim (Bool-cases (ltb (u64 (r.current_time + (2 ^ 64 - s.last_refresh))) 100)) [
      | inl early ↦
          let rest = refreshes-rate rs r.current_time s (omega arith) up.2 in
          rw early (omega (arith, rest))
      | inr due ↦
          let after : Screen = record {
            last_refresh = r.current_time;
            last_mode = some r.current_mode;
            current_state = r.refreshed;
          } in
          let rest = refreshes-rate rs r.current_time after (omega arith) up.2 in
          let late : s.last_refresh + 100 ≤ r.current_time = ground (arith, up) in
          rw due (omega (arith, rest, late))
    ]
