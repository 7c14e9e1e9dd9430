-- ===== src/Tests/Kernel.antt =====
-- The input handling of AetherWebOS/src/kernel/kernel.c on concrete inputs.
use aether_webos.Prelude.{◌<◌, ◌^◌, ◌≡◌, refl, arith, [], ◌∷◌, inr, false}
use aether_webos.Kernel.Keys.{KernelMode, Console, esc, select_mode, type_keys}
use aether_webos.Kernel.Keys.Sequence.{decimal_from, type_keys-aborted}

abbrev at_rest : Console
at_rest = record {
  esc_state = 0;
  num = 0;
  overflown = false;
  current_mode = KernelMode.mode_portal;
}

one_then_eighteen : decimal_from (decimal_from 0 (b'1' ∷ [])) (b'1' ∷ b'8' ∷ []) < 2 ^ 31
unfolding decimal_from
one_then_eighteen = omega arith

-- `ESC [ 1 ;`, and then F7
type_keys-aborted_example :
    type_keys (esc ∷ b'[' ∷ b'1' ∷ b';' ∷ esc ∷ b'[' ∷ b'1' ∷ b'8' ∷ b'~' ∷ []) at_rest ≡ record {
      esc_state = 0;
      num = 0;
      overflown = false;
      current_mode =
          select_mode
            (decimal_from (decimal_from 0 (b'1' ∷ [])) (b'1' ∷ b'8' ∷ []))
            KernelMode.mode_portal;
    }
type_keys-aborted_example =
    type_keys-aborted (b'1' ∷ []) (b'1' ∷ b'8' ∷ []) b';' at_rest (omega arith) (omega arith) refl
      (inr (omega arith), (λ e. absurd (omega arith)), λ e. absurd (omega arith)) one_then_eighteen
