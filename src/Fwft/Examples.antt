-- ===== src/Fwft/Examples.antt =====
-- A hart that keeps no bit of the register.
use rustsbi.Base.{◌≡◌, refl, true, false, some}
use rustsbi.Base.Words.{bit-zero}
use rustsbi.Spec.Ret.{success, from_error, not_supported}
use rustsbi.Fwft.{Hart, Features, menvcfg_bit, fwft_set, fwft_get, shadow_stack}
use rustsbi.Fwft.Settings.{fwft_set_accepts_absent}

abbrev bare : Hart
bare = record { has_s_mode = true; has_menvcfg = true; legal = λ x. 0 }

abbrev reset : Features
reset = record { menvcfg = 1; misaligned_delegated = false }

shadow_stack_bit : menvcfg_bit shadow_stack ≡ some 8
unfolding menvcfg_bit
shadow_stack_bit = refl

fwft_set_accepts_absent_example :
    ((fwft_set bare reset shadow_stack 0 0).1 ≡ success 0)
    × ((fwft_get bare reset shadow_stack).1 ≡ from_error not_supported)
fwft_set_accepts_absent_example =
    fwft_set_accepts_absent bare reset shadow_stack 8 shadow_stack_bit refl (λ x. bit-zero 8)
