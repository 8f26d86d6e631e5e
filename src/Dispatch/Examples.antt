-- ===== src/Dispatch/Examples.antt =====
-- A call that sets the shadow stack feature to 1, on a hart that keeps every bit.
use rustsbi.Base.{◌≡◌, refl, true, false, some, ◌==◌, if◌then◌else◌}
use rustsbi.Spec.Ret.{success}
use rustsbi.Fwft.{
  Hart, Features, menvcfg_bit, menvcfg_read, menvcfg_write, write_checked, set_menvcfg_bit,
  fwft_set,
}
use rustsbi.Dispatch.{Params, rustsbi_fwft, as_u32}
use rustsbi.Dispatch.Features.{sbi_fwft, rustsbi_fwft-roundtrip}

abbrev full : Hart
full = record { has_s_mode = true; has_menvcfg = true; legal = λ x. x }

abbrev reset : Features
reset = record { menvcfg = 1; misaligned_delegated = false }

abbrev stacked : Features
stacked = record { menvcfg = 257; misaligned_delegated = false }

abbrev params : Params
params i = if i == 0 then 2 else if i == 1 then 1 else 0

shadow_stack_bit : menvcfg_bit (params 0) ≡ some 8
unfolding menvcfg_bit
shadow_stack_bit = refl

stack_set : rustsbi_fwft (sbi_fwft full) reset params 0 ≡ (stacked, success 0)
unfolding rustsbi_fwft as_u32 fwft_set menvcfg_bit set_menvcfg_bit write_checked menvcfg_read
    menvcfg_write
stack_set = refl

rustsbi_fwft-roundtrip_example :
    rustsbi_fwft (sbi_fwft full) stacked params 1 ≡ (stacked, success 1)
rustsbi_fwft-roundtrip_example =
    rustsbi_fwft-roundtrip full reset stacked params 8 (λ x. refl) shadow_stack_bit refl refl
      stack_set
