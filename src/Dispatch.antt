-- ===== src/Dispatch.antt =====
-- library/rustsbi/src/traits.rs at 64 bits: the dispatch of a call's function number and six
-- parameter words to the operations of an extension. The traits are records of operations over
-- the state `S` of whoever implements them.
pub mod Features
mod Examples
use rustsbi.Base.{
  ℕ, zero, suc, ◌+◌, ◌-◌, ◌*◌, ◌/◌, ◌%◌, ◌^◌, ◌≤◌, ◌<◌, min, max, bit_and, bit_or, ◌≡◌, refl, sym,
  ap, ◌∙◌, subst, ◌≢◌, ◌↔◌, ◌⊎◌, inl, inr, Bool, true, false, not, ◌&&◌, ◌||◌, Option, none, some,
  List, [], ◌∷◌, ◌++◌, map, arith, ltb, leb, ◌==◌, if◌then◌else◌, ltb→lt, leb→le, ==_iff,
  Bool-cases, Option-cases, length, get_elem?, set, All, length-append, length-map, All-append,
  elem,
}
use rustsbi.Spec.Ret.{SbiRet, success, from_error, invalid_param, not_supported}
use rustsbi.Spec.HartMask.{HartMask, from_mask_base}

-- The parameter words by index.
abbrev pub Params : Type 0
Params = ℕ → ℕ

pub record Hsm (S : Type 0) : Type 0 where
  pub hart_start : S → ℕ → ℕ → ℕ → S × SbiRet
  pub hart_stop : S → S × SbiRet
  pub hart_get_status : S → ℕ → S × SbiRet
  pub hart_suspend : S → ℕ → ℕ → ℕ → S × SbiRet

pub record Fence (S : Type 0) : Type 0 where
  pub remote_fence_i : S → HartMask → S × SbiRet
  pub remote_sfence_vma : S → HartMask → ℕ → ℕ → S × SbiRet
  pub remote_sfence_vma_asid : S → HartMask → ℕ → ℕ → ℕ → S × SbiRet
  pub remote_hfence_gvma_vmid : S → HartMask → ℕ → ℕ → ℕ → S × SbiRet
  pub remote_hfence_gvma : S → HartMask → ℕ → ℕ → S × SbiRet
  pub remote_hfence_vvma_asid : S → HartMask → ℕ → ℕ → ℕ → S × SbiRet
  pub remote_hfence_vvma : S → HartMask → ℕ → ℕ → S × SbiRet

pub record Cppc (S : Type 0) : Type 0 where
  pub probe : S → ℕ → S × SbiRet
  pub read : S → ℕ → S × SbiRet
  pub read_hi : S → ℕ → S × SbiRet
  pub write : S → ℕ → ℕ → S × SbiRet

pub record Fwft (S : Type 0) : Type 0 where
  pub set_feature : S → ℕ → ℕ → ℕ → S × SbiRet
  pub get_feature : S → ℕ → S × SbiRet

module _ {S : Type 0} where
  -- `u32::try_from(word)`, with the refusal of a word that does not fit.
  unfoldable pub as_u32 : S → ℕ → (ℕ → S × SbiRet) → S × SbiRet
  as_u32 s word call = if ltb word (2 ^ 32) then call word else (s, from_error invalid_param)

  abbrev pub unknown : S → S × SbiRet
  unknown s = (s, from_error not_supported)

  unfoldable pub rustsbi_timer : (S → ℕ → S) → S → Params → ℕ → S × SbiRet
  rustsbi_timer set_timer s param function =
      if function == 0 then (set_timer s (param 0), success 0) else unknown s

  unfoldable pub rustsbi_ipi : (S → HartMask → S × SbiRet) → S → Params → ℕ → S × SbiRet
  rustsbi_ipi send_ipi s param function =
      if function == 0 then send_ipi s (from_mask_base (param 0) (param 1)) else unknown s

  unfoldable pub rustsbi_fence : Fence S → S → Params → ℕ → S × SbiRet
  rustsbi_fence t s param function =
      let m = from_mask_base (param 0) (param 1) in
      if function == 0
      then t.remote_fence_i s m
      else if function == 1
      then t.remote_sfence_vma s m (param 2) (param 3)
      else if function == 2
      then t.remote_sfence_vma_asid s m (param 2) (param 3) (param 4)
      else if function == 3
      then t.remote_hfence_gvma_vmid s m (param 2) (param 3) (param 4)
      else if function == 4
      then t.remote_hfence_gvma s m (param 2) (param 3)
      else if function == 5
      then t.remote_hfence_vvma_asid s m (param 2) (param 3) (param 4)
      else if function == 6
      then t.remote_hfence_vvma s m (param 2) (param 3)
      else unknown s

  unfoldable pub rustsbi_hsm : Hsm S → S → Params → ℕ → S × SbiRet
  rustsbi_hsm t s param function =
      if function == 0
      then t.hart_start s (param 0) (param 1) (param 2)
      else if function == 1
      then t.hart_stop s
      else if function == 2
      then t.hart_get_status s (param 0)
      else if function == 3
      then as_u32 s (param 0) (λ suspend_type. t.hart_suspend s suspend_type (param 1) (param 2))
      else unknown s

  unfoldable pub rustsbi_reset : (S → ℕ → ℕ → S × SbiRet) → S → Params → ℕ → S × SbiRet
  rustsbi_reset system_reset s param function =
      if function == 0
      then as_u32 s (param 0) (λ reset_type.
        as_u32 s (param 1) (λ reset_reason. system_reset s reset_type reset_reason))
      else unknown s

  unfoldable pub rustsbi_susp : (S → ℕ → ℕ → ℕ → S × SbiRet) → S → Params → ℕ → S × SbiRet
  rustsbi_susp system_suspend s param function =
      if function == 0
      then as_u32 s (param 0) (λ sleep_type. system_suspend s sleep_type (param 1) (param 2))
      else unknown s

  unfoldable pub rustsbi_cppc : Cppc S → S → Params → ℕ → S × SbiRet
  rustsbi_cppc t s param function =
      if function == 0
      then as_u32 s (param 0) (λ reg_id. t.probe s reg_id)
      else if function == 1
      then as_u32 s (param 0) (λ reg_id. t.read s reg_id)
      else if function == 2
      then as_u32 s (param 0) (λ reg_id. t.read_hi s reg_id)
      else if function == 3
      then as_u32 s (param 0) (λ reg_id. t.write s reg_id (param 1))
      else unknown s

  unfoldable pub rustsbi_fwft : Fwft S → S → Params → ℕ → S × SbiRet
  rustsbi_fwft t s param function =
      if function == 0
      then as_u32 s (param 0) (λ feature_id. t.set_feature s feature_id (param 1) (param 2))
      else if function == 1
      then as_u32 s (param 0) (λ feature_id. t.get_feature s feature_id)
      else unknown s
