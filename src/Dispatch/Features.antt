-- ===== src/Dispatch/Features.antt =====
-- The features of a hart as a caller sees them, through the dispatch.
use rustsbi.Base.{ℕ, ◌^◌, ◌≤◌, ◌<◌, ◌≡◌, ◌⊎◌, true, some, arith, ltb}
use rustsbi.Spec.Ret.{success}
use rustsbi.Fwft.{Hart, Features, fwft_set, fwft_get, menvcfg_bit}
use rustsbi.Fwft.Settings.{fwft_get-fwft_set}
use rustsbi.Dispatch.{Fwft, Params, rustsbi_fwft, as_u32}

-- `SbiFwft` as an implementation of the trait.
abbrev pub sbi_fwft : Hart → Fwft Features
sbi_fwft h = record {
  set_feature = λ s f value flags. fwft_set h s f value flags;
  get_feature = λ s f. fwft_get h s f;
}

small_feature : (f place : ℕ) → menvcfg_bit f ≡ some place → ltb f (2 ^ 32) ≡ true
unfolding menvcfg_bit
small_feature f place e = ground (arith, e)

-- A set call for a feature of one bit that asks for 1 and succeeds is followed by a get call that
-- answers 1 and leaves the state as it is, on a hart that keeps the values it has once kept.
pub rustsbi_fwft-roundtrip :
    (h : Hart) (s s' : Features) (param : Params) (place : ℕ)
    → ((x : ℕ) → h.legal (h.legal x) ≡ h.legal x)
    → menvcfg_bit (param 0) ≡ some place
    → param 1 ≡ 1
    → param 2 ≡ 0
    → rustsbi_fwft (sbi_fwft h) s param 0 ≡ (s', success 0)
    → rustsbi_fwft (sbi_fwft h) s' param 1 ≡ (s', success 1)
unfolding rustsbi_fwft as_u32
rustsbi_fwft-roundtrip h s s' param place stable e asked flagless done =
    let fits = small_feature (param 0) place e in
    let called : fwft_set h s (param 0) (param 1) (param 2) ≡ (s', success 0) =
      rw (rustsbi_fwft, as_u32, fits) at done in
    let called' : fwft_set h s (param 0) 1 0 ≡ (s', success 0) = rw (asked, flagless) at called in
    rw (rustsbi_fwft, as_u32, fits) (fwft_get-fwft_set h s s' (param 0) place e stable called')

-- No call with a feature word past 32 bits or a function number past 1 changes the state.
pub rustsbi_fwft_keeps :
    (h : Hart) (s : Features) (param : Params) (function : ℕ)
    → (2 ^ 32 ≤ param 0) ⊎ (1 < function)
    → (rustsbi_fwft (sbi_fwft h) s param function).0 ≡ s
unfolding rustsbi_fwft as_u32
rustsbi_fwft_keeps h s param function bad = ground arith
