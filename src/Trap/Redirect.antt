-- ===== src/Trap/Redirect.antt =====
-- firmware/runtime/src/trap/redirect.rs: a trap forwarded to the supervisor. `mstatus` is a word;
-- `sstatus` is the hardware's view of some of its bits, given by what reading and writing it does.
use rustsbi.Base.{
  ℕ, zero, suc, ◌+◌, ◌-◌, ◌*◌, ◌/◌, ◌%◌, ◌^◌, ◌≤◌, ◌<◌, min, max, bit_and, bit_or, ◌≡◌, refl, sym,
  ap, ◌∙◌, subst, ◌≢◌, ◌↔◌, ◌⊎◌, inl, inr, Bool, true, false, not, ◌&&◌, ◌||◌, Option, none, some,
  List, [], ◌∷◌, ◌++◌, map, arith, ltb, leb, ◌==◌, if◌then◌else◌, ltb→lt, leb→le, ==_iff,
  Bool-cases, Option-cases, length, get_elem?, set, All, length-append, length-map, All-append,
  elem,
}
use rustsbi.Base.Words.{not_word}
use rustsbi.Trap.{Csrs}
pub mod Delivery

pub record StatusView : Type 0 where
  pub read : ℕ → ℕ
  pub write : ℕ → ℕ → ℕ

-- A field of `k` values in a word, from the bit of weight `p` on.
abbrev pub field : ℕ → ℕ → ℕ → ℕ
field p k x = x / p % k

abbrev pub set_field : ℕ → ℕ → ℕ → ℕ → ℕ
set_field p k v x = x - x / p % k * p + v * p

abbrev pub weight_sie : ℕ
weight_sie = 2 ^ 1

abbrev pub weight_spie : ℕ
weight_spie = 2 ^ 5

abbrev pub weight_mpie : ℕ
weight_mpie = 2 ^ 7

abbrev pub weight_spp : ℕ
weight_spp = 2 ^ 8

abbrev pub weight_mpp : ℕ
weight_mpp = 2 ^ 11

-- The privilege modes, as `mpp` encodes them.
abbrev pub user : ℕ
user = 0

abbrev pub supervisor : ℕ
supervisor = 1

abbrev pub machine : ℕ
machine = 3

abbrev pub mpp_of : ℕ → ℕ
mpp_of = field weight_mpp 4

-- `stvec::read().address()`.
abbrev pub address : ℕ → ℕ
address stvec = stvec / 4 * 4

-- The new `sstatus`: `spie` gets `sie`, which is cleared.
unfoldable pub entered_status : ℕ → ℕ
entered_status bits =
    bit_or (bit_and bits (not_word 64 (bit_or weight_sie weight_spie)))
      (bit_and bits weight_sie * 2 ^ 4 % 2 ^ 64)

abbrev pub set_spp : ℕ → ℕ → ℕ
set_spp mode = set_field weight_spp 2 (if mode == supervisor then 1 else 0)

-- The `mstatus` that a redirection leaves.
unfoldable pub redirected_status : StatusView → ℕ → ℕ
redirected_status view status =
    let written = view.write status (entered_status (view.read status)) in
    let previous = set_spp (mpp_of written) written in set_field weight_mpp 4 supervisor previous

abbrev pub delivered : Csrs → Option (ℕ × ℕ) → ℕ × ℕ
delivered c none = (c.mcause, c.mtval)
delivered c (some secondary) = secondary

-- `redirect_trap`; `none` is the error `MachineOrigin`.
unfoldable pub redirect_trap : StatusView → Option (ℕ × ℕ) → Csrs → Option Csrs
redirect_trap view secondary c =
    let (cause, tval) = delivered c secondary in
    if mpp_of c.mstatus == machine
    then none
    else some (record c {
      sepc = c.mepc;
      scause = cause;
      stval = tval;
      mstatus = redirected_status view c.mstatus;
      mepc = address c.stvec;
    })
