-- ===== src/Trap.antt =====
-- firmware/runtime/src/trap: machine-mode traps of one hart. This file is frame.rs and the state
-- that a trap works on: the saved registers, the live trap CSRs and the memory as the trapped
-- context sees it, one byte at an address. Trap.Decode is decode.rs, Trap.Guarded the guarded
-- accesses of recovery.rs, Trap.Emulate is emulate.rs, Trap.Redirect is redirect.rs and
-- Trap.Handling is dispatch.rs.
pub mod Decode
pub mod Guarded
pub mod Emulate
pub mod Redirect
pub mod Handling
use rustsbi.Base.{
  ℕ, zero, suc, ◌+◌, ◌-◌, ◌*◌, ◌/◌, ◌%◌, ◌^◌, ◌≤◌, ◌<◌, min, max, bit_and, bit_or, ◌≡◌, refl, sym,
  ap, ◌∙◌, subst, ◌≢◌, ◌↔◌, ◌⊎◌, inl, inr, Bool, true, false, not, ◌&&◌, ◌||◌, Option, none, some,
  List, [], ◌∷◌, ◌++◌, map, arith, ltb, leb, ◌==◌, if◌then◌else◌, ltb→lt, leb→le, ==_iff,
  Bool-cases, Option-cases, length, get_elem?, set, All, length-append, length-map, All-append,
  elem,
}

-- `x` is the array of the registers x1 to x31, from place 0 on; the numbers of registers are five
-- bits of an instruction or constants, so no access leaves it.
pub record TrapFrame : Type 0 where
  pub x : ℕ → ℕ
  pub mepc : ℕ
  pub mstatus : ℕ
  pub mcause : ℕ
  pub mtval : ℕ

-- The CSRs of the hart that trap handling reads or writes.
pub record Csrs : Type 0 where
  pub mepc : ℕ
  pub mstatus : ℕ
  pub mcause : ℕ
  pub mtval : ℕ
  pub sepc : ℕ
  pub scause : ℕ
  pub stval : ℕ
  pub stvec : ℕ
  pub satp : ℕ
  pub sie : ℕ
  pub mie : ℕ
  pub mip : ℕ

pub record Machine : Type 0 where
  pub frame : TrapFrame
  pub csr : Csrs
  pub mem : ℕ → ℕ

-- mod.rs: `Error`.
pub data Error : Type 0 where
  unsupported_instruction machine_origin : Error
  memory_fault : ℕ → ℕ → Error

pub data Result {ℓ} (A : Type ℓ) : Type ℓ where
  ok : A → Result A
  err : Error → Result A

-- A fallible operation on the machine: what it changed before it failed stays changed.
abbrev pub M : Type 0 → Type 0
M A = Machine → Machine × Result A

abbrev pub pure : {A : Type 0} → A → M A
pure a m = (m, ok a)

abbrev pub fail : {A : Type 0} → Error → M A
fail e m = (m, err e)

abbrev pub bind_result : {A B : Type 0} → Machine → Result A → (A → M B) → Machine × Result B
bind_result m (ok a) f = f a m
bind_result m (err e) f = (m, err e)

infixl 5 ◌>>=◌ ◌>>◌
abbrev pub ◌>>=◌ : {A B : Type 0} → M A → (A → M B) → M B
◌>>=◌ act f m = bind_result (act m).0 (act m).1 f

abbrev pub ◌>>◌ : {B : Type 0} → M (Unit {0}) → M B → M B
act >> k = act >>= λ _. k

-- `Result` into the monad.
abbrev pub lift : {A : Type 0} → Result A → M A
lift r m = (m, r)

abbrev pub map_err : {A : Type 0} → (Error → Error) → Result A → Result A
map_err f (ok a) = ok a
map_err f (err e) = err (f e)

-- `read_x`.
unfoldable pub read_x : TrapFrame → ℕ → ℕ
read_x f id = if id == 0 then 0 else f.x (id - 1)

abbrev pub store_slot : (ℕ → ℕ) → ℕ → ℕ → ℕ → ℕ
store_slot x i v j = if j == i then v else x j

-- `write_x`.
unfoldable pub write_x : TrapFrame → ℕ → ℕ → TrapFrame
write_x f id v = if id == 0 then f else record f { x = store_slot f.x (id - 1) v }

abbrev pub mpp_mask : ℕ
mpp_mask = 3 * 2 ^ 11

-- `trapped_from_machine`.
unfoldable pub trapped_from_machine : TrapFrame → Bool
trapped_from_machine f = bit_and f.mstatus mpp_mask == 3 * 2 ^ 11

-- `is_trapped_from_supervisor`.
unfoldable pub is_trapped_from_supervisor : TrapFrame → Bool
is_trapped_from_supervisor f = bit_and f.mstatus mpp_mask == 1 * 2 ^ 11
