-- ===== src/Trap/Redirect/Delivery.antt =====
-- A redirected trap is what the hardware would have delivered: the supervisor's `sret` undoes it.
use rustsbi.Base.{
  ℕ, ◌*◌, ◌%◌, ◌^◌, ◌≤◌, ◌<◌, bit_and, bit_or, ◌≡◌, refl, ◌∙◌, false, Option, some, arith, ◌==◌,
  if◌then◌else◌,
}
use rustsbi.Base.Words.{bit, bit-bit_or, bit-bit_and, bit_and-one_shl}
use rustsbi.Trap.{Csrs}
use rustsbi.Trap.Redirect.{
  StatusView, field, set_field, weight_sie, weight_spie, weight_spp, weight_mpp, supervisor,
  machine, mpp_of, address, entered_status, redirected_status, delivered, redirect_trap,
}

-- What is relied on of the hardware: `sstatus` shows `sie` and `spie`, writing it sets these
-- two, and leaves `mpp`.
pub record IsView (v : StatusView) : Type 0 where
  pub read_sie : (s : ℕ) → field weight_sie 2 (v.read s) ≡ field weight_sie 2 s
  pub write_sie : (s b : ℕ) → field weight_sie 2 (v.write s b) ≡ field weight_sie 2 b
  pub write_spie : (s b : ℕ) → field weight_spie 2 (v.write s b) ≡ field weight_spie 2 b
  pub write_mpp : (s b : ℕ) → mpp_of (v.write s b) ≡ mpp_of s

bit-field_sie : (x : ℕ) → bit x 1 ≡ field weight_sie 2 x
unfolding bit
bit-field_sie x = omega arith

bit-field_spie : (x : ℕ) → bit x 5 ≡ field weight_spie 2 x
unfolding bit
bit-field_spie x = omega arith

-- The two bits of the mask and of the moved bit.
bits_of_mask : (bit 18446744073709551581 1 ≡ 0) × (bit 18446744073709551581 5 ≡ 0)
unfolding bit
bits_of_mask = (refl, refl)

moved : (b : ℕ) → bit_and b weight_sie * 2 ^ 4 % 2 ^ 64 ≡ field weight_sie 2 b * 2 ^ 5
moved b = omega (arith, bit_and-one_shl b 1, bit-field_sie b)

moved_bits : (v : ℕ) → v < 2 → (bit (v * 2 ^ 5) 1 ≡ 0) × (bit (v * 2 ^ 5) 5 ≡ v)
unfolding bit
moved_bits v h = omega arith

entered_status-bits :
    (b : ℕ)
    → (field weight_sie 2 (entered_status b) ≡ 0)
      × (field weight_spie 2 (entered_status b) ≡ field weight_sie 2 b)
unfolding entered_status
entered_status-bits b =
    let rest : ℕ = bit_and b 18446744073709551581 in
    let v : ℕ = field weight_sie 2 b in
    let up = moved_bits v (omega arith) in
    let low = bit-bit_and b 18446744073709551581 1 in
    let high = bit-bit_and b 18446744073709551581 5 in
    rw (moved b) (
      omega (
        arith,
        bit-field_sie (bit_or rest (v * 2 ^ 5)),
        bit-bit_or rest (v * 2 ^ 5) 1,
        low,
        bits_of_mask,
        up,
      ),
      omega (
        arith,
        bit-field_spie (bit_or rest (v * 2 ^ 5)),
        bit-bit_or rest (v * 2 ^ 5) 5,
        high,
        bits_of_mask,
        up,
      ),
    )

-- What one write to a field of `mstatus` does to the four fields.
spp-fields :
    (w b : ℕ)
    → b < 2
    → let s : ℕ = set_field weight_spp 2 b w in
      (mpp_of s ≡ mpp_of w)
      × (field weight_sie 2 s ≡ field weight_sie 2 w)
      × (field weight_spie 2 s ≡ field weight_spie 2 w)
      × (field weight_spp 2 s ≡ b)
spp-fields w b h = omega arith

mpp-fields :
    (w : ℕ)
    → let s : ℕ = set_field weight_mpp 4 supervisor w in
      (mpp_of s ≡ supervisor)
      × (field weight_sie 2 s ≡ field weight_sie 2 w)
      × (field weight_spie 2 s ≡ field weight_spie 2 w)
      × (field weight_spp 2 s ≡ field weight_spp 2 w)
mpp-fields w = omega arith

-- The hardware's `sret`: the mode it enters and the `mstatus` it leaves.
abbrev pub sret_mode : ℕ → ℕ
sret_mode = field weight_spp 2

abbrev pub sret_status : ℕ → ℕ
sret_status s =
    set_field weight_spp 2 0
      (set_field weight_spie 2 1 (set_field weight_sie 2 (field weight_spie 2 s) s))

-- The fields of `mstatus` after a redirection.
redirected_status-fields :
    (v : StatusView) (s : ℕ)
    → IsView v
    → mpp_of s ≤ 1
    → (mpp_of (redirected_status v s) ≡ supervisor)
      × (field weight_sie 2 (redirected_status v s) ≡ 0)
      × (field weight_spie 2 (redirected_status v s) ≡ field weight_sie 2 s)
      × (sret_mode (redirected_status v s) ≡ mpp_of s)
unfolding redirected_status
redirected_status-fields v s laws h =
    let w : ℕ = v.write s (entered_status (v.read s)) in
    let new = entered_status-bits (v.read s) in
    let e1 = laws.read_sie s in
    let e2 = laws.write_sie s (entered_status (v.read s)) in
    let e3 = laws.write_spie s (entered_status (v.read s)) in
    let e4 : mpp_of w ≡ mpp_of s = laws.write_mpp s (entered_status (v.read s)) in
    let mode : ℕ = if mpp_of w == supervisor then 1 else 0 in
    let small : mode < 2 = ground arith in
    let same : mode ≡ mpp_of s = ground arith in
    let f1 = spp-fields w mode small in
    let f2 = mpp-fields (set_field weight_spp 2 mode w) in
    (f2.0, f2.1 ∙ f1.1 ∙ e2 ∙ new.0, f2.2 ∙ f1.2 ∙ e3 ∙ new.1 ∙ e1, f2.3 ∙ f1.3 ∙ same)

sie_field : (s v : ℕ) → v < 2 → field weight_sie 2 (set_field weight_sie 2 v s) ≡ v
sie_field s v h = omega arith

spie_set : (s : ℕ) → field weight_sie 2 (set_field weight_spie 2 1 s) ≡ field weight_sie 2 s
spie_set s = omega arith

sret_status-sie : (s : ℕ) → field weight_sie 2 (sret_status s) ≡ field weight_spie 2 s
sret_status-sie s =
    let v : ℕ = field weight_spie 2 s in
    let w : ℕ = set_field weight_sie 2 v s in
    (spp-fields (set_field weight_spie 2 1 w) 0 (omega arith)).1
    ∙ spie_set w
    ∙ sie_field s v (omega arith)

-- A trap from user or supervisor mode is forwarded as the hardware would have delivered it: the
-- firmware's return enters supervisor mode at its vector with interrupts disabled and `sepc` at
-- the trapped instruction, for the fault of the emulation where there is one and for the trap
-- otherwise; and the supervisor's own return resumes the trapped mode with the interrupt enable
-- that it had.
pub redirect_trap-sret :
    (v : StatusView) (secondary : Option (ℕ × ℕ)) (c : Csrs)
    → IsView v
    → mpp_of c.mstatus ≤ 1
    → (c' : Csrs) × (redirect_trap v secondary c ≡ some c')
      × (mpp_of c'.mstatus ≡ supervisor)
      × (c'.mepc ≡ address c.stvec)
      × (field weight_sie 2 c'.mstatus ≡ 0)
      × (c'.sepc ≡ c.mepc)
      × (c'.scause ≡ (delivered c secondary).0)
      × (c'.stval ≡ (delivered c secondary).1)
      × (sret_mode c'.mstatus ≡ mpp_of c.mstatus)
      × (field weight_sie 2 (sret_status c'.mstatus) ≡ field weight_sie 2 c.mstatus)
unfolding redirect_trap
redirect_trap-sret v secondary c laws h =
    let f = redirected_status-fields v c.mstatus laws h in
    let below : (mpp_of c.mstatus == machine) ≡ false = ground arith in
    let out : Csrs = record c {
      sepc = c.mepc;
      scause = (delivered c secondary).0;
      stval = (delivered c secondary).1;
      mstatus = redirected_status v c.mstatus;
      mepc = address c.stvec;
    } in
    (out, rw below refl, f.0, refl, f.1, refl, refl, refl, f.3, sret_status-sie out.mstatus ∙ f.2)
