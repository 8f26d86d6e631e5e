-- ===== src/Fwft/Settings.antt =====
-- What a feature reads as after it is set.
use rustsbi.Base.{
  ℕ, ◌<◌, bit_and, bit_or, ◌≡◌, refl, sym, ap, ◌∙◌, inl, inr, Bool, true, false, not, some, arith,
  ◌==◌, if◌then◌else◌, Bool-cases,
}
use rustsbi.Base.Words.{
  bit, one_shl, not_word, bit-set_bit_self, bit-clear_bit_self, test_bit, bit_or-set,
}
use rustsbi.Spec.Ret.{SbiRet, success, from_error, not_supported}
use rustsbi.Fwft.{
  Hart, Features, menvcfg_read, menvcfg_write, menvcfg_bit, write_checked, set_menvcfg_bit,
  menvcfg_bits_supported, answer, fwft_set, fwft_get, misaligned_exc_deleg, pointer_masking_pmlen,
}

-- The features of one bit are neither of the other two, and their places are within the word.
bit_feature :
    (f place : ℕ)
    → menvcfg_bit f ≡ some place
    → ((f == misaligned_exc_deleg) ≡ false) × ((f == pointer_masking_pmlen) ≡ false) × (place < 64)
unfolding menvcfg_bit
bit_feature f place e = elim (Bool-cases (f == misaligned_exc_deleg)) [
  | inl first ↦ absurd (ground (arith, e))
  | inr other ↦ elim (Bool-cases (f == pointer_masking_pmlen)) [
    | inl last ↦ absurd (ground (arith, e))
    | inr between ↦ (other, between, ground (arith, e))
  ]
]

module _ (h : Hart) (there : h.has_menvcfg ≡ true) where
  read_there : (s : Features) → menvcfg_read h s ≡ some s.menvcfg
  unfolding menvcfg_read
  read_there s = rw (menvcfg_read, there) refl

  write_done : (s : Features) (v : ℕ) → (menvcfg_write h s v).1 ≡ true
  unfolding menvcfg_write
  write_done s v = rw (menvcfg_write, there) refl

  written_state :
      (s : Features) (v : ℕ) → (menvcfg_write h s v).0 ≡ record s { menvcfg = h.legal v }
  unfolding menvcfg_write
  written_state s v = rw (menvcfg_write, there) refl

  -- The check of a write, on a hart that has the register.
  write_checked_there :
      (s : Features) (next : ℕ → ℕ) (mask : ℕ)
      → write_checked h s next mask ≡ (
        record s { menvcfg = h.legal (next s.menvcfg) },
        if not (bit_and (h.legal (next s.menvcfg)) mask == bit_and (next s.menvcfg) mask)
            then from_error not_supported
            else success 0,
      )
  unfolding write_checked
  write_checked_there s next mask =
      let asked = next s.menvcfg in
      let s1 : Features = record s { menvcfg = h.legal asked } in
      rw
        (
          write_checked,
          read_there s,
          write_done s asked,
          written_state s asked,
          read_there s1,
          written_state s asked,
        )
        (elim (Bool-cases (bit_and (h.legal asked) mask == bit_and asked mask)) [
          | inl kept ↦ rw (kept) refl
          | inr ignored ↦ rw (ignored) refl
        ])

  bits_supported_there :
      (s : Features) (mask : ℕ)
      → menvcfg_bits_supported h s mask ≡ (
        record s { menvcfg = h.legal s.menvcfg },
        not (bit_and (h.legal (bit_or s.menvcfg mask)) mask == 0),
      )
  unfolding menvcfg_bits_supported
  bits_supported_there s mask =
      let s1 : Features = record s { menvcfg = h.legal (bit_or s.menvcfg mask) } in
      rw
        (
          menvcfg_bits_supported,
          read_there s,
          write_done s (bit_or s.menvcfg mask),
          written_state s (bit_or s.menvcfg mask),
          read_there s1,
          written_state s (bit_or s.menvcfg mask),
          written_state s1 s.menvcfg,
        )
        refl

module _ (h : Hart) (s : Features) (next : ℕ → ℕ) (mask : ℕ) where
  -- A write that is accepted found the register and left the asked bits in it.
  write_checked_ok :
      (s' : Features)
      → write_checked h s next mask ≡ (s', success 0)
      → (h.has_menvcfg ≡ true)
        × (s' ≡ record s { menvcfg = h.legal (next s.menvcfg) })
        × (bit_and (h.legal (next s.menvcfg)) mask ≡ bit_and (next s.menvcfg) mask)
  unfolding write_checked menvcfg_read from_error
  write_checked_ok s' e = elim (Bool-cases h.has_menvcfg) [
    | inr missing ↦
        let refused : Features × SbiRet = (s, from_error not_supported) in
        let e' : refused ≡ (s', success 0) = rw (write_checked, menvcfg_read, missing) at e in
        absurd (ground (arith, ap (λ (r : Features × SbiRet). r.1.error) e'))
    | inl there ↦
        let done = sym (write_checked_there h there s next mask) ∙ e in
        (
          there,
          sym (ap (λ (r : Features × SbiRet). r.0) done),
          ground (arith, ap (λ (r : Features × SbiRet). r.1.error) done),
        )
  ]

-- A hart that has the register, whose value has the bit and is kept when it is written again,
-- reads the feature as 1 and leaves the register as it was.
get_one :
    (h : Hart) (s : Features) (f place : ℕ)
    → menvcfg_bit f ≡ some place
    → h.has_menvcfg ≡ true
    → bit s.menvcfg place ≡ 1
    → h.legal s.menvcfg ≡ s.menvcfg
    → fwft_get h s f ≡ (s, success 1)
unfolding fwft_get answer
get_one h s f place e there on stable =
    let (not_first, not_last, small) = bit_feature f place e in
    let same = bit_or-set s.menvcfg place on in
    let tested : (bit_and s.menvcfg (one_shl place) == 0) ≡ false =
      ground (arith, test_bit s.menvcfg place, on) in
    let kept : record s { menvcfg = h.legal s.menvcfg } ≡ s =
      ap (λ (t : ℕ). record s { menvcfg = t }) stable in
    let state : (menvcfg_bits_supported h s (one_shl place)).0 ≡ s =
      ap (λ (r : Features × Bool). r.0) (bits_supported_there h there s (one_shl place)) ∙ kept in
    let answered : Features → Features × SbiRet = λ t. (t, success 1) in
    rw
      (
        fwft_get,
        not_first,
        not_last,
        e,
        bits_supported_there h there s (one_shl place),
        same,
        stable,
        tested,
        answer,
        read_there h there s,
        tested,
      )
      (ap answered state)

-- A feature of one bit that is set to 1 with success reads as 1, and reading it leaves the state
-- as it is, on a hart that keeps the values which it has once kept.
pub fwft_get-fwft_set :
    (h : Hart) (s s' : Features) (f place : ℕ)
    → menvcfg_bit f ≡ some place
    → ((x : ℕ) → h.legal (h.legal x) ≡ h.legal x)
    → fwft_set h s f 1 0 ≡ (s', success 0)
    → fwft_get h s' f ≡ (s', success 1)
unfolding fwft_set set_menvcfg_bit
fwft_get-fwft_set h s s' f place e stable done =
    let (not_first, not_last, small) = bit_feature f place e in
    let next : ℕ → ℕ = λ current. bit_or current (one_shl place) in
    let written : write_checked h s next (one_shl place) ≡ (s', success 0) =
      rw (fwft_set, not_first, not_last, e, set_menvcfg_bit) at done in
    let (there, shape, kept) = write_checked_ok h s next (one_shl place) s' written in
    let reg : s'.menvcfg ≡ h.legal (next s.menvcfg) = ap (λ (r : Features). r.menvcfg) shape in
    let asked = bit-set_bit_self s.menvcfg place in
    let on : bit (h.legal (next s.menvcfg)) place ≡ 1 = ground (
      arith,
      test_bit (h.legal (next s.menvcfg)) place,
      test_bit (next s.menvcfg) place,
      kept,
      asked,
    ) in
    get_one h s' f place e there (rw (reg) on) (rw (reg) (stable (next s.menvcfg)))

-- On a hart that has the register and never keeps the bit of a feature, setting the feature to 0
-- succeeds, although reading it is not supported.
pub fwft_set_accepts_absent :
    (h : Hart) (s : Features) (f place : ℕ)
    → menvcfg_bit f ≡ some place
    → h.has_menvcfg ≡ true
    → ((x : ℕ) → bit (h.legal x) place ≡ 0)
    → ((fwft_set h s f 0 0).1 ≡ success 0) × ((fwft_get h s f).1 ≡ from_error not_supported)
unfolding fwft_set set_menvcfg_bit fwft_get answer
fwft_set_accepts_absent h s f place e there never =
    let (not_first, not_last, small) = bit_feature f place e in
    let next = bit_and s.menvcfg (not_word 64 (one_shl place)) in
    let cleared : bit_and next (one_shl place) ≡ 0 =
      ground (arith, test_bit next place, bit-clear_bit_self 64 s.menvcfg place small) in
    let read_back : bit_and (h.legal next) (one_shl place) ≡ 0 =
      ground (arith, test_bit (h.legal next) place, never next) in
    let probe : (bit_and (h.legal (bit_or s.menvcfg (one_shl place))) (one_shl place) == 0) ≡ true =
      ground (
        arith,
        test_bit (h.legal (bit_or s.menvcfg (one_shl place))) place,
        never (bit_or s.menvcfg (one_shl place)),
      ) in
    let s1 : Features = record s { menvcfg = h.legal s.menvcfg } in
    (
      rw (fwft_set, not_first, not_last, e, set_menvcfg_bit)
          (ap (λ (r : Features × SbiRet). r.1) (write_checked_there h there s _ (one_shl place))
            ∙ rw (cleared, read_back) refl),
      rw
          (
            fwft_get,
            not_first,
            not_last,
            e,
            bits_supported_there h there s (one_shl place),
            probe,
            answer,
          )
          refl,
    )
