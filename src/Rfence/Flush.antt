-- ===== src/Rfence/Flush.antt =====
-- The instructions of a fence reach every address that the call names.
use rustsbi.Base.{
  ℕ, zero, suc, ◌+◌, ◌-◌, ◌*◌, ◌/◌, ◌%◌, ◌^◌, ◌≤◌, ◌<◌, ◌≡◌, ◌≢◌, refl, ◌↔◌, ◌⊎◌, inl, inr, Bool,
  true, false, ◌&&◌, arith, ◌==◌,
}
use rustsbi.Base.Usize.{usize_max}
use rustsbi.Base.Words.{bit_and-low_ones}
use rustsbi.Smm.Vector.{any}
use rustsbi.Spec.Ret.{Result, Error, ok, err, invalid_address}
use rustsbi.Rfence.{
  RFenceType, RFenceContext, FenceInstr, page_size, validate_address_range, full_flush, page_steps,
  flush_pages, rfence_local_handler, fence_i, sfence_vma, sfence_vma_asid, hfence_gvma_vmid,
  hfence_gvma, hfence_vvma_asid, hfence_vvma, instr_fence_i, vma_all, gvma_all, vvma_all, vma_addr,
  gvma_addr, vvma_addr, vma_asid, gvma_vmid, vvma_asid, vma_addr_asid, gvma_addr_vmid,
  vvma_addr_asid,
}

-- A range that the check is to accept.
abbrev pub IsAccepted : ℕ → ℕ → Type 0
IsAccepted start size = (start + size < 2 ^ 64) × ((size ≡ usize_max) ⊎ (start % page_size ≡ 0))

pub validate_address_range-ok :
    (start size : ℕ)
    → start < 2 ^ 64
    → size < 2 ^ 64
    → (validate_address_range start size ≡ ok size) ↔ IsAccepted start size
unfolding validate_address_range
validate_address_range-ok start size h k =
    let low = bit_and-low_ones 12 start in ground (arith, low)

refused_or :
    (start size : ℕ)
    → (validate_address_range start size ≡ ok size)
      ⊎ (validate_address_range start size ≡ err invalid_address)
unfolding validate_address_range
refused_or start size = ground arith

clash : {r : Result ℕ} {n : ℕ} {e : Error} → r ≡ err e → r ≡ ok n → ⊥
clash h k = cc

-- The check of a range of words accepts, with its size unchanged, exactly the ranges of a
-- page-aligned start for which the sum of start and size is below 2 ^ 64, and the greatest size
-- from 0 only; every other range, with it an aligned one that ends at 2 ^ 64, is refused as an
-- invalid address.
pub validate_address_range_lem :
    (start size : ℕ)
    → start < 2 ^ 64
    → size < 2 ^ 64
    → ((validate_address_range start size ≡ ok size) × IsAccepted start size)
      ⊎ ((validate_address_range start size ≡ err invalid_address) × ¬ IsAccepted start size)
validate_address_range_lem start size h k = elim (refused_or start size) [
  | inl fine ↦ inl (fine, (validate_address_range-ok start size h k).0 fine)
  | inr bad ↦ inr (bad, λ a. absurd (clash bad ((validate_address_range-ok start size h k).1 a)))
]

-- Whether an instruction invalidates the translation of `x` in the address space of a fence: all
-- of it, or the page of an address. The operand of `hfence.gvma` is a guest physical address that
-- is shifted right by two, as the architecture defines it.
abbrev pub same_page : ℕ → ℕ → Bool
same_page a x = a / page_size == x / page_size

unfoldable pub reaches : RFenceType → ℕ → ℕ → ℕ → FenceInstr → Bool
reaches sfence_vma asid vmid x vma_all = true
reaches sfence_vma asid vmid x (vma_addr a) = same_page a x
reaches sfence_vma_asid asid vmid x (vma_asid i) = i == asid
reaches sfence_vma_asid asid vmid x (vma_addr_asid a i) = i == asid && same_page a x
reaches hfence_gvma asid vmid x gvma_all = true
reaches hfence_gvma asid vmid x (gvma_addr a) = same_page (a * 4) x
reaches hfence_gvma_vmid asid vmid x (gvma_vmid i) = i == vmid
reaches hfence_gvma_vmid asid vmid x (gvma_addr_vmid a i) = i == vmid && same_page (a * 4) x
reaches hfence_vvma asid vmid x vvma_all = true
reaches hfence_vvma asid vmid x (vvma_addr a) = same_page a x
reaches hfence_vvma_asid asid vmid x (vvma_asid i) = i == asid
reaches hfence_vvma_asid asid vmid x (vvma_addr_asid a i) = i == asid && same_page a x
reaches fence_i asid vmid x instr_fence_i = true
reaches _ asid vmid x _ = false

-- The addresses that a range names: all of them for 0, 0 and for the greatest size.
abbrev pub Names : RFenceContext → ℕ → Type 0
Names c x =
    ((c.start_addr ≡ 0) × (c.size ≡ 0))
    ⊎ ((c.size ≡ usize_max) ⊎ ((c.start_addr ≤ x) × (x < c.start_addr + c.size)))

-- A fence of virtual addresses, or one that invalidates the whole address space.
abbrev pub IsNamed : RFenceContext → RFenceType → Type 0
IsNamed c op = (full_flush c ≡ true) ⊎ ((op ≢ hfence_gvma) × (op ≢ hfence_gvma_vmid))

steps-miss :
    (p : FenceInstr → Bool) (one : ℕ → FenceInstr) (x start offset n : ℕ)
    → ((a : ℕ) → p (one a) ≡ same_page (a * 4) x)
    → start % page_size ≡ 0
    → offset % page_size ≡ 0
    → x < start * 4
    → start + offset + n * page_size ≤ 2 ^ 64
    → any p (page_steps one start offset n) ≡ false
unfolding page_steps any
steps-miss p one x start offset zero hp hs ho far fits = refl
steps-miss p one x start offset (suc n) hp hs ho far fits =
    let rest =
      steps-miss p one x start (offset + page_size) n hp hs (omega arith) far (omega arith) in
    let apart : same_page ((start + offset) % 2 ^ 64 * 4) x ≡ false = ground arith in
    rw (hp ((start + offset) % 2 ^ 64), apart, rest) refl

-- A fence of a range of guest physical addresses, with or without a VMID, that is done page by page
-- reaches no address that the range names, when the range starts on a page, ends at or before four
-- times its start, and leaves a page below 2 ^ 64: the handler passes the addresses unshifted, and
-- `hfence.gvma` takes them shifted right by two.
pub rfence_local_handler_misses :
    (c : RFenceContext) (x : ℕ)
    → (c.op ≡ hfence_gvma) ⊎ (c.op ≡ hfence_gvma_vmid)
    → full_flush c ≡ false
    → c.start_addr % page_size ≡ 0
    → c.start_addr + c.size ≤ c.start_addr * 4
    → c.start_addr + c.size + page_size ≤ 2 ^ 64
    → x < c.start_addr + c.size
    → any (reaches c.op c.asid c.vmid x) (rfence_local_handler c) ≡ false
unfolding rfence_local_handler reaches flush_pages any full_flush
rfence_local_handler_misses c x (inl gvma) part aligned low fits inside =
    rw (gvma, part)
      (steps-miss _ gvma_addr x c.start_addr 0 ((c.size + (page_size - 1)) / page_size) (λ a. refl)
        aligned (omega arith) (omega arith) (omega arith))
rfence_local_handler_misses c x (inr gvma) part aligned low fits inside =
    rw (gvma, part)
      (steps-miss _ (λ a. gvma_addr_vmid a c.vmid) x c.start_addr 0
        ((c.size + (page_size - 1)) / page_size) (λ a. ground arith) aligned (omega arith)
        (omega arith) (omega arith))
