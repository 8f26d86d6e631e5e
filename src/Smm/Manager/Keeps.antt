-- ===== src/Smm/Manager/Keeps.antt =====
-- The regions of the manager stay apart: in memory, in their PMP slots and in their ids.
use rustsbi.Base.{
  ℕ, ◌+◌, ◌^◌, ◌≤◌, ◌<◌, ◌≡◌, refl, sym, ap, ◌∙◌, subst, ◌≢◌, ◌⊎◌, inl, inr, false, not, ◌||◌, List,
  [], ◌∷◌, arith, ltb, leb, ltb→lt, Bool-cases, Option-cases, length, All, length-append,
  All-append,
}
use rustsbi.Base.Usize.{wrapping_add}
use rustsbi.Base.Words.{bit, bit_above}
use rustsbi.Pmp.{check_pmp_area_available, napot}
use rustsbi.Pmp.Slots
use rustsbi.Pmp.Slots.Alloc.{Allocates}
use rustsbi.Pmp.Slots.Free.{alloc_lem, free_lem, Frees}
use rustsbi.Smm.Allocators.{SecMemAllocator}
use rustsbi.Smm.Vector.{
  Pairwise, swap_remove, position, any, Pairwise-append_one, All-mono, All-of_not_any,
  All-swap_remove, pairs-swap_remove, length-swap_remove,
}
use rustsbi.Smm.Region.{is_mem_overlap, new_region}
use rustsbi.Smm.Manager.{
  Manager, Region, new, extend, reclaim, alloc_mask, capacity, add_region, give_back,
}

-- Two predicates on the items of a list, joined.
All-both {κ κ'} :
    {A : Type 0} (P : A → Type κ) (Q : A → Type κ') (xs : List A)
    → All P xs
    → All Q xs
    → All (λ x. P x × Q x) xs
All-both P Q [] h k = tt
All-both P Q (x ∷ xs) h k = ((h.0, k.0), All-both P Q xs h.1 k.1)

module _ (ar aa : SecMemAllocator) where
  -- What each region promises: its slot is one of the mask that the bitmap marks as taken, its id
  -- was given out, and it ends within the address space.
  abbrev pub IsSound : Manager ar aa → Region ar aa → Type 0
  IsSound m r =
      (bit m.protector.pmp_slots r.slot ≡ 1)
      × (bit alloc_mask r.slot ≡ 1)
      × (r.id ≤ m.cur_idx)
      × (r.addr + r.len < 2 ^ 64)

  abbrev pub IsApart : Region ar aa → Region ar aa → Type 0
  IsApart r s =
      (r.slot ≢ s.slot) × (r.id ≢ s.id) × ((r.addr + r.len ≤ s.addr) ⊎ (s.addr + s.len ≤ r.addr))

  pub record IsWellFormed (m : Manager ar aa) : Type 0 where
    pub word : m.protector.pmp_slots < 2 ^ 64
    pub mask : m.protector.alloc_mask ≡ alloc_mask
    pub sound : All (IsSound m) m.alloc_regions
    pub apart : Pairwise IsApart m.alloc_regions
    pub bounded : length m.alloc_regions ≤ capacity

  IsApart-sym : (r s : Region ar aa) → IsApart r s → IsApart s r
  IsApart-sym r s h = (λ e. h.0 (sym e), λ e. h.1 (sym e), ground arith)

  pub new-IsWellFormed : IsWellFormed (new ar aa)
  new-IsWellFormed = record {
    word = omega arith;
    mask = refl;
    sound = tt;
    apart = tt;
    bounded = omega arith;
  }

  disjoint_of_overlap :
      (r : Region ar aa) (addr len : ℕ)
      → r.addr + r.len < 2 ^ 64
      → addr + len < 2 ^ 64
      → is_mem_overlap r addr len ≡ false
      → (r.addr + r.len ≤ addr) ⊎ (addr + len ≤ r.addr)
  unfolding is_mem_overlap
  disjoint_of_overlap r addr len h k e = ground arith

  -- A fresh slot and a fresh id keep the new region apart from a sound one.
  IsApart-from_new :
      (m : Manager ar aa) (r : Region ar aa) (addr len idx : ℕ)
      → addr + len < 2 ^ 64
      → m.cur_idx + 1 < 2 ^ 64
      → bit m.protector.pmp_slots idx ≡ 0
      → IsSound m r
      → is_mem_overlap r addr len ≡ false
      → IsApart r (new_region addr len (wrapping_add m.cur_idx 1) idx)
  IsApart-from_new m r addr len idx fits room free_slot s e = (
    λ same. omega (arith, s.0, free_slot, ap (λ (t : ℕ). bit m.protector.pmp_slots t) same),
    λ same. omega (arith, s.2),
    disjoint_of_overlap r addr len s.3 fits e,
  )

  keeps_slot :
      (m : Manager ar aa) (r : Region ar aa) (idx cur slots : ℕ)
      → bit m.protector.pmp_slots idx ≡ 0
      → ((i : ℕ) → idx ≢ i → bit slots i ≡ bit m.protector.pmp_slots i)
      → m.cur_idx ≤ cur
      → IsSound m r
      → (bit slots r.slot ≡ 1)
        × (bit alloc_mask r.slot ≡ 1)
        × (r.id ≤ cur)
        × (r.addr + r.len < 2 ^ 64)
  keeps_slot m r idx cur slots free_slot same le s = (
    same r.slot (λ e. omega (arith, s.0, free_slot, ap (λ (t : ℕ). bit m.protector.pmp_slots t) e))
        ∙ s.0,
    s.1,
    omega (arith, s.2),
    s.3,
  )

  added :
      (m : Manager ar aa) (addr len : ℕ) (p : Slots.PmpSlotAllocator) (r : Slots.Outcome ℕ)
      → IsWellFormed m
      → addr + len < 2 ^ 64
      → m.cur_idx + 1 < 2 ^ 64
      → length m.alloc_regions < capacity
      → All (λ x. is_mem_overlap x addr len ≡ false) m.alloc_regions
      → p.alloc_mask ≡ alloc_mask
      → p.pmp_slots < 2 ^ 64
      → Allocates alloc_mask m.protector.pmp_slots (p.pmp_slots, r)
      → IsWellFormed (add_region ar aa m addr len p r).0
  unfolding add_region
  added m addr len p (Slots.err e) w fits room short clear pm pw does = record {
    word = pw;
    mask = pm;
    sound =
        All-mono m.alloc_regions (λ x s. (ap (λ (t : ℕ). bit t x.slot) does.1 ∙ s.0, s.1, s.2, s.3))
          w.sound;
    apart = w.apart;
    bounded = w.bounded;
  }
  added m addr len p (Slots.ok idx) w fits room short clear pm pw does = record {
    word = pw;
    mask = pm;
    sound =
        All-append _ m.alloc_regions _
          (All-mono m.alloc_regions
            (λ x s. keeps_slot m x idx _ p.pmp_slots does.1.0 does.4 (omega arith) s) w.sound)
          ((does.3, does.1.1, omega arith, fits), tt);
    apart = Pairwise-append_one IsApart m.alloc_regions _ w.apart (
        All-mono m.alloc_regions
          (λ x s. IsApart-from_new m x addr len idx fits room does.1.0 s.0 s.1)
          (All-both (IsSound m) (λ x. is_mem_overlap x addr len ≡ false) m.alloc_regions w.sound
            clear));
    bounded = omega (arith, length-append m.alloc_regions);
  }

  -- Adding memory that ends within the address space keeps the regions apart in memory, in their
  -- slots and in their ids, whether the call adds a region or refuses, as long as the counter of
  -- ids does not wrap.
  pub extend-IsWellFormed :
      (m : Manager ar aa) (addr len : ℕ)
      → IsWellFormed m
      → addr + len < 2 ^ 64
      → m.cur_idx + 1 < 2 ^ 64
      → IsWellFormed (extend ar aa m addr len).0
  unfolding extend
  extend-IsWellFormed m addr len w fits room =
      let protectable = check_pmp_area_available addr len napot in
      let overlap = any (λ (r : Region ar aa). is_mem_overlap r addr len) m.alloc_regions in
      elim (Bool-cases (not protectable || leb capacity (length m.alloc_regions) || overlap)) [
        | inl refuse ↦ rw refuse w
        | inr go ↦
            let does = alloc_lem m.protector w.word in
            rw go (
              added m addr len _ _ w fits room (ground arith)
                (All-of_not_any _ m.alloc_regions (ground arith)) (does.0 ∙ w.mask) does.1
                (subst
                  (λ (t : ℕ).
                    Allocates t m.protector.pmp_slots
                      ((Slots.alloc m.protector []).0.pmp_slots, (Slots.alloc m.protector []).1))
                  w.mask does.2))
      ]

  slot-lt : (slot : ℕ) → bit alloc_mask slot ≡ 1 → slot < 16
  slot-lt slot h = elim (Bool-cases (ltb slot 16)) [
    | inl below ↦ ltb→lt slot 16 below
    | inr above ↦
        absurd (omega (arith, h, bit_above 16 alloc_mask slot (omega arith) (ground arith)))
  ]

  given_back :
      (m : Manager ar aa) (r : Region ar aa) (rs : List (Region ar aa)) (p : Slots.PmpSlotAllocator)
      (out : Slots.Outcome (Unit {0}))
      → All (IsSound m) rs
      → All (IsApart r) rs
      → Pairwise IsApart rs
      → length rs ≤ capacity
      → p.alloc_mask ≡ alloc_mask
      → p.pmp_slots < 2 ^ 64
      → Frees alloc_mask r.slot m.protector.pmp_slots (p.pmp_slots, out)
      → IsWellFormed (give_back ar aa m r rs (p, out)).0
  unfolding give_back
  given_back m r rs p (Slots.ok u) sound near apart bounded pm pw does = record {
    word = pw;
    mask = pm;
    sound =
        All-mono rs (λ x s. (does.2 x.slot s.1.0 ∙ s.0.0, s.0.1, s.0.2, s.0.3))
          (All-both (IsSound m) (IsApart r) rs sound near);
    apart = apart;
    bounded = bounded;
  }
  given_back m r rs p (Slots.err e) sound near apart bounded pm pw does = record {
    word = pw;
    mask = pm;
    sound = All-mono rs (λ x s. (ap (λ (t : ℕ). bit t x.slot) does.1 ∙ s.0, s.1, s.2, s.3)) sound;
    apart = apart;
    bounded = bounded;
  }

  -- Reclaiming an unused region keeps the others apart, whether or not there is one to reclaim.
  pub reclaim-IsWellFormed : (m : Manager ar aa) → IsWellFormed m → IsWellFormed (reclaim ar aa m).0
  unfolding reclaim
  reclaim-IsWellFormed m w =
      elim (Option-cases (position (λ (r : Region ar aa). not r.is_used) m.alloc_regions)) [
        | inl e ↦ rw (e, reclaim) w
        | inr (i, e) ↦ elim (Option-cases (swap_remove m.alloc_regions i)) [
          | inl e' ↦ rw (e, e', reclaim) w
          | inr ((r, rs), e') ↦
              let sound = rw e' at (All-swap_remove (IsSound m) m.alloc_regions i w.sound) in
              let apart =
                rw e' at (pairs-swap_remove IsApart IsApart-sym m.alloc_regions i w.apart) in
              let shorter = rw e' at (length-swap_remove m.alloc_regions i) in
              let does = free_lem m.protector r.slot (slot-lt r.slot sound.0.1) w.word in
              rw (e, e', reclaim)
                (given_back m r rs (Slots.free m.protector r.slot []).0
                  (Slots.free m.protector r.slot []).1 sound.1 apart.0 apart.1
                  (omega (arith, shorter, w.bounded)) (does.0 ∙ w.mask) does.1
                  (subst
                    (λ (t : ℕ). Frees t r.slot m.protector.pmp_slots (
                      (Slots.free m.protector r.slot []).0.pmp_slots,
                      (Slots.free m.protector r.slot []).1,
                    ))
                    w.mask does.2))
        ]
      ]
