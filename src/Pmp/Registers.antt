-- ===== src/Pmp/Registers.antt =====
-- Writing an entry and reading it back.
use rustsbi.Base.{ℕ, ◌<◌, ◌≡◌, ◌≢◌, some, arith}
use rustsbi.Pmp.{
  PmpConfig, PmpRegisters, slice, encode_pmp_addr, log2_of_len, set_pmp_entry, get_pmp_entry,
  set_pmp_addr_register, set_pmp_cfg, update, max_pmp_entry_count,
}

-- An entry is written exactly when the index is below 16, the length has a logarithm and the
-- encoding succeeds; then it reads back as the encoded address and the configuration, and every
-- other entry reads as before.
pub get-set_pmp_entry :
    (idx addr len : ℕ) (config : PmpConfig) (regs : PmpRegisters) (k p : ℕ)
    → idx < max_pmp_entry_count
    → log2_of_len len ≡ some k
    → encode_pmp_addr (slice k addr 0) config.range ≡ some p
    → (regs' : PmpRegisters) × (set_pmp_entry idx addr len config regs ≡ some regs')
      × (get_pmp_entry idx regs' ≡ some (p, config))
      × ((i : ℕ) → i ≢ idx → get_pmp_entry i regs' ≡ get_pmp_entry i regs)
unfolding set_pmp_entry get_pmp_entry set_pmp_addr_register set_pmp_cfg update
get-set_pmp_entry idx addr len config regs k p h hk hp = (
  record regs { addr = update regs.addr idx p; cfg = update regs.cfg idx config },
  ground arith,
  ground arith,
  λ i ne. ground arith,
)
