-- ===== src/Hive/Memory/Laws.antt =====
-- When an access succeeds, and what it returns.
use hivex.Base.{ℕ, ◌+◌, ◌≤◌, ◌≡◌, arith}
use hivex.Hive.{Hive, ok}
use hivex.Hive.Bytes.{get16, get32, get_bytes}
use hivex.Hive.Memory.{load16, load32, load_bytes}

module _ (o : ℕ) (h : Hive) where
  pub load16_ok : o + 2 ≤ h.size → load16 o h ≡ ok (get16 h.mem o)
  unfolding load16
  load16_ok p = ground arith

  pub load32_ok : o + 4 ≤ h.size → load32 o h ≡ ok (get32 h.mem o)
  unfolding load32
  load32_ok p = ground arith

  pub load16-eq-ok : {v : ℕ} → load16 o h ≡ ok v → (o + 2 ≤ h.size) × (v ≡ get16 h.mem o)
  unfolding load16
  load16-eq-ok e = ground arith

  pub load32-eq-ok : {v : ℕ} → load32 o h ≡ ok v → (o + 4 ≤ h.size) × (v ≡ get32 h.mem o)
  unfolding load32
  load32-eq-ok e = ground arith

  pub load_bytes_ok : (n : ℕ) → o + n ≤ h.size → load_bytes o n h ≡ ok (get_bytes h.mem o n)
  unfolding load_bytes
  load_bytes_ok n p = ground arith
