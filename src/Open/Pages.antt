-- ===== src/Open/Pages.antt =====
-- The walk over the pages keeps what the bitmap means.
use hivex.Base.{ℕ, zero, suc, ◌+◌, ◌%◌, ◌^◌, ◌≤◌, ◌<◌, ◌≡◌, arith, ◌&&◌, inl, inr, ltb, Bool-cases}
use hivex.Hive.{Hive, ok}
use hivex.Hive.Reader.Laws.{after, after_require}
use hivex.Open.{Scan, check_page, scan_pages}
use hivex.Open.Blocks.{IsScan, scan_blocks-IsScan}

pub check_page_whole :
    (off : ℕ) (h : Hive) {n : ℕ} → check_page off h ≡ ok n → (32 < n) × (n % 4096 ≡ 0)
unfolding check_page
check_page_whole off h e = after h _ _ e λ hbin magic e1. after_require h _ _ _ e1 λ is_hbin e2.
    after h _ _ e2 λ page_size read e3. after_require h _ _ _ e3 λ shape e4. ground arith

pub scan_pages-IsScan :
    (fuel : ℕ) (h : Hive) (rootoffs endpages off : ℕ) (s s' : Scan)
    → h.size ≤ 2 ^ 31
    → 0x1000 ≤ off
    → off % 4 ≡ 0
    → IsScan h rootoffs s
    → scan_pages fuel rootoffs endpages off s h ≡ ok s'
    → IsScan h rootoffs s'
unfolding scan_pages
scan_pages-IsScan zero h rootoffs endpages off s s' small low aligned is e = ground arith
scan_pages-IsScan (suc fuel) h rootoffs endpages off s s' small low aligned is e =
    elim (Bool-cases (ltb off h.size && ltb off endpages)) [
      | inl more ↦ after h _ _ (rw more at e) λ page_size page e1. after h _ _ e1 λ s₁ walk e2.
          let (_, whole) = check_page_whole off h page in
          scan_pages-IsScan fuel h rootoffs endpages (off + page_size) s₁ s' small (omega arith)
            (omega arith)
            (scan_blocks-IsScan (h.size + 1) h rootoffs (off + page_size) (off + 0x20) s s₁ small
              (omega arith) (omega arith) is walk)
            e2
      | inr none_left ↦ let same : s ≡ s' = ground (arith, rw none_left at e) in rw (← same) is
    ]
