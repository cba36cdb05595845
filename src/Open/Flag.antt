-- ===== src/Open/Flag.antt =====
-- A handle keeps the flag that it is opened with.
use hivex.Base.{ℕ, ◌≡◌, sym, ap, Bool, not, arith}
use hivex.Hive.{Hive, enotsup, Result, ok, err, trap}
use hivex.Hive.Reader.Laws.{after, after_require, ok-injective}
use hivex.Hive.Memory.{load32, load64}
use hivex.Layout.Header
use hivex.Open.{FileImage, check_header, read_blocks, fresh_handle, hivex_open}

read_blocks-writable : (h g : Hive) → read_blocks h ≡ ok g → g.writable ≡ h.writable
unfolding read_blocks
read_blocks-writable h g e = after h (load64 Header.last_modified) _ e λ modified p1 e1.
    after h (load32 Header.offset) _ e1 λ offset p2 e2.
      after h (load32 Header.blocks) _ e2 λ blocks p3 e3. after h _ _ e3 λ s p4 e4.
        after_require h s.seen_root enotsup _ e4 λ seen e5.
          after_require h (not s.bad_root) enotsup _ e5
            λ good e6. ap (λ (x : Hive). x.writable) (sym (ok-injective e6))

pub hivex_open-writable :
    (grants : ℕ → Bool) (writable : Bool) (file : Result FileImage) (g : Hive)
    → hivex_open grants writable file ≡ ok g
    → g.writable ≡ writable
unfolding hivex_open fresh_handle
hivex_open-writable grants writable (ok f) g e =
    after (fresh_handle grants writable f) check_header (λ u. read_blocks) e
      λ u p q. read_blocks-writable _ g q
hivex_open-writable grants writable (err x) g e = absurd (ground arith)
hivex_open-writable grants writable (trap t) g e = absurd (ground arith)
