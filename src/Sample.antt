-- ===== src/Sample.antt =====
-- A small hive that the tests run on: the root key with one subkey "Abc" and one string value "K",
-- and a security record.
use hivex.Base.{ℕ, [], ◌∷◌}
use hivex.Hive.Bytes.{put16, put32, put_bytes}
use hivex.Open.{FileImage}

unfoldable pub with_header : (ℕ → ℕ) → ℕ → ℕ
unfolding put16 put32 put_bytes
with_header m0 =
    let m1 = put_bytes m0 0 (114 ∷ 101 ∷ 103 ∷ 102 ∷ []) in
    let m2 = put32 m1 4 1 in
    let m3 = put32 m2 8 1 in
    let m4 = put32 m3 20 1 in
    let m5 = put32 m4 36 32 in
    let m6 = put32 m5 40 0x1000 in let m7 = put32 m6 0x1fc 0x66677553 in m7

unfoldable pub with_keys : (ℕ → ℕ) → ℕ → ℕ
unfolding put16 put32 put_bytes
with_keys m0 =
    let m1 = put_bytes m0 0x1000 (104 ∷ 98 ∷ 105 ∷ 110 ∷ []) in
    let m2 = put32 m1 0x1008 0x1000 in
    let m3 = put32 m2 0x1020 0xffffffa0 in
    let m4 = put_bytes m3 0x1024 (110 ∷ 107 ∷ []) in
    let m5 = put16 m4 0x1026 32 in
    let m6 = put32 m5 0x1034 32 in
    let m7 = put32 m6 0x1038 1 in
    let m8 = put32 m7 0x1040 216 in
    let m9 = put32 m8 0x1044 0xffffffff in
    let m10 = put32 m9 0x1048 1 in
    let m11 = put32 m10 0x104c 232 in
    let m12 = put32 m11 0x1050 0x120 in
    let m13 = put32 m12 0x1054 0xffffffff in
    let m14 = put16 m13 0x106c 4 in
    let m15 = put_bytes m14 0x1070 (114 ∷ 111 ∷ 111 ∷ 116 ∷ []) in
    let m16 = put32 m15 0x1080 0xffffffa8 in
    let m17 = put_bytes m16 0x1084 (110 ∷ 107 ∷ []) in
    let m18 = put16 m17 0x1086 32 in
    let m19 = put32 m18 0x1094 32 in
    let m20 = put32 m19 0x1098 0 in
    let m21 = put32 m20 0x10a0 0xffffffff in
    let m22 = put32 m21 0x10a4 0xffffffff in
    let m23 = put32 m22 0x10a8 0 in
    let m24 = put32 m23 0x10ac 0xffffffff in
    let m25 = put32 m24 0x10b0 0x120 in
    let m26 = put32 m25 0x10b4 0xffffffff in
    let m27 = put16 m26 0x10cc 3 in let m28 = put_bytes m27 0x10d0 (65 ∷ 98 ∷ 99 ∷ []) in m28

unfoldable pub with_lists : (ℕ → ℕ) → ℕ → ℕ
unfolding put16 put32 put_bytes
with_lists m0 =
    let m1 = put32 m0 0x10d8 0xfffffff0 in
    let m2 = put_bytes m1 0x10dc (108 ∷ 104 ∷ []) in
    let m3 = put16 m2 0x10de 1 in
    let m4 = put32 m3 0x10e0 128 in
    let m5 = put32 m4 0x10e4 0x16566 in
    let m6 = put32 m5 0x10e8 0xfffffff8 in
    let m7 = put32 m6 0x10ec 240 in
    let m8 = put32 m7 0x10f0 0xffffffe0 in
    let m9 = put_bytes m8 0x10f4 (118 ∷ 107 ∷ []) in
    let m10 = put16 m9 0x10f6 1 in
    let m11 = put32 m10 0x10f8 6 in
    let m12 = put32 m11 0x10fc 0x110 in
    let m13 = put32 m12 0x1100 1 in
    let m14 = put16 m13 0x1104 1 in
    let m15 = put_bytes m14 0x1108 (75 ∷ []) in
    let m16 = put32 m15 0x1110 0xfffffff0 in
    let m17 = put_bytes m16 0x1114 (104 ∷ 0 ∷ 105 ∷ 0 ∷ 0 ∷ 0 ∷ []) in
    let m18 = put32 m17 0x1120 0xffffffe0 in
    let m19 = put_bytes m18 0x1124 (115 ∷ 107 ∷ []) in
    let m20 = put32 m19 0x1128 0x120 in
    let m21 = put32 m20 0x112c 0x120 in
    let m22 = put32 m21 0x1130 2 in
    let m23 = put32 m22 0x1134 0 in let m24 = put32 m23 0x1140 0xec0 in m24

unfoldable pub sample_bytes : ℕ → ℕ
unfolding with_header with_keys with_lists
sample_bytes = with_lists (with_keys (with_header (λ i. 0)))

unfoldable pub sample_file : FileImage
unfolding sample_bytes
sample_file = record { size = 0x2000; bytes = sample_bytes }
