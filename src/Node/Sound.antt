-- ===== src/Node/Sound.antt =====
-- What a successful `hivex_node_name` returns.
use hivex.Base.{ℕ, ◌+◌, ◌≤◌, ◌≡◌, arith, Bool, List, length, leb→le}
use hivex.Hive.{Hive, ok}
use hivex.Hive.Reader.Laws.{after, after_require}
use hivex.Hive.Bytes.{get16}
use hivex.Hive.Memory.Range.{IsRange, load_bytes-IsRange}
use hivex.Hive.Memory.Laws.{load16-eq-ok}
use hivex.Layout.Nk
use hivex.Block.{block_len}
use hivex.Block.Laws.{IsBlock, check_nk-eq-ok}
use hivex.Node.{node_name}

-- The name of the node.
pub record IsName (h : Hive) (node : ℕ) (name : List ℕ) : Type 0 where
  pub node_is : IsBlock h node b'n' b'k'
  pub length_is : length name ≡ get16 h.mem (node + Nk.name_len)
  pub range : IsRange h (node + Nk.name) name
  pub seg_len : ℕ
  pub used : Bool
  pub block : block_len node h ≡ ok (seg_len, used)
  pub in_block : Nk.name + length name ≤ seg_len

-- When `hivex_node_name` succeeds, the node is a valid nk record, and the name has the length that
-- the record says and is the bytes of the record's last field, inside its block and the file.
pub node_name-IsName :
    (h : Hive) (node : ℕ) (name : List ℕ) → node_name node h ≡ ok name → IsName h node name
unfolding node_name
node_name-IsName h node name e = after h _ _ e λ _ nk e1. after h _ _ e1 λ len read e2.
    after h _ _ e2 λ (seg_len, used) seg e3. after_require h _ _ _ e3 λ fits e4.
      after h _ _ e4 λ _ _ e5.
        let (_, word) = load16-eq-ok _ h read in
        let (range, count) = load_bytes-IsRange h _ _ e5 in
        let room = leb→le _ _ fits in
        record {
          node_is = check_nk-eq-ok h node nk;
          length_is = omega (arith, count, word);
          range = range;
          seg_len = seg_len;
          used = used;
          block = seg;
          in_block = omega (arith, count, room);
        }
