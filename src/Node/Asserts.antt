-- ===== src/Node/Asserts.antt =====
-- The reads of the times of a hive and a node assert nothing.
use hivex.Base.{ℕ, ◌≢◌, arith, Bool, true, false, ◌==◌, if◌then◌else◌, Bool-cases, inl, inr}
use hivex.Hive.{Hive, abort, fault}
use hivex.Hive.Reader.{pure}
use hivex.Hive.Reader.Ends.{Avoids, bind-Avoids, require-Avoids, load8-Avoids, load64-Avoids}
use hivex.Block.{is_valid_block, block_id_eq, is_block, check_nk}
use hivex.Node.{timestamp_check, hivex_last_modified, node_timestamp}

abort≢fault : abort ≢ fault
abort≢fault e = cc

module _ (h : Hive) where
  timestamp_check-Avoids : (ticks : ℕ) → Avoids abort (timestamp_check ticks h)
  unfolding timestamp_check
  timestamp_check-Avoids ticks =
      bind-Avoids abort h _ _ (require-Avoids abort h _ _) λ u p q. ground arith

  block_id_eq-Avoids : (off a b : ℕ) → Avoids abort (block_id_eq off a b h)
  unfolding block_id_eq
  block_id_eq-Avoids off a b = bind-Avoids abort h _ _ (load8-Avoids abort h abort≢fault _) λ x p.
      elim (Bool-cases (x == a)) [
        | inl e ↦
            rw e (
              bind-Avoids abort h _ _ (load8-Avoids abort h abort≢fault _) λ y r. λ q. ground arith)
        | inr e ↦ rw e (λ q. ground arith)
      ]

  check_nk-Avoids : (node : ℕ) → Avoids abort (check_nk node h)
  unfolding check_nk is_block
  check_nk-Avoids node =
      bind-Avoids abort h _ _ (by_validity (is_valid_block h node))
        λ nk p. require-Avoids abort h _ _
    where
      by_validity :
          (b : Bool) → Avoids abort ((if b then block_id_eq node b'n' b'k' else pure false) h)
      by_validity true = block_id_eq-Avoids node b'n' b'k'
      by_validity false = λ q. ground arith

  pub node_timestamp-Avoids : (node : ℕ) → Avoids abort (node_timestamp node h)
  unfolding node_timestamp
  node_timestamp-Avoids node = bind-Avoids abort h _ _ (check_nk-Avoids node) λ u p.
      bind-Avoids abort h _ _ (load64-Avoids abort h abort≢fault _)
        λ ret q. timestamp_check-Avoids ret

  pub hivex_last_modified-Avoids : Avoids abort (hivex_last_modified h)
  unfolding hivex_last_modified
  hivex_last_modified-Avoids = timestamp_check-Avoids h.last_modified
