-- ===== src/L2fwd/PairCheck.antt =====
-- l2fwd/main.c, check_port_pair_config: the port pairs of --portmap against the port mask.
pub mod Laws
use dpdk_practice.Base.{ℕ, ◌^◌, Bool, not, List, [], ◌∷◌, bit_and, bit_or, ◌==◌, if◌then◌else◌}
use dpdk_practice.Base.Bits.{has_bit}

-- `struct port_pair_params`
pub record PortPair : Type 0 where
  pub port0 : ℕ
  pub port1 : ℕ

-- The message printed before `return -1`, with the port that it names.
pub data PairError : Type 0 where
  not_enabled not_present reused : ℕ → PairError

pub data Checked (A : Type 0) : Type 0 where
  ok : A → Checked A
  err : PairError → Checked A

infixl 5 ◌>>=◌
abbrev pub ◌>>=◌ : {A B : Type 0} → Checked A → (A → Checked B) → Checked B
ok a >>= f = f a
err e >>= f = err e

-- `valid` is rte_eth_dev_is_valid_port; `mask` is l2fwd_enabled_port_mask.
module _ (valid : ℕ → Bool) (mask : ℕ) where
  -- One round of the inner loop: the pair's mask with the port's bit added.
  unfoldable pub check_port : ℕ → ℕ → Checked ℕ
  check_port pair_mask portid =
      if not (has_bit mask portid)
      then err (not_enabled portid)
      else if not (valid portid)
      then err (not_present portid)
      else ok (bit_or pair_mask (2 ^ portid))

  unfoldable pub check_pair : PortPair → Checked ℕ
  check_pair pair = do m ← check_port 0 pair.port0; check_port m pair.port1

  -- The outer loop; the port that it names on reuse is the last of the pair.
  unfoldable pub check_pairs : ℕ → List PortPair → Checked ℕ
  check_pairs config_mask [] = ok config_mask
  check_pairs config_mask (pair ∷ pairs) = do
    pair_mask ← check_pair pair
    if not (bit_and config_mask pair_mask == 0)
        then err (reused pair.port1)
        else check_pairs (bit_or config_mask pair_mask) pairs

  -- The new l2fwd_enabled_port_mask.
  unfoldable pub check_port_pair_config : List PortPair → Checked ℕ
  check_port_pair_config pairs = do config_mask ← check_pairs 0 pairs; ok (bit_and mask config_mask)
