-- ===== src/L3fwd/Em/Populate.antt =====
-- l3fwd/l3fwd_em.c: populate_ipv4_flow_into_table and populate_ipv6_flow_into_table.
pub mod Laws
use dpdk_practice.Base.{
  ℕ, ◌+◌, ◌*◌, Bool, true, List, [], ◌∷◌, Option, none, some, ◌==◌, if◌then◌else◌, not, update,
  bit_and, ◌>>=◌,
}
use dpdk_practice.L3fwd.Rfc1812.{Frame, swap16}
use dpdk_practice.L3fwd.Routes.{ntohl}
use dpdk_practice.L3fwd.Routes.Em.{FiveTuple, EmRule}
use dpdk_practice.L3fwd.Tx.Copy.{Table}
use dpdk_practice.L3fwd.Lpm.{load32}
use dpdk_practice.L3fwd.Em.{Key, Hash}

-- The key as 32-bit words, in network order but for the place of the protocol.
unfoldable pub convert_ipv4_5tuple : FiveTuple ℕ → Key
convert_ipv4_5tuple key1 =
    key1.proto * 256
    ∷ ntohl key1.ip_src
    ∷ ntohl key1.ip_dst
    ∷ (swap16 key1.port_src + swap16 key1.port_dst * 65536)
    ∷ []

unfoldable pub convert_ipv6_5tuple : FiveTuple Frame → Key
convert_ipv6_5tuple key1 =
    key1.proto * 65536
    ∷ load32 key1.ip_src 0
    ∷ load32 key1.ip_src 4
    ∷ load32 key1.ip_src 8
    ∷ load32 key1.ip_src 12
    ∷ load32 key1.ip_dst 0
    ∷ load32 key1.ip_dst 4
    ∷ load32 key1.ip_dst 8
    ∷ load32 key1.ip_dst 12
    ∷ (swap16 key1.port_src + swap16 key1.port_dst * 65536)
    ∷ 0
    ∷ 0
    ∷ []

-- `shift n` is `1 << n`, which C only says for small `n`; `has_info` says that
-- rte_eth_dev_info_get succeeds for a port.
module _ (h : Hash) (shift : ℕ → ℕ) (enabled_port_mask : ℕ) (has_info : ℕ → Bool) where
  abbrev pub is_port_enabled : ℕ → Bool
  is_port_enabled if_out = not (bit_and (shift if_out) enabled_port_mask == 0)

  module _ {A : Type 0} (convert : FiveTuple A → Key) where
    -- The rest of the loop's body for a rule that is not skipped; nothing where the program ends.
    unfoldable pub add_flow : EmRule A → h.State × Table → Option (h.State × Table)
    add_flow entry (table, out_if) = do
      (ret, added) ← h.add_key table (convert entry.key)
      if has_info entry.if_out then some (added, update out_if ret entry.if_out) else none

    unfoldable pub populate_flow : List (EmRule A) → h.State × Table → Option (h.State × Table)
    populate_flow [] s = some s
    populate_flow (entry ∷ rules) s = do
      next ← if is_port_enabled entry.if_out then add_flow entry s else some s
      populate_flow rules next

  unfoldable pub populate_ipv4_flow_into_table :
      List (EmRule ℕ) → h.State × Table → Option (h.State × Table)
  populate_ipv4_flow_into_table = populate_flow convert_ipv4_5tuple

  unfoldable pub populate_ipv6_flow_into_table :
      List (EmRule Frame) → h.State × Table → Option (h.State × Table)
  populate_ipv6_flow_into_table = populate_flow convert_ipv6_5tuple
