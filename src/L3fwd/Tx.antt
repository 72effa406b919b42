-- ===== src/L3fwd/Tx.antt =====
-- l3fwd/l3fwd.h and l3fwd_common.h: the transmit buffers of a core. A packet (a `struct rte_mbuf *`)
-- is a number; the arrays are functions of the index.
pub mod Copy
pub mod Laws
pub mod Flows
pub mod Packetsx4
use dpdk_practice.Base.{
  ℕ, zero, suc, ◌+◌, ◌-◌, ◌≤◌, ◌%◌, Bool, ◌&&◌, List, [], ◌∷◌, ◌++◌, length, update, ltb, leb, ◌==◌,
  if◌then◌else◌,
}
use dpdk_practice.L3fwd.Tx.Copy.{Table, slice, duff_copy}

-- rte_eth_tx_burst: how many of the packets the port takes, from the front; the rest stays the
-- caller's. The state is the device's own.
pub record TxDevice : Type 1 where
  pub State : Type 0
  pub tx_burst : State → ℕ → ℕ → List ℕ → ℕ × State
  pub tx_burst-le :
      (s : State) (port queue : ℕ) (pkts : List ℕ) → (tx_burst s port queue pkts).0 ≤ length pkts

abbrev pub max_pkt_burst : ℕ
max_pkt_burst = 512

-- `struct l3fwd_tx_stats`
pub record TxStats : Type 0 where
  pub sent : ℕ
  pub dropped : ℕ

module _ (d : TxDevice) where
  open d use {State, tx_burst}

  -- The transmit side of `struct lcore_conf`, with what has left it: `wire` lists the packets that
  -- each port took, `freed` those given to rte_pktmbuf_free.
  pub record Core : Type 0 where
    pub tx_queue_id : ℕ → ℕ
    pub tx_len : ℕ → ℕ
    pub m_table : ℕ → Table
    pub dev : State
    pub wire : ℕ → List ℕ
    pub freed : List ℕ

  -- `do rte_pktmbuf_free(m[n]); while (++n < num)`, by the rounds left.
  pub free_rest : Table → ℕ → ℕ → Core → Core
  free_rest m n zero c = c
  free_rest m n (suc rounds) c =
      free_rest m (n + 1) rounds (record c { freed = c.freed ++ (m n ∷ []) })

  -- rte_eth_tx_burst on the `n` packets of `m`, and the loop behind it; the number that was sent.
  pub burst : Core → ℕ → Table → ℕ → ℕ × Core
  burst c port m n =
      let (sent, dev) = tx_burst c.dev port (c.tx_queue_id port) (slice m 0 n) in
      let taken = record c {
        dev = dev;
        wire = update c.wire port (c.wire port ++ slice m 0 sent);
      } in
      (sent, if ltb sent n then free_rest m sent (n - sent) taken else taken)

  pub send_burst : Core → ℕ → ℕ → ℕ × Core
  send_burst c n port = burst c port (c.m_table port) n

  -- `qconf->tx_mbufs[port].len = len`
  abbrev pub set_len : Core → ℕ → ℕ → Core
  set_len c port len = record c { tx_len = update c.tx_len port len }

  abbrev pub set_table : Core → ℕ → Table → Core
  set_table c port t = record c { m_table = update c.m_table port t }

  -- The buffer has MAX_PKT_BURST places: at a length behind them the code writes behind the array,
  -- which is not modelled, so the theorems ask for a length below it.
  pub send_single_packet : ℕ → Core → ℕ → ℕ → ℕ × Core
  send_single_packet rx_burst_size c m port =
      let len = c.tx_len port in
      let c1 = set_table c port (update (c.m_table port) len m) in
      let len1 = (len + 1) % 65536 in
      if len1 == rx_burst_size
      then (let (sent, c2) = send_burst c1 rx_burst_size port in (sent, set_len c2 port 0))
      else (0, set_len c1 port len1)

  -- Behind a full buffer: send it, then copy the rest of the packets, from index `n` on.
  pub send_full : Core → ℕ → Table → ℕ → ℕ → TxStats × Core
  send_full c port m num n =
      let (sent, c1) = send_burst c max_pkt_burst port in
      let stats : TxStats = record { sent = sent; dropped = max_pkt_burst - sent } in
      let len = num - n in
      if len == 0
      then (stats, set_len c1 port 0)
      else (stats, set_len (set_table c1 port (duff_copy (c1.m_table port) 0 m n len)) port len)

  pub send_packetsx4 : ℕ → Core → ℕ → Table → ℕ → TxStats × Core
  send_packetsx4 tx_burst_size c port m num =
      let len = c.tx_len port in
      if leb tx_burst_size num && len == 0
      then (let (sent, c1) = burst c port m num in
          (record { sent = sent; dropped = num - sent }, c1))
      else (let n = if ltb max_pkt_burst (len + num) then max_pkt_burst - len else num in
          let c1 = set_table c port (duff_copy (c.m_table port) len m 0 n) in
          if len + n == max_pkt_burst
          then send_full c1 port m num n
          else (record { sent = 0; dropped = 0 }, set_len c1 port (len + n)))
