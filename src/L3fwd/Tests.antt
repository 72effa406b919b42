-- ===== src/L3fwd/Tests.antt =====
-- The theorems about l3fwd at concrete inputs.
use dpdk_practice.Base.{
  ℕ, ◌+◌, ◌-◌, ◌%◌, ◌≤◌, ◌<◌, ◌≢◌, true, false, none, some, Option, List, [], ◌∷◌, length, ltb,
  ◌==◌, if◌then◌else◌, ◌≡◌, ◌↔◌, refl, arith,
}
use dpdk_practice.L3fwd.Tx.{TxDevice, Core, send_single_packet, send_packetsx4}
use dpdk_practice.L3fwd.Tx.Copy.{slice}
use dpdk_practice.L3fwd.Tx.Laws.{Delivers, send_single_packet-Delivers}
use dpdk_practice.L3fwd.Tx.Packetsx4.{Sends, send_packetsx4-Sends}
use dpdk_practice.L3fwd.Rfc1812.{
  header_verdict, Frame, bad_port, valid, is_bad_header, is_valid_ipv4_pkt, rfc1812_process,
  decrement_ttl,
}
use dpdk_practice.L3fwd.Rfc1812.Laws.{
  header_sum, is_bad_header-eq-not-is_good_header, is_valid-rfc1812_process,
  header_sum-decrement_ttl,
}
use dpdk_practice.L3fwd.Routes.Em.{EmRule, em_parse_v6_rule}
use dpdk_practice.Clib.{Str, strtoul}
use dpdk_practice.L3fwd.Routes.{Rc, Loaded, lpm_add_rules, count_routes, get_cb_field}
use dpdk_practice.L3fwd.Routes.Laws.{rules_of, as_loaded, lpm_add_rules-eq}
use dpdk_practice.L3fwd.Routes.Lpm.{
  LpmRouteRule, lpm_parse_v4_rule, parse_ipv4_addr_mask, split_mask,
}
use dpdk_practice.L3fwd.Config.{
  LcoreParams, RxQueues, count_rx_queues, get_port_n_rx_queues, init_lcore_rx_queues, parse_config,
}
use dpdk_practice.L3fwd.Config.Queues.{
  queues_of, get_port_n_rx_queues-lem, init_lcore_rx_queues-lem,
}
use dpdk_practice.L3fwd.Config.Triples.{Fits, parse_config-Fits}

-- A device that takes at most three packets of a burst.
abbrev slow : TxDevice
slow = record {
  State = ℕ;
  tx_burst = λ s port queue pkts. (if ltb 3 (length pkts) then 3 else length pkts, s + 1);
  tx_burst-le = λ s port queue pkts. ground arith;
}

abbrev waiting : Core slow
waiting = record {
  tx_queue_id = λ port. 0;
  tx_len = λ port. 2;
  m_table = λ port i. 100 + i;
  dev = 0;
  wire = λ port. [];
  freed = [];
}

abbrev burst_table : ℕ → ℕ
burst_table i = 500 + i

send_packetsx4-Sends_example :
    Sends slow waiting 1
      (slice burst_table 0 511)
      (send_packetsx4 slow 32 waiting 1 burst_table 511)
send_packetsx4-Sends_example =
    send_packetsx4-Sends slow 32 waiting 1 burst_table 511 (omega arith) (omega arith) (omega arith)

send_single_packet-Delivers_example :
    let (sent, c') = send_single_packet slow 3 waiting 77 1 in
    Delivers slow waiting c' 1 (77 ∷ []) sent (if waiting.tx_len 1 + 1 == 3 then 3 - sent else 0)
send_single_packet-Delivers_example =
    send_single_packet-Delivers slow 3 waiting 77 1 (omega arith) (omega arith)

-- A header of 20 bytes with total length 20 and time to live 64.
abbrev packet : Frame
packet i =
    if i == 14
    then 69
    else if i == 17
    then 20
    else if i == 22
    then 64
    else if i == 24
    then 10
    else 0

packet-AreBytes : (i : ℕ) → packet i < 256
packet-AreBytes i = ground arith

is_bad_header-eq-not-is_good_header_example : is_bad_header packet ≡ false
is_bad_header-eq-not-is_good_header_example =
    is_bad_header-eq-not-is_good_header packet packet-AreBytes

abbrev no_cksum : Frame → ℕ
no_cksum f = 0

seven_good : 7 ≢ bad_port
seven_good h = omega arith

is_valid-rfc1812_process_example :
    ((is_valid_ipv4_pkt no_cksum 60 false packet).0 ≡ valid)
    ↔ ((rfc1812_process true packet 7).1 ≡ 7)
is_valid-rfc1812_process_example =
    is_valid-rfc1812_process no_cksum 60 7 packet packet-AreBytes (omega arith) seven_good

header_sum-decrement_ttl_example :
    (header_sum (decrement_ttl packet) + 0) % 65535 ≡ header_sum packet % 65535
header_sum-decrement_ttl_example = header_sum-decrement_ttl packet packet-AreBytes (omega arith)

abbrev eth_of : ℕ → Frame
eth_of port i = port + i

abbrev triples : List LcoreParams
triples =
    record { port_id = 0; queue_id = 0; lcore_id = 1 }
    ∷ record { port_id = 1; queue_id = 0; lcore_id = 1 }
    ∷ record { port_id = 0; queue_id = 1; lcore_id = 2 }
    ∷ []

two_queues : get_port_n_rx_queues 0 triples ≡ some 2
unfolding get_port_n_rx_queues count_rx_queues
two_queues = refl

get_port_n_rx_queues-lem_example : queues_of 0 triples ≡ 0 ∷ 1 ∷ []
get_port_n_rx_queues-lem_example = get_port_n_rx_queues-lem 0 2 triples two_queues

abbrev no_queues : RxQueues
no_queues lcore = []

no_queues-small : (l : ℕ) → length (no_queues l) ≤ 16
no_queues-small l = omega arith

triples_taken : (init_lcore_rx_queues triples no_queues).0 ≡ true
unfolding init_lcore_rx_queues
triples_taken = refl

init_lcore_rx_queues-lem_example :
    ((init_lcore_rx_queues triples no_queues).1 1 ≡ (0, 0) ∷ (1, 0) ∷ [])
    × (length ((init_lcore_rx_queues triples no_queues).1 1) ≤ 16)
init_lcore_rx_queues-lem_example =
    init_lcore_rx_queues-lem triples no_queues no_queues-small triples_taken 1

-- A splitter for strings of three characters between commas.
abbrev split_triple : Str → ℕ → ℕ → List Str
split_triple (a ∷ c0 ∷ b ∷ c1 ∷ c ∷ []) n dlm = (a ∷ []) ∷ (b ∷ []) ∷ (c ∷ []) ∷ []
split_triple s n dlm = s ∷ []

-- "(0,1,2)"
abbrev config_text : Str
config_text = 40 ∷ 48 ∷ 44 ∷ 49 ∷ 44 ∷ 50 ∷ 41 ∷ []

parse_config-Fits_example :
    Fits 32 1024 128 split_triple (parse_config 32 1024 128 split_triple config_text).1
parse_config-Fits_example = parse_config-Fits 32 1024 128 split_triple config_text

-- The one address "a" reads as 10.0.0.1, in network order.
abbrev read_a : Str → Option ℕ
read_a (c ∷ []) = if c == 97 then some 16777226 else none
read_a s = none

abbrev zero_rule : LpmRouteRule ℕ
zero_rule = record { ip = 0; depth = 0; if_out = 0 }

-- "a/24 3\n"
abbrev rule_text : Str
rule_text = 97 ∷ 47 ∷ 50 ∷ 52 ∷ 32 ∷ 51 ∷ 10 ∷ []

abbrev parsed : LpmRouteRule ℕ
parsed = record { ip = 167772161; depth = 24; if_out = 3 }

rule_text_taken : lpm_parse_v4_rule read_a rule_text zero_rule ≡ (Rc.success, parsed)
unfolding lpm_parse_v4_rule parse_ipv4_addr_mask split_mask get_cb_field strtoul
rule_text_taken = refl

-- A comment, a blank line and two rules.
abbrev rule_file : List Str
rule_file = (35 ∷ 82 ∷ 10 ∷ []) ∷ (10 ∷ []) ∷ (82 ∷ rule_text) ∷ (82 ∷ rule_text) ∷ []

lpm_add_rules-eq_example :
    lpm_add_rules (lpm_parse_v4_rule read_a) zero_rule (some rule_file) true true ≡ (
      if count_routes rule_file 0 == 0
      then Loaded.failed
      else as_loaded
          (lpm_parse_v4_rule read_a)
          zero_rule
          []
          (rules_of (lpm_parse_v4_rule read_a) zero_rule rule_file))
lpm_add_rules-eq_example = lpm_add_rules-eq (lpm_parse_v4_rule read_a) zero_rule rule_file

abbrev ten_cksum : Frame → ℕ
ten_cksum f = 10

packet_verified : (is_valid_ipv4_pkt ten_cksum 60 true packet).0 ≡ valid
unfolding is_valid_ipv4_pkt header_verdict
packet_verified = refl

abbrev mostly_five : ℕ → ℕ
mostly_five i = if i == 12 then 6 else 5

abbrev zero_em_rule : EmRule ℕ
zero_em_rule = record {
  key = record { ip_dst = 0; ip_src = 0; port_dst = 0; port_src = 0; proto = 0 };
  if_out = 0;
}

-- "a a 7 9 6 2\n"
abbrev em_rule_text : Str
em_rule_text = 97 ∷ 32 ∷ 97 ∷ 32 ∷ 55 ∷ 32 ∷ 57 ∷ 32 ∷ 54 ∷ 32 ∷ 50 ∷ 10 ∷ []

abbrev em_parsed : EmRule ℕ
em_parsed = record {
  key = record { ip_dst = 16777226; ip_src = 16777226; port_dst = 7; port_src = 9; proto = 6 };
  if_out = 2;
}

em_rule_text_taken : em_parse_v6_rule read_a em_rule_text zero_em_rule ≡ (Rc.success, em_parsed)
unfolding em_parse_v6_rule get_cb_field strtoul
em_rule_text_taken = refl
