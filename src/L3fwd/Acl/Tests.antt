-- ===== src/L3fwd/Acl/Tests.antt =====
-- Rules and packets for the access control lists.
use dpdk_practice.Base.{
  ◌>>=◌, ℕ, ◌+◌, ◌*◌, ◌%◌, ◌<◌, Bool, true, List, [], ◌∷◌, none, some, length, ltb, ◌==◌,
  if◌then◌else◌, ◌≡◌, refl, arith, rank,
}
use dpdk_practice.Clib.{Str, strtoul}
use dpdk_practice.L3fwd.Routes.{route_lead_char, get_cb_field}
use dpdk_practice.L3fwd.Tx.Copy.{Table}
use dpdk_practice.L3fwd.Acl.Rules.{
  AclRule, cleared_rule, put, cb_fields, parse_range, parse_rest, parse_word, parse_ipv6_addr,
  parse_ipv6_net, parse_cb_ipv6_rule,
}
use dpdk_practice.L3fwd.Acl.Process.{AclSearch, type_none, Classify, acl_process_pkts}
use dpdk_practice.L3fwd.Acl.Process.Laws.{
  SearchesEach, hop_of, result_of, drop_at, acl_process_pkts-lem,
}
use dpdk_practice.L3fwd.Acl.Load.{acl_add_rules}
use dpdk_practice.L3fwd.Acl.Load.Lines.{lines_with}
use dpdk_practice.L3fwd.Acl.Load.Laws.{rules_from, acl_add_rules-eq}

-- "1:2:3:4:5:6:7:8/40 0:0:0:0:0:0:0:9/128 80 : 81 0 : 9 6/255 3"
abbrev rule_text : Str
rule_text =
    49 ∷ 58 ∷ 50 ∷ 58 ∷ 51 ∷ 58 ∷ 52 ∷ 58 ∷ 53 ∷ 58 ∷ 54 ∷ 58 ∷ 55 ∷ 58 ∷ 56 ∷ 47 ∷ 52 ∷ 48 ∷ 32
    ∷ 48 ∷ 58 ∷ 48 ∷ 58 ∷ 48 ∷ 58 ∷ 48 ∷ 58 ∷ 48 ∷ 58 ∷ 48 ∷ 58 ∷ 48 ∷ 58 ∷ 57 ∷ 47 ∷ 49 ∷ 50 ∷ 56
    ∷ 32 ∷ 56 ∷ 48 ∷ 32 ∷ 58 ∷ 32 ∷ 56 ∷ 49 ∷ 32 ∷ 48 ∷ 32 ∷ 58 ∷ 32 ∷ 57 ∷ 32 ∷ 54 ∷ 47 ∷ 50 ∷ 53
    ∷ 53 ∷ 32 ∷ 51 ∷ []

abbrev accepted : AclRule
accepted =
    record (put 0 6 255 (
      put 10 0 9 (
        put 9 80 81 (
          put 8 9 32 (
            put 7 0 32 (
              put 6 0 32 (
                put 5 0 32 (
                  put 4 458760 0
                    (put 3 327686 0 (put 2 196612 8 (put 1 65538 32 cleared_rule))))))))))) {
                      userdata = 3;
                    }

rule_text_taken : parse_cb_ipv6_rule rule_text true cleared_rule ≡ some accepted
unfolding parse_cb_ipv6_rule parse_ipv6_net parse_ipv6_addr parse_word parse_rest parse_range
    cb_fields get_cb_field strtoul
rule_text_taken = refl

-- A comment, two routes and an entry.
abbrev rule_file : List Str
rule_file = (35 ∷ 10 ∷ []) ∷ (82 ∷ rule_text) ∷ (64 ∷ rule_text) ∷ (82 ∷ rule_text) ∷ []

abbrev shift32 : ℕ → ℕ
shift32 n = if n == 3 then 8 else 1

acl_add_rules-eq_example :
    acl_add_rules parse_cb_ipv6_rule shift32 15 500000000 (some rule_file) true true true ≡ (
      if lines_with route_lead_char rule_file == 0
      then none
      else rules_from parse_cb_ipv6_rule shift32 15 500000000 rule_file 0 0 >>= λ r. some (record {
        route_base = r.0;
        route_num = length r.0;
        acl_base = r.1;
        acl_num = length r.1;
      }))
acl_add_rules-eq_example = acl_add_rules-eq parse_cb_ipv6_rule shift32 15 500000000 rule_file

-- Every third packet is IPv4, the others but for every fifth IPv6; packet 10 is denied.
abbrev is_v4 : ℕ → Bool
is_v4 p = p % 3 == 0

abbrev is_v6 : ℕ → Bool
is_v6 p = ltb 0 (p % 5)

abbrev verdict : ℕ → ℕ
verdict p = if p == 10 then 4026531840 else p + 1

abbrev classify_each : Classify
classify_each pkts num res i = if ltb i num then verdict (pkts i) else res i

classify_each-law : SearchesEach classify_each verdict
classify_each-law pkts num res i lt = ground arith

abbrev no_search : AclSearch
no_search = record {
  num_ipv4 = 0;
  num_ipv6 = 0;
  types = λ i. type_none;
  data_ipv4 = λ i. 0;
  res_ipv4 = λ i. 0;
  data_ipv6 = λ i. 0;
  res_ipv6 = λ i. 0;
}

abbrev doubles : Table
doubles i = 2 * i

abbrev sevens : Table
sevens i = 7

acl_process_pkts-lem_example :
    let (nb_drop, hops) =
      acl_process_pkts is_v4 is_v6 classify_each classify_each no_search doubles sevens 20 in
    (nb_drop ≡ rank (drop_at is_v4 is_v6 verdict verdict doubles) 20)
    × ((i : ℕ) → i < 20 → hops i ≡ hop_of (result_of is_v4 is_v6 verdict verdict (doubles i)))
acl_process_pkts-lem_example =
    acl_process_pkts-lem is_v4 is_v6 verdict verdict classify_each classify_each classify_each-law
      classify_each-law no_search doubles sevens 20
