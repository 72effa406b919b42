-- ===== src/L3fwd/Routes/Em.antt =====
-- l3fwd/em_route_parse.c: the rules of the exact-match tables.
pub mod Bounds
use dpdk_practice.Base.{ℕ, Bool, List, [], ◌∷◌, Option, none, some, map, length}
use dpdk_practice.Clib.{Str, tokens}
use dpdk_practice.L3fwd.Routes.{Rc, get_cb_field, ntohl, Loaded, em_add_rules}
use dpdk_practice.L3fwd.Routes.Lpm.{field_dlm, Files}

-- `struct ipv4_5tuple` and `struct ipv6_5tuple`, by the type of the addresses.
pub record FiveTuple (A : Type 0) : Type 0 where
  pub ip_dst : A
  pub ip_src : A
  pub port_dst : ℕ
  pub port_src : ℕ
  pub proto : ℕ

pub record EmRule (A : Type 0) : Type 0 where
  pub key : FiveTuple A
  pub if_out : ℕ

-- The four numbers behind the addresses, in the order in which they are read.
abbrev pub parse_numbers : {A : Type 0} → Str → Str → Str → Str → EmRule A → Rc × EmRule A
parse_numbers dst_port src_port proto if_out v = elim (get_cb_field src_port 0 65535 0) [
  | none ↦ (Rc.einval, v)
  | some (src, _) ↦ elim (get_cb_field dst_port 0 65535 0) [
    | none ↦ (Rc.einval, record v { key = record v.key { port_src = src } })
    | some (dst, _) ↦ elim (get_cb_field proto 0 255 0) [
      | none ↦ (Rc.einval, record v { key = record v.key { port_src = src; port_dst = dst } })
      | some (p, _) ↦
          (let key = record v.key { port_src = src; port_dst = dst; proto = p } in
            elim (get_cb_field if_out 0 255 0) [
              | none ↦ (Rc.einval, record v { key = key })
              | some (out, _) ↦ (Rc.success, record { key = key; if_out = out })
            ])
    ]
  ]
]

-- inet_pton returns 0 for an address that it cannot read, and this function passes the 0 on, which
-- its caller takes for success.
module _ (inet_pton : Str → Option ℕ) where
  pub em_parse_v4_rule : Str → EmRule ℕ → Rc × EmRule ℕ
  em_parse_v4_rule str v = elim (tokens field_dlm 6 str) [
    | some (dst_addr ∷ src_addr ∷ dst_port ∷ src_port ∷ proto ∷ if_out ∷ []) ↦
        elim (inet_pton dst_addr) [
          | none ↦ (Rc.success, record v { key = record v.key { ip_dst = ntohl v.key.ip_dst } })
          | some dst ↦ elim (inet_pton src_addr) [
            | none ↦ (
              Rc.success,
              record v { key = record v.key { ip_dst = ntohl dst; ip_src = ntohl v.key.ip_src } },
            )
            | some src ↦
                parse_numbers dst_port src_port proto if_out
                  (record v { key = record v.key { ip_dst = ntohl dst; ip_src = ntohl src } })
          ]
        ]
    | _ ↦ (Rc.einval, v)
  ]

module _ {Ip6 : Type 0} (inet_pton : Str → Option Ip6) where
  unfoldable pub em_parse_v6_rule : Str → EmRule Ip6 → Rc × EmRule Ip6
  em_parse_v6_rule str v = elim (tokens field_dlm 6 str) [
    | some (dst_addr ∷ src_addr ∷ dst_port ∷ src_port ∷ proto ∷ if_out ∷ []) ↦
        elim (inet_pton dst_addr) [
          | none ↦ (Rc.einval, v)
          | some dst ↦ elim (inet_pton src_addr) [
            | none ↦ (Rc.einval, record v { key = record v.key { ip_dst = dst } })
            | some src ↦
                parse_numbers dst_port src_port proto if_out
                  (record v { key = record v.key { ip_dst = dst; ip_src = src } })
          ]
        ]
    | _ ↦ (Rc.einval, v)
  ]

pub record EmRoutes (Ip6 : Type 0) : Type 0 where
  pub em_route_base_v4 : List (EmRule ℕ)
  pub route_num_v4 : ℕ
  pub em_route_base_v6 : List (EmRule Ip6)
  pub route_num_v6 : ℕ

abbrev pub em_free_routes : {Ip6 : Type 0} → EmRoutes Ip6
em_free_routes = record {
  em_route_base_v4 = [];
  route_num_v4 = 0;
  em_route_base_v6 = [];
  route_num_v6 = 0;
}

abbrev pub copy_rule : {A : Type 0} → EmRule A → EmRule A
copy_rule e = record {
  key = record {
    ip_dst = e.key.ip_dst;
    ip_src = e.key.ip_src;
    port_dst = e.key.port_dst;
    port_src = e.key.port_src;
    proto = e.key.proto;
  };
  if_out = e.if_out;
}

module _ {Ip6 : Type 0} where
  pub em_add_default_v4_rules : List (EmRule ℕ) → EmRoutes Ip6 → EmRoutes Ip6
  em_add_default_v4_rules array r = record r {
    em_route_base_v4 = map copy_rule array;
    route_num_v4 = length array;
  }

  pub em_add_default_v6_rules : List (EmRule Ip6) → EmRoutes Ip6 → EmRoutes Ip6
  em_add_default_v6_rules array r = record r {
    em_route_base_v6 = map copy_rule array;
    route_num_v6 = length array;
  }

abbrev pub zero_key : {A : Type 0} → A → FiveTuple A
zero_key any = record { ip_dst = any; ip_src = any; port_dst = 0; port_src = 0; proto = 0 }

module _ {Ip6 : Type 0} (pton4 : Str → Option ℕ) (pton6 : Str → Option Ip6) (any6 : Ip6)
    (seeks allocates : Str → Bool) where
  pub read_config_files_em :
      List (EmRule ℕ) → List (EmRule Ip6) → Files → Option Str → Option Str → Option (EmRoutes Ip6)
  read_config_files_em default4 default6 files (some name4) (some name6) =
      elim (em_add_rules (em_parse_v4_rule pton4) (record { key = zero_key 0; if_out = 0 })
        (files name4) (seeks name4) (allocates name4)) [
          | Loaded.failed ↦ none
          | Loaded.loaded v4 num4 ↦
              elim (em_add_rules (em_parse_v6_rule pton6)
                (record { key = zero_key any6; if_out = 0 }) (files name6) (seeks name6)
                (allocates name6)) [
                  | Loaded.failed ↦ none
                  | Loaded.loaded v6 num6 ↦ some (record {
                    em_route_base_v4 = v4;
                    route_num_v4 = num4;
                    em_route_base_v6 = v6;
                    route_num_v6 = num6;
                  })
                ]
        ]
  read_config_files_em default4 default6 files _ _ =
      some (em_add_default_v6_rules default6 (em_add_default_v4_rules default4 em_free_routes))
