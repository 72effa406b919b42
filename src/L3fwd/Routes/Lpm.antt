-- ===== src/L3fwd/Routes/Lpm.antt =====
-- l3fwd/lpm_route_parse.c: the rules of the longest-prefix-match tables.
pub mod Fields
use dpdk_practice.Base.{
  ◌>>=◌, ℕ, Bool, true, false, List, [], ◌∷◌, Option, none, some, map, length, if◌then◌else◌,
}
use dpdk_practice.Clib.{Str, strtok_r, tokens}
use dpdk_practice.L3fwd.Routes.{Rc, get_cb_field, ntohl, Loaded, lpm_add_rules}

-- `struct lpm_route_rule`, with the member of its union that is used.
pub record LpmRouteRule (A : Type 0) : Type 0 where
  pub ip : A
  pub depth : ℕ
  pub if_out : ℕ

-- The delimiters " \t\n" and "/".
abbrev pub field_dlm : Str
field_dlm = 32 ∷ 9 ∷ 10 ∷ []

abbrev pub mask_dlm : Str
mask_dlm = 47 ∷ []

-- The text in front of the first "/" and the token behind it.
unfoldable pub split_mask : Str → Option (Str × Str)
split_mask s = do (sa, sv) ← strtok_r mask_dlm s; (sm, sv') ← strtok_r mask_dlm sv; some (sa, sm)

-- inet_pton for one family; the address it writes where it returns 1.
module _ (inet_pton : Str → Option ℕ) where
  unfoldable pub parse_ipv4_addr_mask : Str → LpmRouteRule ℕ → Rc × LpmRouteRule ℕ
  parse_ipv4_addr_mask s v = elim (split_mask s) [
    | none ↦ (Rc.einval, v)
    | some (sa, sm) ↦ elim (inet_pton sa) [
      | none ↦ (Rc.einval, v)
      | some ipv4 ↦ elim (get_cb_field sm 0 32 0) [
        | none ↦ (Rc.einval, record v { ip = ipv4 })
        | some (mask, rest) ↦ (Rc.success, record v { ip = ntohl ipv4; depth = mask })
      ]
    ]
  ]

  unfoldable pub lpm_parse_v4_rule : Str → LpmRouteRule ℕ → Rc × LpmRouteRule ℕ
  unfolding parse_ipv4_addr_mask
  lpm_parse_v4_rule str v = elim (tokens field_dlm 2 str) [
    | some (dst_addr ∷ if_out ∷ []) ↦
        (let (rc, w) = parse_ipv4_addr_mask dst_addr v in
          elim (get_cb_field if_out 0 255 0) [
            | none ↦ (Rc.einval, w)
            | some (port, rest) ↦ (rc, record w { if_out = port })
          ])
    | _ ↦ (Rc.einval, v)
  ]

module _ {Ip6 : Type 0} (inet_pton : Str → Option Ip6) where
  pub parse_ipv6_addr_mask : Str → LpmRouteRule Ip6 → Rc × LpmRouteRule Ip6
  parse_ipv6_addr_mask s v = elim (split_mask s) [
    | none ↦ (Rc.einval, v)
    | some (sa, sm) ↦ elim (inet_pton sa) [
      | none ↦ (Rc.einval, v)
      | some ipv6 ↦ elim (get_cb_field sm 0 128 0) [
        | none ↦ (Rc.einval, record v { ip = ipv6 })
        | some (mask, rest) ↦ (Rc.success, record v { ip = ipv6; depth = mask })
      ]
    ]
  ]

  -- lpm_parse_v6_net only passes on to parse_ipv6_addr_mask.
  pub lpm_parse_v6_rule : Str → LpmRouteRule Ip6 → Rc × LpmRouteRule Ip6
  unfolding parse_ipv6_addr_mask
  lpm_parse_v6_rule str v = elim (tokens field_dlm 2 str) [
    | some (dst_addr ∷ if_out ∷ []) ↦
        (let (rc, w) = parse_ipv6_addr_mask dst_addr v in
          elim (get_cb_field if_out 0 255 0) [
            | none ↦ (Rc.einval, w)
            | some (port, rest) ↦ (rc, record w { if_out = port })
          ])
    | _ ↦ (Rc.einval, v)
  ]

-- The route arrays and their sizes.
pub record LpmRoutes (Ip6 : Type 0) : Type 0 where
  pub route_base_v4 : List (LpmRouteRule ℕ)
  pub route_num_v4 : ℕ
  pub route_base_v6 : List (LpmRouteRule Ip6)
  pub route_num_v6 : ℕ

abbrev pub lpm_free_routes : {Ip6 : Type 0} → LpmRoutes Ip6
lpm_free_routes = record {
  route_base_v4 = [];
  route_num_v4 = 0;
  route_base_v6 = [];
  route_num_v6 = 0;
}

-- The copies of the default arrays.
module _ {Ip6 : Type 0} where
  pub lpm_add_default_v4_rules : List (LpmRouteRule ℕ) → LpmRoutes Ip6 → LpmRoutes Ip6
  lpm_add_default_v4_rules array r = record r {
    route_base_v4 = map (λ e. record { ip = e.ip; depth = e.depth; if_out = e.if_out }) array;
    route_num_v4 = length array;
  }

  pub lpm_add_default_v6_rules : List (LpmRouteRule Ip6) → LpmRoutes Ip6 → LpmRoutes Ip6
  lpm_add_default_v6_rules array r = record r {
    route_base_v6 = map (λ e. record { ip = e.ip; depth = e.depth; if_out = e.if_out }) array;
    route_num_v6 = length array;
  }

-- A rule file by its name: none where fopen fails.
abbrev pub Files : Type 0
Files = Str → Option (List Str)

-- `name4` and `name6` are rule_ipv4_name and rule_ipv6_name, none for NULL; the two arrays are the
-- default ones. `seeks` and `allocates` say whether fseek and calloc succeed. Where the program exits, no routes are left.
module _ {Ip6 : Type 0} (pton4 : Str → Option ℕ) (pton6 : Str → Option Ip6) (any6 : Ip6)
    (seeks allocates : Str → Bool) where
  pub read_config_files_lpm :
      List (LpmRouteRule ℕ)
      → List (LpmRouteRule Ip6)
      → Files
      → Option Str
      → Option Str
      → Option (LpmRoutes Ip6)
  unfolding lpm_add_rules
  read_config_files_lpm default4 default6 files (some name4) (some name6) =
      elim (lpm_add_rules (lpm_parse_v4_rule pton4) (record { ip = 0; depth = 0; if_out = 0 })
        (files name4) (seeks name4) (allocates name4)) [
          | Loaded.failed ↦ none
          | Loaded.loaded v4 num4 ↦
              elim (lpm_add_rules (lpm_parse_v6_rule pton6)
                (record { ip = any6; depth = 0; if_out = 0 }) (files name6) (seeks name6)
                (allocates name6)) [
                  | Loaded.failed ↦ none
                  | Loaded.loaded v6 num6 ↦ some (record {
                    route_base_v4 = v4;
                    route_num_v4 = num4;
                    route_base_v6 = v6;
                    route_num_v6 = num6;
                  })
                ]
        ]
  read_config_files_lpm default4 default6 files _ _ =
      some (lpm_add_default_v6_rules default6 (lpm_add_default_v4_rules default4 lpm_free_routes))
