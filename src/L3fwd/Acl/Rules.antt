-- ===== src/L3fwd/Acl/Rules.antt =====
-- l3fwd/l3fwd_acl.c: the rules of the access control lists, as parse_cb_ipv4vlan_rule and
-- parse_cb_ipv6_rule read them from a line. A rule that is refused ends the program, so what has
-- been written of it then is left out.
pub mod Ranges
use dpdk_practice.Base.{
  ◌>>=◌, ℕ, zero, suc, ◌+◌, ◌-◌, ◌*◌, Bool, ◌||◌, not, List, [], ◌∷◌, Option, none, some, get_or,
  update, ltb, leb, ◌==◌, if◌then◌else◌,
}
use dpdk_practice.Clib.{Str, tokens}
use dpdk_practice.L3fwd.Routes.{get_cb_field, ntohl}
use dpdk_practice.L3fwd.Routes.Lpm.{field_dlm, split_mask}

-- `struct rte_acl_field`
pub record AclField : Type 0 where
  pub value : ℕ
  pub mask_range : ℕ

-- `struct acl4_rule` and `struct acl6_rule`, whose fields are counted by the enums below.
pub record AclRule : Type 0 where
  pub category_mask : ℕ
  pub priority : ℕ
  pub userdata : ℕ
  pub field : ℕ → AclField

-- The rule of all zero bytes that calloc gives.
abbrev pub cleared_rule : AclRule
cleared_rule = record {
  category_mask = 0;
  priority = 0;
  userdata = 0;
  field = λ i. record { value = 0; mask_range = 0 };
}

-- PROTO_FIELD_IPV4, SRC_FIELD_IPV4, ... and the same for IPv6, where an address has four fields.
pub record FieldIndexes : Type 0 where
  pub proto_field : ℕ
  pub src_field : ℕ
  pub dst_field : ℕ
  pub srcp_field : ℕ
  pub dstp_field : ℕ

abbrev pub ipv4_fields : FieldIndexes
ipv4_fields = record {
  proto_field = 0;
  src_field = 1;
  dst_field = 2;
  srcp_field = 3;
  dstp_field = 4;
}

abbrev pub ipv6_fields : FieldIndexes
ipv6_fields = record {
  proto_field = 0;
  src_field = 1;
  dst_field = 5;
  srcp_field = 9;
  dstp_field = 10;
}

abbrev pub put : ℕ → ℕ → ℕ → AclRule → AclRule
put i value mask_range v = record v {
  field = update v.field i (record { value = value; mask_range = mask_range });
}

-- CB_FLD_SRC_ADDR to CB_FLD_USERDATA, by their place in a line.
pub record CbFields : Type 0 where
  pub src_addr : Str
  pub dst_addr : Str
  pub src_port_low : Str
  pub src_port_dlm : Str
  pub src_port_high : Str
  pub dst_port_low : Str
  pub dst_port_dlm : Str
  pub dst_port_high : Str
  pub proto : Str
  pub userdata : Str

-- The tokens of a line; userdata stands only in a route.
unfoldable pub cb_fields : Str → Bool → Option CbFields
cb_fields str has_userdata = do
  ins ← tokens field_dlm (if has_userdata then 10 else 9) str
  some (record {
    src_addr = get_or ins 0 [];
    dst_addr = get_or ins 1 [];
    src_port_low = get_or ins 2 [];
    src_port_dlm = get_or ins 3 [];
    src_port_high = get_or ins 4 [];
    dst_port_low = get_or ins 5 [];
    dst_port_dlm = get_or ins 6 [];
    dst_port_high = get_or ins 7 [];
    proto = get_or ins 8 [];
    userdata = get_or ins 9 [];
  })

-- strncmp with cb_port_delim over its two bytes, the NUL included.
abbrev pub is_port_delim : Str → Bool
is_port_delim [] = Bool.false
is_port_delim (c ∷ []) = c == 58
is_port_delim (c ∷ d ∷ s) = Bool.false

-- The two ends of a port range, and the delimiter between them.
unfoldable pub parse_range : Str → Str → Str → Option (ℕ × ℕ)
parse_range low_text dlm high_text = do
  (low, _) ← get_cb_field low_text 0 65535 0
  (high, _) ← get_cb_field high_text 0 65535 0
  if is_port_delim dlm then some (low, high) else none

-- The ports, the protocol and the output port.
unfoldable pub parse_rest : FieldIndexes → CbFields → Bool → AclRule → Option AclRule
parse_rest at ins has_userdata v = do
  (src_low, src_high) ← parse_range ins.src_port_low ins.src_port_dlm ins.src_port_high
  (dst_low, dst_high) ← parse_range ins.dst_port_low ins.dst_port_dlm ins.dst_port_high
  ordered ← if ltb src_high src_low || ltb dst_high dst_low then none else some Bool.true
  (proto, rest) ← get_cb_field ins.proto 0 255 47
  (proto_mask, _) ← get_cb_field rest 0 255 0
  userdata ←
      if has_userdata
      then (get_cb_field ins.userdata 0 4294967295 0 >>= λ n. some n.0)
      else some v.userdata
  some
      (record (put at.proto_field proto proto_mask
        (put at.dstp_field dst_low dst_high (put at.srcp_field src_low src_high v))) {
          userdata = userdata;
        })

-- inet_pton for IPv4.
module _ (inet_pton : Str → Option ℕ) where
  -- The address in host order, and the mask length.
  pub parse_ipv4_net : Str → Option (ℕ × ℕ)
  parse_ipv4_net text = do
    (sa, sm) ← split_mask text
    addr ← inet_pton sa
    (mask_len, _) ← get_cb_field sm 0 32 0
    some (ntohl addr, mask_len)

  pub parse_cb_ipv4vlan_rule : Str → Bool → AclRule → Option AclRule
  parse_cb_ipv4vlan_rule str has_userdata v = do
    ins ← cb_fields str has_userdata
    (src, src_mask) ← parse_ipv4_net ins.src_addr
    (dst, dst_mask) ← parse_ipv4_net ins.dst_addr
    parse_rest ipv4_fields ins has_userdata (put 2 dst dst_mask (put 1 src src_mask v))

-- Two groups of the address make a word.
unfoldable pub parse_word : Str → ℕ → Option (ℕ × Str)
parse_word text dlm = do
  (high, behind) ← get_cb_field text 16 65535 58
  (low, rest) ← get_cb_field behind 16 65535 dlm
  some (high * 65536 + low, rest)

-- The four words, and what is behind the delimiter.
unfoldable pub parse_ipv6_addr : Str → ℕ → Option ((ℕ × ℕ × ℕ × ℕ) × Str)
parse_ipv6_addr text dlm = do
  (v0, behind0) ← parse_word text 58
  (v1, behind1) ← parse_word behind0 58
  (v2, behind2) ← parse_word behind1 58
  (v3, rest) ← parse_word behind2 dlm
  some ((v0, v1, v2, v3), rest)

-- The share of a mask of length `m` in word `i`.
abbrev pub word_mask : ℕ → ℕ → ℕ
word_mask m i = if leb ((i + 1) * 32) m then 32 else if ltb (i * 32) m then m - i * 32 else 0

-- The four fields from index `at` on.
unfoldable pub parse_ipv6_net : Str → ℕ → AclRule → Option AclRule
parse_ipv6_net text at rule = do
  ((v0, v1, v2, v3), mp) ← parse_ipv6_addr text 47
  (m, _) ← get_cb_field mp 0 128 0
  some (
      put (at + 3) v3 (word_mask m 3) (
        put (at + 2) v2 (word_mask m 2)
          (put (at + 1) v1 (word_mask m 1) (put at v0 (word_mask m 0) rule))))

unfoldable pub parse_cb_ipv6_rule : Str → Bool → AclRule → Option AclRule
parse_cb_ipv6_rule str has_userdata v = do
  ins ← cb_fields str has_userdata
  with_src ← parse_ipv6_net ins.src_addr ipv6_fields.src_field v
  with_dst ← parse_ipv6_net ins.dst_addr ipv6_fields.dst_field with_src
  parse_rest ipv6_fields ins has_userdata with_dst
