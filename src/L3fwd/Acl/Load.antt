-- ===== src/L3fwd/Acl/Load.antt =====
-- l3fwd/l3fwd_acl.c: acl_add_rules loads the routes and the access control entries of a file.
pub mod Lines
pub mod Laws
use dpdk_practice.Base.{
  ◌>>=◌, ℕ, ◌+◌, ◌-◌, ◌%◌, Bool, true, false, ◌||◌, not, List, [], ◌∷◌, Option, none, some, set,
  get_or, replicate, drop, ◌==◌, if◌then◌else◌, bit_and,
}
use dpdk_practice.Clib.{Str, char_at}
use dpdk_practice.L3fwd.Routes.{route_lead_char, is_bypass_line}
use dpdk_practice.L3fwd.Acl.Rules.{AclRule, cleared_rule}
use dpdk_practice.L3fwd.Acl.Process.{acl_deny_signature, fwd_port_shift}

-- ACL_LEAD_CHAR
abbrev pub acl_lead_char : ℕ
acl_lead_char = 64

-- `route_num` and `acl_num`
pub record Counts : Type 0 where
  pub route_num : ℕ
  pub acl_num : ℕ

-- The first pass.
pub count_rules : List Str → Counts → Counts
count_rules [] n = n
count_rules (buff ∷ file) n = count_rules file (
    if char_at buff == route_lead_char
    then record n { route_num = n.route_num + 1 }
    else if char_at buff == acl_lead_char
    then record n { acl_num = n.acl_num + 1 }
    else n)

-- The two arrays and the counters of the second pass.
pub record Loading : Type 0 where
  pub route_rules : List AclRule
  pub acl_rules : List AclRule
  pub route_cnt : ℕ
  pub acl_cnt : ℕ
  pub total_num : ℕ

-- What the caller gets.
pub record AclLoaded : Type 0 where
  pub route_base : List AclRule
  pub route_num : ℕ
  pub acl_base : List AclRule
  pub acl_num : ℕ

-- `shift n` is `1 << n`, which C only says for small `n`, and `max_priority` RTE_ACL_MAX_PRIORITY.
module _ (parser : Str → Bool → AclRule → Option AclRule) (shift : ℕ → ℕ)
    (enabled_port_mask max_priority : ℕ) where
  abbrev pub is_enabled : ℕ → Bool
  is_enabled portid = not (bit_and enabled_port_mask (shift portid) == 0)

  -- The rule with its data; 32-bit words.
  abbrev pub finish_rule : ℕ → ℕ → AclRule → AclRule
  finish_rule userdata total_num next = record next {
    userdata = userdata % 4294967296;
    priority = (max_priority + 4294967296 - total_num) % 4294967296;
    category_mask = 4294967295;
  }

  -- A line behind its leading R.
  pub add_route : Str → Loading → Option Loading
  add_route text s = do
    next ← parser text true (get_or s.route_rules s.route_cnt cleared_rule)
    enabled ← if is_enabled next.userdata then some true else none
    some (record s {
      route_rules =
          set s.route_rules s.route_cnt
            (finish_rule (next.userdata + fwd_port_shift) s.total_num next);
      route_cnt = s.route_cnt + 1;
      total_num = s.total_num + 1;
    })

  -- A line behind its leading @.
  pub add_acl : Str → Loading → Option Loading
  add_acl text s = do
    next ← parser text false (get_or s.acl_rules s.acl_cnt cleared_rule)
    some (record s {
      acl_rules =
          set s.acl_rules s.acl_cnt (finish_rule (acl_deny_signature + s.acl_cnt) s.total_num next);
      acl_cnt = s.acl_cnt + 1;
      total_num = s.total_num + 1;
    })

  -- none is the end of the program.
  pub add_line : Str → Loading → Option Loading
  add_line buff s =
      if is_bypass_line buff
      then some s
      else if char_at buff == route_lead_char
      then add_route (drop 1 buff) s
      else if char_at buff == acl_lead_char
      then add_acl (drop 1 buff) s
      else none

  -- The second pass.
  pub fill_rules : List Str → Loading → Option Loading
  fill_rules [] s = some s
  fill_rules (buff ∷ file) s = add_line buff s >>= λ s'. fill_rules file s'

  -- `file` is none where fopen fails; the Booleans say that fseek and the two callocs succeed.
  pub acl_add_rules : Option (List Str) → Bool → Bool → Bool → Option AclLoaded
  acl_add_rules none seeks allocates_acl allocates_route = none
  acl_add_rules (some file) seeks allocates_acl allocates_route =
      let n = count_rules file (record { route_num = 0; acl_num = 0 }) in
      if n.route_num == 0 || not seeks || not allocates_acl || not allocates_route
      then none
      else fill_rules file (record {
        route_rules = replicate n.route_num cleared_rule;
        acl_rules = replicate n.acl_num cleared_rule;
        route_cnt = 0;
        acl_cnt = 0;
        total_num = 0;
      })
        >>= λ s. some (record {
          route_base = s.route_rules;
          route_num = s.route_cnt;
          acl_base = s.acl_rules;
          acl_num = n.acl_num;
        })
