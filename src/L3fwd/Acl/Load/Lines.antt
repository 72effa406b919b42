-- ===== src/L3fwd/Acl/Load/Lines.antt =====
-- l3fwd/l3fwd_acl.c: the lines that acl_add_rules counts, and the places for their rules.
use dpdk_practice.Base.{
  ℕ, suc, ◌+◌, true, false, List, [], ◌∷◌, ◌++◌, set, get_or, replicate, length, ◌==◌,
  if◌then◌else◌, ◌≡◌, refl, sym, ap₂, ◌∙◌, arith, inl, inr, Bool-cases, snoc_append,
}
use dpdk_practice.Clib.{Str, char_at}
use dpdk_practice.L3fwd.Routes.{route_lead_char, is_bypass_line}
use dpdk_practice.L3fwd.Routes.Laws.{get_or-append, set-append}
use dpdk_practice.L3fwd.Acl.Rules.{AclRule, cleared_rule}
use dpdk_practice.L3fwd.Acl.Load.{acl_lead_char, Counts, count_rules, Loading}

-- How many lines start with `lead`.
abbrev pub lines_with : ℕ → List Str → ℕ
lines_with lead [] = 0
lines_with lead (l ∷ file) =
    let rest = lines_with lead file in if char_at l == lead then suc rest else rest

abbrev pub counts : ℕ → ℕ → Counts
counts r a = record { route_num = r; acl_num = a }

pub count_rules-lem :
    (file : List Str) (r a : ℕ)
    → count_rules file (record { route_num = r; acl_num = a }) ≡ record {
      route_num = r + lines_with route_lead_char file;
      acl_num = a + lines_with acl_lead_char file;
    }
unfolding count_rules
count_rules-lem [] r a = ap₂ counts {x = r} (omega arith) (omega arith)
count_rules-lem (l ∷ file) r a = elim (Bool-cases (char_at l == route_lead_char)) [
  | inl route ↦
      (let other : (char_at l == acl_lead_char) ≡ false = ground arith in
        rw (route, other) (count_rules-lem file (r + 1) a ∙ ap₂ counts (omega arith) (omega arith)))
  | inr no_route ↦ elim (Bool-cases (char_at l == acl_lead_char)) [
    | inl acl ↦
        rw (no_route, acl) (count_rules-lem file r (a + 1) ∙ ap₂ counts (omega arith) (omega arith))
    | inr other ↦ rw (no_route, other) (count_rules-lem file r a)
  ]
]

-- A line that starts with an R or an @ is not skipped.
pub bypass-not_route : (l : Str) → is_bypass_line l ≡ true → (char_at l == route_lead_char) ≡ false
bypass-not_route [] h = refl
bypass-not_route (c ∷ l) h = ground arith

pub bypass-not_acl : (l : Str) → is_bypass_line l ≡ true → (char_at l == acl_lead_char) ≡ false
bypass-not_acl [] h = refl
bypass-not_acl (c ∷ l) h = ground arith

-- Before the second pass comes to a line: `old` rules are stored, and there is room for the others.
abbrev pub loading : List AclRule → ℕ → List AclRule → ℕ → ℕ → Loading
loading routes more_routes acls more_acls total_num = record {
  route_rules = routes ++ replicate more_routes cleared_rule;
  acl_rules = acls ++ replicate more_acls cleared_rule;
  route_cnt = length routes;
  acl_cnt = length acls;
  total_num = total_num;
}

-- One more rule fills the first free place.
pub fill_place :
    (old : List AclRule) (m : ℕ) (x : AclRule)
    → set (old ++ replicate (suc m) cleared_rule) (length old) x
      ≡ (old ++ (x ∷ [])) ++ replicate m cleared_rule
fill_place old m x =
    set-append old (replicate m cleared_rule) cleared_rule x
    ∙ sym (snoc_append old (replicate m cleared_rule) x)

pub free_place :
    (old : List AclRule) (m : ℕ)
    → get_or (old ++ replicate (suc m) cleared_rule) (length old) cleared_rule ≡ cleared_rule
free_place old m = get_or-append old (replicate m cleared_rule) cleared_rule cleared_rule
