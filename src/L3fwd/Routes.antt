-- ===== src/L3fwd/Routes.antt =====
-- l3fwd/l3fwd_route.h, lpm_route_parse.c and em_route_parse.c: the rule files. A file is the list of
-- the lines that fgets gives, each up to its NUL.
pub mod Lpm
pub mod Em
pub mod Laws
use dpdk_practice.Base.{
  ℕ, zero, suc, ◌+◌, ◌*◌, ◌/◌, ◌%◌, Bool, true, false, ◌&&◌, ◌||◌, not, List, [], ◌∷◌, Option, none,
  some, set, length, get_or, replicate, drop, ltb, ◌==◌, if◌then◌else◌,
}
use dpdk_practice.Clib.{Str, isspace, char_at, strtoul, Number}

-- What the parsers and loaders return: 0 or -EINVAL.
pub data Rc : Type 0 where
  success einval : Rc

-- COMMENT_LEAD_CHAR, ROUTE_LEAD_CHAR
abbrev pub comment_lead_char : ℕ
comment_lead_char = 35

abbrev pub route_lead_char : ℕ
route_lead_char = 82

-- GET_CB_FIELD: the number, and what is behind its delimiter.
unfoldable pub get_cb_field : Str → ℕ → ℕ → ℕ → Option (ℕ × Str)
get_cb_field s base lim dlm =
    let n = strtoul s base in
    if n.range || not (char_at n.rest == dlm) || ltb lim n.value
    then none
    else some (n.value, drop 1 n.rest)

abbrev pub all_space : Str → Bool
all_space [] = true
all_space (c ∷ s) = isspace c && all_space s

abbrev pub is_bypass_line : Str → Bool
is_bypass_line buff = char_at buff == comment_lead_char || all_space buff

-- ntohl on a little-endian host.
abbrev pub ntohl : ℕ → ℕ
ntohl v = v % 256 * 16777216 + v / 256 % 256 * 65536 + v / 65536 % 256 * 256 + v / 16777216 % 256

-- The result of a loader: the array and `route_cnt`, or -EINVAL with no array.
pub data Loaded (R : Type 0) : Type 0 where
  failed : Loaded R
  loaded : List R → ℕ → Loaded R

-- The first pass.
pub count_routes : List Str → ℕ → ℕ
count_routes [] route_num = route_num
count_routes (buff ∷ file) route_num =
    count_routes file (if char_at buff == route_lead_char then route_num + 1 else route_num)

-- `parser` fills a rule from the text behind the leading character; `cleared` is the rule of all
-- zero bytes that calloc gives.
module _ {R : Type 0} (parser : Str → R → Rc × R) (cleared : R) where
  -- The second pass.
  pub fill_routes : List Str → List R → ℕ → Loaded R
  fill_routes [] route_rules route_cnt = loaded route_rules route_cnt
  fill_routes (buff ∷ file) route_rules route_cnt =
      let (rc, next) = parser (drop 1 buff) (get_or route_rules route_cnt cleared) in
      let skipped = fill_routes file route_rules route_cnt in
      let added = fill_routes file (set route_rules route_cnt next) (route_cnt + 1) in
      if is_bypass_line buff
      then skipped
      else if char_at buff == route_lead_char
      then elim rc [ success ↦ added | einval ↦ failed ]
      else failed

  -- `file` is none where fopen fails; the Booleans say that fseek and calloc succeed.
  pub lpm_add_rules : Option (List Str) → Bool → Bool → Loaded R
  lpm_add_rules none seeks allocates = failed
  lpm_add_rules (some file) seeks allocates =
      let route_num = count_routes file 0 in
      if route_num == 0 || not seeks || not allocates
      then failed
      else fill_routes file (replicate route_num cleared) 0

  -- The same loader once more, for the exact-match rules.
  abbrev pub em_add_rules : Option (List Str) → Bool → Bool → Loaded R
  em_add_rules = lpm_add_rules
