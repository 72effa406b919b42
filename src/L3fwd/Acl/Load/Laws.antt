-- ===== src/L3fwd/Acl/Load/Laws.antt =====
-- l3fwd/l3fwd_acl.c: acl_add_rules against a reading of the file in one pass.
use dpdk_practice.Base.{
  ◌>>=◌, ℕ, suc, ◌+◌, ◌-◌, ◌%◌, ◌^◌, bit_and, Bool, true, false, List, [], ◌∷◌, ◌++◌, Option, none,
  some, drop, length, ◌==◌, if◌then◌else◌, ◌≡◌, ◌≢◌, refl, sym, ap, ap₂, ◌∙◌, arith, inl, inr,
  Bool-cases, Option-cases, length-append, snoc_append, bind-some, some_inj,
}
use dpdk_practice.Clib.{Str, char_at}
use dpdk_practice.L3fwd.Routes.{route_lead_char, is_bypass_line}
use dpdk_practice.L3fwd.Acl.Rules.{AclRule, cleared_rule}
use dpdk_practice.L3fwd.Acl.Load.{
  acl_lead_char, count_rules, Loading, AclLoaded, add_route, add_acl, add_line, fill_rules,
  acl_add_rules,
}
use dpdk_practice.L3fwd.Acl.Load.Lines.{
  lines_with, counts, count_rules-lem, bypass-not_route, bypass-not_acl, loading, fill_place,
  free_place,
}

module _ (parser : Str → Bool → AclRule → Option AclRule) (shift : ℕ → ℕ)
    (enabled_port_mask max_priority : ℕ) where
  -- A rule with all it needs for the search: its data, its priority, which falls with its number in
  -- the file, and all categories.
  abbrev pub ranked : ℕ → ℕ → AclRule → AclRule
  ranked userdata total_num next = record next {
    userdata = userdata;
    priority = (max_priority + 2 ^ 32 - total_num) % 2 ^ 32;
    category_mask = 2 ^ 32 - 1;
  }

  -- The routes and the access control entries of the lines, in their order: none if a line is not
  -- a comment, blank, a route or an entry, if the parser refuses one, or if the bit of the port of a
  -- route is not set in the mask. An entry's data is its number behind 0xf0000000, a route's its port
  -- and 1, as 32-bit words.
  abbrev pub rules_from : List Str → ℕ → ℕ → Option (List AclRule × List AclRule)
  rules_from [] acl_cnt total_num = some ([], [])
  rules_from (l ∷ file) acl_cnt total_num =
      let skipped = rules_from file acl_cnt total_num in
      let behind_route = rules_from file acl_cnt (total_num + 1) in
      let behind_acl = rules_from file (acl_cnt + 1) (total_num + 1) in
      if is_bypass_line l
      then skipped
      else if char_at l == route_lead_char
      then (parser (drop 1 l) true cleared_rule >>= λ next.
          if bit_and enabled_port_mask (shift next.userdata) == 0
          then none
          else behind_route >>= λ r.
              some (ranked ((next.userdata + 1) % 2 ^ 32) total_num next ∷ r.0, r.1))
      else if char_at l == acl_lead_char
      then (parser (drop 1 l) false cleared_rule >>= λ next. behind_acl >>= λ r.
          some (r.0, ranked ((0xf0000000 + acl_cnt) % 2 ^ 32) total_num next ∷ r.1))
      else none

  abbrev loaded : List AclRule → List AclRule → ℕ → List AclRule × List AclRule → Loading
  loaded routes acls total_num r = record {
    route_rules = routes ++ r.0;
    acl_rules = acls ++ r.1;
    route_cnt = length routes + length r.0;
    acl_cnt = length acls + length r.1;
    total_num = total_num + (length r.0 + length r.1);
  }

  abbrev Fills : List Str → List AclRule → List AclRule → ℕ → Type 0
  Fills file routes acls total_num =
      fill_rules parser shift enabled_port_mask max_priority file (
        loading routes (lines_with route_lead_char file) acls (lines_with acl_lead_char file)
          total_num)
      ≡ (rules_from file (length acls) total_num >>= λ r. some (loaded routes acls total_num r))

  abbrev made : List AclRule → List AclRule → ℕ → ℕ → ℕ → Loading
  made routes acls route_cnt acl_cnt total_num = record {
    route_rules = routes;
    acl_rules = acls;
    route_cnt = route_cnt;
    acl_cnt = acl_cnt;
    total_num = total_num;
  }

  made_eq :
      {routes routes' acls acls' : List AclRule} {a a' b b' t t' : ℕ}
      → routes ≡ routes'
      → acls ≡ acls'
      → a ≡ a'
      → b ≡ b'
      → t ≡ t'
      → made routes acls a b t ≡ made routes' acls' a' b' t'
  made_eq p q a b t i = made (p i) (q i) (a i) (b i) (t i)

  one_more : (old : List AclRule) (x : AclRule) → length (old ++ (x ∷ [])) ≡ length old + 1
  one_more old x = length-append old (x ∷ [])

  loaded-route :
      (routes acls : List AclRule) (x : AclRule) (total_num : ℕ)
      (o : Option (List AclRule × List AclRule))
      → (o >>= λ r. some (loaded (routes ++ (x ∷ [])) acls (total_num + 1) r))
        ≡ ((o >>= λ r. some (x ∷ r.0, r.1)) >>= λ r. some (loaded routes acls total_num r))
  loaded-route routes acls x total_num none = refl
  loaded-route routes acls x total_num (some (rs, es)) =
      ap some (
        made_eq (snoc_append routes rs x) refl (omega (arith, one_more routes x)) refl
          (omega arith))

  loaded-acl :
      (routes acls : List AclRule) (x : AclRule) (total_num : ℕ)
      (o : Option (List AclRule × List AclRule))
      → (o >>= λ r. some (loaded routes (acls ++ (x ∷ [])) (total_num + 1) r))
        ≡ ((o >>= λ r. some (r.0, x ∷ r.1)) >>= λ r. some (loaded routes acls total_num r))
  loaded-acl routes acls x total_num none = refl
  loaded-acl routes acls x total_num (some (rs, es)) =
      ap some
        (made_eq refl (snoc_append acls es x) refl (omega (arith, one_more acls x)) (omega arith))

  route_line :
      (text : Str) (file : List Str) (routes acls : List AclRule) (total_num : ℕ)
      → ((x : AclRule) → Fills file (routes ++ (x ∷ [])) acls (total_num + 1))
      → (add_route parser shift enabled_port_mask max_priority text (
            loading routes
              (suc (lines_with route_lead_char file))
              acls
              (lines_with acl_lead_char file)
              total_num)
          >>= λ s. fill_rules parser shift enabled_port_mask max_priority file s)
        ≡ ((parser text true cleared_rule >>= λ next.
              if bit_and enabled_port_mask (shift next.userdata) == 0
              then none
              else rules_from file (length acls) (total_num + 1) >>= λ r.
                  some (ranked ((next.userdata + 1) % 2 ^ 32) total_num next ∷ r.0, r.1))
            >>= λ r. some (loaded routes acls total_num r))
  unfolding add_route
  route_line text file routes acls total_num h =
      rw (add_route, free_place routes (lines_with route_lead_char file))
        (elim (Option-cases (parser text true cleared_rule)) [
          | inl e ↦ rw e refl
          | inr (next, e) ↦
              rw e (elim (Bool-cases (bit_and enabled_port_mask (shift next.userdata) == 0)) [
                | inr on ↦ rw on (
                    (let x = ranked ((next.userdata + 1) % 2 ^ 32) total_num next in
                      ap (λ s. fill_rules parser shift enabled_port_mask max_priority file s)
                        (made_eq (fill_place routes (lines_with route_lead_char file) x) refl
                          (sym (one_more routes x)) refl refl)
                      ∙ h x
                      ∙ loaded-route routes acls x total_num
                          (rules_from file (length acls) (total_num + 1))))
                | inl off ↦ rw off refl
              ])
        ])

  acl_line :
      (text : Str) (file : List Str) (routes acls : List AclRule) (total_num : ℕ)
      → ((x : AclRule) → Fills file routes (acls ++ (x ∷ [])) (total_num + 1))
      → (add_acl parser shift enabled_port_mask max_priority text (
            loading routes
              (lines_with route_lead_char file)
              acls
              (suc (lines_with acl_lead_char file))
              total_num)
          >>= λ s. fill_rules parser shift enabled_port_mask max_priority file s)
        ≡ ((parser text false cleared_rule >>= λ next.
              rules_from file (length acls + 1) (total_num + 1) >>= λ r.
              some (r.0, ranked ((0xf0000000 + length acls) % 2 ^ 32) total_num next ∷ r.1))
            >>= λ r. some (loaded routes acls total_num r))
  unfolding add_acl
  acl_line text file routes acls total_num h =
      rw (add_acl, free_place acls (lines_with acl_lead_char file))
        (elim (Option-cases (parser text false cleared_rule)) [
          | inl e ↦ rw e refl
          | inr (next, e) ↦ rw e (
              let x = ranked ((0xf0000000 + length acls) % 2 ^ 32) total_num next in
              ap (λ s. fill_rules parser shift enabled_port_mask max_priority file s)
                (made_eq refl (fill_place acls (lines_with acl_lead_char file) x) refl
                  (sym (one_more acls x)) refl)
              ∙ h x
              ∙ loaded-acl routes acls x total_num
                  (rules_from file (length (acls ++ (x ∷ []))) (total_num + 1))
              ∙ ap
                  (λ n. (rules_from file n (total_num + 1) >>= λ r. some (r.0, x ∷ r.1)) >>= λ r.
                    some (loaded routes acls total_num r))
                  (one_more acls x))
        ])

  fill_rules-Fills :
      (file : List Str) (routes acls : List AclRule) (total_num : ℕ)
      → Fills file routes acls total_num
  unfolding fill_rules add_line
  fill_rules-Fills [] routes acls total_num =
      ap some (made_eq refl refl (omega arith) (omega arith) (omega arith))
  fill_rules-Fills (l ∷ file) routes acls total_num = elim (Bool-cases (is_bypass_line l)) [
    | inl bypass ↦
        rw (add_line, bypass, bypass-not_route l bypass, bypass-not_acl l bypass)
          (fill_rules-Fills file routes acls total_num)
    | inr line ↦ elim (Bool-cases (char_at l == route_lead_char)) [
      | inl route ↦
          (let other : (char_at l == acl_lead_char) ≡ false = ground arith in
            rw (add_line, line, route, other)
              (route_line (drop 1 l) file routes acls total_num
                (λ x. fill_rules-Fills file (routes ++ (x ∷ [])) acls (total_num + 1))))
      | inr no_route ↦ elim (Bool-cases (char_at l == acl_lead_char)) [
        | inl acl ↦
            rw (add_line, line, no_route, acl)
              (acl_line (drop 1 l) file routes acls total_num
                (λ x. fill_rules-Fills file routes (acls ++ (x ∷ [])) (total_num + 1)))
        | inr other ↦ rw (add_line, line, no_route, other) refl
      ]
    ]
  ]

  -- As many entries as there are lines of this kind.
  rules_from-acls :
      (file : List Str) (a t : ℕ) (r : List AclRule × List AclRule)
      → rules_from file a t ≡ some r
      → length r.1 ≡ lines_with acl_lead_char file
  rules_from-acls [] a t r h = ap (λ p. length p.1) (sym (some_inj h))
  rules_from-acls (l ∷ file) a t r h = elim (Bool-cases (is_bypass_line l)) [
    | inl bypass ↦ rw (bypass-not_acl l bypass) (rules_from-acls file a t r (rw bypass at h))
    | inr line ↦ elim (Bool-cases (char_at l == route_lead_char)) [
      | inl route ↦
          (let other : (char_at l == acl_lead_char) ≡ false = ground arith in
            let (next, (_, h1)) =
              bind-some (parser (drop 1 l) true cleared_rule) _ r (rw (line, route) at h) in
            rw other (elim (Bool-cases (bit_and enabled_port_mask (shift next.userdata) == 0)) [
              | inr on ↦
                  (let (q, (e, h2)) = bind-some (rules_from file a (t + 1)) _ r (rw on at h1) in
                    ap (λ p. length p.1) (sym (some_inj h2)) ∙ rules_from-acls file a (t + 1) q e)
              | inl off ↦ absurd (nothing (rw off at h1))
            ]))
      | inr no_route ↦ elim (Bool-cases (char_at l == acl_lead_char)) [
        | inl acl ↦
            (let (next, (_, h1)) =
                bind-some (parser (drop 1 l) false cleared_rule) _ r
                  (rw (line, no_route, acl) at h) in
              let (q, (e, h2)) = bind-some (rules_from file (a + 1) (t + 1)) _ r h1 in
              rw acl (
                ap (λ p. length p.1) (sym (some_inj h2))
                ∙ ap suc (rules_from-acls file (a + 1) (t + 1) q e)))
        | inr other ↦ absurd (nothing (rw (line, no_route, other) at h))
      ]
    ]
  ]
    where
      nothing : {p : List AclRule × List AclRule} → none ≢ some p
      nothing e = ground arith

  -- For every parser and every file that can be opened, read twice and stored, acl_add_rules gives
  -- the routes and the access control entries of the file's lines, each in their order with the
  -- data, the priority and the categories written out: the data of a route is its port and 1, that
  -- of an entry its index and 0xf0000000, the priority falls with the number of the rule in the
  -- file, as 32-bit words; and it ends the program if there is no route, a line is of no kind, the
  -- parser refuses one, or the port of a route is not enabled.
  pub acl_add_rules-eq :
      (file : List Str)
      → acl_add_rules parser shift enabled_port_mask max_priority (some file) true true true ≡ (
          if lines_with route_lead_char file == 0
          then none
          else rules_from file 0 0 >>= λ r. some (record {
            route_base = r.0;
            route_num = length r.0;
            acl_base = r.1;
            acl_num = length r.1;
          }))
  unfolding acl_add_rules
  acl_add_rules-eq file =
      rw (acl_add_rules, counted)
        (elim (Bool-cases (lines_with route_lead_char file == 0)) [
          | inl no_route ↦ rw no_route refl
          | inr some_route ↦
              rw (some_route, fill_rules-Fills file [] [] 0)
                (elim (Option-cases (rules_from file 0 0)) [
                  | inl e ↦ rw e refl
                  | inr (r, e) ↦ rw e (
                      ap₂ (λ m n. some (base r.0 m r.1 n)) {x = 0 + length r.0} (omega arith)
                        (sym (rules_from-acls file 0 0 r e)))
                ])
        ])
    where
      base : List AclRule → ℕ → List AclRule → ℕ → AclLoaded
      base routes route_num acls acl_num = record {
        route_base = routes;
        route_num = route_num;
        acl_base = acls;
        acl_num = acl_num;
      }

      counted :
          count_rules file (counts 0 0)
          ≡ counts (lines_with route_lead_char file) (lines_with acl_lead_char file)
      counted = count_rules-lem file 0 0 ∙ ap₂ counts (omega arith) (omega arith)
