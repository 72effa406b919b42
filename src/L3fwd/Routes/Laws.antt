-- ===== src/L3fwd/Routes/Laws.antt =====
-- lpm_add_rules against a reading of the file in one pass.
use dpdk_practice.Base.{
  ◌>>=◌, ℕ, suc, ◌+◌, true, false, List, [], ◌∷◌, ◌++◌, snoc_append, Option, none, some, set,
  length, get_or, replicate, drop, ◌==◌, if◌then◌else◌, ◌≡◌, refl, sym, ap, ap₂, ◌∙◌, arith, inl,
  inr, Bool-cases, length-append, ◌⊎◌,
}
use dpdk_practice.Clib.{Str, char_at}
use dpdk_practice.L3fwd.Routes.{
  Rc, Loaded, route_lead_char, is_bypass_line, count_routes, fill_routes, lpm_add_rules,
}

pub get_or-append {ℓ} :
    {A : Type ℓ} (xs ys : List A) (y d : A) → get_or (xs ++ (y ∷ ys)) (length xs) d ≡ y
get_or-append [] ys y d = refl
get_or-append (x ∷ xs) ys y d = get_or-append xs ys y d

pub set-append {ℓ} :
    {A : Type ℓ} (xs ys : List A) (y v : A) → set (xs ++ (y ∷ ys)) (length xs) v ≡ xs ++ (v ∷ ys)
set-append [] ys y v = refl
set-append (x ∷ xs) ys y v = rw (set-append xs ys y v)

-- A line that starts with an R is not skipped.
bypass-not_route : (l : Str) → is_bypass_line l ≡ true → (char_at l == route_lead_char) ≡ false
bypass-not_route [] h = refl
bypass-not_route (c ∷ l) h = ground arith

count_routes-add : (file : List Str) (n : ℕ) → count_routes file n ≡ n + count_routes file 0
unfolding count_routes
count_routes-add [] n = omega arith
count_routes-add (l ∷ file) n = elim (Bool-cases (char_at l == route_lead_char)) [
  | inl h ↦ rw h (omega (arith, count_routes-add file (n + 1), count_routes-add file 1))
  | inr h ↦ rw (h, count_routes-add file n)
]

count_routes-one : (file : List Str) → count_routes file 1 ≡ suc (count_routes file 0)
count_routes-one file = omega (arith, count_routes-add file 1)

Rc-cases : (rc : Rc) → (rc ≡ Rc.success) ⊎ (rc ≡ Rc.einval)
Rc-cases Rc.success = inl refl
Rc-cases Rc.einval = inr refl

module _ {R : Type 0} (parser : Str → R → Rc × R) (cleared : R) where
  -- The rules of the lines in order: none if a line is neither skipped nor a route, or if the
  -- parser refuses one.
  abbrev pub rules_of : List Str → Option (List R)
  rules_of [] = some []
  rules_of (l ∷ file) =
      let (rc, rule) = parser (drop 1 l) cleared in
      let rest = rules_of file in
      if is_bypass_line l
      then rest
      else if char_at l == route_lead_char
      then elim rc [ Rc.success ↦ (rest >>= λ rs. some (rule ∷ rs)) | Rc.einval ↦ none ]
      else none

  abbrev pub as_loaded : List R → Option (List R) → Loaded R
  as_loaded old none = Loaded.failed
  as_loaded old (some new) = Loaded.loaded (old ++ new) (length old + length new)

  as_loaded-bind :
      (old : List R) (r : R) (o : Option (List R))
      → as_loaded (old ++ (r ∷ [])) o ≡ as_loaded old (o >>= λ rs. some (r ∷ rs))
  as_loaded-bind old r none = refl
  as_loaded-bind old r (some new) =
      ap₂ Loaded.loaded (snoc_append old new r) (omega (arith, length-append old (r ∷ [])))

module _ {R : Type 0} (parser : Str → R → Rc × R) (cleared : R) where
  fill_routes-eq :
      (file : List Str) (old arr : List R) (cnt : ℕ)
      → arr ≡ old ++ replicate (count_routes file 0) cleared
      → cnt ≡ length old
      → fill_routes parser cleared file arr cnt
        ≡ as_loaded parser cleared old (rules_of parser cleared file)
  unfolding fill_routes count_routes
  fill_routes-eq [] old arr cnt h n = ap₂ Loaded.loaded h (omega arith)
  fill_routes-eq (l ∷ file) old arr cnt h n = elim (Bool-cases (is_bypass_line l)) [
    | inl bypass ↦
        rw bypass (fill_routes-eq file old arr cnt (h ∙ rw (bypass-not_route l bypass)) n)
    | inr line ↦ elim (Bool-cases (char_at l == route_lead_char)) [
      | inl route ↦
          (let next = (parser (drop 1 l) cleared).1 in
            let others = replicate (count_routes file 0) cleared in
            let room : arr ≡ old ++ (cleared ∷ others) = h ∙ rw (route, count_routes-one file) in
            let free : get_or arr cnt cleared ≡ cleared =
              ap₂ (λ a i. get_or a i cleared) room n ∙ get_or-append old others cleared cleared in
            let arr' = set arr cnt (parser (drop 1 l) (get_or arr cnt cleared)).1 in
            let full : arr' ≡ (old ++ (next ∷ [])) ++ others =
              ap (λ r. set arr cnt (parser (drop 1 l) r).1) free
              ∙ ap₂ (λ a i. set a i next) room n
              ∙ set-append old others cleared next
              ∙ sym (snoc_append old others next) in
            rw (line, route, free)
              (elim (Rc-cases (parser (drop 1 l) cleared).0) [
                | inl ok ↦ rw ok (
                    fill_routes-eq file (old ++ (next ∷ [])) arr' (cnt + 1) full
                      (omega (arith, length-append old (next ∷ [])))
                    ∙ as_loaded-bind parser cleared old next (rules_of parser cleared file))
                | inr bad ↦ rw bad refl
              ]))
      | inr other ↦ rw (line, other) refl
    ]
  ]

  -- For every file that can be opened, read twice and stored, lpm_add_rules gives the rules of the
  -- route lines in their order, with their number as `route_cnt`, if there is a route line, every
  -- line is a route, a comment or blank, and the parser takes each route; it fails otherwise.
  pub lpm_add_rules-eq :
      (file : List Str)
      → lpm_add_rules parser cleared (some file) true true ≡ (
          if count_routes file 0 == 0
          then Loaded.failed
          else as_loaded parser cleared [] (rules_of parser cleared file))
  unfolding lpm_add_rules
  lpm_add_rules-eq file = elim (Bool-cases (count_routes file 0 == 0)) [
    | inl h ↦ rw h
    | inr h ↦ rw h (fill_routes-eq file [] (replicate (count_routes file 0) cleared) 0 refl refl)
  ]
