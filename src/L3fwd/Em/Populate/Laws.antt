-- ===== src/L3fwd/Em/Populate/Laws.antt =====
-- l3fwd/l3fwd_em.c: a table that has been populated gives each key the port of the last enabled
-- rule that has it.
use dpdk_practice.Base.{
  ℕ, Bool, true, false, ◌&&◌, List, [], ◌∷◌, Option, none, some, ◌==◌, if◌then◌else◌, update,
  update_self, update_ne, ◌≡◌, ◌≢◌, refl, sym, ap, ap₂, ◌∙◌, arith, inl, inr, Bool-cases,
  Option-cases, ==_iff, ==_refl, and_left, and_right,
}
use dpdk_practice.L3fwd.Routes.Em.{FiveTuple, EmRule}
use dpdk_practice.L3fwd.Tx.Copy.{Table}
use dpdk_practice.L3fwd.Em.{Key, Hash, out_or}
use dpdk_practice.L3fwd.Em.Populate.{is_port_enabled, add_flow, populate_flow}

abbrev pub same_key : Key → Key → Bool
same_key [] [] = true
same_key [] (b ∷ bs) = false
same_key (a ∷ as₁) [] = false
same_key (a ∷ as₁) (b ∷ bs) = a == b && same_key as₁ bs

pub same_key→eq : (k l : Key) → same_key k l ≡ true → k ≡ l
same_key→eq [] [] h = refl
same_key→eq [] (b ∷ bs) h = absurd (ground (arith, h))
same_key→eq (a ∷ as₁) [] h = absurd (ground (arith, h))
same_key→eq (a ∷ as₁) (b ∷ bs) h =
    ap₂ (λ x xs. x ∷ xs) ((==_iff a b).0 (and_left _ _ h)) (same_key→eq as₁ bs (and_right _ _ h))

pub same_key_refl : (k : Key) → same_key k k ≡ true
same_key_refl [] = refl
same_key_refl (a ∷ k) = rw (==_refl a) (same_key_refl k)

-- What rte_hash is documented to do: a key that is added is found at the position that was
-- returned, the other keys stay where they are, and no two keys share a position.
pub record HashLaws (h : Hash) : Type 0 where
  pub lookup-added :
      (s s' : h.State) (k : Key) (ret : ℕ)
      → h.add_key s k ≡ some (ret, s')
      → h.lookup s' k ≡ some ret
  pub lookup-others :
      (s s' : h.State) (k l : Key) (ret : ℕ)
      → h.add_key s k ≡ some (ret, s')
      → l ≢ k
      → h.lookup s' l ≡ h.lookup s l
  pub lookup-injective :
      (s : h.State) (k l : Key) (ret : ℕ)
      → h.lookup s k ≡ some ret
      → h.lookup s l ≡ some ret
      → k ≡ l

module _ (h : Hash) (laws : HashLaws h) (shift : ℕ → ℕ) (enabled_port_mask : ℕ)
    (has_info : ℕ → Bool) {A : Type 0} (convert : FiveTuple A → Key) where
  abbrev enabled : EmRule A → Bool
  enabled entry = is_port_enabled h shift enabled_port_mask has_info entry.if_out

  -- Why the program ends: an enabled rule has a key that cannot be added, or a port without
  -- information.
  pub data Refused : List (EmRule A) → Type 0 where
    not_added :
        (entry : EmRule A) (rules : List (EmRule A)) (table : h.State)
        → enabled entry ≡ true
        → h.add_key table (convert entry.key) ≡ none
        → Refused (entry ∷ rules)
    no_info :
        (entry : EmRule A) (rules : List (EmRule A))
        → enabled entry ≡ true
        → has_info entry.if_out ≡ false
        → Refused (entry ∷ rules)
    later : (entry : EmRule A) (rules : List (EmRule A)) → Refused rules → Refused (entry ∷ rules)

  -- The port of the last enabled rule with the key, or `found` where there is none.
  abbrev pub last_match : List (EmRule A) → Key → ℕ → ℕ
  last_match [] key found = found
  last_match (entry ∷ rules) key found =
      last_match rules key
        (if enabled entry && same_key key (convert entry.key) then entry.if_out else found)

  abbrev pub port_at : h.State × Table → Key → ℕ → ℕ
  port_at (table, out_if) key portid = out_or out_if (h.lookup table key) portid

  abbrev pub Populated : List (EmRule A) → h.State × Table → Option (h.State × Table) → Type 0
  Populated rules s none = Refused rules
  Populated rules s (some s') =
      (key : Key) (portid : ℕ) → port_at s' key portid ≡ last_match rules key (port_at s key portid)

  add-port_at :
      (table added : h.State) (out_if : Table) (k key : Key) (ret out portid : ℕ)
      → h.add_key table k ≡ some (ret, added)
      → port_at (added, update out_if ret out) key portid
        ≡ (if same_key key k then out else port_at (table, out_if) key portid)
  add-port_at table added out_if k key ret out portid e = elim (Bool-cases (same_key key k)) [
    | inl same ↦ rw same (
        ap (λ l. port_at (added, update out_if ret out) l portid) (same_key→eq key k same)
        ∙ ap (λ r. out_or (update out_if ret out) r portid) (laws.lookup-added table added k ret e)
        ∙ update_self out_if ret out)
    | inr other ↦ rw other (
        ap (λ r. out_or (update out_if ret out) r portid)
          (laws.lookup-others table added k key ret e (differ other))
        ∙ kept other)
  ]
    where
      differ : same_key key k ≡ false → key ≢ k
      differ other q = ground (arith, sym other ∙ ap (λ l. same_key l k) q ∙ same_key_refl k)

      kept :
          same_key key k ≡ false
          → out_or (update out_if ret out) (h.lookup table key) portid
            ≡ port_at (table, out_if) key portid
      kept other = elim (Option-cases (h.lookup table key)) [
        | inl missing ↦ rw missing refl
        | inr (i, here) ↦ rw here (
            update_ne out_if ret out i (λ q. differ other (
              laws.lookup-injective added key k ret
                (laws.lookup-others table added k key ret e (differ other)
                  ∙ here
                  ∙ ap (λ p. some p) q)
                (laws.lookup-added table added k ret e))))
      ]

  skipped :
      (entry : EmRule A) (rules : List (EmRule A)) (s : h.State × Table)
      (o : Option (h.State × Table))
      → enabled entry ≡ false
      → Populated rules s o
      → Populated (entry ∷ rules) s o
  skipped entry rules s none off p = later entry rules p
  skipped entry rules s (some s') off p = λ key portid. rw off (p key portid)

  added_first :
      (entry : EmRule A) (rules : List (EmRule A)) (table added : h.State) (out_if : Table)
      (ret : ℕ) (o : Option (h.State × Table))
      → enabled entry ≡ true
      → h.add_key table (convert entry.key) ≡ some (ret, added)
      → Populated rules (added, update out_if ret entry.if_out) o
      → Populated (entry ∷ rules) (table, out_if) o
  added_first entry rules table added out_if ret none on e p = later entry rules p
  added_first entry rules table added out_if ret (some s') on e p = λ key portid. rw on (
      p key portid
      ∙ ap (last_match rules key)
          (add-port_at table added out_if (convert entry.key) key ret entry.if_out portid e))

  -- For a hash table that keeps each key at a position of its own, the loop that populates it, for
  -- any list of rules and any table before it, ends the program only where an enabled rule cannot
  -- be added or its port has no information; otherwise each key is given the port of the last
  -- enabled rule with this key, and what it had before where there is none.
  pub populate_flow-Populated :
      (rules : List (EmRule A)) (s : h.State × Table)
      → Populated rules s (populate_flow h shift enabled_port_mask has_info convert rules s)
  unfolding populate_flow add_flow
  populate_flow-Populated [] s = λ key portid. refl
  populate_flow-Populated (entry ∷ rules) (table, out_if) = elim (Bool-cases (enabled entry)) [
    | inr off ↦
        rw (populate_flow, off)
          (skipped entry rules (table, out_if) _ off
            (populate_flow-Populated rules (table, out_if)))
    | inl on ↦ elim (Option-cases (h.add_key table (convert entry.key))) [
      | inl full ↦ rw (populate_flow, on, full) (not_added entry rules table on full)
      | inr ((ret, added), e) ↦ elim (Bool-cases (has_info entry.if_out)) [
        | inr unknown ↦ rw (populate_flow, on, e, unknown) (no_info entry rules on unknown)
        | inl known ↦
            rw (populate_flow, on, e, known)
              (added_first entry rules table added out_if ret _ on e
                (populate_flow-Populated rules (added, update out_if ret entry.if_out)))
      ]
    ]
  ]
