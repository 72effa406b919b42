-- ===== src/L3fwd/Routes/Em/Bounds.antt =====
-- What an accepted exact-match rule holds.
use dpdk_practice.Base.{
  ◌≤◌, List, [], ◌∷◌, Option, none, some, ◌≡◌, ◌≢◌, sym, ap, ◌∙◌, subst, arith, inl, inr,
  Option-cases,
}
use dpdk_practice.Clib.{Str, tokens}
use dpdk_practice.L3fwd.Routes.{Rc, get_cb_field}
use dpdk_practice.L3fwd.Routes.Lpm.{field_dlm}
use dpdk_practice.L3fwd.Routes.Lpm.Fields.{get_cb_field-le}
use dpdk_practice.L3fwd.Routes.Em.{EmRule, parse_numbers, em_parse_v6_rule}

einval-ne-success : Rc.einval ≢ Rc.success
einval-ne-success e = ground arith

pub record AreInRange {A : Type 0} (r : EmRule A) : Type 0 where
  pub port_src-le : r.key.port_src ≤ 65535
  pub port_dst-le : r.key.port_dst ≤ 65535
  pub proto-le : r.key.proto ≤ 255
  pub if_out-le : r.if_out ≤ 255

-- The numbers, and the addresses that stay as they are.
parse_numbers-ok :
    {A : Type 0} (dst_port src_port proto if_out : Str) (v w : EmRule A)
    → parse_numbers dst_port src_port proto if_out v ≡ (Rc.success, w)
    → AreInRange w × ((w.key.ip_dst ≡ v.key.ip_dst) × (w.key.ip_src ≡ v.key.ip_src))
parse_numbers-ok dst_port src_port proto if_out v w h =
    elim (Option-cases (get_cb_field src_port 0 65535 0)) [
      | inl e ↦ absurd (einval-ne-success (ap (λ r. r.0) (rw (e, parse_numbers) at h)))
      | inr ((s, _), e) ↦ elim (Option-cases (get_cb_field dst_port 0 65535 0)) [
        | inl e2 ↦ absurd (einval-ne-success (ap (λ r. r.0) (rw (e, parse_numbers, e2) at h)))
        | inr ((d, _), e2) ↦ elim (Option-cases (get_cb_field proto 0 255 0)) [
          | inl e3 ↦ absurd (einval-ne-success (ap (λ r. r.0) (rw (e, parse_numbers, e2, e3) at h)))
          | inr ((p, _), e3) ↦ elim (Option-cases (get_cb_field if_out 0 255 0)) [
            | inl e4 ↦
                absurd (einval-ne-success (ap (λ r. r.0) (rw (e, parse_numbers, e2, e3, e4) at h)))
            | inr ((o, _), e4) ↦
                (let q = rw (e, parse_numbers, e2, e3, e4) at h in
                  (
                    record {
                      port_src-le =
                          subst (λ n. n ≤ 65535) (ap (λ x. x.1.key.port_src) q)
                            (get_cb_field-le src_port 0 65535 0 s _ e);
                      port_dst-le =
                          subst (λ n. n ≤ 65535) (ap (λ x. x.1.key.port_dst) q)
                            (get_cb_field-le dst_port 0 65535 0 d _ e2);
                      proto-le =
                          subst (λ n. n ≤ 255) (ap (λ x. x.1.key.proto) q)
                            (get_cb_field-le proto 0 255 0 p _ e3);
                      if_out-le =
                          subst (λ n. n ≤ 255) (ap (λ x. x.1.if_out) q)
                            (get_cb_field-le if_out 0 255 0 o _ e4);
                    },
                    (sym (ap (λ x. x.1.key.ip_dst) q), sym (ap (λ x. x.1.key.ip_src) q)),
                  ))
          ]
        ]
      ]
    ]

module _ {Ip6 : Type 0} (pton : Str → Option Ip6) where
  -- What an accepted line says.
  abbrev pub IsRule : EmRule Ip6 → Type 0
  IsRule w =
      AreInRange w
      × (((text : Str) × (pton text ≡ some w.key.ip_dst))
          × ((text : Str) × (pton text ≡ some w.key.ip_src)))

  six :
      (dst src dp sp proto out : Str) (v w : EmRule Ip6)
      → ◌≡◌ {A = Rc × EmRule Ip6}
          (elim (pton dst) [
            | none ↦ (Rc.einval, v)
            | some d ↦ elim (pton src) [
              | none ↦ (Rc.einval, record v { key = record v.key { ip_dst = d } })
              | some s ↦
                  parse_numbers dp sp proto out
                    (record v { key = record v.key { ip_dst = d; ip_src = s } })
            ]
          ])
          (Rc.success, w)
      → IsRule w
  six dst src dp sp proto out v w h = elim (Option-cases (pton dst)) [
    | inl e ↦ absurd (einval-ne-success (ap (λ r. r.0) (rw e at h)))
    | inr (d, e) ↦ elim (Option-cases (pton src)) [
      | inl e2 ↦ absurd (einval-ne-success (ap (λ r. r.0) (rw (e, e2) at h)))
      | inr (s, e2) ↦
          (let (range, (a, b)) = parse_numbers-ok dp sp proto out _ w (rw (e, e2) at h) in
            (range, ((dst, e ∙ ap some (sym a)), (src, e2 ∙ ap some (sym b)))))
    ]
  ]

  -- If em_parse_v6_rule accepts a line, whatever the entry held before, both ports are at most
  -- 65535, the protocol and the output port at most 255, and both addresses are ones that inet_pton
  -- read.
  em_parse_v6_rule-IsRule :
      (str : Str) (v w : EmRule Ip6) → em_parse_v6_rule pton str v ≡ (Rc.success, w) → IsRule w
  unfolding em_parse_v6_rule
  em_parse_v6_rule-IsRule str v w h = fields (tokens field_dlm 6 str) h
    where
      Goal : Option (List Str) → Type 0
      Goal ts =
          ◌≡◌ {A = Rc × EmRule Ip6}
            (elim ts [
              | some (dst_addr ∷ src_addr ∷ dst_port ∷ src_port ∷ proto ∷ if_out ∷ []) ↦
                  elim (pton dst_addr) [
                    | none ↦ (Rc.einval, v)
                    | some dst ↦ elim (pton src_addr) [
                      | none ↦ (Rc.einval, record v { key = record v.key { ip_dst = dst } })
                      | some src ↦
                          parse_numbers dst_port src_port proto if_out
                            (record v { key = record v.key { ip_dst = dst; ip_src = src } })
                    ]
                  ]
              | _ ↦ (Rc.einval, v)
            ])
            (Rc.success, w)

      bad : ◌≡◌ {A = Rc × EmRule Ip6} (Rc.einval, v) (Rc.success, w) → IsRule w
      bad h = absurd (einval-ne-success (ap (λ r. r.0) h))

      fields : (ts : Option (List Str)) → Goal ts → IsRule w
      fields none h = bad h
      fields (some []) h = bad h
      fields (some (a ∷ [])) h = bad h
      fields (some (a ∷ b ∷ [])) h = bad h
      fields (some (a ∷ b ∷ c ∷ [])) h = bad h
      fields (some (a ∷ b ∷ c ∷ d ∷ [])) h = bad h
      fields (some (a ∷ b ∷ c ∷ d ∷ e ∷ [])) h = bad h
      fields (some (a ∷ b ∷ c ∷ d ∷ e ∷ f ∷ [])) h = six a b c d e f v w h
      fields (some (a ∷ b ∷ c ∷ d ∷ e ∷ f ∷ g ∷ gs)) h = bad h
