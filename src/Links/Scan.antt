-- ===== src/Links/Scan.antt =====
-- l2fwd/main.c and l3fwd/main.c, check_all_ports_link_status: the loop over the ports.
use dpdk_practice.Base.{
  ℕ, Bool, true, false, List, [], ◌∷◌, ◌++◌, Option, some, ◌≡◌, refl, sym, ◌∙◌, inl, inr,
  Bool-cases, append-nil, append_assoc,
}
use dpdk_practice.Links.{
  Link, get_failed, link_down, link_up, Output, link_get_failed, link_status, Outside, Watch,
  port_enabled, report, go_on, scan_ports,
}

module _ (o : Outside) (shift : ℕ → ℕ) (port_mask : ℕ) where
  -- One line for each enabled port, in the order of the ports.
  pub data Reports : List ℕ → List Output → Type 0 where
    no_ports : Reports [] []
    masked :
        {portid : ℕ} {ports : List ℕ} {lines : List Output}
        → port_enabled o shift port_mask portid ≡ false
        → Reports ports lines
        → Reports (portid ∷ ports) lines
    failed :
        {portid : ℕ} {ports : List ℕ} {lines : List Output}
        → port_enabled o shift port_mask portid ≡ true
        → Reports ports lines
        → Reports (portid ∷ ports) (link_get_failed portid ∷ lines)
    told :
        {portid : ℕ} {ports : List ℕ} {lines : List Output} (link : Link)
        → port_enabled o shift port_mask portid ≡ true
        → Reports ports lines
        → Reports (portid ∷ ports) (link_status portid link ∷ lines)

  -- No signal comes.
  abbrev pub NoSignal : Type 0
  NoSignal = (s : o.State) → (o.force_quit s).0 ≡ false

  -- A scan that prints, behind what has been printed before.
  pub record Printed (ports : List ℕ) (log : List Output)
      (r : Option Bool × Watch o shift port_mask) : Type 0 where
    pub all_ports_up : Bool
    pub lines : List Output
    pub ended : r.0 ≡ some all_ports_up
    pub reports : Reports ports lines
    pub printed : r.1.log ≡ log ++ lines

  -- A scan that prints nothing.
  pub record Silent (log : List Output) (r : Option Bool × Watch o shift port_mask) : Type 0 where
    pub all_ports_up : Bool
    pub ended : r.0 ≡ some all_ports_up
    pub printed : r.1.log ≡ log

  one_line :
      {ports : List ℕ} {log : List Output} {r : Option Bool × Watch o shift port_mask} (portid : ℕ)
      (line : Output)
      → Printed ports (log ++ (line ∷ [])) r
      → ((lines : List Output) → Reports ports lines → Reports (portid ∷ ports) (line ∷ lines))
      → Printed (portid ∷ ports) log r
  one_line {log} portid line s more = record {
    all_ports_up = s.all_ports_up;
    lines = line ∷ s.lines;
    ended = s.ended;
    reports = more s.lines s.reports;
    printed = s.printed ∙ append_assoc log (line ∷ []) s.lines;
  }

  module _ (scan : Bool → Watch o shift port_mask → Option Bool × Watch o shift port_mask) where
    report-prints :
        (portid : ℕ) (ports : List ℕ)
        → port_enabled o shift port_mask portid ≡ true
        → ((up : Bool) (w : Watch o shift port_mask) → Printed ports w.log (scan up w))
        → (link : Link) (up : Bool) (w : Watch o shift port_mask)
        → Printed
            (portid ∷ ports)
            w.log
            (go_on o shift port_mask scan up (report o shift port_mask true portid link w))
    unfolding go_on report
    report-prints portid ports on rest get_failed up w =
        one_line portid (link_get_failed portid) (rest false _) (λ lines. failed on)
    report-prints portid ports on rest link_down up w =
        one_line portid (link_status portid link_down) (rest up _) (λ lines. told link_down on)
    report-prints portid ports on rest link_up up w =
        one_line portid (link_status portid link_up) (rest up _) (λ lines. told link_up on)

    report-Silent :
        (portid : ℕ)
        → ((up : Bool) (w : Watch o shift port_mask) → Silent w.log (scan up w))
        → (link : Link) (up : Bool) (w : Watch o shift port_mask)
        → Silent w.log
            (go_on o shift port_mask scan up (report o shift port_mask false portid link w))
    unfolding go_on report
    report-Silent portid rest get_failed up w = rest false w
    report-Silent portid rest link_down up w = record {
      all_ports_up = false;
      ended = refl;
      printed = refl;
    }
    report-Silent portid rest link_up up w = rest up w

  module _ (quiet : NoSignal) where
    pub scan_ports-prints :
        (ports : List ℕ) (up : Bool) (w : Watch o shift port_mask)
        → Printed ports w.log (scan_ports o shift port_mask true ports up w)
    unfolding scan_ports
    scan_ports-prints [] up w = record {
      all_ports_up = up;
      lines = [];
      ended = refl;
      reports = no_ports;
      printed = sym (append-nil w.log);
    }
    scan_ports-prints (portid ∷ ports) up w =
        elim (Bool-cases (port_enabled o shift port_mask portid)) [
          | inl on ↦
              rw (scan_ports, quiet w.outside, on)
                (report-prints (scan_ports o shift port_mask true ports) portid ports on
                  (scan_ports-prints ports) _ up _)
          | inr off ↦
              let s = scan_ports-prints ports up _ in
              rw (scan_ports, quiet w.outside, off)
                (record {
                  all_ports_up = s.all_ports_up;
                  lines = s.lines;
                  ended = s.ended;
                  reports = masked off s.reports;
                  printed = s.printed;
                })
        ]

    pub scan_ports-Silent :
        (ports : List ℕ) (up : Bool) (w : Watch o shift port_mask)
        → Silent w.log (scan_ports o shift port_mask false ports up w)
    unfolding scan_ports
    scan_ports-Silent [] up w = record { all_ports_up = up; ended = refl; printed = refl }
    scan_ports-Silent (portid ∷ ports) up w =
        elim (Bool-cases (port_enabled o shift port_mask portid)) [
          | inl on ↦
              rw (scan_ports, quiet w.outside, on)
                (report-Silent (scan_ports o shift port_mask false ports) portid
                  (scan_ports-Silent ports) _ up _)
          | inr off ↦ rw (scan_ports, quiet w.outside, off) (scan_ports-Silent ports up _)
        ]
