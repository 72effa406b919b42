-- ===== src/Links/Laws.antt =====
-- l2fwd/main.c and l3fwd/main.c: check_all_ports_link_status ends, and reports each port.
use dpdk_practice.Base.{
  ℕ, zero, suc, ◌+◌, ◌-◌, ◌≤◌, Bool, true, false, List, [], ◌∷◌, ◌++◌, Option, none, some, ◌==◌,
  ◌≡◌, refl, sym, ap, ◌∙◌, arith, inl, inr, Bool-cases, append-nil, append_assoc,
}
use dpdk_practice.Links.{
  max_check_time, check_interval, Output, dot, done, delay, Outside, Watch, wait_or_done, end_round,
  checking, check_rounds, check_all_ports_link_status,
}
use dpdk_practice.Links.Scan.{Reports, NoSignal, Printed, scan_ports-prints, scan_ports-Silent}

-- `n` times a dot and a delay.
abbrev pub waits : ℕ → List Output
waits zero = []
waits (suc n) = dot ∷ delay check_interval ∷ waits n

module _ (o : Outside) (shift : ℕ → ℕ) (port_mask : ℕ) where
  -- What a call prints: dots, at most as many as MAX_CHECK_TIME, with a delay behind each, then
  -- `done`, and then the report.
  pub record Checked (most : ℕ) (ports : List ℕ) (log : List Output) (w' : Watch o shift port_mask)
      : Type 0 where
    pub dots : ℕ
    pub few : dots ≤ most
    pub lines : List Output
    pub reports : Reports o shift port_mask ports lines
    pub printed : w'.log ≡ log ++ (waits dots ++ (done ∷ lines))

  pause : (log : List Output) → log ++ (dot ∷ []) ++ (delay check_interval ∷ []) ≡ log ++ waits 1
  pause log = append_assoc log (dot ∷ []) (delay check_interval ∷ [])

  -- The report of the last round.
  record Told (ports : List ℕ) (log : List Output) (w' : Watch o shift port_mask) : Type 0 where
    lines : List Output
    reports : Reports o shift port_mask ports lines
    printed : w'.log ≡ log ++ lines

  module _ (next : Bool → Watch o shift port_mask → Watch o shift port_mask) (ports : List ℕ)
      (count : ℕ) (at_most : count ≤ 89)
      (next_prints : (w : Watch o shift port_mask) → Told ports w.log (next true w)) where
    told_later :
        (dots : ℕ) (log : List Output) (w : Watch o shift port_mask)
        → dots ≤ max_check_time - count
        → w.log ≡ log ++ waits dots ++ (done ∷ [])
        → Checked (max_check_time - count) ports log (next true w)
    told_later dots log w few before =
        let t = next_prints w in
        record {
          dots = dots;
          few = few;
          lines = t.lines;
          reports = t.reports;
          printed =
              t.printed
              ∙ ap (λ xs. xs ++ t.lines) before
              ∙ append_assoc (log ++ waits dots) (done ∷ []) t.lines
              ∙ append_assoc log (waits dots) (done ∷ t.lines);
        }

    end_round-Checked :
        (next_checks : (w : Watch o shift port_mask)
          → count + 1 ≤ 89
          → Checked (max_check_time - (count + 1)) ports w.log (next false w))
        (up : Bool) (log : List Output) (r : Option Bool × Watch o shift port_mask)
        → r.0 ≡ some up
        → r.1.log ≡ log
        → Checked
            (max_check_time - count)
            ports
            log
            (end_round o shift port_mask next count false r)
    unfolding end_round wait_or_done
    end_round-Checked next_checks up log (none, w) ended same = absurd (cc)
    end_round-Checked next_checks up log (some true, w) ended same =
        told_later 0 log _ (omega arith)
          (ap (λ xs. xs ++ (done ∷ [])) (same ∙ sym (append-nil log)))
    end_round-Checked next_checks up log (some false, w) ended same =
        elim (Bool-cases (count == max_check_time - 1)) [
          | inl last ↦ rw (last) (
              told_later 1 log _ (omega (arith, at_most))
                (ap (λ xs. xs ++ (done ∷ [])) (pause w.log ∙ ap (λ xs. xs ++ waits 1) same)))
          | inr more ↦
              let waited : Watch o shift port_mask = record w {
                log = w.log ++ (dot ∷ []) ++ (delay check_interval ∷ []);
              } in
              let c = next_checks waited (ground (arith, at_most)) in
              rw more (record {
                dots = suc c.dots;
                few = omega (arith, c.few, at_most);
                lines = c.lines;
                reports = c.reports;
                printed =
                    c.printed
                    ∙ ap (λ xs. xs ++ (waits c.dots ++ (done ∷ c.lines)))
                        (pause w.log ∙ ap (λ xs. xs ++ waits 1) same)
                    ∙ append_assoc log (waits 1) (waits c.dots ++ (done ∷ c.lines));
              })
        ]

  end_round-Told :
      (next : Bool → Watch o shift port_mask → Watch o shift port_mask) (count : ℕ) (ports : List ℕ)
      (log : List Output) (r : Option Bool × Watch o shift port_mask)
      → Printed o shift port_mask ports log r
      → Told ports log (end_round o shift port_mask next count true r)
  unfolding end_round
  end_round-Told next count ports log (none, w) s = let impossible = s.ended in absurd (cc)
  end_round-Told next count ports log (some up, w) s = record {
    lines = s.lines;
    reports = s.reports;
    printed = s.printed;
  }

  module _ (quiet : NoSignal o shift port_mask) (ports : List ℕ) where
    print_round :
        (rounds count : ℕ) (w : Watch o shift port_mask)
        → Told ports w.log (check_rounds o shift port_mask ports (suc rounds) count true w)
    unfolding check_rounds
    print_round rounds count w =
        let s = scan_ports-prints o shift port_mask quiet ports true _ in
        rw (check_rounds, quiet w.outside)
          (end_round-Told (check_rounds o shift port_mask ports rounds (count + 1)) count ports
            w.log _ s)

    rounds-Checked :
        (rounds count : ℕ) (w : Watch o shift port_mask)
        → rounds + count ≡ 91
        → count ≤ 89
        → Checked
            (max_check_time - count)
            ports
            w.log
            (check_rounds o shift port_mask ports rounds count false w)
    unfolding check_rounds
    rounds-Checked zero count w total at_most = absurd (omega arith)
    rounds-Checked (suc zero) count w total at_most = absurd (omega arith)
    rounds-Checked (suc (suc rounds)) count w total at_most =
        let s = scan_ports-Silent o shift port_mask quiet ports true _ in
        rw (check_rounds, quiet w.outside)
          (end_round-Checked (check_rounds o shift port_mask ports (suc rounds) (count + 1)) ports
            count at_most (print_round rounds (count + 1))
            (λ w1 less. rounds-Checked (suc rounds) (count + 1) w1 (omega (arith, total)) less)
            s.all_ports_up w.log _ s.ended s.printed)

    -- If no signal sets force_quit, check_all_ports_link_status ends for every behaviour of the
    -- links: behind what was printed before it prints that it checks the links, then at most
    -- MAX_CHECK_TIME dots with a delay behind each, then that it is done, and then one line for
    -- each enabled port, in the order of the ports.
    pub check_all_ports_link_status-Checked :
        (w : Watch o shift port_mask)
        → Checked max_check_time ports
            (w.log ++ (checking ∷ []))
            (check_all_ports_link_status o shift port_mask ports w)
    unfolding check_all_ports_link_status
    check_all_ports_link_status-Checked w =
        rounds-Checked 91 0 (record w { log = w.log ++ (checking ∷ []) }) refl (omega arith)
