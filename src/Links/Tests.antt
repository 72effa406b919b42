-- ===== src/Links/Tests.antt =====
-- Three ports, of which one is masked and one comes up late.
use dpdk_practice.Base.{ℕ, ◌+◌, ◌^◌, false, [], ◌∷◌, ltb, ◌==◌, ◌&&◌, if◌then◌else◌, refl}
use dpdk_practice.Links.{
  checking, get_failed, link_down, link_up, Outside, Watch, check_all_ports_link_status,
}
use dpdk_practice.Links.Laws.{Checked, check_all_ports_link_status-Checked}

-- The state counts the questions; port 2 answers with an error for a while, then it is up.
abbrev slow_link : Outside
slow_link = record {
  State = ℕ;
  force_quit = λ s. (false, s);
  link_get = λ s portid. (
    if portid == 2 && ltb s 3 then get_failed else if portid == 1 then link_down else link_up,
    s + 1,
  );
}

abbrev at_start : Watch slow_link (λ n. 2 ^ n) 5
at_start = record { outside = 0; log = [] }

check_all_ports_link_status-Checked_example :
    Checked slow_link
      (λ n. 2 ^ n)
      5
      90
      (0 ∷ 1 ∷ 2 ∷ [])
      (checking ∷ [])
      (check_all_ports_link_status slow_link (λ n. 2 ^ n) 5 (0 ∷ 1 ∷ 2 ∷ []) at_start)
check_all_ports_link_status-Checked_example =
    check_all_ports_link_status-Checked slow_link (λ n. 2 ^ n) 5 (λ s. refl) (0 ∷ 1 ∷ 2 ∷ [])
      at_start
