-- ===== src/Examples/Daemon.antt =====
-- The daemon's small decisions on concrete input: an upgrade, a flapping link, a free port, a firewall.
use greasewood.Base.{
  ℕ, ◌+◌, ◌*◌, ◌<◌, ◌≡◌, refl, true, false, Option, none, some, List, [], ◌∷◌, nat_eq, list_eq,
  option_eq, arith, Has, inl, inr, Text, codes, contains, map,
}
use native.Mathlib.Decide.{ℕ_discrete}
use greasewood.Upgrade.Version.{is_newer}
use greasewood.Upgrade.Manager.{
  Announcement, Manager, Node, offer, Outcome, install, upgrade, attempt,
}
use greasewood.Upgrade.Laws.{idle, begin, offered, Life-install}
use greasewood.Loops.Publish.{Publisher, Pass, publications, Spaced, publications-Spaced}
use greasewood.Host.Ports.{used_ports, free_listen_port, free_listen_port_total}
use greasewood.Host.Firewall.{
  Rule, accept, matches, payload, one, number, NftRule, Item, chain, rule, rule_accepts,
}
use greasewood.Host.Checks.{with_op, rule_accepts-with_op}

abbrev release : Announcement
release = record { ts = 5; version = codes "0.8.0"; sha256 = codes "ab" }

abbrev willing : Node
willing = record { running = codes "0.7.1"; auto_upgrade = true; is_macos = false; has_pipx = true }

abbrev fetched : Outcome
fetched = record { digest = some (codes "ab"); uninstalls = true; installs = true }

abbrev corrupt : Outcome
corrupt = record { digest = some (codes "cd"); uninstalls = true; installs = true }

ran : Has (install (codes "ab")) (attempt willing fetched 90 (offer willing 9 release idle)).1
unfolding attempt offer ℕ_discrete list_eq option_eq is_newer
ran = inr (inl refl)

Life-install_example :
    (a : Announcement) × Has a (release ∷ [])
    × (is_newer a.version willing.running ≡ true)
    × (fetched.digest ≡ some a.sha256)
    × ((d : Text) → install (codes "ab") ≡ install d → d ≡ a.sha256)
Life-install_example =
    Life-install willing fetched 90 (install (codes "ab")) (offered willing 9 release begin) ran

abbrev scheduled : Manager
scheduled = record { timer = some release; noted_ts = none; failed_ts = none; retry_at = 0 }

raised : (upgrade willing corrupt release.version release.sha256).0 ≡ true
unfolding upgrade ℕ_discrete list_eq is_newer
raised = refl

newer : is_newer release.version willing.running ≡ true
unfolding is_newer ℕ_discrete
newer = refl

abbrev up : List Text
up = codes "fd8d::1" ∷ []

abbrev sent : Publisher
sent = record { last = some up; last_pub = 100 }

abbrev flapping : List Pass
flapping =
    record { now = 105; reachable = []; publishes = true }
    ∷ record { now = 135; reachable = []; publishes = true }
    ∷ record { now = 140; reachable = up; publishes = true }
    ∷ []

publications-Spaced_example : Spaced 30 100 up (publications 30 flapping sent)
publications-Spaced_example = publications-Spaced 30 flapping sent up refl (omega arith)

abbrev configs : List (Option ℕ)
configs = some 51900 ∷ none ∷ []

free_listen_port_total_example :
    (k : ℕ) × (free_listen_port configs (some (51910 ∷ [])) ≡ some (51900 + 10 * k))
    × (contains (used_ports configs (some (51910 ∷ []))) (51900 + 10 * k) ≡ false)
    × ((j : ℕ) → j < k → contains (used_ports configs (some (51910 ∷ []))) (51900 + 10 * j) ≡ true)
free_listen_port_total_example = free_listen_port_total configs (some (51910 ∷ []))

-- `udp dport != 51900 accept`
abbrev all_but : NftRule
all_but = record {
  table = codes "filter";
  expr =
      matches (codes "!=") (payload (codes "udp") (codes "dport")) (one (number 51900))
      ∷ accept
      ∷ [];
}

abbrev items : List Item
items =
    chain (record { hook = some (codes "input"); policy = some (codes "drop") }) ∷ rule all_but ∷ []

abbrev wanted : Rule
wanted = record { proto = codes "udp"; port = 51900; iif = none }

rule_accepts-with_op_example :
    rule_accepts (record all_but { expr = map (with_op (codes "==")) all_but.expr }) wanted
    ≡ rule_accepts all_but wanted
rule_accepts-with_op_example = rule_accepts-with_op (codes "==") all_but wanted
