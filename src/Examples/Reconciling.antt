-- ===== src/Examples/Reconciling.antt =====
-- A pass over a small directory, on a kernel that is the list of its peers.
use greasewood.Base.{
  ◌+◌, ◌*◌, ◌≡◌, refl, not, ◌&&◌, none, some, List, [], ◌∷◌, any, keep, contains, ◌==◌, list_eq,
  nat_eq, arith, Text, codes, hex,
}
use greasewood.Base.Dict
use greasewood.Base.Dict.{Dict}
use greasewood.Wire.Time.{day, second}
use greasewood.Directory.Defs.{Directory, all_records}
use greasewood.Policy.Tags.{peers_allowed}
use greasewood.Reconcile.Tracker.{Windows, Tracker}
use greasewood.Reconcile.Diff.{Command, set_peer, remove_peer, LivePeer, has_key}
use greasewood.Reconcile.Pass.{Setting, wg_of, reconcile_once}
use greasewood.Reconcile.Exact.{Kernel, run_all, authorized, reconcile_exact, contains-keep}
use greasewood.Examples.Setup.{toy, ann, ben, trusted_keys, start, record_of}

abbrev run_one : Command → List Text → List Text
run_one (set_peer k addrs ep n) s = k ∷ s
run_one (remove_peer k routes) s = keep (λ x. not (x == k)) s

without :
    (s : List Text) (k j : Text)
    → contains (keep (λ x. not (x == k)) s) j ≡ (not (j == k) && contains s j)
without s k j = ground (arith, contains-keep (λ x. not (x == k)) s j)

abbrev peer_list : Kernel
peer_list = record {
  State = List Text;
  has_peer = contains;
  run = run_one;
  has_peer-set_peer = λ k addrs ep n s j. refl;
  has_peer-remove_peer = λ k routes s j. without s k j;
}

abbrev windows : Windows
windows = record {
  dwell = 20 * second;
  healthy = 180 * second;
  wake_rearm = 180 * second;
  wake_settle = 180 * second;
}

abbrev setting : Setting
setting = record {
  local_id_pub = ann;
  local_caps = [];
  ca_pubs = trusted_keys;
  revoked = [];
  policy = λ local peer a b. peers_allowed local peer none a b;
  local_families = 4 ∷ [];
  windows = windows;
  local_hostname = none;
}

abbrev directory : Directory
directory =
    (hex ann, record_of (1 ∷ []) (codes "a") [] start 1)
    ∷ (hex ben, record_of (2 ∷ []) (codes "b") [] start 1)
    ∷ []

no_peers : (j : Text) → contains [] j ≡ has_key {V = LivePeer} [] j
unfolding Dict.lookup
no_peers j = refl

abbrev ben_key : Text
ben_key = wg_of (record_of (2 ∷ []) (codes "b") [] start 1)

reconcile_exact_example :
    contains
      (run_all peer_list (reconcile_once setting (start + day) directory none (some [])).issued [])
      ben_key
    ≡ any (λ r. authorized setting (start + day) r && (ben_key == wg_of r)) (all_records directory)
reconcile_exact_example =
    reconcile_exact setting (start + day) peer_list [] directory none [] ben_key (no_peers ben_key)

abbrev quiet : Tracker
quiet = record { state = []; last_witness = 0; wake_until = 0 }

abbrev two_endpoints : List Text
two_endpoints = codes "192.0.2.1:51900" ∷ codes "192.0.2.2:51900" ∷ []
