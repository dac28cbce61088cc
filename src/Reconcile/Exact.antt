-- ===== src/Reconcile/Exact.antt =====
-- The peers of the kernel after a pass of reconcile.py.
use greasewood.Base.{
  ℕ, ◌≡◌, refl, ap, ◌∙◌, inl, inr, Bool, true, not, ◌&&◌, ◌||◌, Option, some, List, [], ◌∷◌, ◌++◌,
  any, keep, map, ◌==◌, list_eq, nat_eq, contains, arith, Text, Bool-cases, Option-cases,
}
use greasewood.Base.Dict
use greasewood.Base.Dict.{Dict}
use greasewood.Wire.Crypto.{Crypto}
use greasewood.Wire.Record.{NodeRecord}
use greasewood.Directory.Defs.{Directory, all_records}
use greasewood.Reconcile.Tracker.{Tracker}
use greasewood.Reconcile.Diff.{
  LivePeer, Desired, Command, set_peer, remove_peer, has_key, install, update, uninstall, commands,
  differs, stale_routes, handshake_of,
}
use greasewood.Reconcile.Pass.{
  Setting, Pass, wg_of, verified, consider, consider_all, desired_of, reconcile_once, aim,
}

pub contains-keep :
    (p : Text → Bool) (ks : List Text) (k : Text) → contains (keep p ks) k ≡ (contains ks k && p k)
contains-keep p [] k = refl
contains-keep p (j ∷ ks) k = ground (arith, contains-keep p ks k)

contains-keys : {V : Type 0} (d : Dict Text V) (k : Text) → contains (Dict.keys d) k ≡ has_key d k
unfolding Dict.keys Dict.lookup
contains-keys [] k = refl
contains-keys ((j, v) ∷ d) k = ground (arith, contains-keys d k)

-- The kernel's side of `wg set`, as its manual documents it for the set of peers.
pub record Kernel : Type 1 where
  pub State : Type 0
  pub has_peer : State → Text → Bool
  pub run : Command → State → State
  pub has_peer-set_peer :
      (k : Text) (addrs : List Text) (ep : Option Text) (n : ℕ) (s : State) (j : Text)
      → has_peer (run (set_peer k addrs ep n) s) j ≡ (j == k || has_peer s j)
  pub has_peer-remove_peer :
      (k : Text) (routes : List Text) (s : State) (j : Text)
      → has_peer (run (remove_peer k routes) s) j ≡ (not (j == k) && has_peer s j)

module _ (M : Kernel) where
  abbrev pub run_all : List Command → M.State → M.State
  run_all [] s = s
  run_all (c ∷ cs) s = run_all cs (M.run c s)

  run_all-append :
      (cs ds : List Command) (s : M.State) → run_all (cs ++ ds) s ≡ run_all ds (run_all cs s)
  run_all-append [] ds s = refl
  run_all-append (c ∷ cs) ds s = run_all-append cs ds (M.run c s)

  run_all-install :
      (desired : Dict Text Desired) (ks : List Text) (s : M.State) (j : Text)
      → M.has_peer (run_all (install desired ks) s) j
        ≡ (M.has_peer s j || (contains ks j && has_key desired j))
  unfolding install
  run_all-install desired [] s j = ground arith
  run_all-install desired (k ∷ ks) s j = elim (Option-cases (Dict.lookup k desired)) [
    | inl absent ↦ ground (arith, run_all-install desired ks s j)
    | inr (w, there) ↦ ground (
      arith,
      run_all-install desired ks (M.run (set_peer k (w.addr ∷ []) w.endpoint w.keepalive) s) j,
      M.has_peer-set_peer k (w.addr ∷ []) w.endpoint w.keepalive s j,
    )
  ]

  run_all-update :
      (desired : Dict Text Desired) (live : Dict Text LivePeer) (ks : List Text) (s : M.State)
      (j : Text)
      → (has_key live j ≡ true → M.has_peer s j ≡ true)
      → M.has_peer (run_all (update desired live ks) s) j ≡ M.has_peer s j
  unfolding update
  run_all-update desired live [] s j h = refl
  run_all-update desired live (k ∷ ks) s j h = elim (Option-cases (Dict.lookup k desired)) [
    | inl absent ↦ ground (arith, run_all-update desired live ks s j h)
    | inr (w, there) ↦ elim (Option-cases (Dict.lookup k live)) [
      | inl gone ↦ ground (arith, run_all-update desired live ks s j h)
      | inr (p, alive) ↦ elim (Bool-cases (differs w p)) [
        | inr same ↦ ground (arith, run_all-update desired live ks s j h)
        | inl other ↦
            let set = M.has_peer-set_peer k (w.addr ∷ []) w.endpoint w.keepalive s j in
            let s' = M.run (set_peer k (w.addr ∷ []) w.endpoint w.keepalive) s in
            let rest = run_all-update desired live ks s' j (λ l. ground arith) in ground arith
      ]
    ]
  ]

  run_all-uninstall :
      (addrs : List Text) (live : Dict Text LivePeer) (ks : List Text) (s : M.State) (j : Text)
      → M.has_peer (run_all (uninstall addrs live ks) s) j
        ≡ (M.has_peer s j && not (contains ks j && has_key live j))
  unfolding uninstall
  run_all-uninstall addrs live [] s j = ground arith
  run_all-uninstall addrs live (k ∷ ks) s j = elim (Option-cases (Dict.lookup k live)) [
    | inl absent ↦ ground (arith, run_all-uninstall addrs live ks s j)
    | inr (p, there) ↦ ground (
      arith,
      run_all-uninstall addrs live ks (M.run (remove_peer k (stale_routes addrs p)) s) j,
      M.has_peer-remove_peer k (stale_routes addrs p) s j,
    )
  ]

  -- Run on a kernel whose peers are the live ones, the commands leave the wanted ones.
  run_all-commands :
      (desired : Dict Text Desired) (live : Dict Text LivePeer) (s : M.State) (j : Text)
      → M.has_peer s j ≡ has_key live j
      → M.has_peer (run_all (commands desired live) s) j ≡ has_key desired j
  unfolding commands
  run_all-commands desired live s j h =
      let fresh = keep (λ k. not (has_key live k)) (Dict.keys desired) in
      let kept = keep (has_key live) (Dict.keys desired) in
      let gone = keep (λ k. not (has_key desired k)) (Dict.keys live) in
      let addrs = map (λ w. w.addr) (Dict.values desired) in
      let s1 = run_all (install desired fresh) s in
      let s2 = run_all (update desired live kept) s1 in
      let installed = run_all-install desired fresh s j in
      let updated : M.has_peer s2 j ≡ M.has_peer s1 j =
        run_all-update desired live kept s1 j (λ l. ground arith) in
      let split : run_all (commands desired live) s ≡ run_all (uninstall addrs live gone) s2 =
        run_all-append (install desired fresh ++ update desired live kept)
          (uninstall addrs live gone) s
        ∙ ap (run_all (uninstall addrs live gone))
            (run_all-append (install desired fresh) (update desired live kept) s) in
      ap (λ k. M.has_peer k j) split
      ∙ rw
          (
            run_all-uninstall addrs live gone s2 j,
            updated,
            installed,
            h,
            contains-keep (λ k. not (has_key live k)) (Dict.keys desired) j,
            contains-keep (λ k. not (has_key desired k)) (Dict.keys live) j,
            contains-keys desired j,
            contains-keys live j,
          )
          (exactly (has_key live j) (has_key desired j))
    where
      exactly : (l d : Bool) → ((l || ((d && not l) && d)) && not ((l && not d) && l)) ≡ d
      exactly l d = ground arith

module _ ⦃C : Crypto⦄ (s : Setting) (now : ℕ) where
  -- A record that the pass installs as a peer: verified, of another node, and allowed by the policy.
  abbrev pub authorized : NodeRecord → Bool
  authorized r =
      verified s now r
      && (not (r.id_pub == s.local_id_pub)
          && s.policy s.local_caps r.cred.caps s.local_hostname (some r.cred.hostname))

  consider-has_key :
      (outbound_only : Bool) (live : Dict Text LivePeer) (r : NodeRecord) (p : Pass) (j : Text)
      → has_key (consider s now outbound_only live r p).desired j
        ≡ (has_key p.desired j || (authorized r && (j == wg_of r)))
  unfolding consider
  consider-has_key outbound_only live r p j = ground (
    arith,
    Dict.lookup-insert j (wg_of r)
        (aim s now outbound_only (handshake_of live (wg_of r)) r p.tracker).0 p.desired,
  )

  consider_all-has_key :
      (outbound_only : Bool) (live : Dict Text LivePeer) (rs : List NodeRecord) (p : Pass)
      (j : Text)
      → has_key (consider_all s now outbound_only live rs p).desired j
        ≡ (has_key p.desired j || any (λ r. authorized r && (j == wg_of r)) rs)
  unfolding consider_all
  consider_all-has_key outbound_only live [] p j = ground arith
  consider_all-has_key outbound_only live (r ∷ rs) p j = ground (
    arith,
    consider_all-has_key outbound_only live rs (consider s now outbound_only live r p) j,
    consider-has_key outbound_only live r p j,
  )

  desired_of-has_key :
      (directory : Directory) (tracker : Option Tracker) (live : Dict Text LivePeer) (j : Text)
      → has_key (desired_of s now directory tracker live).desired j
        ≡ any (λ r. authorized r && (j == wg_of r)) (all_records directory)
  unfolding desired_of Dict.lookup
  desired_of-has_key directory tracker live j =
      consider_all-has_key _ live (all_records directory) _ j

  -- A pass whose commands succeed, on a kernel that has a peer where the pass reads one, leaves a
  -- key as a peer exactly when it is the WireGuard key of a record that is verified, of another
  -- node, and allowed by the policy, whatever peers there were before and whatever the endpoint
  -- tracker remembers.
  pub reconcile_exact :
      (M : Kernel) (kernel : M.State) (directory : Directory) (tracker : Option Tracker)
      → (live : Dict Text LivePeer) (j : Text) → M.has_peer kernel j ≡ has_key live j
      → M.has_peer (run_all M (reconcile_once s now directory tracker (some live)).issued kernel) j
        ≡ any (λ r. authorized r && (j == wg_of r)) (all_records directory)
  unfolding reconcile_once
  reconcile_exact M kernel directory tracker live j h =
      run_all-commands M (desired_of s now directory tracker live).desired live kernel j h
      ∙ desired_of-has_key directory tracker live j
