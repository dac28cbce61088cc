-- ===== src/Reconcile/Diff.antt =====
-- The wanted peers of `reconcile_once` of reconcile.py against the live ones: the commands that make the
-- one set into the other. A set is a list of which only the elements matter.
use greasewood.Base.{
  ℕ, ◌+◌, ◌*◌, Bool, true, false, not, ◌&&◌, ◌||◌, Option, none, some, List, [], ◌∷◌, ◌++◌, keep,
  map, all, ltb, leb, ◌==◌, list_eq, nat_eq, option_eq, if◌then◌else◌, contains, Text,
}
use greasewood.Base.Dict
use greasewood.Base.Dict.{Dict}
use greasewood.Wire.Time.{second}
use greasewood.Wire.Credential.{sorted}

-- `LivePeer` of wg.py, as far as the pass reads it.
pub record LivePeer : Type 0 where
  pub endpoint : Text
  pub allowed_addrs : List Text
  pub latest_handshake : ℕ
  pub keepalive : ℕ

-- `_Desired`
pub record Desired : Type 0 where
  pub addr : Text
  pub endpoint : Option Text
  pub keepalive : ℕ

-- The calls of `set_peer` and `remove_peer` of wg.py.
pub data Command : Type 0 where
  set_peer : Text → List Text → Option Text → ℕ → Command
  remove_peer : Text → List Text → Command

abbrev pub handshake_of : Dict Text LivePeer → Text → ℕ
handshake_of live k = elim (Dict.lookup k live) [ none ↦ 0 | some p ↦ p.latest_handshake ]

abbrev pub has_key : {V : Type 0} → Dict Text V → Text → Bool
has_key d k = elim (Dict.lookup k d) [ none ↦ false | some _ ↦ true ]

-- The commands for a wanted peer that is absent.
unfoldable pub install : Dict Text Desired → List Text → List Command
install desired [] = []
install desired (k ∷ ks) =
    let rest = install desired ks in
    elim (Dict.lookup k desired) [
      | none ↦ rest
      | some want ↦ set_peer k (want.addr ∷ []) want.endpoint want.keepalive ∷ rest
    ]

-- Whether a peer that is present differs from what is wanted.
unfoldable pub differs : Desired → LivePeer → Bool
differs want have =
    elim want.endpoint [ none ↦ false | some ep ↦ not (ep == []) && not (have.endpoint == ep) ]
    || not (contains have.allowed_addrs want.addr && all (λ a. a == want.addr) have.allowed_addrs)
    || not (have.keepalive == want.keepalive)

unfoldable pub update : Dict Text Desired → Dict Text LivePeer → List Text → List Command
unfolding differs
update desired live [] = []
update desired live (k ∷ ks) =
    let rest = update desired live ks in
    elim (Dict.lookup k desired) [
      | none ↦ rest
      | some want ↦ elim (Dict.lookup k live) [
        | none ↦ rest
        | some have ↦
            if differs want have
            then set_peer k (want.addr ∷ []) want.endpoint want.keepalive ∷ rest
            else rest
      ]
    ]

-- The routes of a removed peer that no wanted peer needs.
unfoldable pub stale_routes : List Text → LivePeer → List Text
unfolding sorted
stale_routes desired_addrs have =
    keep (λ a. not (contains desired_addrs a)) (sorted have.allowed_addrs)

unfoldable pub uninstall : List Text → Dict Text LivePeer → List Text → List Command
uninstall desired_addrs live [] = []
uninstall desired_addrs live (k ∷ ks) =
    let rest = uninstall desired_addrs live ks in
    elim (Dict.lookup k live) [
      | none ↦ rest
      | some have ↦ remove_peer k (stale_routes desired_addrs have) ∷ rest
    ]

-- The three-way difference.
unfoldable pub commands : Dict Text Desired → Dict Text LivePeer → List Command
unfolding install update uninstall sorted
commands desired live =
    install desired (keep (λ k. not (has_key live k)) (Dict.keys desired))
    ++ update desired live (keep (has_key live) (Dict.keys desired))
    ++ uninstall (map (λ w. w.addr) (Dict.values desired)) live
        (keep (λ k. not (has_key desired k)) (Dict.keys live))

-- The overlay addresses with a live handshake.
unfoldable pub reachable : ℕ → Dict Text Desired → Dict Text LivePeer → List Text
reachable now [] live = []
reachable now ((k, want) ∷ desired) live =
    let rest = reachable now desired live in
    let hs = handshake_of live k in
    if ltb 0 hs && leb now (hs * second + 180 * second) then want.addr ∷ rest else rest
