-- ===== src/Reconcile/Pass.antt =====
-- `reconcile_once` of reconcile.py. A set is a list of which only the elements matter, the commands to
-- the kernel are the list that the pass gives, and its lines in the log are left out.
use greasewood.Base.{
  ℕ, Bool, true, not, ◌&&◌, ◌||◌, Option, none, some, List, [], ◌∷◌, ◌++◌, keep, map, ltb, ◌==◌,
  list_eq, nat_eq, option_eq, if◌then◌else◌, contains, Text, Bytes, hex,
}
use greasewood.Base.Dict
use greasewood.Base.Dict.{Dict}
use greasewood.Errors.{returned}
use greasewood.Wire.Json.{b64e}
use greasewood.Wire.Crypto.{Crypto}
use greasewood.Wire.Credential.{sorted}
use greasewood.Wire.Grants.{star}
use greasewood.Wire.Record
use greasewood.Wire.Record.{NodeRecord}
use greasewood.Directory.Defs.{Directory, get, all_records}
use greasewood.Policy.Tags.{roles}
use greasewood.Reconcile.Tracker.{
  Windows, Tracker, endpoint_candidates, witness, choose, is_backoff,
}
use greasewood.Reconcile.Diff.{LivePeer, Desired, Command, handshake_of, commands, reachable}

-- The arguments of the pass; no families stands for unknown ones.
pub record Setting : Type 0 where
  pub local_id_pub : Bytes
  pub local_caps : List Text
  pub ca_pubs : List Bytes
  pub revoked : List Text
  pub policy : List Text → List Text → Option Text → Option Text → Bool
  pub local_families : List ℕ
  pub windows : Windows
  pub local_hostname : Option Text

-- What the loop over the records carries.
pub record Pass : Type 0 where
  pub desired : Dict Text Desired
  pub trusted : List NodeRecord
  pub tracker : Option Tracker

-- `"*" in _roles(caps)`
abbrev pub reaches_all : List Text → Bool
reaches_all caps = contains (roles caps) star

abbrev pub wg_of : NodeRecord → Text
wg_of r = b64e r.cred.wg_pub

abbrev largest : List ℕ → ℕ
largest [] = 0
largest (n ∷ l) = let m = largest l in if ltb m n then n else m

-- The handshakes of the live peers with these keys.
handshakes : Dict Text LivePeer → List Text → List ℕ
handshakes live [] = []
handshakes live (k ∷ ks) =
    let rest = handshakes live ks in
    elim (Dict.lookup k live) [ none ↦ rest | some p ↦ p.latest_handshake ∷ rest ]

-- `_witness_handshake`
unfoldable pub witness_handshake : Dict Text LivePeer → Directory → Bytes → Bool → ℕ
unfolding handshakes roles
witness_handshake live directory local_id_pub is_anchor =
    let others = map (λ p. p.latest_handshake) (Dict.values live) in
    let anchors = map wg_of (
      keep (λ r. reaches_all r.cred.caps && not (r.id_pub == local_id_pub))
        (all_records directory)) in
    if is_anchor
    then largest others
    else elim (handshakes live anchors) [ [] ↦ largest others | h ∷ hs ↦ largest (h ∷ hs) ]

-- The endpoint and the keepalive for a peer, and the tracker afterwards.
abbrev first_of : List Text → Option Text
first_of [] = none
first_of (c ∷ l) = some c

unfoldable pub aim : Setting → ℕ → Bool → ℕ → NodeRecord → Option Tracker → Desired × Option Tracker
unfolding endpoint_candidates choose is_backoff
aim s now outbound_only hs r none =
    let candidates = endpoint_candidates r.endpoints s.local_families in
    (record { addr = r.cred.addr; endpoint = first_of candidates; keepalive = 25 }, none)
aim s now outbound_only hs r (some t) =
    let candidates = endpoint_candidates r.endpoints s.local_families in
    let (endpoint, t') = choose s.windows (wg_of r) candidates hs now t in
    (
      record {
        addr = r.cred.addr;
        endpoint = endpoint;
        keepalive = if is_backoff (wg_of r) t' && not outbound_only then 0 else 25;
      },
      some t',
    )

module _ ⦃C : Crypto⦄ where
  -- Steps 1 to 5: full verification, with the expiry waived where either end is an anchor.
  unfoldable pub verified : Setting → ℕ → NodeRecord → Bool
  unfolding Record.verify roles
  verified s now r = returned (
      Record.verify s.ca_pubs s.revoked (reaches_all s.local_caps || reaches_all r.cred.caps) now r)

  -- The body of the loop over the records.
  unfoldable pub consider : Setting → ℕ → Bool → Dict Text LivePeer → NodeRecord → Pass → Pass
  unfolding verified aim b64e
  consider s now outbound_only live r p =
      if not (verified s now r)
      then p
      else if r.id_pub == s.local_id_pub
      then record p { trusted = p.trusted ++ r ∷ [] }
      else if not (s.policy s.local_caps r.cred.caps s.local_hostname (some r.cred.hostname))
      then record p { trusted = p.trusted ++ r ∷ [] }
      else (let (want, tracker) =
            aim s now outbound_only (handshake_of live (wg_of r)) r p.tracker in
          record {
            desired = Dict.insert (wg_of r) want p.desired;
            trusted = p.trusted ++ r ∷ [];
            tracker = tracker;
          })

  unfoldable pub consider_all :
      Setting → ℕ → Bool → Dict Text LivePeer → List NodeRecord → Pass → Pass
  unfolding consider
  consider_all s now outbound_only live [] p = p
  consider_all s now outbound_only live (r ∷ rs) p =
      consider_all s now outbound_only live rs (consider s now outbound_only live r p)

-- Each text once.
as_set : List Text → List Text
as_set [] = []
as_set (a ∷ l) = let rest = as_set l in if contains rest a then rest else a ∷ rest

-- What a pass gives: `ReconcileResult`, the commands, and the tracker afterwards.
pub record Outcome : Type 0 where
  pub trusted : List NodeRecord
  pub reachable_addrs : List Text
  pub issued : List Command
  pub tracker_after : Option Tracker

module _ ⦃C : Crypto⦄ where
  -- The pass once the live peers are read.
  unfoldable pub desired_of : Setting → ℕ → Directory → Option Tracker → Dict Text LivePeer → Pass
  unfolding witness witness_handshake consider_all get all_records
  desired_of s now directory tracker live =
      let outbound_only : Bool = elim (get (hex s.local_id_pub) directory) [
        | none ↦ true
        | some own ↦ own.endpoints == []
      ] in
      let tracker' : Option Tracker = elim tracker [
        | none ↦ none
        | some t ↦ some (
            witness s.windows now
              (witness_handshake live directory s.local_id_pub (reaches_all s.local_caps)) t)
      ] in
      consider_all s now outbound_only live (all_records directory)
        (record { desired = []; trusted = []; tracker = tracker' })

  -- `reconcile_once`, with the live peers of the interface, or none where they could not be read
  unfoldable pub reconcile_once :
      Setting → ℕ → Directory → Option Tracker → Option (Dict Text LivePeer) → Outcome
  unfolding desired_of commands reachable as_set
  reconcile_once s now directory tracker none = record {
    trusted = [];
    reachable_addrs = [];
    issued = [];
    tracker_after = tracker;
  }
  reconcile_once s now directory tracker (some live) =
      let p = desired_of s now directory tracker live in
      record {
        trusted = p.trusted;
        reachable_addrs = sorted (as_set (reachable now p.desired live));
        issued = commands p.desired live;
        tracker_after = p.tracker;
      }
