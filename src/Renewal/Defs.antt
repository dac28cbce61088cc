-- ===== src/Renewal/Defs.antt =====
-- `RenewalLoop` of renewal.py: how a renewed credential is adopted and published. What an anchor
-- answers to `_do_renew` and to the push of the record is an argument.
use greasewood.Base.{
  ℕ, zero, suc, ◌+◌, ◌*◌, Bool, true, false, Option, none, some, List, [], ◌∷◌, keep, leb, ◌==◌,
  list_eq, nat_eq, option_eq, if◌then◌else◌, Text, Bytes, hex,
}
use greasewood.Errors.{returned}
use greasewood.Wire.Crypto.{Crypto}
use greasewood.Wire.Credential
use greasewood.Wire.Credential.{Credential}
use greasewood.Wire.Record
use greasewood.Wire.Record.{NodeRecord}
use greasewood.Directory.Defs.{Directory, get, put, size}
use greasewood.Ca.Methods.{is_set}
use greasewood.Renewal.Schedule.{backoff, max}

-- What the loop is built with.
pub record Node : Type 0 where
  pub id_priv : Bytes
  pub id_pub : Bytes
  pub endpoints : List Text
  pub aliases : List Text
  -- the trusted set, where the loop was given one
  pub ca_pubs : Option (List Bytes)

pub record RenewalState : Type 0 where
  pub cred : Credential
  pub directory : Directory
  pub acted_renew_after : Option ℕ

-- `maybe_renew_after`: the window over which the renewal is spread, where one is scheduled;
-- `spread` is `renew_spread`.
unfoldable pub maybe_renew_after : ℕ → Option ℕ → RenewalState → Option ℕ × RenewalState
unfolding size
maybe_renew_after spread none st = (none, st)
maybe_renew_after spread (some ts) st =
    if leb ts st.cred.iat
    then (none, st)
    else if st.acted_renew_after == some ts
    then (none, st)
    else (some (max 1 (size st.directory) * spread), record st { acted_renew_after = some ts })

-- What `get_anchor_url` gives: one URL, or a set that may be missing.
pub data Anchors : Type 0 where
  one : Text → Anchors
  set : Option (List Text) → Anchors

-- `_anchor_urls`
unfoldable pub anchor_urls : Anchors → List Text
anchor_urls (one url) = if is_set url then url ∷ [] else []
anchor_urls (set none) = []
anchor_urls (set (some urls)) = keep is_set urls

-- What an anchor answers: `_do_renew` raises a `RuntimeError` or a `ValueError`, or another exception,
-- or it returns a credential; and then whether the push of the record succeeds.
pub data Answer : Type 0 where
  refused crashed : Answer
  granted : Credential → Bool → Answer

module _ ⦃C : Crypto⦄ (node : Node) where
  -- The record that `_publish` signs, and `_publish`.
  unfoldable pub new_record : Credential → Directory → NodeRecord
  unfolding get Record.sign
  new_record c d =
      let existing = get (hex node.id_pub) d in
      Record.sign node.id_priv (record {
        id_pub = node.id_pub;
        seq = elim existing [ none ↦ 1 | some r ↦ r.seq + 1 ];
        endpoints = node.endpoints;
        cred = c;
        aliases = node.aliases;
        reachable = elim existing [ none ↦ [] | some r ↦ r.reachable ];
        relay = false;
        version = [];
        families = [];
        sig = [];
      })

  unfoldable pub publish : Credential → RenewalState → NodeRecord × RenewalState
  unfolding new_record put
  publish c st =
      let r = new_record c st.directory in (r, record st { directory = put r st.directory })

  -- `if self._get_ca_pubs is not None: new_cred.verify(self._get_ca_pubs())`
  unfoldable pub trusts : ℕ → Credential → Bool
  trusts now c = elim node.ca_pubs [
    | none ↦ true
    | some pubs ↦ returned (Credential.verify pubs false now c)
  ]

  -- The adoption of a credential.
  abbrev pub adopt : Credential → RenewalState → RenewalState
  adopt c st = (publish c (record st { cred = c })).1

  -- The loop of `_renew_and_publish` over the answers of the anchors: none where it raises.
  unfoldable pub try_anchors : ℕ → List Answer → RenewalState → Option Credential × RenewalState
  unfolding publish trusts
  try_anchors now [] st = (none, st)
  try_anchors now (refused ∷ rest) st = try_anchors now rest st
  try_anchors now (crashed ∷ rest) st = (none, st)
  try_anchors now (granted c pushed ∷ rest) st =
      let next = try_anchors now rest st in
      let after = try_anchors now rest (adopt c st) in
      if trusts now c then (if pushed then (some c, adopt c st) else after) else next

  -- The attempts of `run` between two waits, `count` of them from the given one on: the attempt `k`
  -- reads `tries k`, its clock and the answers. The result is the credential, if one was adopted and
  -- published, and the time slept.
  unfoldable pub attempts :
      ℕ → ℕ → (ℕ → ℕ × List Answer) → RenewalState → Option Credential × ℕ × RenewalState
  unfolding try_anchors backoff
  attempts zero k tries st = (none, 0, st)
  attempts (suc count) k tries st =
      let (now, answers) = tries k in
      let (got, st') = try_anchors now answers st in
      let (later, slept, end) = attempts count (suc k) tries st' in
      elim got [ some c ↦ (some c, 0, st') | none ↦ (later, backoff k + slept, end) ]

  -- `for attempt in range(5)`
  unfoldable pub run_attempts :
      (ℕ → ℕ × List Answer) → RenewalState → Option Credential × ℕ × RenewalState
  unfolding attempts
  run_attempts tries st = attempts 5 0 tries st
