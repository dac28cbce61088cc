-- ===== src/Enroll/Defs.antt =====
-- `EnrollServer` of enroll.py: what a request must have, and the issue of the credential with its
-- rollback. The fields of the request are decoded; what the commands on the host do, and whether the
-- sends on the socket succeed, is an argument.
use greasewood.Base.{
  ℕ, Bool, true, false, not, ◌||◌, Option, none, some, List, [], ◌∷◌, ◌++◌, length, any, all, map,
  keep, ltb, ◌==◌, list_eq, nat_eq, option_eq, pair_eq, if◌then◌else◌, contains, Text, Bytes, codes,
}
use greasewood.Errors.{Result, ok, err, malformed, no_key, returned}
use greasewood.Wire.Json.{canonical}
use greasewood.Wire.Crypto.{Crypto}
use greasewood.Wire.Credential.{Credential}
use greasewood.Wire.Record
use greasewood.Wire.Record.{NodeRecord}
use greasewood.Wire.Requests.{enroll_pop_body}
use greasewood.Directory.Defs.{merge}
use greasewood.Ca.Defs.{Config, CaState, node_info, load_revoked_set}
use greasewood.Ca.Methods.{issue, discard_recent, is_set}

-- What the server is built with for a window.
pub record Window : Type 0 where
  pub standing : Bool
  pub max_attempts : ℕ
  pub caps : List Text
  pub allowed_roles : List Text
  -- `pinned_hostname`, empty where there is none
  pub pinned_hostname : Text

-- The field `hostname` of a request.
pub data HostField : Type 0 where
  missing null_host other : HostField
  name : Text → HostField

-- A request: whether its version is 1, and its fields, none where one is missing or cannot be decoded.
pub record Request : Type 0 where
  pub version_1 : Bool
  pub id_pub : Option Bytes
  pub wg_pub : Option Bytes
  pub hostname : HostField
  pub id_sig : Option Bytes
  pub roles : List Text

-- What `_validate_request` returns.
pub record Joiner : Type 0 where
  pub id_pub : Bytes
  pub wg_pub : Bytes
  pub hostname : Text
  pub roles : List Text

-- The check of the hostname's form.
unfoldable pub is_bad_host : HostField → Bool
is_bad_host missing = false
is_bad_host null_host = false
is_bad_host other = true
is_bad_host (name t) = ltb 253 (length t) || any (λ c. ltb c 32) t

-- `req.get("hostname") or ""`, under the proof of possession
unfoldable pub claimed_host : HostField → Text
claimed_host (name t) = t
claimed_host _ = []

-- `self._pinned_hostname or str(req["hostname"])`; `str(None)` is "None"
unfoldable pub host_of : Text → HostField → Result Text
host_of (c ∷ s) field = ok (c ∷ s)
host_of [] missing = err no_key
host_of [] null_host = ok (codes "None")
host_of [] other = err malformed
host_of [] (name t) = ok t

module _ ⦃C : Crypto⦄ where
  -- The checks of `_validate_request` on the decoded keys and signature.
  unfoldable pub validate_keys : Window → Request → Bytes → Bytes → Option Bytes → Result Joiner
  unfolding is_bad_host claimed_host host_of enroll_pop_body
  validate_keys win req id_pub wg_pub none = err malformed
  validate_keys win req id_pub wg_pub (some sig) =
      if not (length id_pub == 32) || not (length wg_pub == 32) || is_bad_host req.hostname
      then err malformed
      else if not (
          C.verify_sig id_pub sig
            (canonical (enroll_pop_body id_pub wg_pub (claimed_host req.hostname))))
      then err malformed
      else elim (host_of win.pinned_hostname req.hostname) [
        | err e ↦ err e
        | ok host ↦
            ok (record { id_pub = id_pub; wg_pub = wg_pub; hostname = host; roles = req.roles })
      ]

  -- `_validate_request`
  unfoldable pub validate_request : Window → Request → Result Joiner
  unfolding validate_keys
  validate_request win req = if not req.version_1 then err malformed else elim req.id_pub [
    | none ↦ err malformed
    | some id_pub ↦ elim req.wg_pub [
      | none ↦ err malformed
      | some wg_pub ↦ validate_keys win req id_pub wg_pub req.id_sig
    ]
  ]

-- `list(dict.fromkeys(l))`
unfoldable pub distinct_from : List Text → List Text → List Text
distinct_from seen [] = []
distinct_from seen (a ∷ l) =
    let old = distinct_from seen l in
    let new = distinct_from (a ∷ seen) l in if contains seen a then old else a ∷ new

abbrev pub role_prefix : Text
role_prefix = codes "role:"

-- The caps of a joiner: none for a role that the window does not offer.
unfoldable pub caps_for_joiner : Window → List Text → Option (List Text)
unfolding distinct_from
caps_for_joiner win roles = elim win.allowed_roles [
  | [] ↦ some win.caps
  | r ∷ rs ↦
      let picked : List Text = keep is_set roles in
      if not (all (contains win.allowed_roles) picked)
      then none
      else some (distinct_from [] (win.caps ++ map (λ p. role_prefix ++ p) picked))
]

-- What `set_peer` does: it returns, raises a `CalledProcessError`, or raises another exception, such as
-- the `FileNotFoundError` of a missing program.
pub data Install : Type 0 where
  installed command_failed other_failure : Install

-- What `_issue_and_install` does: it returns None, returns the credential, or raises.
pub data Outcome : Type 0 where
  refused raised : Outcome
  granted : Credential → Outcome

module _ ⦃C : Crypto⦄ (cfg : Config) where
  -- `_issue_and_install`, from the issue on. Only a `CalledProcessError` rolls the claim back; another
  -- exception of `set_peer` leaves the method with the claim in place.
  unfoldable pub issue_with : ℕ → Install → Joiner → List Text → CaState → Outcome × CaState
  unfolding node_info issue discard_recent
  issue_with now install j caps st =
      let (info, st1) = node_info cfg now j.id_pub st in
      let (r, st2) = issue cfg now j.id_pub j.wg_pub j.hostname caps st1 in
      elim r [
        | err e ↦ (refused, st2)
        | ok cred ↦ elim install [
          | installed ↦ (granted cred, st2)
          | command_failed ↦
              if not (info == none)
              then (refused, st2)
              else (refused, (discard_recent j.id_pub st2).1)
          | other_failure ↦ (raised, st2)
        ]
      ]

  -- `_issue_and_install`
  unfoldable pub issue_and_install : Window → ℕ → Install → Joiner → CaState → Outcome × CaState
  unfolding caps_for_joiner issue_with
  issue_and_install win now install j st = elim (caps_for_joiner win j.roles) [
    | none ↦ (refused, st)
    | some caps ↦ issue_with now install j caps st
  ]

  -- `_receive_first_record`: none where no record comes or it cannot be parsed
  unfoldable pub receive_first_record : ℕ → Option NodeRecord → CaState → CaState
  unfolding merge load_revoked_set
  receive_first_record now none st = st
  receive_first_record now (some r) st =
      if returned (Record.verify cfg.ca_pubs (load_revoked_set st) false now r)
      then record st { directory = (merge now (r ∷ []) st.directory).0 }
      else st
