-- ===== src/Examples/Issuing.antt =====
-- A CA that issues to two nodes, renews, revokes and forgets one of them.
use greasewood.Base.{
  ℕ, ◌+◌, ◌*◌, ◌<◌, ◌≡◌, refl, ap, ◌≢◌, ◌↔◌, Bool, true, false, Option, List, [], ◌∷◌, ◌++◌, length,
  take, contains, ◌==◌, ==_self, list_eq, nat_eq, option_eq, pair_eq, Has, inl, inr, ◌⊎◌,
  if◌then◌else◌, arith, Text, Bytes, codes, hex,
}
use native.Mathlib.Decide.{ℕ_discrete}
use greasewood.Base.Dict
use greasewood.Wire.Statement.{kind_eq}
use greasewood.Errors.{ok, returned}
use greasewood.Wire.Time.{day, second, whole_second}
use greasewood.Wire.Record
use greasewood.Wire.Record.{NodeRecord}
use greasewood.Wire.Requests.{RenewRequest, verify_renew}
use greasewood.Directory.Defs.{Directory}
use greasewood.Hosts.Names.{sanitize}
use greasewood.Ca.Defs.{CaState}
use greasewood.Ca.Methods.{issue, renew, add_revoke, new_credential}
use greasewood.Ca.Issue.{issue_admits}
use greasewood.Ca.Names.{entry}
use greasewood.Ca.Holding.{Between}
use greasewood.Ca.Exclusive.{issue_exclusive}
use greasewood.Ca.Lifetime
use greasewood.Examples.Setup.{
  toy, toy-IsLawful, ann, ben, trusted_keys, start, cfg, fresh_ca, record_of,
}

abbrev pub db : Text
db = codes "db"

-- The CA just after it issued `db` to ann.
abbrev pub issued_ca : CaState
issued_ca = (issue cfg start ann ann db [] fresh_ca).1

fresh_issue :
    (issue cfg start ann ann db [] fresh_ca).0 ≡ ok (new_credential cfg start ann ann db [])
unfolding issue ℕ_discrete greasewood.Statements.Defs.revoked_ids option_eq
    greasewood.Base.Dict.erase_all greasewood.Base.Dict.values
fresh_issue = refl

abbrev ann_record : NodeRecord
ann_record = record (record_of (1 ∷ []) db [] start 1) {
  cred = new_credential cfg start ann ann db [];
}

issue_admits_example :
    Record.verify trusted_keys [] false (start + day) (Record.sign (1 ∷ []) ann_record) ≡ ok tt
unfolding whole_second toy Record.sign
issue_admits_example =
    issue_admits cfg toy-IsLawful (1 ∷ []) ann start (start + day) db [] fresh_ca
      (new_credential cfg start ann ann db []) ann_record trusted_keys [] refl fresh_issue refl refl
      (refl, tt) (inl refl) refl (omega arith)

same_name : sanitize (codes "DB") ≡ sanitize db
unfolding sanitize ℕ_discrete
same_name = refl

other_identity : (hex ben == hex ann) ≡ false
unfolding hex ℕ_discrete list_eq
other_identity = refl

-- In the meantime ben asks for a name of its own.
abbrev asked_ca : CaState
asked_ca = (issue cfg (start + second) ben ben (codes "web") [] issued_ca).1

meanwhile : Between cfg (hex ann) (entry cfg start db []) issued_ca asked_ca
unfolding whole_second
meanwhile =
    Between.asked (start + second) ben ben (codes "web") [] (omega arith) other_identity
      Between.begin

issue_exclusive_example :
    returned (issue cfg (start + day) ben ben (codes "DB") [] asked_ca).0 ≡ false
unfolding whole_second greasewood.Directory.Defs.get Dict.lookup
issue_exclusive_example =
    issue_exclusive cfg start (start + day) ann ben ann ben db (codes "DB") [] [] fresh_ca asked_ca
      tt (ap returned fresh_issue) (λ r h. ground arith) meanwhile same_name
      (ground (arith, other_identity)) (omega arith)

abbrev pub request : RenewRequest
request = record {
  id_pub = ann;
  wg_pub = ben;
  nonce = [];
  ts = start;
  hostname = [];
  sig =
      ann
      ++ greasewood.Wire.Json.canonical (
          greasewood.Wire.Requests.renew_body (record {
            id_pub = ann;
            wg_pub = ben;
            nonce = [];
            ts = start;
            hostname = [];
            sig = [];
          }));
}

abbrev revoked_ca : CaState
revoked_ca = (add_revoke cfg start ann issued_ca).1

abbrev later_ca : CaState
later_ca = (issue cfg (start + day) ben ben db [] revoked_ca).1

pub renewed : (renew cfg start request issued_ca).0 ≡ ok (new_credential cfg start ann ben db [])
unfolding renew issue ℕ_discrete toy list_eq greasewood.Wire.Json.canonical
    greasewood.Wire.Json.b64e greasewood.Wire.Time.ts greasewood.Statements.Defs.revoked_ids
    option_eq Dict.erase_all Dict.values Dict.lookup Dict.insert hex sanitize
renewed = refl
