-- ===== src/Examples/Renewing.antt =====
-- A node that waits for the middle of its credential's life, renews it, and publishes its record.
use greasewood.Base.{
  ℕ, ◌+◌, ◌*◌, ◌-◌, ◌/◌, ◌≤◌, ◌<◌, ◌≡◌, refl, Bool, true, false, none, some, [], ◌∷◌, list_eq,
  nat_eq, inl, arith, codes, hex,
}
use native.Mathlib.Decide.{ℕ_discrete}
use greasewood.Base.Dict
use greasewood.Errors.{ok}
use greasewood.Wire.Time.{day, second}
use greasewood.Wire.Credential
use greasewood.Wire.Credential.{Credential}
use greasewood.Ca.Defs.{load_revoked_set}
use greasewood.Ca.Methods.{new_credential}
use greasewood.Server.Defs.{Settings, Plane, status_ok, handle_publish}
use greasewood.Renewal.Schedule.{
  Round, late, half, latest, chunk, next_delay, wait_until_due, IsDrawn, next_delay_bounds,
  wait_until_due_ends,
}
use greasewood.Renewal.Defs.{Node, RenewalState, refused, granted, new_record, try_anchors}
use greasewood.Renewal.Landing.{renewal_lands}
use greasewood.Examples.Setup.{
  toy, toy-IsLawful, ann, ben, trusted_keys, start, cfg, cred_of, record_of,
}
use greasewood.Examples.Issuing.{db, issued_ca, request, renewed}

abbrev old_cred : Credential
old_cred = cred_of ann db [] start

-- A round at the given time, with the least draw.
abbrev round_at : ℕ → Round
round_at t = record { now = t; draw = second; jitter = late 0; woken = false }

round_at-IsDrawn : (t : ℕ) → IsDrawn old_cred (round_at t)
round_at-IsDrawn t = record { at_least = omega arith; at_most = omega arith; spread = omega arith }

old_half : half old_cred ≡ 15 * day
unfolding half Credential.sign
old_half = refl

next_delay_bounds_example :
    (second ≤ next_delay old_cred (round_at start))
    × (latest old_cred ≤ start → next_delay old_cred (round_at start) ≤ 30 * second)
    × (old_cred.iat + 60 * second ≤ old_cred.exp
        → start + 30 * second < old_cred.exp
        → start + next_delay old_cred (round_at start) < old_cred.exp)
next_delay_bounds_example = next_delay_bounds old_cred (round_at start) (round_at-IsDrawn start)

-- Half an hour before the latest point, in three rounds.
abbrev late_start : ℕ
late_start = start + 15 * day + 3 * day / 2 - 1800 * second

enough : latest old_cred ≤ late_start + 3 * chunk
unfolding Credential.sign
enough = rw old_half (omega arith)

wait_until_due_ends_example :
    (b : Bool) × (wait_until_due old_cred (
        round_at late_start
        ∷ round_at (late_start + chunk)
        ∷ round_at (late_start + 2 * chunk)
        ∷ [])
      ≡ some b)
wait_until_due_ends_example =
    wait_until_due_ends old_cred late_start (round_at late_start)
      (round_at (late_start + chunk) ∷ round_at (late_start + 2 * chunk) ∷ [])
      (
        omega arith,
        round_at-IsDrawn late_start,
        (
          omega arith,
          round_at-IsDrawn (late_start + chunk),
          (omega arith, round_at-IsDrawn (late_start + 2 * chunk), tt),
        ),
      )
      enough

in_reach : latest old_cred ≤ (late_start + 1800 * second) + chunk
unfolding Credential.sign
in_reach = rw old_half (omega arith)

abbrev node : Node
node = record {
  id_priv = 1 ∷ [];
  id_pub = ann;
  endpoints = [];
  aliases = [];
  ca_pubs = some trusted_keys;
}

abbrev renewing : RenewalState
renewing = record {
  cred = old_cred;
  directory = (hex ann, record_of (1 ∷ []) db [] start 3) ∷ [];
  acted_renew_after = none;
}

abbrev new_cred : Credential
new_cred = cred_of ann db [] (start + day)

adopted :
    (try_anchors node (start + day) (refused ∷ granted new_cred true ∷ []) renewing).0
    ≡ some new_cred
unfolding try_anchors Credential.verify ℕ_discrete toy list_eq Credential.sign
    greasewood.Wire.Json.canonical greasewood.Wire.Crypto.derive_addr
    greasewood.Wire.Crypto.host_bits greasewood.Wire.Time.ts greasewood.Wire.Json.b64e
adopted = refl

abbrev settings : Settings
settings = record {
  ca = none;
  ca_pubs = trusted_keys;
  mesh_domain = codes "gw";
  tls_cert_ttl = none;
  has_attestations = false;
  has_data_dir = false;
  can_unlink = true;
}

-- Another anchor, which holds the node's record as it was.
abbrev anchor : Plane
anchor = record {
  ca = record greasewood.Examples.Setup.fresh_ca { directory = renewing.directory };
  replay = [];
  attestations = [];
  offer = greasewood.Server.Offer.absent;
}

abbrev fresh : Credential
fresh = new_credential cfg start ann ben db []

renewal_lands_example :
    ((handle_publish settings
        (start + day)
        (ok (new_record node fresh renewing.directory))
        anchor).0
      ≡ status_ok)
    × (Dict.lookup
          (hex ann)
          (handle_publish settings
            (start + day)
            (ok (new_record node fresh renewing.directory))
            anchor).1.ca.directory
        ≡ some (new_record node fresh renewing.directory))
unfolding toy load_revoked_set greasewood.Statements.Defs.revoked_ids
    greasewood.Wire.Time.whole_second
renewal_lands_example =
    renewal_lands toy-IsLawful cfg start (start + day) request issued_ca fresh node
      renewing.directory settings anchor refl renewed refl refl (refl, tt) (inl refl) refl
      (omega arith) (λ e h. (e, h, omega arith))
