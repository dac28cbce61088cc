-- ===== src/Examples/Signing.antt =====
-- The anchor's grants.toml is edited, and a node that holds the table of before is offered the new one.
use greasewood.Base.{
  ◌≤◌, ◌≡◌, refl, false, some, List, [], ◌∷◌, list_eq, nat_eq, option_eq, arith, inl,
}
use native.Mathlib.Decide.{ℕ_discrete}
use greasewood.Errors.{ok}
use greasewood.Wire.Grants.{Grant, GrantTable, sign}
use greasewood.Policy.Adoption.Defs.{offer}
use greasewood.Policy.Signer.{
  Signer, grants_at, is_settled, unchanged, refresh, next_table, refresh-offer,
}
use greasewood.Examples.Setup.{toy, toy-IsLawful, anchor_priv, trusted_keys}
use greasewood.Examples.Policies.{web_to_db, to_host, table, holding}

abbrev signer : Signer
signer = record { mtime = some 10; policy_file = some (table 1); own = some holding }

abbrev edited : List Grant
edited = web_to_db ∷ to_host ∷ []

unsettled : is_settled 20 signer.mtime signer.policy_file ≡ false
unfolding ℕ_discrete option_eq
unsettled = refl

differs : unchanged anchor_priv trusted_keys edited signer.policy_file ≡ false
unfolding unchanged sign list_eq
differs = refl

behind :
    (t : GrantTable)
    → holding.table ≡ some t
    → (o : GrantTable) × (signer.policy_file ≡ some o) × (t.seq ≤ o.seq)
unfolding sign
behind t e = (t, e, ground arith)

refresh-offer_example :
    ((refresh anchor_priv trusted_keys (grants_at 20 (ok edited)) signer).policy_file
      ≡ some (next_table anchor_priv trusted_keys edited (some (table 1))))
    × ((next_table anchor_priv trusted_keys edited (some (table 1))).grants ≡ edited)
    × ((offer trusted_keys
          (some (ok (next_table anchor_priv trusted_keys edited (some (table 1)))))
          holding).0.table
        ≡ some (next_table anchor_priv trusted_keys edited (some (table 1))))
unfolding toy
refresh-offer_example =
    refresh-offer anchor_priv trusted_keys toy-IsLawful 20 edited signer holding (refl, tt)
      (inl refl) unsettled differs behind
