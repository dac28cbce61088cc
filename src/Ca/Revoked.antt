-- ===== src/Ca/Revoked.antt =====
-- `add_revoke` of ca.py and the rest of the process.
use greasewood.Base.{
  ℕ, ◌≡◌, refl, ap, true, none, some, [], list_eq, nat_eq, pair_eq, contains, contains-append, ◌||◌,
  arith, Text, Bytes, hex,
}
use greasewood.Base.Dict
use greasewood.Base.Dict.{NodupKeys}
use greasewood.Wire.Crypto.{Crypto}
use greasewood.Wire.Statement.{AnchorStatement, revoke, tombstone, no_upgrade, kind_eq}
use greasewood.Statements.Defs.{revoked_ids}
use greasewood.Statements.Lifetime.{revoked_forever}
use greasewood.Ca.Defs.{Config, CaState, is_revoked, load_revoked_set, node_info}
use greasewood.Ca.Methods.{
  discard_recent, forget_node, mint, new_statement, add_revoke, save_revoked,
}
use greasewood.Statements.Merge.{lookup-add}
use greasewood.Ca.Lifetime.{Life, Life-Grows}

module _ ⦃C : Crypto⦄ (cfg : Config) where
  is_revoked-split :
      (id_pub : Bytes) (st : CaState)
      → is_revoked id_pub st ≡ (
          contains st.legacy_revoked (hex id_pub)
          || contains (revoked_ids st.statements) (hex id_pub))
  unfolding is_revoked load_revoked_set
  is_revoked-split id_pub st =
      contains-append st.legacy_revoked (revoked_ids st.statements) (hex id_pub)

  pub is_revoked-Life :
      (id_pub : Bytes) (st st' : CaState)
      → Life cfg st st'
      → NodupKeys st.statements
      → is_revoked id_pub st ≡ true
      → is_revoked id_pub st' ≡ true
  is_revoked-Life id_pub st st' l u h =
      let g = Life-Grows cfg l in
      ground (
        arith,
        is_revoked-split id_pub st,
        is_revoked-split id_pub st',
        g.legacy (hex id_pub),
        revoked_forever st.statements st'.statements (hex id_pub) g.log u,
      )

  save_revoked-legacy :
      (id_pub : Bytes) (st : CaState)
      → contains (save_revoked id_pub st).legacy_revoked (hex id_pub) ≡ true
  unfolding save_revoked
  save_revoked-legacy id_pub st = ground arith

  save_revoked-unknown :
      (now : ℕ) (id_pub : Bytes) (st : CaState)
      → node_info cfg now id_pub (save_revoked id_pub st) ≡ (none, save_revoked id_pub st)
  unfolding node_info
  save_revoked-unknown now id_pub st =
      ground
        (arith, save_revoked-legacy id_pub st, is_revoked-split id_pub (save_revoked id_pub st))

  mint-revoke :
      (now : ℕ) (id_pub : Bytes) (i name : Text) (st : CaState)
      → Dict.lookup (revoke, i) (mint cfg now tombstone id_pub [] name no_upgrade st).statements
        ≡ Dict.lookup (revoke, i) st.statements
  unfolding mint new_statement
  mint-revoke now id_pub i name st = ground (
    arith,
    lookup-add (new_statement cfg now tombstone id_pub [] name no_upgrade) st.statements
        (revoke, i),
  )

  forget_node-revoke :
      (now : ℕ) (id_pub : Bytes) (i : Text) (st : CaState)
      → Dict.lookup (revoke, i) (forget_node cfg now id_pub st).1.statements
        ≡ Dict.lookup (revoke, i) st.statements
  unfolding forget_node discard_recent
  forget_node-revoke now id_pub i st =
      mint-revoke now id_pub i _ (record st { recent = Dict.erase (hex id_pub) st.recent })

  add_revoke-mint :
      (now : ℕ) (id_pub : Bytes) (st : CaState)
      → add_revoke cfg now id_pub st
        ≡ forget_node cfg now id_pub
            (mint cfg now revoke id_pub [] [] no_upgrade (save_revoked id_pub st))
  unfolding add_revoke
  add_revoke-mint now id_pub st =
      ap
        (λ p.
          let name = elim p.0 as (λ _. Text) [ none ↦ [] | some x ↦ x.0 ] in
          forget_node cfg now id_pub (mint cfg now revoke id_pub [] name no_upgrade p.1))
        (save_revoked-unknown now id_pub st)

  -- The revocation that `add_revoke` mints for an identity with none before it names no host, also for a
  -- node that the CA knew by name: the name is looked up when the identity already counts as revoked.
  pub add_revoke_unnamed :
      (now : ℕ) (id_pub : Bytes) (st : CaState)
      → Dict.lookup (revoke, hex id_pub) st.statements ≡ none
      → (s : AnchorStatement) × (Dict.lookup
            (revoke, hex id_pub)
            (add_revoke cfg now id_pub st).1.statements
          ≡ some s)
        × (s.hostname ≡ [])
  unfolding mint new_statement save_revoked
  add_revoke_unnamed now id_pub st absent =
      let s = new_statement cfg now revoke id_pub [] [] no_upgrade in
      let minted = mint cfg now revoke id_pub [] [] no_upgrade (save_revoked id_pub st) in
      (
        s,
        rw (add_revoke-mint now id_pub st, forget_node-revoke now id_pub (hex id_pub) minted)
            (ground (arith, lookup-add s st.statements (revoke, hex id_pub))),
        refl,
      )
