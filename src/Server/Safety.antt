-- ===== src/Server/Safety.antt =====
-- What the handlers of server.py grant, and to whom.
use greasewood.Base.{
  ℕ, ◌≤◌, ◌<◌, ◌≡◌, refl, ◌↔◌, true, false, some, [], ◌∷◌, ◌==◌, ◌∙◌, list_eq, nat_eq, ◌⊎◌, inl,
  inr, arith, Text, hex,
}
use greasewood.Errors.{ok, returned→ok}
use greasewood.Wire.Json.{Json}
use greasewood.Wire.Crypto.{Crypto}
use greasewood.Wire.Record
use greasewood.Wire.Record.{NodeRecord}
use greasewood.Wire.Requests.{AnchorClaimRequest, verify_claim}
use greasewood.Directory.Defs.{past_drop}
use greasewood.Directory.Merge.{merge-some, admissible}
use greasewood.Ca.Defs.{load_revoked_set}
use greasewood.Server.Offer.{Offer, OfferFile, absent, unusable, present, read_offer, consume_offer}
use greasewood.Server.Defs.{
  Settings, Plane, status_ok, claimed, is_skewed, handle_publish, handle_anchor_claim, claim_now,
  serve_offer,
}
use greasewood.Server.Replay.{is_error}
use greasewood.Wire.Verify.{AreKeys, record-verify_iff, verify_structural_iff}
use greasewood.Base.Dict

-- A genuine record with a credential that has not expired passes the gate of `merge`.
pub unexpired-admissible :
    ⦃C : Crypto⦄ (now : ℕ) (r : NodeRecord)
    → Record.verify_structural r ≡ ok tt
    → ((false ≡ true) ⊎ (now < r.cred.exp))
    → admissible now r ≡ true
unfolding past_drop
unexpired-admissible now r v (inl e) = absurd (ground arith)
unexpired-admissible now r v (inr lt) = ground arith

module _ ⦃C : Crypto⦄ (cfg : Settings) where
  -- `/publish` answers ok exactly for the records that pass full verification under the trusted keys
  -- with the CA's revoked set, whatever the directory holds.
  pub handle_publish_iff :
      (now : ℕ) (r : NodeRecord) (s : Plane)
      → ((handle_publish cfg now (ok r) s).0 ≡ status_ok)
        ↔ (Record.verify cfg.ca_pubs (load_revoked_set s.ca) false now r ≡ ok tt)
  unfolding handle_publish
  handle_publish_iff now r s = (λ h. returned→ok _ (ground arith), λ h. ground arith)

  -- What a claimed offer was: the one that the holder had, made out to the identity that signed the
  -- claim, and not yet expired.
  pub record Honest (now : ℕ) (req : AnchorClaimRequest) (s : Plane) (sealed : Json) (to : Text)
      : Type 0 where
    offer : Offer
    was_there : s.offer ≡ present offer
    signed : verify_claim req ≡ ok tt
    in_time : is_skewed now req.ts ≡ false
    for_claimant : offer.to_id ≡ hex req.id_pub
    unexpired : now < offer.expires
    contents : (sealed ≡ offer.sealed) × (to ≡ offer.to_hostname)

  -- An offer goes only to the node that it was made for: what `/anchor-claim` gives out is the
  -- outstanding offer, for a claim that the identity it names signed, before it expires.
  pub handle_anchor_claim-Honest :
      (now : ℕ) (req : AnchorClaimRequest) (s : Plane) (sealed : Json) (to : Text)
      → (handle_anchor_claim cfg now (ok req) s).0 ≡ claimed sealed to
      → Honest now req s sealed to
  unfolding handle_anchor_claim claim_now serve_offer read_offer
  handle_anchor_claim-Honest now req s sealed to h = on s.offer refl
    where
      on : (file : OfferFile) → s.offer ≡ file → Honest now req s sealed to
      on absent e = absurd (ground arith)
      on unusable e = absurd (ground arith)
      on (present o) e = record {
        offer = o;
        was_there = e;
        signed = returned→ok _ (ground arith);
        in_time = ground arith;
        for_claimant = ground arith;
        unexpired = ground arith;
        contents = ground arith;
      }

  -- An offer is good for one claim where its file can be unlinked: once it has been given out, no
  -- claim is granted on that file, by the same node or another, at whatever time.
  handle_anchor_claim_once :
      (now later : ℕ) (req again : AnchorClaimRequest) (s t : Plane) (sealed : Json) (to : Text)
      → cfg.can_unlink ≡ true
      → (handle_anchor_claim cfg now (ok req) s).0 ≡ claimed sealed to
      → t.offer ≡ (handle_anchor_claim cfg now (ok req) s).1.offer
      → is_error (handle_anchor_claim cfg later (ok again) t).0 ≡ true
  unfolding handle_anchor_claim claim_now serve_offer read_offer consume_offer
  handle_anchor_claim_once now later req again s t sealed to u h e =
      let gone : t.offer ≡ absent = e ∙ emptied s.offer refl in ground arith
    where
      emptied :
          (file : OfferFile)
          → s.offer ≡ file
          → (handle_anchor_claim cfg now (ok req) s).1.offer ≡ absent
      emptied absent e = absurd (ground arith)
      emptied unusable e = absurd (ground arith)
      emptied (present o) e = ground arith

  -- A claim for an offer that is made out to another node is refused and leaves the offer standing.
  pub handle_anchor_claim_kept :
      (now : ℕ) (req : AnchorClaimRequest) (s : Plane) (o : Offer)
      → s.offer ≡ present o
      → now < o.expires
      → (o.to_id == hex req.id_pub) ≡ false
      → (is_error (handle_anchor_claim cfg now (ok req) s).0 ≡ true)
        × ((handle_anchor_claim cfg now (ok req) s).1.offer ≡ present o)
  unfolding handle_anchor_claim claim_now serve_offer read_offer
  handle_anchor_claim_kept now req s o e lt other = ground arith

  -- A publication that is verified lands: where every trusted key has 32 bytes, after `/publish` of a
  -- record that passes full verification, the directory holds under its identity a record of at
  -- least its seq, whatever it held before.
  pub handle_publish_lands :
      (now : ℕ) (r : NodeRecord) (s : Plane)
      → AreKeys cfg.ca_pubs
      → Record.verify cfg.ca_pubs (load_revoked_set s.ca) false now r ≡ ok tt
      → (w : NodeRecord) × (Dict.lookup
            (hex r.id_pub)
            (handle_publish cfg now (ok r) s).1.ca.directory
          ≡ some w)
        × (r.seq ≤ w.seq)
  unfolding handle_publish
  handle_publish_lands now r s a v =
      let (_, e, g, _) =
        (record-verify_iff cfg.ca_pubs (load_revoked_set s.ca) false now r a).0 v in
      rw v (
        merge-some now (r ∷ []) s.ca.directory (hex r.id_pub) r
          (inr (inl refl, unexpired-admissible now r ((verify_structural_iff r).1 g) e, refl)))
