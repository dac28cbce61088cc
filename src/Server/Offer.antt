-- ===== src/Server/Offer.antt =====
-- The anchor-file offer of anchorfile.py: one file, written by the operator's command and served by the
-- control plane to the node that it names.
use greasewood.Base.{ℕ, ◌+◌, ◌*◌, Bool, Option, none, some, leb, nat_eq, if◌then◌else◌, Text}
use greasewood.Wire.Json.{Json}
use greasewood.Wire.Time.{second, whole_second}

pub record Offer : Type 0 where
  pub to_id : Text
  pub to_hostname : Text
  pub sealed : Json
  pub expires : ℕ

-- The file at `offer_path`: missing, with contents that cannot be used, or with an offer.
pub data OfferFile : Type 0 where
  absent unusable : OfferFile
  present : Offer → OfferFile

-- `OFFER_TTL`
abbrev pub offer_ttl : ℕ
offer_ttl = 15 * 60 * second

-- `write_offer`
unfoldable pub write_offer : ℕ → Text → Text → Json → OfferFile
unfolding whole_second
write_offer now to_id to_hostname sealed = present (record {
  to_id = to_id;
  to_hostname = to_hostname;
  sealed = sealed;
  expires = whole_second (now + offer_ttl);
})

-- `consume_offer`: the flag says whether the file can be unlinked; a failure is passed over.
unfoldable pub consume_offer : Bool → OfferFile → OfferFile
consume_offer can_unlink file = if can_unlink then absent else file

-- `read_offer`
unfoldable pub read_offer : Bool → ℕ → OfferFile → Option Offer × OfferFile
unfolding consume_offer
read_offer can_unlink now absent = (none, absent)
read_offer can_unlink now unusable = (none, consume_offer can_unlink unusable)
read_offer can_unlink now (present o) =
    if leb o.expires now then (none, consume_offer can_unlink (present o)) else (some o, present o)
