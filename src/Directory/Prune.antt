-- ===== src/Directory/Prune.antt =====
-- `prune_stale`, `put` and `remove` of directory.py, and `prune_stale` together with `merge`.
use greasewood.Base.{
  ℕ, ◌≤◌, ◌≡◌, Bool, true, false, not, ◌&&◌, Option, none, some, List, [], ◌∷◌, ◌==◌, list_eq,
  nat_eq, option_eq, if◌then◌else◌, contains, inl, inr, arith, Text, hex, Bool-cases, ◌≢◌,
}
use greasewood.Base.Dict
use greasewood.Base.Dict.{NodupKeys}
use greasewood.Errors.{ok}
use greasewood.Wire.Crypto.{Crypto}
use greasewood.Wire.Record.{NodeRecord, verify_structural}
use greasewood.Directory.Defs.{
  Directory, past_drop, drop_grace, stale_keys, prune_stale, merge, put, remove,
}
use greasewood.Directory.Merge.{IsSound, merge-Offered}

-- A record that the sweep takes: not the protected one, and past its deadline.
abbrev pub swept : ℕ → ℕ → Option Text → Text → Option NodeRecord → Bool
swept grace now protect k none = false
swept grace now protect k (some r) = not (some k == protect) && past_drop r grace now

contains-stale_keys :
    (grace now : ℕ) (protect : Option Text) (d : Directory) (k : Text)
    → NodupKeys d
    → contains (stale_keys grace now protect d) k ≡ swept grace now protect k (Dict.lookup k d)
unfolding stale_keys
contains-stale_keys grace now protect [] k u = ground (arith, Dict.lookup-nil {V = NodeRecord} k)
contains-stale_keys grace now protect ((j, r) ∷ d) k (fresh, u) =
    ground (arith, Dict.lookup-cons k j r d, contains-stale_keys grace now protect d k u)

-- The sweep of a directory with no key twice takes exactly the records past the deadline, except
-- the protected one, and leaves the record of every other key as it was.
pub lookup-prune_stale :
    (grace now : ℕ) (protect : Option Text) (d : Directory) (k : Text)
    → NodupKeys d
    → Dict.lookup k (prune_stale grace now protect d).0
      ≡ (if swept grace now protect k (Dict.lookup k d) then none else Dict.lookup k d)
unfolding prune_stale
lookup-prune_stale grace now protect d k u = ground (
  arith,
  Dict.lookup-erase_all (stale_keys grace now protect d) k d,
  contains-stale_keys grace now protect d k u,
)

module _ ⦃C : Crypto⦄ where
  -- The sweep keeps the directory sound.
  pub prune_stale-IsSound :
      (grace now : ℕ) (protect : Option Text) (d : Directory)
      → IsSound d
      → IsSound (prune_stale grace now protect d).0
  unfolding prune_stale
  prune_stale-IsSound grace now protect d s = record {
    nodup = Dict.erase_all-NodupKeys (stale_keys grace now protect d) d s.nodup;
    genuine = λ k r h.
        s.genuine k r (ground (arith, Dict.lookup-erase_all (stale_keys grace now protect d) k d));
  }

  past_drop_mono :
      (r : NodeRecord) (grace now later : ℕ)
      → now ≤ later
      → past_drop r grace now ≡ true
      → past_drop r grace later ≡ true
  unfolding past_drop
  past_drop_mono r grace now later h p = ground arith

  -- What a sweep at the fleet's deadline took cannot come back: after any merge at that time or
  -- later, whatever it is offered, every key but the protected one holds only records that the
  -- sweep would have kept, if the directory had no key twice.
  pub merge-prune_stale :
      (now later : ℕ) (protect : Option Text) (rs : List NodeRecord) (d : Directory) (k : Text)
      (w : NodeRecord)
      → NodupKeys d
      → now ≤ later
      → some k ≢ protect
      → Dict.lookup k (merge later rs (prune_stale drop_grace now protect d).0).0 ≡ some w
      → past_drop w drop_grace now ≡ false
  merge-prune_stale now later protect rs d k w u h ne p =
      elim (merge-Offered later rs (prune_stale drop_grace now protect d).0 k w p).0 [
        | inl old ↦ ground (arith, lookup-prune_stale drop_grace now protect d k u)
        | inr (m, a, e) ↦ ground (arith, past_drop_mono w drop_grace now later h)
      ]

  -- `put` of a record that passes the structural checks keeps the directory sound, and so does every
  -- `remove`.
  pub put-IsSound :
      (r : NodeRecord) (d : Directory) → verify_structural r ≡ ok tt → IsSound d → IsSound (put r d)
  unfolding put
  put-IsSound r d v s = record {
    nodup = Dict.insert-NodupKeys (hex r.id_pub) r d s.nodup;
    genuine = λ k w h. elim (Bool-cases (k == hex r.id_pub)) [
      | inl t ↦ ground (arith, Dict.lookup-insert k (hex r.id_pub) r d)
      | inr f ↦ s.genuine k w (ground (arith, Dict.lookup-insert k (hex r.id_pub) r d))
    ];
  }

  pub remove-IsSound : (k : Text) (d : Directory) → IsSound d → IsSound (remove k d).0
  unfolding remove
  remove-IsSound k d s = record {
    nodup = Dict.erase-NodupKeys k d s.nodup;
    genuine = λ j w h. s.genuine j w (ground (arith, Dict.lookup-erase j k d));
  }
