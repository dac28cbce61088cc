-- ===== src/Examples/Setup.antt =====
-- A signature scheme that is transparent and lawful, and the nodes, credentials, records and
-- statements of a small fleet under it.
use greasewood.Base.{
  ℕ, ◌+◌, ◌*◌, ◌≡◌, false, none, some, List, [], ◌∷◌, ◌++◌, length, take, ◌==◌, ==_self, list_eq,
  nat_eq, if◌then◌else◌, arith, Text, Bytes, length-append, length-take,
}
use greasewood.Wire.Time.{day}
use greasewood.Wire.Crypto.{Crypto, IsLawful}
use greasewood.Wire.Credential
use greasewood.Wire.Credential.{Credential}
use greasewood.Wire.Crypto.{derive_addr}
use greasewood.Wire.Record
use greasewood.Wire.Record.{NodeRecord}
use greasewood.Ca.Defs.{Config, CaState}

abbrev zeros : Bytes
zeros =
    0 ∷ 0 ∷ 0 ∷ 0 ∷ 0 ∷ 0 ∷ 0 ∷ 0 ∷ 0 ∷ 0 ∷ 0 ∷ 0 ∷ 0 ∷ 0 ∷ 0 ∷ 0 ∷ 0 ∷ 0 ∷ 0 ∷ 0 ∷ 0 ∷ 0 ∷ 0 ∷ 0
    ∷ 0 ∷ 0 ∷ 0 ∷ 0 ∷ 0 ∷ 0 ∷ 0 ∷ 0 ∷ []

-- The first 32 bytes, with zeros behind.
abbrev pub pad : Bytes → Bytes
pad b = take 32 (b ++ zeros)

length-pad : (b : Bytes) → length (pad b) ≡ 32
length-pad b = length-take 32 (b ++ zeros) (ground (arith, length-append b zeros))

-- A key pair is a name and its padding, a signature the public key before the body, and an address its
-- own sixteen bytes.
instance unfoldable pub toy : Crypto
toy = record {
  verify_sig = λ pub_key sig body. sig == pub_key ++ body;
  sign = λ priv body. pad priv ++ body;
  raw_pub = pad;
  blake2s = pad;
  packed = λ t. if length t == 16 then some t else none;
  address = λ b. b;
}

pub toy-IsLawful : IsLawful toy
unfolding toy
toy-IsLawful = record {
  verify-sign = λ priv body. ==_self (pad priv ++ body);
  length-raw_pub = length-pad;
  length-blake2s = length-pad;
  packed-address = λ b h. ground arith;
}

abbrev pub anchor_priv : Bytes
anchor_priv = 99 ∷ []

abbrev pub ann : Bytes
ann = pad (1 ∷ [])

abbrev pub ben : Bytes
ben = pad (2 ∷ [])

abbrev pub trusted_keys : List Bytes
trusted_keys = pad anchor_priv ∷ []

abbrev pub prefix : Bytes
prefix = 253 ∷ 141 ∷ 229 ∷ 193 ∷ 219 ∷ 26 ∷ 0 ∷ 87 ∷ []

-- 30 days from the start of the clock at 2026-01-01
abbrev pub start : ℕ
start = 1767225600 * 1000000

abbrev pub cred_of : Bytes → Text → List Text → ℕ → Credential
cred_of id_pub name caps iat = Credential.sign anchor_priv (record {
  id_pub = id_pub;
  wg_pub = id_pub;
  addr = derive_addr prefix id_pub;
  hostname = name;
  caps = caps;
  iat = iat;
  exp = iat + 30 * day;
  ca_sig = [];
})

abbrev pub record_of : Bytes → Text → List Text → ℕ → ℕ → NodeRecord
record_of id_priv name caps iat seq = Record.sign id_priv (record {
  id_pub = pad id_priv;
  seq = seq;
  endpoints = [];
  cred = cred_of (pad id_priv) name caps iat;
  aliases = [];
  reachable = [];
  relay = false;
  version = [];
  families = [];
  sig = [];
})

abbrev pub cfg : Config
cfg = record {
  ca_priv = anchor_priv;
  ca_pubs = trusted_keys;
  prefix = prefix;
  ttl = 30 * day;
  cap_policy = λ caps. caps;
  key_snapshot = none;
}

abbrev pub fresh_ca : CaState
fresh_ca = record {
  directory = [];
  statements = [];
  recent = [];
  legacy_revoked = [];
  key_on_disk = none;
}
