-- ===== src/Wire/Crypto.antt =====
-- What wire.py, keys.py and ca.py take from outside the repository: Ed25519 signatures (the package
-- `cryptography`), the BLAKE2s digest and the text form of IPv6 addresses. `IsLawful` states the
-- documented behaviour that the theorems use.
use greasewood.Base.{◌≡◌, Bool, true, Option, some, length, nat_eq, Text, Bytes, take, ◌++◌}

pub record Crypto : Type 0 where
  -- `Ed25519PublicKey.from_public_bytes(pub).verify(sig, body)` returns: pub, sig, body
  pub verify_sig : Bytes → Bytes → Bytes → Bool
  -- `priv.sign(body)`, and the raw public bytes of `priv`
  pub sign : Bytes → Bytes → Bytes
  pub raw_pub : Bytes → Bytes
  -- `hashlib.blake2s(b).digest()`
  pub blake2s : Bytes → Bytes
  -- `ipaddress.IPv6Address(text).packed`, none where it raises, and `str(IPv6Address(packed))`
  pub packed : Text → Option Bytes
  pub address : Bytes → Text

pub record IsLawful (C : Crypto) : Type 0 where
  pub verify-sign :
      (priv body : Bytes) → C.verify_sig (C.raw_pub priv) (C.sign priv body) body ≡ true
  pub length-raw_pub : (priv : Bytes) → length (C.raw_pub priv) ≡ 32
  pub length-blake2s : (b : Bytes) → length (C.blake2s b) ≡ 32
  pub packed-address : (b : Bytes) → length b ≡ 16 → C.packed (C.address b) ≡ some b

module _ ⦃C : Crypto⦄ where
  -- `host_bits` of keys.py: the self-certifying half of an address
  unfoldable pub host_bits : Bytes → Bytes
  host_bits id_pub = take 8 (C.blake2s id_pub)

  -- `derive_addr` of keys.py with the active prefix of the process
  unfoldable pub derive_addr : Bytes → Bytes → Text
  derive_addr prefix id_pub = C.address (prefix ++ host_bits id_pub)
