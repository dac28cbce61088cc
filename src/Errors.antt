-- ===== src/Errors.antt =====
-- The exceptions that the program raises, as values, and the results of code that may raise.
use greasewood.Base.{◌≡◌, refl, Bool, true, false}

-- Each constructor is one `raise` of the source; all are a `ValueError` but `unknown_node`, which is
-- the source's subclass `UnknownNodeError`, `no_key`, which is a `KeyError`, `out_of_range`, an
-- `IndexError`, `bad_port`, a `struct.error`, and `wrong_type`, a `ValueError` or, of base64, a `TypeError`.
pub data Error : Type 0 where
  bad_key_length no_trusted_signature expired_credential : Error
  invalid_self_signature bad_addr addr_not_derived id_mismatch revoked : Error
  unknown_kind stale_key unreadable_key hostname_taken skew_too_large unknown_node : Error
  hostname_pinned malformed no_key : Error
  too_long bad_port bad_prefix too_short truncated truncated_domain undecodable out_of_range : Error
  wrong_type bad_timestamp : Error

-- Whether an exception is a `ValueError` for certain.
abbrev pub is_value_error : Error → Bool
is_value_error no_key = false
is_value_error out_of_range = false
is_value_error bad_port = false
is_value_error wrong_type = false
is_value_error _ = true

-- What a method gives back: the value that it returns, or the exception that ends it.
pub data Result {ℓ} (A : Type ℓ) : Type ℓ where
  err : Error → Result A
  ok : A → Result A

module _ {ℓ κ} {A : Type ℓ} {B : Type κ} where
  infixl 5 ◌>>=◌
  abbrev pub ◌>>=◌ : Result A → (A → Result B) → Result B
  err e >>= rest = err e
  ok a >>= rest = rest a

module _ {κ} {B : Type κ} where
  infixl 5 ◌>>◌
  abbrev pub ◌>>◌ : Result (Unit {0}) → Result B → Result B
  err e >> rest = err e
  ok _ >> rest = rest

-- `if b: raise e`
abbrev pub raise_if : Bool → Error → Result (Unit {0})
raise_if true e = err e
raise_if false e = ok tt

-- `try: ...; except ValueError: ...` asks only whether the code returned.
abbrev pub returned {ℓ} : {A : Type ℓ} → Result A → Bool
returned (ok a) = true
returned (err e) = false

pub returned→ok : (r : Result (Unit {0})) → returned r ≡ true → r ≡ ok tt
returned→ok (ok u) h = refl
returned→ok (err e) h = cc
