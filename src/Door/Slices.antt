-- ===== src/Door/Slices.antt =====
-- `p[a:a + n]` and `p[i]` of a byte string, and what they give in a payload that is put together from
-- parts.
use greasewood.Base.{
  ℕ, zero, suc, ◌+◌, ◌<◌, ◌≡◌, refl, ap, [], ◌∷◌, ◌++◌, take, drop, length, arith, Bytes,
}
use greasewood.Errors.{Result, ok, err, out_of_range}

-- `p[a:a + n]`
abbrev pub slice : Bytes → ℕ → ℕ → Bytes
slice p a n = take n (drop a p)

abbrev pub first : Bytes → Result ℕ
first [] = err out_of_range
first (b ∷ rest) = ok b

-- `p[i]`
abbrev pub byte_at : Bytes → ℕ → Result ℕ
byte_at p i = first (drop i p)

pub take-append : (xs ys : Bytes) (n : ℕ) → length xs ≡ n → take n (xs ++ ys) ≡ xs
take-append [] ys zero h = refl
take-append [] ys (suc n) h = absurd (omega arith)
take-append (x ∷ xs) ys zero h = absurd (omega arith)
take-append (x ∷ xs) ys (suc n) h = ap (◌∷◌ x) (take-append xs ys n (omega arith))

pub take-length : (xs : Bytes) → take (length xs) xs ≡ xs
take-length [] = refl
take-length (x ∷ xs) = ap (◌∷◌ x) (take-length xs)

-- A part in front is passed over.
pub drop-add_append :
    (xs ys : Bytes) (n m : ℕ) → length xs ≡ n → drop (n + m) (xs ++ ys) ≡ drop m ys
drop-add_append [] ys zero m h = let e : 0 + m ≡ m = omega arith in rw e refl
drop-add_append [] ys (suc n) m h = absurd (omega arith)
drop-add_append (x ∷ xs) ys zero m h = absurd (omega arith)
drop-add_append (x ∷ xs) ys (suc n) m h =
    let e : suc n + m ≡ suc (n + m) = omega arith in rw e (drop-add_append xs ys n m (omega arith))

pub first-drop_ok : (p : Bytes) (i : ℕ) → i < length p → (b : ℕ) × (byte_at p i ≡ ok b)
first-drop_ok [] i h = absurd (omega arith)
first-drop_ok (x ∷ xs) zero h = (x, refl)
first-drop_ok (x ∷ xs) (suc i) h = first-drop_ok xs i (omega arith)
