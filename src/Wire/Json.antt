-- ===== src/Wire/Json.antt =====
-- `_canonical` of wire.py: `json.dumps(d, sort_keys=True, separators=(",", ":"))`, the bytes that a
-- signature covers, with `_b64e` and `_ts`, which make the texts that stand in it.
use Prim.Native.Nat.{◌-◌, ◌*◌, ◌/◌, ◌%◌}
use greasewood.Base.{
  ℕ, zero, suc, ◌+◌, Bool, true, false, List, [], ◌∷◌, ◌++◌, ltb, ◌==◌, nat_eq, if◌then◌else◌, Text,
  Bytes, codes, hex_digit,
}

mutual
  pub data Json : Type 0 where
    str : Text → Json
    num : ℕ → Json
    flag : Bool → Json
    null : Json
    arr : Items → Json
    obj : Fields → Json

  pub data Items : Type 0 where
    nil : Items
    cons : Json → Items → Items

  pub data Fields : Type 0 where
    end : Fields
    field : Text → Json → Fields → Fields

-- A list of strings.
unfoldable pub strs : List Text → Items
strs [] = nil
strs (s ∷ ss) = cons (str s) (strs ss)

-- Python's `<` on strings.
unfoldable pub text_ltb : Text → Text → Bool
text_ltb [] [] = false
text_ltb [] (d ∷ t) = true
text_ltb (c ∷ s) [] = false
text_ltb (c ∷ s) (d ∷ t) = let rest = text_ltb s t in if c == d then rest else ltb c d

insert_field : Text → Json → Fields → Fields
insert_field k v end = field k v end
insert_field k v (field j w fs) =
    if text_ltb j k then field j w (insert_field k v fs) else field k v (field j w fs)

-- `sort_keys=True`, at every depth.
mutual
  sort_keys : Json → Json
  sort_keys (str s) = str s
  sort_keys (num n) = num n
  sort_keys (flag b) = flag b
  sort_keys null = null
  sort_keys (arr xs) = arr (sort_items xs)
  sort_keys (obj fs) = obj (sort_fields fs)

  sort_items : Items → Items
  sort_items nil = nil
  sort_items (cons j xs) = cons (sort_keys j) (sort_items xs)

  sort_fields : Fields → Fields
  sort_fields end = end
  sort_fields (field k v fs) = insert_field k (sort_keys v) (sort_fields fs)

-- `str(n)` in decimal. The fuel is the number itself, whose digits are fewer.
decimal_from : ℕ → ℕ → Text → Text
decimal_from zero n out = out
decimal_from (suc f) n out =
    let more = decimal_from f (n / 10) ((48 + n % 10) ∷ out) in
    if ltb n 10 then (48 + n) ∷ out else more

unfoldable pub decimal : ℕ → Text
unfolding decimal_from
decimal n = decimal_from (suc n) n []

-- `\uXXXX`
unicode_escape : ℕ → Text
unicode_escape c =
    92
    ∷ 117
    ∷ hex_digit (c / 4096)
    ∷ hex_digit (c / 256 % 16)
    ∷ hex_digit (c / 16 % 16)
    ∷ hex_digit (c % 16)
    ∷ []

-- One character of a JSON string under `ensure_ascii`, as json.dumps has it by default.
escape_char : ℕ → Text
unfolding unicode_escape
escape_char c =
    if c == 34
    then 92 ∷ 34 ∷ []
    else if c == 92
    then 92 ∷ 92 ∷ []
    else if c == 10
    then 92 ∷ 110 ∷ []
    else if c == 13
    then 92 ∷ 114 ∷ []
    else if c == 9
    then 92 ∷ 116 ∷ []
    else if c == 12
    then 92 ∷ 102 ∷ []
    else if c == 8
    then 92 ∷ 98 ∷ []
    else if ltb c 32
    then unicode_escape c
    else if ltb c 127
    then c ∷ []
    else if ltb c 65536
    then unicode_escape c
    else unicode_escape (55296 + (c - 65536) / 1024) ++ unicode_escape (56320 + (c - 65536) % 1024)

unfoldable pub escape : Text → Text
unfolding escape_char
escape [] = []
escape (c ∷ s) = escape_char c ++ escape s

unfoldable pub quote : Text → Text
unfolding escape
quote s = 34 ∷ (escape s ++ 34 ∷ [])

unfoldable mutual
  pub print : Json → Text
  print (str s) = quote s
  print (num n) = decimal n
  print (flag b) = if b then codes "true" else codes "false"
  print null = codes "null"
  print (arr xs) = 91 ∷ print_items xs
  print (obj fs) = 123 ∷ print_fields fs

  pub print_items : Items → Text
  print_items nil = 93 ∷ []
  print_items (cons j nil) = print j ++ 93 ∷ []
  print_items (cons j (cons k xs)) = print j ++ 44 ∷ print_items (cons k xs)

  pub print_fields : Fields → Text
  print_fields end = 125 ∷ []
  print_fields (field k v end) = quote k ++ 58 ∷ (print v ++ 125 ∷ [])
  print_fields (field k v (field j w fs)) =
      quote k ++ 58 ∷ (print v ++ 44 ∷ print_fields (field j w fs))

unfoldable pub canonical : Fields → Bytes
unfolding sort_keys insert_field text_ltb print quote decimal strs
canonical d = print (sort_keys (obj d))

-- base64.b64encode
b64_char : ℕ → ℕ
b64_char n =
    if ltb n 26
    then 65 + n
    else if ltb n 52
    then 71 + n
    else if ltb n 62
    then n - 4
    else if n == 62
    then 43
    else 47

unfoldable pub b64e : Bytes → Text
unfolding b64_char
b64e [] = []
b64e (a ∷ []) = b64_char (a / 4) ∷ b64_char (a % 4 * 16) ∷ 61 ∷ 61 ∷ []
b64e (a ∷ b ∷ []) =
    b64_char (a / 4) ∷ b64_char (a % 4 * 16 + b / 16) ∷ b64_char (b % 16 * 4) ∷ 61 ∷ []
b64e (a ∷ b ∷ c ∷ rest) =
    b64_char (a / 4)
    ∷ b64_char (a % 4 * 16 + b / 16)
    ∷ b64_char (b % 16 * 4 + c / 64)
    ∷ b64_char (c % 64)
    ∷ b64e rest
