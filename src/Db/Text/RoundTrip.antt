-- ===== src/Db/Text/RoundTrip.antt =====
-- src/db/models.rs: the stored texts, and readers of them.
use v3_node.Base.{
  ℕ, suc, ◌+◌, ◌-◌, ◌*◌, ◌<◌, ◌≡◌, refl, ap, ◌∙◌, List, [], ◌∷◌, map, Option, none, some, ◌&&◌, leb,
  ◌==◌, if◌then◌else◌, arith,
}
use v3_node.Base.Int.{ℤ, pos, negsuc}
use v3_node.Db.Text.{
  Text, hex_char, digits, lower_hex, decimal, u128_to_hex, u256_to_hex, i128_to_str,
}
use v3_node.Db.Text.Digits.{number, Below, number-digits, digits-Below, digits-cons}

-- The value of a hexadecimal digit in lower case.
abbrev pub hex_digit : ℕ → Option ℕ
hex_digit c =
    if leb b'0' c && leb c b'9'
    then some (c - b'0')
    else if leb b'a' c && leb c b'f'
    then some (c - b'a' + 10)
    else none

abbrev pub decimal_digit : ℕ → Option ℕ
decimal_digit c = if leb b'0' c && leb c b'9' then some (c - b'0') else none

-- Reads a number in some base on from another one.
unfoldable pub read_number : (ℕ → Option ℕ) → ℕ → ℕ → Text → Option ℕ
read_number digit base acc [] = some acc
read_number digit base acc (c ∷ cs) = elim (digit c) [
  | none ↦ none
  | some d ↦ read_number digit base (acc * base + d) cs
]

-- Text that begins with 0x.
unfoldable pub read_hex : Text → Option ℕ
read_hex (a ∷ b ∷ cs) = if a == b'0' && b == b'x' then read_number hex_digit 16 0 cs else none
read_hex _ = none

negate : Option ℕ → Option ℤ
negate none = none
negate (some n) = some (if n == 0 then pos 0 else negsuc (n - 1))

positive : Option ℕ → Option ℤ
positive none = none
positive (some n) = some (pos n)

-- A decimal number, maybe behind a minus.
unfoldable pub read_int : Text → Option ℤ
unfolding negate positive
read_int [] = none
read_int (c ∷ cs) =
    if c == b'-'
    then negate (read_number decimal_digit 10 0 cs)
    else positive (read_number decimal_digit 10 0 (c ∷ cs))

read_number-map :
    (digit : ℕ → Option ℕ) (char : ℕ → ℕ) (base acc : ℕ) (ds : List ℕ)
    → ((d : ℕ) → d < base → digit (char d) ≡ some d)
    → Below base ds
    → read_number digit base acc (map char ds) ≡ some (number base acc ds)
unfolding read_number
read_number-map digit char base acc [] h k = refl
read_number-map digit char base acc (d ∷ ds) h k =
    ground (arith, h d k.0, read_number-map digit char base (acc * base + d) ds h k.1)

hex_digit-hex_char : (d : ℕ) → d < 16 → hex_digit (hex_char d) ≡ some d
hex_digit-hex_char d h = ground arith

read-lower_hex : (n : ℕ) → read_number hex_digit 16 0 (lower_hex n) ≡ some n
unfolding lower_hex
read-lower_hex n =
    read_number-map hex_digit hex_char 16 0 (digits 14 n) hex_digit-hex_char (digits-Below 14 n)
    ∙ ap some (number-digits 14 n)

-- A u128 is read back from the text that it is stored as, whatever its size.
pub read_hex-u128_to_hex : (n : ℕ) → read_hex (u128_to_hex n) ≡ some n
unfolding read_hex u128_to_hex
read_hex-u128_to_hex n = read-lower_hex n

-- So is a U256, if alloy prints it as Rust prints a number.
pub read_hex-u256_to_hex :
    (print : ℕ → Text) (n : ℕ) → print n ≡ lower_hex n → read_hex (u256_to_hex print n) ≡ some n
unfolding read_hex u256_to_hex
read_hex-u256_to_hex print n h = rw h (read-lower_hex n)

read-decimal : (n : ℕ) → read_number decimal_digit 10 0 (decimal n) ≡ some n
unfolding decimal
read-decimal n =
    read_number-map decimal_digit (λ d. b'0' + d) 10 0 (digits 8 n) (λ d h. ground arith)
      (digits-Below 8 n)
    ∙ ap some (number-digits 8 n)

-- A text that begins with no minus is read as a positive number.
unsigned_head :
    (n : ℕ) → read_int (decimal n) ≡ positive (read_number decimal_digit 10 0 (decimal n))
unfolding read_int decimal
unsigned_head n =
    let (x, ys, e) = digits-cons 8 n in
    let small : Below 10 (x ∷ ys) = rw e at (digits-Below 8 n) in rw e (ground arith)

-- A signed amount is read back from its decimal text, the sign included.
pub read_int-i128_to_str : (z : ℤ) → read_int (i128_to_str z) ≡ some z
unfolding i128_to_str read_int
read_int-i128_to_str (pos n) = unsigned_head n ∙ rw (read-decimal n)
read_int-i128_to_str (negsuc n) = ground (arith, read-decimal (suc n))

-- If alloy prints a U256 as Rust prints a number, the texts that numbers are stored as read back as
-- those numbers: a u128 and a U256 as hex, an i128 as a signed decimal.
pub stored_texts_read :
    (print : ℕ → Text) (n u : ℕ) (z : ℤ)
    → print u ≡ lower_hex u
    → (read_hex (u128_to_hex n) ≡ some n)
      × (read_hex (u256_to_hex print u) ≡ some u)
      × (read_int (i128_to_str z) ≡ some z)
stored_texts_read print n u z h =
    (read_hex-u128_to_hex n, read_hex-u256_to_hex print u h, read_int-i128_to_str z)
