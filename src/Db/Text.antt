-- ===== src/Db/Text.antt =====
-- src/db/models.rs: the texts that numbers are stored as. A text is the list of its code points.
pub mod Digits
pub mod RoundTrip
mod Tests
use Prim.Native.Char.{code}
use mathlib.Core.Logic.{dite}
use mathlib.Core.WellFounded.{Acc, WellFounded}
use native.Mathlib.Nat.{div-lt_self}
use native.Mathlib.Decide.{dec_lt}
use v3_node.Base.{
  ℕ, suc, ◌+◌, ◌-◌, ◌*◌, ◌/◌, ◌%◌, ◌<◌, ◌≤◌, List, [], ◌∷◌, ◌++◌, map, String, ltb, if◌then◌else◌,
  arith,
}
use v3_node.Base.Int.{ℤ, pos, negsuc}
use v3_node.Base.Order.{lt_wf}

abbrev pub Text : Type 0
Text = List ℕ

-- The code points of a literal.
abbrev pub codes : String → Text
codes String.[] = []
codes (String.◌∷◌ c s) = code c ∷ codes s

pub quotient_lt : (b n : ℕ) → ¬ (n < b + 2) → n / (b + 2) < n
quotient_lt b n h = div-lt_self (omega arith) (omega arith)

-- The digits of a number in base `b + 2`, most significant first; 0 has one digit.
unfoldable pub digits_acc : (b n : ℕ) → Acc ◌<◌ n → List ℕ
digits_acc b n (Acc.intro _ smaller) =
    dite (dec_lt n (b + 2)) (λ _. n ∷ [])
      (λ h.
        digits_acc b (n / (b + 2)) (smaller (n / (b + 2)) (quotient_lt b n h)) ++ n % (b + 2) ∷ [])

unfoldable pub digits : ℕ → ℕ → List ℕ
unfolding digits_acc lt_wf dec_lt
digits b n = digits_acc b n (lt_wf.apply n)

abbrev pub hex_char : ℕ → ℕ
hex_char d = if ltb d 10 then b'0' + d else b'a' + (d - 10)

-- `format!("{v:x}")`
unfoldable pub lower_hex : ℕ → Text
unfolding digits
lower_hex n = map hex_char (digits 14 n)

-- `n.to_string()` of a number with no sign
unfoldable pub decimal : ℕ → Text
unfolding digits
decimal n = map (λ d. b'0' + d) (digits 8 n)

unfoldable pub u128_to_hex : ℕ → Text
unfolding lower_hex
u128_to_hex v = codes "0x" ++ lower_hex v

-- U256 is a type of alloy: its `{:x}` is a parameter.
unfoldable pub u256_to_hex : (ℕ → Text) → ℕ → Text
u256_to_hex u256_lower_hex v = codes "0x" ++ u256_lower_hex v

unfoldable pub i128_to_str : ℤ → Text
unfolding decimal
i128_to_str (pos n) = decimal n
i128_to_str (negsuc n) = b'-' ∷ decimal (suc n)
