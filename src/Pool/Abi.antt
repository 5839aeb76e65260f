-- ===== src/Pool/Abi.antt =====
-- The ABI layout of swap(address,bool,int256,uint160,bytes), which src/pool/decoder.rs reads.
use v3_node.Base.{
  ◌∙◌, take, drop, get_elem?, ◌≤◌, ℕ, zero, suc, ◌/◌, ◌%◌, ◌^◌, ◌≡◌, refl, Bool, true, false, not,
  List, [], ◌∷◌, ◌++◌, some, length, ◌==◌, if◌then◌else◌, done, arith,
}
use v3_node.Base.Int.{pos, signed}
use v3_node.Pool.{swap, sel_swap, from_be, decode_selector, decode_pool_calldata}
use v3_node.Pool.Reads.{selector, decode-selector, decode_swap_long}

-- `n` in `width` bytes, most significant first.
unfoldable pub to_be : ℕ → ℕ → List ℕ
to_be zero n = []
to_be (suc width) n = to_be width (n / 256) ++ n % 256 ∷ []

-- A number as an ABI word.
abbrev pub word : ℕ → List ℕ
word = to_be 32

abbrev pub bool_word : Bool → List ℕ
bool_word b = word (if b then 1 else 0)

-- The calldata of a swap call; `amount` is the pattern of the int256, `tail` the limit and the bytes.
unfoldable pub swap_calldata : ℕ → Bool → ℕ → List ℕ → List ℕ
unfolding to_be
swap_calldata recipient zero_for_one amount tail =
    to_be 4 sel_swap ++ (word recipient ++ (bool_word zero_for_one ++ (word amount ++ tail)))

-- The tail apart, the calldata has a fixed length.
long :
    (recipient : ℕ) (flag : Bool) (amount : ℕ) (tail : List ℕ)
    → 68 ≤ length (swap_calldata recipient flag amount tail)
unfolding swap_calldata
long recipient flag amount tail = omega arith

from_selector :
    (recipient : ℕ) (flag : Bool) (amount : ℕ) (tail : List ℕ)
    → selector (swap_calldata recipient flag amount tail) ≡ sel_swap
unfolding swap_calldata from_be
from_selector recipient flag amount tail = refl

flag_byte :
    (recipient : ℕ) (flag : Bool) (amount : ℕ) (tail : List ℕ)
    → get_elem? (swap_calldata recipient flag amount tail) 35 ≡ some (recipient % 256)
unfolding swap_calldata
flag_byte recipient flag amount tail = refl

amount_bytes :
    (recipient : ℕ) (flag : Bool) (amount : ℕ) (tail : List ℕ)
    → signed (2 ^ 127) (from_be 0 (take 16 (drop 52 (swap_calldata recipient flag amount tail))))
      ≡ pos (if flag then 1 else 0)
unfolding swap_calldata from_be signed
amount_bytes recipient true amount tail = refl
amount_bytes recipient false amount tail = refl

-- For every well-formed swap call the decoder answers with a flag that is the test of the last
-- byte of the recipient, and with an amount that is 1 or 0, the call's own flag as a number: the
-- amount of the call is never read.
pub decode-swap_calldata :
    (recipient : ℕ) (zero_for_one : Bool) (amount : ℕ) (tail : List ℕ)
    → decode_pool_calldata (swap_calldata recipient zero_for_one amount tail)
      ≡ done (some (swap (not (recipient % 256 == 0)) (pos (if zero_for_one then 1 else 0))))
unfolding decode_selector
decode-swap_calldata recipient flag amount tail =
    let input : List ℕ = swap_calldata recipient flag amount tail in
    let shape : 68 ≤ length input = long recipient flag amount tail in
    decode-selector input (omega arith)
    ∙ rw (from_selector recipient flag amount tail) (
        decode_swap_long input (recipient % 256) shape (flag_byte recipient flag amount tail)
        ∙ rw (amount_bytes recipient flag amount tail))
