-- ===== src/Pool/Reads.antt =====
-- The reads of src/pool/decoder.rs that are in range, and the two paths of the decoder.
use v3_node.Base.{
  ℕ, ◌+◌, ◌-◌, ◌^◌, ◌≤◌, ◌<◌, ◌≡◌, true, false, not, List, take, drop, some, length, length-take,
  length-drop, get_elem?, ◌==◌, done, arith, leb, le→ltb, lt→ltb, ==_iff,
}
use v3_node.Base.Int.{signed, pos}
use v3_node.Pool.{
  swap, slice, index, try_into, from_be, decode_swap, decode_selector, decode_pool_calldata,
}

leb_of_le : (a b : ℕ) → a ≤ b → leb a b ≡ true
leb_of_le a b h = ground arith

slice_lem :
    (input : List ℕ) (lo hi : ℕ)
    → lo ≤ hi
    → hi ≤ length input
    → slice input lo hi ≡ done (take (hi - lo) (drop lo input))
unfolding slice
slice_lem input lo hi h k = ground (arith, leb_of_le lo hi h, leb_of_le hi (length input) k)

try_into_lem :
    (input : List ℕ) (n lo : ℕ)
    → lo + n ≤ length input
    → try_into n (take n (drop lo input)) ≡ some (take n (drop lo input))
unfolding try_into
try_into_lem input n lo h = rw (
    (==_iff (length (take n (drop lo input))) n).1
      (omega (arith, length-take n (drop lo input), length-drop lo input)))

index_lem : (input : List ℕ) (i b : ℕ) → get_elem? input i ≡ some b → index input i ≡ done b
unfolding index
index_lem input i b h = ground arith

-- The first four bytes, as the big-endian number.
abbrev pub selector : List ℕ → ℕ
selector input = from_be 0 (take 4 input)

-- Past the length test the selector decides.
pub decode-selector :
    (input : List ℕ)
    → 4 ≤ length input
    → decode_pool_calldata input ≡ decode_selector (selector input) input
unfolding decode_pool_calldata
decode-selector input h = ground (
  arith,
  slice_lem input 0 4 (omega arith) h,
  try_into_lem input 4 0 h,
  le→ltb (length input) 4 h,
)

pub decode_swap_short :
    (input : List ℕ) → length input < 68 → decode_swap input ≡ done (some (swap false (pos 0)))
unfolding decode_swap
decode_swap_short input h = rw (lt→ltb (length input) 68 h)

-- A swap call of 68 bytes or more: one byte for the flag, sixteen for the amount.
pub decode_swap_long :
    (input : List ℕ) (b : ℕ)
    → 68 ≤ length input
    → get_elem? input 35 ≡ some b
    → decode_swap input
      ≡ done (some (swap (not (b == 0)) (signed (2 ^ 127) (from_be 0 (take 16 (drop 52 input))))))
unfolding decode_swap
decode_swap_long input b h e = ground (
  arith,
  index_lem input 35 b e,
  slice_lem input 52 68 (omega arith) h,
  try_into_lem input 16 52 h,
)
