-- ===== src/Pool.antt =====
-- src/pool/decoder.rs: the decoder of Uniswap V3 pool calldata.
pub mod Abi
mod Reads
pub mod Total
mod Tests
use v3_node.Base.{
  ℕ, zero, suc, ◌+◌, ◌-◌, ◌*◌, ◌^◌, Bool, true, false, not, List, [], ◌∷◌, Option, none, some,
  length, get_elem?, take, drop, ltb, leb, ◌&&◌, ◌==◌, if◌then◌else◌, Run, panic, done, ◌>>=◌,
}
use v3_node.Base.Int.{ℤ, pos, signed}

pub data PoolCall : Type 0 where
  swap : Bool → ℤ → PoolCall
  mint : PoolCall
  burn : PoolCall
  collect : PoolCall
  unknown : ℕ → PoolCall

abbrev pub sel_swap : ℕ
sel_swap = 0x128acb08

abbrev pub sel_mint : ℕ
sel_mint = 0x3c8a7d8d

abbrev pub sel_burn : ℕ
sel_burn = 0xa34123a7

abbrev pub sel_collect : ℕ
sel_collect = 0x4f1eb3d8

-- `&input[lo..hi]` panics out of range.
unfoldable pub slice : List ℕ → ℕ → ℕ → Run (List ℕ)
slice input lo hi =
    if leb lo hi && leb hi (length input) then done (take (hi - lo) (drop lo input)) else panic

-- `input[i]` panics out of range.
unfoldable pub index : List ℕ → ℕ → Run ℕ
index input i = elim (get_elem? input i) [ none ↦ panic | some b ↦ done b ]

-- `bytes.try_into()` for an array of `n` bytes.
unfoldable pub try_into : ℕ → List ℕ → Option (List ℕ)
try_into n bytes = if length bytes == n then some bytes else none

-- The number that bytes hold, most significant first.
unfoldable pub from_be : ℕ → List ℕ → ℕ
from_be acc [] = acc
from_be acc (b ∷ bytes) = from_be (acc * 256 + b) bytes

unfoldable pub decode_swap : List ℕ → Run (Option PoolCall)
decode_swap input = if ltb (length input) 68 then done (some (swap false (pos 0))) else do
  flag ← index input 35
  amount ← slice input 52 68
  elim (try_into 16 amount) [
    | none ↦ done none
    | some bytes ↦ done (some (swap (not (flag == 0)) (signed (2 ^ 127) (from_be 0 bytes))))
  ]

unfoldable pub decode_selector : ℕ → List ℕ → Run (Option PoolCall)
decode_selector selector input =
    if selector == sel_swap
    then decode_swap input
    else if selector == sel_mint
    then done (some mint)
    else if selector == sel_burn
    then done (some burn)
    else if selector == sel_collect
    then done (some collect)
    else done (some (unknown selector))

unfoldable pub decode_pool_calldata : List ℕ → Run (Option PoolCall)
decode_pool_calldata input = if ltb (length input) 4 then done none else do
  head ← slice input 0 4
  elim (try_into 4 head) [ none ↦ done none | some bytes ↦ decode_selector (from_be 0 bytes) input ]
