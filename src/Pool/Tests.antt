-- ===== src/Pool/Tests.antt =====
-- Runs of src/pool/decoder.rs, and the theorems about it at concrete inputs.
use v3_node.Base.{
  ℕ, ◌≤◌, ◌<◌, ◌≡◌, refl, ◌⊎◌, true, false, not, List, [], ◌∷◌, ◌%◌, some, none, length, ◌==◌,
  if◌then◌else◌, done,
}
use v3_node.Base.Int.{pos, signed}
use v3_node.Pool.{
  PoolCall, swap, burn, unknown, slice, index, try_into, from_be, decode_swap, decode_selector,
  decode_pool_calldata,
}
use v3_node.Pool.Reads.{selector}
use v3_node.Pool.Abi.{swap_calldata, decode-swap_calldata}
use v3_node.Pool.Total.{Matches, decode_total}

-- burn(int24,int24,uint128) with two bytes of its arguments.
abbrev burn_call : List ℕ
burn_call = 0xa3 ∷ 0x41 ∷ 0x23 ∷ 0xa7 ∷ 0 ∷ 1 ∷ []

decode_burn : decode_pool_calldata burn_call ≡ done (some burn)
unfolding decode_pool_calldata decode_selector slice try_into from_be
decode_burn = refl

decode_unknown : decode_pool_calldata (0 ∷ 0 ∷ 1 ∷ 2 ∷ []) ≡ done (some (unknown 258))
unfolding decode_pool_calldata decode_selector slice try_into from_be
decode_unknown = refl

-- A swap of 1000 units whose recipient ends in 0x42 decodes to an amount of 0.
decode_swap_run :
    decode_pool_calldata (swap_calldata 0x42 false 1000 []) ≡ done (some (swap true (pos 0)))
unfolding decode_pool_calldata decode_selector decode_swap slice index try_into from_be
    swap_calldata signed
decode_swap_run = refl

decode_total_example :
    ((length burn_call < 4) × (decode_pool_calldata burn_call ≡ done none))
    ⊎ ((call : PoolCall) × (4 ≤ length burn_call)
        × (decode_pool_calldata burn_call ≡ done (some call))
        × Matches (selector burn_call) call)
decode_total_example = decode_total burn_call

decode-swap_calldata_example :
    decode_pool_calldata (swap_calldata 0x42 false 1000 [])
    ≡ done (some (swap (not (0x42 % 256 == 0)) (pos (if false then 1 else 0))))
decode-swap_calldata_example = decode-swap_calldata 0x42 false 1000 []
