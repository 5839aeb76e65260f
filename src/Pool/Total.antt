-- ===== src/Pool/Total.antt =====
-- src/pool/decoder.rs: the decoder on every input.
use v3_node.Base.{
  ℕ, ◌^◌, ◌≤◌, ◌<◌, ◌≡◌, ◌≢◌, ◌⊎◌, inl, inr, sym, take_all, take-drop-take, get_elem?-take, false,
  not, List, take, drop, some, none, length, length-take, get_elem?-lt, ◌==◌, done, arith, ltb, ◌∙◌,
  lt→ltb, ltb→lt, ==_iff, Bool-cases,
}
use v3_node.Base.Int.{FitsSigned, signed, signed-FitsSigned, pos}
use v3_node.Pool.{
  swap, mint, burn, collect, unknown, PoolCall, sel_swap, sel_mint, sel_burn, sel_collect, from_be,
  decode_swap, decode_selector, decode_pool_calldata,
}
use v3_node.Pool.Reads.{selector, decode-selector, decode_swap_long, decode_swap_short}

lt_to_le : (a b : ℕ) → a < b → a ≤ b
lt_to_le a b h = omega arith

-- The call that a selector stands for, and what is known of its arguments.
abbrev pub Matches : ℕ → PoolCall → Type 0
Matches s (swap flag amount) = (s ≡ sel_swap) × FitsSigned (2 ^ 127) amount
Matches s mint = s ≡ sel_mint
Matches s burn = s ≡ sel_burn
Matches s collect = s ≡ sel_collect
Matches s (unknown t) =
    (t ≡ s) × (s ≢ sel_swap) × (s ≢ sel_mint) × (s ≢ sel_burn) × (s ≢ sel_collect)

decode_swap_total :
    (s : ℕ) (input : List ℕ)
    → s ≡ sel_swap
    → (call : PoolCall) × (decode_swap input ≡ done (some call)) × Matches s call
decode_swap_total s input k = elim (Bool-cases (ltb (length input) 68)) [
  | inl short ↦ (swap false (pos 0), decode_swap_short input (ltb→lt _ _ short), (k, omega arith))
  | inr long ↦
      let enough : 68 ≤ length input = ground arith in
      let (b, e) = get_elem?-lt input 35 (omega arith) in
      let amount = from_be 0 (take 16 (drop 52 input)) in
      (
        swap (not (b == 0)) (signed (2 ^ 127) amount),
        decode_swap_long input b enough e,
        (k, signed-FitsSigned (2 ^ 127) amount (omega arith)),
      )
]

decode_selector_total :
    (s : ℕ) (input : List ℕ)
    → (call : PoolCall) × (decode_selector s input ≡ done (some call)) × Matches s call
unfolding decode_selector
decode_selector_total s input = elim (Bool-cases (s == sel_swap)) [
  | inl hit ↦ rw hit (decode_swap_total s input ((==_iff s sel_swap).0 hit))
  | inr not_swap ↦ elim (Bool-cases (s == sel_mint)) [
    | inl hit ↦ (mint, rw (not_swap, hit), (==_iff s sel_mint).0 hit)
    | inr not_mint ↦ elim (Bool-cases (s == sel_burn)) [
      | inl hit ↦ (burn, rw (not_swap, not_mint, hit), (==_iff s sel_burn).0 hit)
      | inr not_burn ↦ elim (Bool-cases (s == sel_collect)) [
        | inl hit ↦ (collect, rw (not_swap, not_mint, not_burn, hit), (==_iff s sel_collect).0 hit)
        | inr not_collect ↦
            (unknown s, rw (not_swap, not_mint, not_burn, not_collect), ground arith)
      ]
    ]
  ]
]

decode_short : (input : List ℕ) → length input < 4 → decode_pool_calldata input ≡ done none
unfolding decode_pool_calldata
decode_short input h = rw (lt→ltb (length input) 4 h)

-- The decoder never panics. Under four bytes it answers with none. From four bytes on it answers
-- with the call that the first four bytes, as a big-endian number, select; an amount fits an i128,
-- and an unknown call carries that number, which is none of the four known selectors.
pub decode_total :
    (input : List ℕ)
    → ((length input < 4) × (decode_pool_calldata input ≡ done none))
      ⊎ ((call : PoolCall) × (4 ≤ length input)
          × (decode_pool_calldata input ≡ done (some call))
          × Matches (selector input) call)
decode_total input = elim (Bool-cases (ltb (length input) 4)) [
  | inl short ↦ inl (ltb→lt _ _ short, decode_short input (ltb→lt _ _ short))
  | inr long ↦
      let enough : 4 ≤ length input = ground arith in
      let (call, e, w) = decode_selector_total (selector input) input in
      inr (call, enough, decode-selector input enough ∙ e, w)
]

decode_swap-take :
    (input : List ℕ) → 68 ≤ length input → decode_swap (take 68 input) ≡ decode_swap input
decode_swap-take input h =
    let (b, e) = get_elem?-lt input 35 (omega arith) in
    let cut : 68 ≤ length (take 68 input) = omega (arith, length-take 68 input) in
    decode_swap_long (take 68 input) b cut (get_elem?-take 68 35 input (omega arith) ∙ e)
    ∙ rw (take-drop-take 16 52 68 input (omega arith)) (sym (decode_swap_long input b h e))

-- Bytes 68 and later are not read: an input and its first 68 bytes decode to the same.
pub decode-take :
    (input : List ℕ) → decode_pool_calldata (take 68 input) ≡ decode_pool_calldata input
unfolding decode_selector
decode-take input = elim (Bool-cases (ltb (length input) 68)) [
  | inl short ↦ rw (take_all 68 input (lt_to_le (length input) 68 (ltb→lt _ _ short)))
  | inr long ↦
      let enough : 68 ≤ length input = ground arith in
      decode-selector (take 68 input) (omega (arith, length-take 68 input))
      ∙ rw (take-drop-take 4 0 68 input (omega arith), decode_swap-take input enough)
          (sym (decode-selector input (omega arith)))
]
