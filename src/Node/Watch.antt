-- ===== src/Node/Watch.antt =====
-- src/node/node.rs: which transactions the node reports.
use v3_node.Base.{
  ℕ, ◌≡◌, ◌⊎◌, refl, inl, inr, ap, Bool, true, false, ◌||◌, List, [], ◌∷◌, ◌++◌, Option, none, some,
  length, Run, done, Bool-cases, Option-cases, take, drop, if◌then◌else◌, arith,
}
use v3_node.Peer.{PeerId, Net}
use v3_node.Pool.{PoolCall, decode_pool_calldata, slice}
use v3_node.Pool.Total.{decode_total}
use v3_node.Config.{PoolConfig}
use v3_node.Db.Models.{text_eq}
use v3_node.Db.Models.Kind.{text_eq_lem}
use v3_node.Db.Text.{Text}
use v3_node.Node.{
  Alloy, TransactionEvent, incoming_transactions, incoming_hashes, get_pooled_transactions,
  get_transactions_handle, Output, interaction, decoded_call, announced, connected, disconnected,
  skipped, stopped, responded, short_id, find_pool, call_line, scan_tx, scan_txs, handle_tx_event,
}

-- Whether a text is the address of a configured pool.
abbrev pub is_listed : Text → List PoolConfig → Bool
is_listed address [] = false
is_listed address (p ∷ pools) = text_eq p.address address || is_listed address pools

pub find_pool-is_listed :
    (address : Text) (pools : List PoolConfig)
    → ((find_pool address pools ≡ none) × (is_listed address pools ≡ false))
      ⊎ ((p : PoolConfig) × (find_pool address pools ≡ some p)
          × (is_listed address pools ≡ true)
          × (p.address ≡ address))
unfolding find_pool
find_pool-is_listed address [] = inl (refl, refl)
find_pool-is_listed address (p ∷ pools) = elim (Bool-cases (text_eq p.address address)) [
  | inl same ↦
      inr (p, ground (arith, same), ground (arith, same), text_eq_lem p.address address same)
  | inr differs ↦ elim (find_pool-is_listed address pools) [
    | inl (a, b) ↦ inl (ground (arith, differs, a), ground (arith, differs, b))
    | inr (q, a, b, c) ↦ inr (q, ground (arith, differs, a), ground (arith, differs, b), c)
  ]
]

decode_answers : (input : List ℕ) → (o : Option PoolCall) × (decode_pool_calldata input ≡ done o)
decode_answers input = elim (decode_total input) [
  | inl (short, e) ↦ (none, e)
  | inr (call, long, e, w) ↦ (some call, e)
]

module _ (net : Net) (alloy : Alloy net) where
  open alloy use {Tx, Signer}

  -- The address, the hash and the signer of each reported interaction.
  abbrev pub reports : List (Output net alloy) → List (Text × ℕ × Signer)
  reports [] = []
  reports (interaction address hash signer ∷ lines) = (address, hash, signer) ∷ reports lines
  reports (_ ∷ lines) = reports lines

  -- The channel and the transactions of each response.
  abbrev pub responses : List (Output net alloy) → List (ℕ × List Tx)
  responses [] = []
  responses (responded channel txs ∷ lines) = (channel, txs) ∷ responses lines
  responses (_ ∷ lines) = responses lines

  pub reports-append :
      (xs ys : List (Output net alloy)) → reports (xs ++ ys) ≡ reports xs ++ reports ys
  reports-append [] ys = refl
  reports-append (interaction a h s ∷ xs) ys = ap (◌∷◌ (a, h, s)) (reports-append xs ys)
  reports-append (decoded_call c ∷ xs) ys = reports-append xs ys
  reports-append (announced n t ∷ xs) ys = reports-append xs ys
  reports-append (connected a b c d ∷ xs) ys = reports-append xs ys
  reports-append (disconnected a b c d e ∷ xs) ys = reports-append xs ys
  reports-append (skipped n ∷ xs) ys = reports-append xs ys
  reports-append (stopped ∷ xs) ys = reports-append xs ys
  reports-append (responded c t ∷ xs) ys = reports-append xs ys

  pub responses-append :
      (xs ys : List (Output net alloy)) → responses (xs ++ ys) ≡ responses xs ++ responses ys
  responses-append [] ys = refl
  responses-append (responded c t ∷ xs) ys = ap (◌∷◌ (c, t)) (responses-append xs ys)
  responses-append (interaction a h s ∷ xs) ys = responses-append xs ys
  responses-append (decoded_call c ∷ xs) ys = responses-append xs ys
  responses-append (announced n t ∷ xs) ys = responses-append xs ys
  responses-append (connected a b c d ∷ xs) ys = responses-append xs ys
  responses-append (disconnected a b c d e ∷ xs) ys = responses-append xs ys
  responses-append (skipped n ∷ xs) ys = responses-append xs ys
  responses-append (stopped ∷ xs) ys = responses-append xs ys

  -- reth prints a PeerId with 128 hex digits.
  abbrev pub FullIds : Type 0
  FullIds = (id : PeerId) → length (alloy.id_lower_hex id) ≡ 128

  pub short_id_total :
      FullIds
      → (id : PeerId)
      → short_id net alloy id
        ≡ done
            (take 8 (alloy.id_lower_hex id) ++ 0x2026 ∷ take 8 (drop 120 (alloy.id_lower_hex id)))
  unfolding short_id slice
  short_id_total full id = rw (full id) refl

  module _ (pools : List PoolConfig) where
    -- What is to be reported of a transaction: its own address, if that is listed.
    abbrev pub wanted_report : Tx → List (Text × ℕ × Signer)
    wanted_report tx = elim (alloy.to tx) [
      | none ↦ []
      | some to ↦
          if is_listed (alloy.address_to_string to) pools
          then (alloy.address_to_string to, alloy.hash tx, alloy.recover_signer tx) ∷ []
          else []
    ]

    abbrev pub wanted_reports : List Tx → List (Text × ℕ × Signer)
    wanted_reports [] = []
    wanted_reports (tx ∷ txs) = wanted_report tx ++ wanted_reports txs

    abbrev pub event_reports : TransactionEvent net alloy → List (Text × ℕ × Signer)
    event_reports (incoming_transactions id txs) = wanted_reports txs
    event_reports _ = []

    abbrev pub event_responses : TransactionEvent net alloy → List (ℕ × List Tx)
    event_responses (get_pooled_transactions id request response) = (response, []) ∷ []
    event_responses _ = []

    call_line-silent :
        (call : Option PoolCall)
        → (reports (call_line net alloy pools call) ≡ [])
          × (responses (call_line net alloy pools call) ≡ [])
    call_line-silent none = (refl, refl)
    call_line-silent (some call) = (refl, refl)

    -- Lines that report what is wanted and respond to nobody.
    abbrev Tells : Run (List (Output net alloy)) → List (Text × ℕ × Signer) → Type 0
    Tells handled wanted =
        (lines : List (Output net alloy)) × (handled ≡ done lines)
        × (reports lines ≡ wanted)
        × (responses lines ≡ [])

    scan_tx-Tells : (tx : Tx) → Tells (scan_tx net alloy pools tx) (wanted_report tx)
    unfolding scan_tx
    scan_tx-Tells tx = elim (Option-cases (alloy.to tx)) [
      | inl creates ↦ ([], rw (scan_tx, creates) refl, rw (wanted_report, creates) refl, refl)
      | inr (to, e) ↦ elim (find_pool-is_listed (alloy.address_to_string to) pools) [
        | inl (missing, unlisted) ↦
            ([], rw (scan_tx, e, missing) refl, rw (wanted_report, e, unlisted) refl, refl)
        | inr (p, finds, listed, same) ↦
            let (call, decodes) = decode_answers (alloy.input tx) in
            let (a, b) = call_line-silent call in
            (
              interaction p.address (alloy.hash tx) (alloy.recover_signer tx)
                  ∷ call_line net alloy pools call,
              rw (scan_tx, e, finds, decodes) refl,
              rw (wanted_report, e, listed, a, same) refl,
              b,
            )
      ]
    ]

    scan_txs-Tells : (txs : List Tx) → Tells (scan_txs net alloy pools txs) (wanted_reports txs)
    unfolding scan_txs
    scan_txs-Tells [] = ([], refl, refl, refl)
    scan_txs-Tells (tx ∷ txs) =
        let (xs, e, a, b) = scan_tx-Tells tx in
        let (ys, f, c, d) = scan_txs-Tells txs in
        (
          xs ++ ys,
          rw (e, f) refl,
          rw (reports-append xs ys, a, c) refl,
          rw (responses-append xs ys, b, d) refl,
        )

    -- If a PeerId is printed with 128 digits, every event about transactions is handled with no panic.
    -- The interactions reported are exactly the transactions directed at a listed address, each with
    -- that address, its hash and its signer, in order; and the responses are one empty list for a
    -- request of transactions, and none else.
    pub handle_tx_event_total :
        FullIds
        → (e : TransactionEvent net alloy)
        → (lines : List (Output net alloy)) × (handle_tx_event net alloy pools e ≡ done lines)
          × (reports lines ≡ event_reports e)
          × (responses lines ≡ event_responses e)
    unfolding handle_tx_event
    handle_tx_event_total full (incoming_transactions id txs) = scan_txs-Tells txs
    handle_tx_event_total full (incoming_hashes id hashes) = (
      announced (length hashes)
            (take 8 (alloy.id_lower_hex id) ++ 0x2026 ∷ take 8 (drop 120 (alloy.id_lower_hex id)))
          ∷ [],
      rw (short_id_total full id) refl,
      refl,
      refl,
    )
    handle_tx_event_total full (get_pooled_transactions id request response) = (_, refl, refl, refl)
    handle_tx_event_total full get_transactions_handle = (_, refl, refl, refl)
