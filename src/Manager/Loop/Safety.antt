-- ===== src/Manager/Loop/Safety.antt =====
-- src/network/manager.rs: the main loop on every schedule.
use v3_node.Base.{
  ℕ, ◌≡◌, refl, sym, ◌∙◌, List, [], ◌∷◌, ◌++◌, map, map-append, append_assoc, append-nil, Option,
  none, some, done, arith,
}
use v3_node.Base.HashMap.{Hasher}
use v3_node.Peer.{Net}
use v3_node.Manager.State.{
  Command, fetch_receipts_from, connected_peers, Answer, receipts_answer, peers_answer, Task,
  Incoming, event, command, new,
}
use v3_node.Manager.Registry.Invariant.{IsRegistry, new-IsRegistry, handle_network_event-IsRegistry}
use v3_node.Manager.Dispatch.Safety.{do_fetch_receipts-IsRegistry}
use v3_node.Manager.Loop.{infos, handle_command, step, run}

-- The channel that a command wants its reply on.
abbrev pub reply_of : Command → ℕ
reply_of (fetch_receipts_from target hashes reply) = reply
reply_of (connected_peers reply) = reply

module _ (net : Net) where
  -- The channel that a reply was sent on.
  abbrev pub channel_of : Answer net → ℕ
  channel_of (receipts_answer channel result) = channel
  channel_of (peers_answer channel infos) = channel

  abbrev pub wants : Incoming net → List ℕ
  wants (event e) = []
  wants (command c) = reply_of c ∷ []

  -- The replies that a schedule asks for, up to the round in which a source is closed.
  abbrev pub wanted : List (Option (Incoming net)) → List ℕ
  wanted [] = []
  wanted (none ∷ rounds) = []
  wanted (some i ∷ rounds) = wants i ++ wanted rounds

  abbrev pub Answered : List ℕ → Task net → Task net → Type 0
  Answered channels t t' = map channel_of t'.answers ≡ map channel_of t.answers ++ channels

  handle_command-safe :
      (hasher : Hasher) (c : Command) (t : Task net)
      → IsRegistry net t.manager
      → (t' : Task net) × (handle_command net hasher c t ≡ done t')
        × IsRegistry net t'.manager
        × Answered (reply_of c ∷ []) t t'
  unfolding handle_command
  handle_command-safe hasher (fetch_receipts_from target hashes reply) t v =
      let ((result, m, w), e, registry, shrinks) =
        do_fetch_receipts-IsRegistry net hasher hashes t.manager t.world target v in
      (
        record { manager = m; world = w; answers = t.answers ++ receipts_answer reply result ∷ [] },
        rw e,
        registry,
        map-append channel_of t.answers (receipts_answer reply result ∷ []),
      )
  handle_command-safe hasher (connected_peers reply) t v =
      let answer = peers_answer reply (infos net hasher t.manager) in
      (
        record t { answers = t.answers ++ answer ∷ [] },
        refl,
        v,
        map-append channel_of t.answers (answer ∷ []),
      )

  pub step-safe :
      (hasher : Hasher) (i : Incoming net) (t : Task net)
      → IsRegistry net t.manager
      → (t' : Task net) × (step net hasher i t ≡ done t')
        × IsRegistry net t'.manager
        × Answered (wants i) t t'
  unfolding step
  step-safe hasher (event e) t v =
      let (r, run, registry) = handle_network_event-IsRegistry net e t.manager t.world v in
      (
        record t { manager = r.0; world = r.1 },
        rw run,
        registry,
        sym (append-nil (map channel_of t.answers)),
      )
  step-safe hasher (command c) t v = handle_command-safe hasher c t v

  -- Over every schedule of events, commands and closed sources, from a well-formed registry: the loop
  -- never panics, the registry stays well formed, and the replies sent are one for each command
  -- handled, on its own channel, in the order of the commands.
  pub run-safe :
      (hasher : Hasher) (rounds : List (Option (Incoming net))) (t : Task net)
      → IsRegistry net t.manager
      → (t' : Task net) × (run net hasher rounds t ≡ done t')
        × IsRegistry net t'.manager
        × (map channel_of t'.answers ≡ map channel_of t.answers ++ wanted rounds)
  unfolding run
  run-safe hasher [] t v = (t, refl, v, sym (append-nil (map channel_of t.answers)))
  run-safe hasher (none ∷ rounds) t v = (t, refl, v, sym (append-nil (map channel_of t.answers)))
  run-safe hasher (some i ∷ rounds) t v =
      let (t₁, e, v₁, a₁) = step-safe hasher i t v in
      let (t', e', v', a') = run-safe hasher rounds t₁ v₁ in
      (
        t',
        ground (arith, e, e'),
        v',
        a' ∙ rw (a₁, append_assoc (map channel_of t.answers) (wants i) (wanted rounds)),
      )

  -- A new manager's task: nothing sent yet.
  abbrev pub spawned : net.World → Task net
  spawned w = record { manager = new net; world = w; answers = [] }

  -- From a new manager, the main loop serves every schedule with no panic; it ends with a well-formed
  -- registry that agrees with what the sent events tell a subscriber; and it sent one reply for each
  -- command handled, on its own channel, in order.
  pub run-spawned :
      (hasher : Hasher) (rounds : List (Option (Incoming net))) (w : net.World)
      → (t' : Task net) × (run net hasher rounds (spawned w) ≡ done t')
        × IsRegistry net t'.manager
        × (map channel_of t'.answers ≡ wanted rounds)
  run-spawned hasher rounds w = run-safe hasher rounds (spawned w) (new-IsRegistry net)
