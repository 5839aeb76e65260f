-- ===== src/Manager/Loop/History.antt =====
-- src/network/manager.rs: the registry against the history of the sessions.
use v3_node.Base.{
  ◌==◌, ◌≡◌, refl, sym, ap, ◌∙◌, Bool, true, false, List, [], ◌∷◌, map, Option, none, some,
  Option-cases, Bool-cases, inl, inr, done, if◌then◌else◌, arith,
}
use v3_node.Base.HashMap.{Hasher, get, contains_key, map_laws}
use v3_node.Peer.{PeerId, Net, SessionInfo, from_session}
use v3_node.Manager.State.{
  Command, fetch_receipts_from, connected_peers, PeerManager, NetworkEvent, active_peer_session,
  session_closed, peer_removed, other, Task, Incoming, event, command,
}
use v3_node.Manager.Registry.{on_peer_connected, handle_network_event}
use v3_node.Manager.Registry.Invariant.{IsRegistry, new-IsRegistry, handle_network_event-IsRegistry}
use v3_node.Manager.Registry.Events.{closes, handle_network_event-Closed}
use v3_node.Manager.Dispatch.{fetch_from, do_fetch_receipts}
use v3_node.Manager.Dispatch.Safety.{do_fetch_receipts-IsRegistry}
use v3_node.Manager.Loop.{handle_command, step, run}
use v3_node.Manager.Loop.Safety.{spawned, step-safe, run-spawned}

module _ (net : Net) where
  from_session_id :
      (info : SessionInfo net) (sender : net.Sender) (w : net.World)
      → (from_session net info sender w).0.info.id ≡ info.peer_id
  unfolding from_session
  from_session_id info sender w = refl

module _ (net : Net) (k : PeerId) where
  -- Whether the session with peer `k` is open after a round, by what the network said last of it.
  abbrev pub heard : Incoming net → Bool → Bool
  heard (event (active_peer_session info sender)) open_ = if info.peer_id == k then true else open_
  heard (event (session_closed id reason)) open_ = if id == k then false else open_
  heard (event (peer_removed id)) open_ = if id == k then false else open_
  heard (event other) open_ = open_
  heard (command c) open_ = open_

  abbrev pub is_open : List (Incoming net) → Bool → Bool
  is_open [] open_ = open_
  is_open (i ∷ rounds) open_ = is_open rounds (heard i open_)

  abbrev registered : Task net → Bool
  registered t = contains_key k t.manager.peers

  -- One answer of another registry is an answer of the first.
  abbrev Within : Bool → Bool → Type 0
  Within a b = a ≡ true → b ≡ true

  connected_step :
      (info : SessionInfo net) (sender : net.Sender) (m : PeerManager net) (w : net.World)
      → contains_key k (on_peer_connected net info sender m w).0.peers
        ≡ (if info.peer_id == k then true else contains_key k m.peers)
  unfolding on_peer_connected contains_key
  connected_step info sender m w = grind (arith, map_laws, from_session_id net info sender w)

  closed_step :
      (e : NetworkEvent net) (id : PeerId) (reason : Option net.Reason) (m m' : PeerManager net)
      (w w' : net.World)
      → closes net e ≡ some (id, reason)
      → handle_network_event net e m w ≡ done (m', w')
      → contains_key k m'.peers ≡ (if id == k then false else contains_key k m.peers)
  unfolding contains_key
  closed_step e id reason m m' w w' h r =
      let (m₁, r₁, c) = handle_network_event-Closed net e id reason m w h in
      let same : m₁ ≡ m' = cc (r, r₁) in
      ground (arith, ap (λ (x : PeerManager net). get k x.peers) same, c.gone k)

  event_step :
      (e : NetworkEvent net) (m m' : PeerManager net) (w w' : net.World)
      → handle_network_event net e m w ≡ done (m', w')
      → contains_key k m'.peers ≡ heard (event e) (contains_key k m.peers)
  unfolding handle_network_event
  event_step (active_peer_session info sender) m m' w w' h =
      ground (arith, connected_step info sender m w)
  event_step (session_closed id reason) m m' w w' h =
      closed_step (session_closed id reason) id reason m m' w w' refl h
  event_step (peer_removed id) m m' w w' h = closed_step (peer_removed id) id none m m' w w' refl h
  event_step other m m' w w' h = ground arith

  handle_command-Within :
      (hasher : Hasher) (c : Command) (t t' : Task net)
      → IsRegistry net t.manager
      → handle_command net hasher c t ≡ done t'
      → Within (registered t') (registered t)
  unfolding handle_command contains_key
  handle_command-Within hasher (fetch_receipts_from target hashes reply) t t' v h there =
      let (o, runs, registry, shrinks) =
        do_fetch_receipts-IsRegistry net hasher hashes t.manager t.world target v in
      let same : t'.manager ≡ o.1 = ground (arith, runs) in
      elim (Option-cases (get k t'.manager.peers)) [
        | inl missing ↦ absurd (ground (arith, missing))
        | inr (p, e) ↦
            let kept = shrinks k p (ap (λ (x : PeerManager net). get k x.peers) (sym same) ∙ e) in
            ground (arith, kept)
      ]
  handle_command-Within hasher (connected_peers reply) t t' v h there = ground arith

  -- A round that evicts nobody: no request that any peer may answer.
  abbrev pub Direct : Incoming net → Type 0
  Direct (event e) = Unit {0}
  Direct (command (fetch_receipts_from none hashes reply)) = ⊥
  Direct (command (fetch_receipts_from (some id) hashes reply)) = Unit {0}
  Direct (command (connected_peers reply)) = Unit {0}

  abbrev pub AllDirect : List (Incoming net) → Type 0
  AllDirect [] = Unit {0}
  AllDirect (i ∷ rounds) = Direct i × AllDirect rounds

  handle_command-Direct :
      (hasher : Hasher) (c : Command) (t t' : Task net)
      → Direct (command c)
      → handle_command net hasher c t ≡ done t'
      → registered t' ≡ registered t
  unfolding handle_command do_fetch_receipts fetch_from
  handle_command-Direct hasher (fetch_receipts_from none hashes reply) t t' d h = absurd d
  handle_command-Direct hasher (fetch_receipts_from (some id) hashes reply) t t' d h =
      let same : t'.manager ≡ t.manager = ground arith in
      ap (λ (m : PeerManager net). contains_key k m.peers) same
  handle_command-Direct hasher (connected_peers reply) t t' d h = ground arith

  step-Within :
      (hasher : Hasher) (i : Incoming net) (t t' : Task net)
      → IsRegistry net t.manager
      → step net hasher i t ≡ done t'
      → Within (registered t') (heard i (registered t))
  unfolding step
  step-Within hasher (event e) t t' v h there =
      let (r, runs, registry) = handle_network_event-IsRegistry net e t.manager t.world v in
      let said = event_step e t.manager r.0 t.world r.1 runs in
      let same : t'.manager ≡ r.0 = ground (arith, runs) in
      sym said ∙ ap (λ (m : PeerManager net). contains_key k m.peers) (sym same) ∙ there
  step-Within hasher (command c) t t' v h there = handle_command-Within hasher c t t' v h there

  step-Direct :
      (hasher : Hasher) (i : Incoming net) (t t' : Task net)
      → IsRegistry net t.manager
      → Direct i
      → step net hasher i t ≡ done t'
      → registered t' ≡ heard i (registered t)
  unfolding step
  step-Direct hasher (event e) t t' v d h =
      let (r, runs, registry) = handle_network_event-IsRegistry net e t.manager t.world v in
      let said = event_step e t.manager r.0 t.world r.1 runs in
      let same : t'.manager ≡ r.0 = ground (arith, runs) in
      ap (λ (m : PeerManager net). contains_key k m.peers) same ∙ said
  step-Direct hasher (command c) t t' v d h = handle_command-Direct hasher c t t' d h

  heard-Within : (i : Incoming net) (a b : Bool) → Within a b → Within (heard i a) (heard i b)
  heard-Within (event (active_peer_session info sender)) a b h e = ground (arith, h)
  heard-Within (event (session_closed id reason)) a b h e = ground (arith, h)
  heard-Within (event (peer_removed id)) a b h e = ground (arith, h)
  heard-Within (event other) a b h e = h e
  heard-Within (command c) a b h e = h e

  run-Within :
      (hasher : Hasher) (rounds : List (Incoming net)) (t t' : Task net) (open_ : Bool)
      → IsRegistry net t.manager
      → run net hasher (map some rounds) t ≡ done t'
      → Within (registered t) open_
      → Within (registered t') (is_open rounds open_)
  unfolding run
  run-Within hasher [] t t' open_ v h w =
      let same : t ≡ t' = ground arith in λ e. w (ap registered same ∙ e)
  run-Within hasher (i ∷ rounds) t t' open_ v h w =
      let (u, goes, v', a) = step-safe net hasher i t v in
      run-Within hasher rounds u t' (heard i open_) v' (ground (arith, goes))
        (λ e. heard-Within i (registered t) open_ w (step-Within hasher i t u v goes e))

  run-direct_rounds :
      (hasher : Hasher) (rounds : List (Incoming net)) (t t' : Task net)
      → IsRegistry net t.manager
      → AllDirect rounds
      → run net hasher (map some rounds) t ≡ done t'
      → registered t' ≡ is_open rounds (registered t)
  unfolding run
  run-direct_rounds hasher [] t t' v d h =
      let same : t ≡ t' = ground arith in sym (ap registered same)
  run-direct_rounds hasher (i ∷ rounds) t t' v (d, ds) h =
      let (u, goes, v', a) = step-safe net hasher i t v in
      run-direct_rounds hasher rounds u t' v' ds (ground (arith, goes))
      ∙ ap (is_open rounds) (step-Direct hasher i t u v d goes)

  -- If the network never spoke of a peer's session, or said last that it closed, then whatever else the
  -- schedule has, the main loop gets through it from a new manager, and the peer is not registered.
  pub run-is_open :
      (hasher : Hasher) (rounds : List (Incoming net)) (w : net.World)
      → is_open rounds false ≡ false
      → (t' : Task net) × (run net hasher (map some rounds) (spawned net w) ≡ done t')
        × (contains_key k t'.manager.peers ≡ false)
  unfolding contains_key get
  run-is_open hasher rounds w closed =
      let (t', runs, v, a) = run-spawned net hasher (map some rounds) w in
      let within =
        run-Within hasher rounds (spawned net w) t' false (new-IsRegistry net) runs (λ e. e) in
      (t', runs, ground (arith, within, Bool-cases (registered t')))

  -- If no request that any peer may answer is among the rounds, the main loop gets through them from a
  -- new manager, and a peer is registered exactly if the last thing that the network said of it is that
  -- its session opened.
  pub run-AllDirect :
      (hasher : Hasher) (rounds : List (Incoming net)) (w : net.World)
      → AllDirect rounds
      → (t' : Task net) × (run net hasher (map some rounds) (spawned net w) ≡ done t')
        × (contains_key k t'.manager.peers ≡ is_open rounds false)
  unfolding contains_key get
  run-AllDirect hasher rounds w d =
      let (t', runs, v, a) = run-spawned net hasher (map some rounds) w in
      (t', runs, run-direct_rounds hasher rounds (spawned net w) t' (new-IsRegistry net) d runs)
