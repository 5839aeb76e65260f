-- ===== src/Manager/System/Snapshots.antt =====
-- src/network/manager.rs: the lists of peers that callers get, whatever the order of the steps.
use mathlib.Core.List.{Memᴰ}
use mathlib.Core.List.Memᴰ
use v3_node.Base.{
  ℕ, ◌≤◌, ◌≡◌, inl, inr, length, sym, ap, subst, List, [], ◌∷◌, ◌++◌, map, done, arith,
}
use v3_node.Base.Count.{count}
use v3_node.Base.HashMap.{Hasher, keys, stored_keys}
use v3_node.Peer.{Net, PeerInfo}
use v3_node.Manager.State.{
  Command, fetch_receipts_from, connected_peers, Answer, receipts_answer, peers_answer, PeerManager,
  Task, Incoming, event, command,
}
use v3_node.Manager.Registry.Invariant.{IsRegistry, handle_network_event-IsRegistry}
use v3_node.Manager.Dispatch.Safety.{do_fetch_receipts-IsRegistry}
use v3_node.Manager.Loop.{infos, handle_command, step}
use v3_node.Manager.Loop.Peers.{infos-keys}
use v3_node.Manager.System.{
  System, Takes, running, submit, round, crash, close, Reach, start, later,
}
use v3_node.Manager.System.Invariant.{Reach-IsSystem}

module _ (net : Net) where
  -- No list of peers that was sent names a peer twice.
  abbrev pub EachOnce : List (Answer net) → Type 0
  EachOnce [] = Unit {0}
  EachOnce (receipts_answer channel r ∷ answers) = EachOnce answers
  EachOnce (peers_answer channel infos ∷ answers) =
      ((k : ℕ) → count k (map (λ i. i.id) infos) ≤ 1) × EachOnce answers

  EachOnce-snoc :
      (answers : List (Answer net)) (a : Answer net)
      → EachOnce answers
      → EachOnce (a ∷ [])
      → EachOnce (answers ++ a ∷ [])
  EachOnce-snoc [] a h one = one
  EachOnce-snoc (receipts_answer channel r ∷ answers) a h one = EachOnce-snoc answers a h one
  EachOnce-snoc (peers_answer channel infos ∷ answers) a (once, h) one =
      (once, EachOnce-snoc answers a h one)

  module _ (hasher : Hasher) where
    infos_once :
        (m : PeerManager net)
        → IsRegistry net m
        → (k : ℕ) → count k (map (λ i. i.id) (infos net hasher m)) ≤ 1
    unfolding keys
    infos_once m v k =
        let listed = (infos-keys net m v hasher).0 in
        omega (arith, ap (count k) listed, hasher.count-order (stored_keys m.peers) k, v.distinct k)

    handle_command-EachOnce :
        (c : Command) (t t' : Task net)
        → IsRegistry net t.manager
        → handle_command net hasher c t ≡ done t'
        → EachOnce t.answers
        → EachOnce t'.answers
    unfolding handle_command
    handle_command-EachOnce (fetch_receipts_from target hashes reply) t t' v e h =
        let (o, runs, registry, shrinks) =
          do_fetch_receipts-IsRegistry net hasher hashes t.manager t.world target v in
        let sent : t'.answers ≡ t.answers ++ receipts_answer reply o.0 ∷ [] =
          ground (arith, runs) in
        subst EachOnce (sym sent) (EachOnce-snoc t.answers (receipts_answer reply o.0) h tt)
    handle_command-EachOnce (connected_peers reply) t t' v e h =
        let answer = peers_answer reply (infos net hasher t.manager) in
        let sent : t'.answers ≡ t.answers ++ answer ∷ [] = ground arith in
        subst EachOnce (sym sent) (EachOnce-snoc t.answers answer h (infos_once t.manager v, tt))

    step-EachOnce :
        (i : Incoming net) (t t' : Task net)
        → IsRegistry net t.manager
        → step net hasher i t ≡ done t'
        → EachOnce t.answers
        → EachOnce t'.answers
    unfolding step
    step-EachOnce (event e) t t' v h once =
        let (r, runs, registry) = handle_network_event-IsRegistry net e t.manager t.world v in
        let same : t'.answers ≡ t.answers = ground (arith, runs) in subst EachOnce (sym same) once
    step-EachOnce (command c) t t' v h once = handle_command-EachOnce c t t' v h once

    -- In every state that is reached, whatever the order of the steps, no list of peers that was sent to
    -- a caller names a peer twice.
    pub Reach-EachOnce :
        {w : net.World} {s : System net} → Reach net hasher w s → EachOnce s.task.answers
    Reach-EachOnce (start e) = subst (λ (x : System net). EachOnce x.task.answers) (sym e) tt
    Reach-EachOnce (later r (submit req up room e)) =
        subst (λ (x : System net). EachOnce x.task.answers) (sym e) (Reach-EachOnce r)
    Reach-EachOnce (later r (round i rest task' up takes h e)) =
        subst (λ (x : System net). EachOnce x.task.answers) (sym e)
          (step-EachOnce i _ task' (Reach-IsSystem net hasher r).registry h (Reach-EachOnce r))
    Reach-EachOnce (later r (crash i rest up takes h e)) =
        subst (λ (x : System net). EachOnce x.task.answers) (sym e) (Reach-EachOnce r)
    Reach-EachOnce (later r (close up e)) =
        subst (λ (x : System net). EachOnce x.task.answers) (sym e) (Reach-EachOnce r)

    -- What a list of peers that was sent on a channel is: the registry of the state in which the loop
    -- took up the command of that channel, every peer under its id.
    pub record Snapshot (w : net.World) (channel : ℕ) (list : List (PeerInfo net)) : Type 0 where
      pub at : System net
      pub rest : List Command
      pub reached : Reach net hasher w at
      pub up : at.phase ≡ running
      pub next : at.pending ≡ connected_peers channel ∷ rest
      pub ids : map (λ i. i.id) list ≡ keys hasher at.task.manager.peers
      pub size : length list ≡ length at.task.manager.peers

    abbrev AllSnapshot : net.World → List (Answer net) → Type 0
    AllSnapshot w [] = Unit {0}
    AllSnapshot w (receipts_answer channel r ∷ answers) = AllSnapshot w answers
    AllSnapshot w (peers_answer channel list ∷ answers) =
        Snapshot w channel list × AllSnapshot w answers

    AllSnapshot-snoc :
        (w : net.World) (answers : List (Answer net)) (a : Answer net)
        → AllSnapshot w answers
        → AllSnapshot w (a ∷ [])
        → AllSnapshot w (answers ++ a ∷ [])
    AllSnapshot-snoc w [] a h one = one
    AllSnapshot-snoc w (receipts_answer channel r ∷ answers) a h one =
        AllSnapshot-snoc w answers a h one
    AllSnapshot-snoc w (peers_answer channel list ∷ answers) a (first, h) one =
        (first, AllSnapshot-snoc w answers a h one)

    -- The command that is taken up in a reached state.
    command-AllSnapshot :
        (w : net.World) (s : System net) (c : Command) (rest : List Command) (t' : Task net)
        → Reach net hasher w s
        → s.phase ≡ running
        → s.pending ≡ c ∷ rest
        → handle_command net hasher c s.task ≡ done t'
        → AllSnapshot w s.task.answers
        → AllSnapshot w t'.answers
    unfolding handle_command
    command-AllSnapshot w s (fetch_receipts_from target hashes reply) rest t' r up p e h =
        let v = (Reach-IsSystem net hasher r).registry in
        let (o, runs, registry, shrinks) =
          do_fetch_receipts-IsRegistry net hasher hashes s.task.manager s.task.world target v in
        let sent : t'.answers ≡ s.task.answers ++ receipts_answer reply o.0 ∷ [] =
          ground (arith, runs) in
        subst (AllSnapshot w) (sym sent)
          (AllSnapshot-snoc w s.task.answers (receipts_answer reply o.0) h tt)
    command-AllSnapshot w s (connected_peers reply) rest t' r up p e h =
        let v = (Reach-IsSystem net hasher r).registry in
        let list = infos net hasher s.task.manager in
        let (ids, size) = infos-keys net s.task.manager v hasher in
        let sent : t'.answers ≡ s.task.answers ++ peers_answer reply list ∷ [] = ground arith in
        let one : Snapshot w reply list = record {
          at = s;
          rest = rest;
          reached = r;
          up = up;
          next = p;
          ids = ids;
          size = size;
        } in
        subst (AllSnapshot w) (sym sent)
          (AllSnapshot-snoc w s.task.answers (peers_answer reply list) h (one, tt))

    round-AllSnapshot :
        (w : net.World) (s : System net) (i : Incoming net) (rest : List Command) (t' : Task net)
        → Reach net hasher w s
        → s.phase ≡ running
        → Takes net i s.pending rest
        → step net hasher i s.task ≡ done t'
        → AllSnapshot w s.task.answers
        → AllSnapshot w t'.answers
    unfolding step
    round-AllSnapshot w s (event x) rest t' r up p e h =
        let v = (Reach-IsSystem net hasher r).registry in
        let (o, runs, registry) =
          handle_network_event-IsRegistry net x s.task.manager s.task.world v in
        let same : t'.answers ≡ s.task.answers = ground (arith, runs) in
        subst (AllSnapshot w) (sym same) h
    round-AllSnapshot w s (command c) rest t' r up p e h =
        command-AllSnapshot w s c rest t' r up p e h

    Reach-AllSnapshot :
        {w : net.World} {s : System net} → Reach net hasher w s → AllSnapshot w s.task.answers
    Reach-AllSnapshot {w} (start e) =
        subst (λ (x : System net). AllSnapshot w x.task.answers) (sym e) tt
    Reach-AllSnapshot {w} (later r (submit req up room e)) =
        subst (λ (x : System net). AllSnapshot w x.task.answers) (sym e) (Reach-AllSnapshot r)
    Reach-AllSnapshot {w} (later {s} r (round i rest task' up takes h e)) =
        subst (λ (x : System net). AllSnapshot w x.task.answers) (sym e)
          (round-AllSnapshot w s i rest task' r up takes h (Reach-AllSnapshot r))
    Reach-AllSnapshot {w} (later r (crash i rest up takes h e)) =
        subst (λ (x : System net). AllSnapshot w x.task.answers) (sym e) (Reach-AllSnapshot r)
    Reach-AllSnapshot {w} (later r (close up e)) =
        subst (λ (x : System net). AllSnapshot w x.task.answers) (sym e) (Reach-AllSnapshot r)

    Memᴰ-Snapshot :
        (w : net.World) (answers : List (Answer net)) (channel : ℕ) (list : List (PeerInfo net))
        → AllSnapshot w answers
        → Memᴰ (peers_answer channel list) answers
        → Snapshot w channel list
    Memᴰ-Snapshot w [] channel list all m = absurd (Memᴰ.not-nil m)
    Memᴰ-Snapshot w (receipts_answer c r ∷ answers) channel list all m = elim (Memᴰ.cases_cons m) [
      | inl e ↦ absurd (ground (arith, e))
      | inr m' ↦ Memᴰ-Snapshot w answers channel list all m'
    ]
    Memᴰ-Snapshot w (peers_answer c list' ∷ answers) channel list (first, all) m =
        elim (Memᴰ.cases_cons m) [
          | inl e ↦
              let same_channel : c ≡ channel = ground (arith, e) in
              let same_list : list' ≡ list = ground (arith, e) in
              subst (λ l. Snapshot w channel l) same_list
                (subst (λ k. Snapshot w k list') same_channel first)
          | inr m' ↦ Memᴰ-Snapshot w answers channel list all m'
        ]

    -- In every state that is reached, a list of peers that was sent on a channel is the registry of the
    -- state in which the loop took up the command of that channel.
    pub Reach-Snapshot :
        {w : net.World} {s : System net} (channel : ℕ) (list : List (PeerInfo net))
        → Reach net hasher w s
        → Memᴰ (peers_answer channel list) s.task.answers
        → Snapshot w channel list
    Reach-Snapshot {w} {s} channel list r m =
        Memᴰ-Snapshot w s.task.answers channel list (Reach-AllSnapshot r) m
