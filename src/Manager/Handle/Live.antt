-- ===== src/Manager/Handle/Live.antt =====
-- src/network/manager.rs: the handle against a manager that is running.
use v3_node.Base.{
  ℕ, ◌≡◌, refl, ap, sym, subst, err, ◌==◌, String, Bool, true, false, List, [], ◌∷◌, ◌++◌, Option,
  none, some, length, Result, ok, Run, panic, done, if◌then◌else◌, arith,
}
use v3_node.Base.HashMap.{Hasher}
use v3_node.AppError.{AppError, network}
use v3_node.Peer.{PeerId, BlockHash, PeerError, Net, PeerInfo, Receipts}
use v3_node.Manager.State.{Answer, receipts_answer, peers_answer, Task}
use v3_node.Manager.Registry.Invariant.{IsRegistry}
use v3_node.Manager.Dispatch.{do_fetch_receipts}
use v3_node.Manager.Dispatch.RoundRobin.{Outcome}
use v3_node.Manager.Dispatch.Safety.{do_fetch_receipts-IsRegistry}
use v3_node.Manager.Loop.{infos, handle_command}
use v3_node.Manager.Loop.Peers.{infos-keys}
use v3_node.Manager.Handle.{
  Mailbox, submit, reply, request_from, as_app_error, request_any, list_peers, peer_count,
}

module _ (net : Net) where
  abbrev receipts_on : ℕ → Answer net → Option (Result (Receipts net) PeerError)
  receipts_on channel (receipts_answer c r) = if c == channel then some r else none
  receipts_on channel (peers_answer c infos) = none

  abbrev peers_on : ℕ → Answer net → Option (List (PeerInfo net))
  peers_on channel (receipts_answer c r) = none
  peers_on channel (peers_answer c infos) = if c == channel then some infos else none

  -- The newest answer that a channel gets something from.
  abbrev newest : {A : Type 0} → (Answer net → Option A) → List (Answer net) → Option A
  newest f [] = none
  newest f (a ∷ as_) = elim (newest f as_) [ none ↦ f a | some x ↦ some x ]

  newest-append :
      {A : Type 0} (f : Answer net → Option A) (as_ : List (Answer net)) (a : Answer net) (x : A)
      → f a ≡ some x
      → newest f (as_ ++ a ∷ []) ≡ some x
  newest-append f [] a x h = h
  newest-append f (b ∷ as_) a x h = ground (arith, newest-append f as_ a x h)

module _ (net : Net) (hasher : Hasher) (error_text : PeerError → String) where
  unfoldable pub served : Task net → Run (Task net) → Bool × Task net
  served t panic = (false, t)
  served t (done t') = (true, t')

  -- The manager handles a command before the caller goes on to wait for its reply.
  abbrev pub live : Mailbox net
  live = record {
    State = Task net;
    Io = Unit {0};
    error_text = error_text;
    oneshot = λ t. (length t.answers, t);
    send = λ c t. served t (handle_command net hasher c t);
    await_receipts = λ channel t. (newest net (receipts_on net channel) t.answers, t);
    await_peers = λ channel t. (newest net (peers_on net channel) t.answers, t);
  }

  -- What the caller of a request to any peer gets, for what the dispatch gave: the same receipts, or
  -- the text of the error as an error of the network.
  abbrev pub Passed :
      Result (Receipts net) PeerError → Result (Receipts net) (AppError live.Io) → Type 0
  Passed (ok receipts) r = r ≡ ok receipts
  Passed (err e) r = r ≡ err (network (error_text e))

  as_app_error-Passed : (r : Result (Receipts net) PeerError) → Passed r (as_app_error net live r)
  unfolding as_app_error
  as_app_error-Passed (ok receipts) = refl
  as_app_error-Passed (err e) = refl

  module _ (t : Task net) (v : IsRegistry net t.manager) where
    -- A request to one peer by the handle gives what the manager's dispatch gives, and leaves the
    -- manager in the state that it leaves.
    pub request_from-live :
        (id : PeerId) (hashes : List BlockHash)
        → (o : Outcome net hasher hashes t.manager t.world) × (do_fetch_receipts net hasher
              (some id)
              hashes
              t.manager
              t.world
            ≡ done o)
          × ((request_from net live id hashes t).0 ≡ o.0)
          × ((request_from net live id hashes t).1.manager ≡ o.1)
    unfolding request_from submit reply served handle_command
    request_from-live id hashes =
        let (o, e, registry, shrinks) =
          do_fetch_receipts-IsRegistry net hasher hashes t.manager t.world (some id) v in
        let answer = receipts_answer (length t.answers) o.0 in
        let found =
          newest-append net (receipts_on net (length t.answers)) t.answers answer o.0
            (ground arith) in
        (o, e, ground (arith, found), ground (arith, found))

    -- A request to any peer by the handle gives the receipts that the manager's dispatch gives, or its
    -- error as a text, and leaves the manager in the state that it leaves.
    pub request_any-live :
        (hashes : List BlockHash)
        → (o : Outcome net hasher hashes t.manager t.world) × (do_fetch_receipts net hasher none
              hashes t.manager t.world
            ≡ done o)
          × Passed o.0 (request_any net live hashes t).0
          × ((request_any net live hashes t).1.manager ≡ o.1)
    unfolding request_any submit reply served handle_command
    request_any-live hashes =
        let (o, e, registry, shrinks) =
          do_fetch_receipts-IsRegistry net hasher hashes t.manager t.world none v in
        let answer = receipts_answer (length t.answers) o.0 in
        let found =
          newest-append net (receipts_on net (length t.answers)) t.answers answer o.0
            (ground arith) in
        let result : (request_any net live hashes t).0 ≡ as_app_error net live o.0 =
          ground (arith, found) in
        (o, e, subst (Passed o.0) (sym result) (as_app_error-Passed o.0), ground (arith, found))

    -- The list of the peers by the handle is the one that the manager sends.
    pub list_peers-live : list_peers net live t ≡ (
      ok (infos net hasher t.manager),
      record t {
        answers = t.answers ++ peers_answer (length t.answers) (infos net hasher t.manager) ∷ [];
      },
    )
    unfolding list_peers submit reply served handle_command
    list_peers-live =
        let answer = peers_answer (length t.answers) (infos net hasher t.manager) in
        let found =
          newest-append net (peers_on net (length t.answers)) t.answers answer
            (infos net hasher t.manager) (ground arith) in
        ground (arith, found)

    -- The count of the peers by the handle is the size of the registry, which the query leaves alone.
    pub peer_count-live :
        ((peer_count net live t).0 ≡ ok (length t.manager.peers))
        × ((peer_count net live t).1.manager ≡ t.manager)
    unfolding peer_count
    peer_count-live =
        let size = (infos-keys net t.manager v hasher).1 in
        (rw list_peers-live (ap ok size), rw list_peers-live refl)
