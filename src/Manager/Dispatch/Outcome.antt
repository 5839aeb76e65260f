-- ===== src/Manager/Dispatch/Outcome.antt =====
-- src/network/manager.rs: what the walk along the peers comes to, told by the peers that were asked.
use v3_node.Base.{
  ℕ, suc, ◌+◌, ◌%◌, ◌≤◌, ◌≡◌, ◌⊎◌, inl, inr, refl, ap, ◌∙◌, List, [], ◌∷◌, ◌++◌, append-nil,
  append_assoc, some, length, Result, ok, err, Bool, true, false, if◌then◌else◌, arith,
}
use native.Mathlib.Nat.{add-zero}
use v3_node.Base.Count.{count}
use v3_node.Base.HashMap.{HashMap, get, stored_keys, get-of-count}
use v3_node.Peer.{PeerId, BlockHash, PeerError, Net, Peer, Receipts, fetch_receipts}
use v3_node.Manager.Dispatch.{Attempt, found, exhausted, is_disconnected, ask}
use v3_node.Manager.Dispatch.Scan.{scan}

module _ (net : Net) (peers : HashMap (Peer net)) (hashes : List BlockHash) where
  -- The world after some peers were asked in turn, whatever they said.
  abbrev pub world_after : List PeerId → net.World → net.World
  world_after [] w = w
  world_after (id ∷ ids) w = world_after ids (ask net peers id hashes w).1

  -- Peers asked in turn all fail, with the errors of the list.
  abbrev pub AllFail : List PeerId → List PeerError → net.World → Type 0
  AllFail [] [] w = Unit {0}
  AllFail [] (e ∷ es) w = ⊥
  AllFail (id ∷ ids) [] w = ⊥
  AllFail (id ∷ ids) (e ∷ es) w =
      ((ask net peers id hashes w).0 ≡ some (err e)) × AllFail ids es (ask net peers id hashes w).1

-- The last error, or the first argument if there is none.
abbrev pub last_error : PeerError → List PeerError → PeerError
last_error e [] = e
last_error e (x ∷ es) = last_error x es

-- The peers whose error says that they are disconnected.
abbrev pub lost : List PeerId → List PeerError → List PeerId
lost (id ∷ ids) (e ∷ es) = (if is_disconnected e then id ∷ [] else []) ++ lost ids es
lost _ _ = []

pub count-lost :
    (k : PeerId) (ids : List PeerId) (es : List PeerError) → count k (lost ids es) ≤ count k ids
count-lost k [] es = omega arith
count-lost k (id ∷ ids) [] = omega arith
count-lost k (id ∷ ids) (e ∷ es) = ground (arith, count-lost k ids es)

pub evict_assoc :
    (b : Bool) (id : PeerId) (xs ys : List PeerId)
    → (if b then xs ++ id ∷ [] else xs) ++ ys ≡ xs ++ ((if b then id ∷ [] else []) ++ ys)
evict_assoc true id xs ys = append_assoc xs (id ∷ []) ys
evict_assoc false id xs ys = refl

module _ (net : Net) (peers : HashMap (Peer net)) (hashes : List BlockHash) (rr total : ℕ) where
  -- The walk ended at a peer that answered, after others that failed.
  pub record Answered (ids : List PeerId) (pos : ℕ) (to_evict : List PeerId) (w : net.World)
      (r : Attempt net × net.World) : Type 0 where
    pub before : List PeerId
    pub id : PeerId
    pub after : List PeerId
    pub errors : List PeerError
    pub receipts : Receipts net
    pub order : ids ≡ before ++ id ∷ after
    pub failed : AllFail net peers hashes before errors w
    pub answer :
        ask net peers id hashes (world_after net peers hashes before w) ≡ (some (ok receipts), r.1)
    pub result :
        r.0 ≡ found receipts ((rr + (pos + length before)) % total) (to_evict ++ lost before errors)

  -- The walk went through all peers, which all failed.
  pub record Unanswered (ids : List PeerId) (last_err : PeerError) (to_evict : List PeerId)
      (w : net.World) (r : Attempt net × net.World) : Type 0 where
    pub errors : List PeerError
    pub failed : AllFail net peers hashes ids errors w
    pub world : r.1 ≡ world_after net peers hashes ids w
    pub result : r.0 ≡ exhausted (last_error last_err errors) (to_evict ++ lost ids errors)

  pub scan_err :
      (id : PeerId) (ids : List PeerId) (pos : ℕ) (last_err : PeerError) (to_evict : List PeerId)
      (w : net.World) (x : PeerError)
      → (ask net peers id hashes w).0 ≡ some (err x)
      → scan net peers hashes rr total (id ∷ ids) pos last_err to_evict w
        ≡ scan net peers hashes rr total ids
            (pos + 1)
            x
            (if is_disconnected x then to_evict ++ id ∷ [] else to_evict)
            (ask net peers id hashes w).1
  unfolding scan
  scan_err id ids pos last_err to_evict w x e = ground arith

  pub scan_ok :
      (id : PeerId) (ids : List PeerId) (pos : ℕ) (last_err : PeerError) (to_evict : List PeerId)
      (w : net.World) (rs : Receipts net)
      → (ask net peers id hashes w).0 ≡ some (ok rs)
      → scan net peers hashes rr total (id ∷ ids) pos last_err to_evict w
        ≡ (found rs ((rr + pos) % total) to_evict, (ask net peers id hashes w).1)
  unfolding scan
  scan_ok id ids pos last_err to_evict w rs e = ground arith

  abbrev Walked :
      List PeerId → ℕ → PeerError → List PeerId → net.World → Attempt net × net.World → Type 0
  Walked ids pos last_err to_evict w r =
      Answered ids pos to_evict w r ⊎ Unanswered ids last_err to_evict w r

  pair_eq : {A B : Type 0} (p : A × B) (a : A) → p.0 ≡ a → p ≡ (a, p.1)
  pair_eq p a e = ground arith

  -- A failed round in front of a walk.
  after_failure :
      (id : PeerId) (ids : List PeerId) (pos : ℕ) (last_err : PeerError) (to_evict : List PeerId)
      (w : net.World) (x : PeerError) (r : Attempt net × net.World)
      → (ask net peers id hashes w).0 ≡ some (err x)
      → Walked ids
          (pos + 1)
          x
          (if is_disconnected x then to_evict ++ id ∷ [] else to_evict)
          (ask net peers id hashes w).1
          r
      → Walked (id ∷ ids) pos last_err to_evict w r
  after_failure id ids pos last_err to_evict w x r e (inl a) = inl (record {
    before = id ∷ a.before;
    id = a.id;
    after = a.after;
    errors = x ∷ a.errors;
    receipts = a.receipts;
    order = ap (◌∷◌ id) a.order;
    failed = (e, a.failed);
    answer = a.answer;
    result =
        let moved : pos + 1 + length a.before ≡ pos + suc (length a.before) = omega arith in
        a.result ∙ rw (moved, evict_assoc (is_disconnected x) id to_evict (lost a.before a.errors));
  })
  after_failure id ids pos last_err to_evict w x r e (inr u) = inr (record {
    errors = x ∷ u.errors;
    failed = (e, u.failed);
    world = u.world;
    result = u.result ∙ rw (evict_assoc (is_disconnected x) id to_evict (lost ids u.errors));
  })

  ask-some :
      (id : PeerId) (p : Peer net) (w : net.World)
      → get id peers ≡ some p
      → (ask net peers id hashes w).0 ≡ some (fetch_receipts net p hashes w).0
  unfolding ask
  ask-some id p w e = ground arith

  walk_round :
      (id : PeerId) (ids : List PeerId) (pos : ℕ) (last_err : PeerError) (to_evict : List PeerId)
      (w : net.World) (reply : Result (Receipts net) PeerError)
      → (ask net peers id hashes w).0 ≡ some reply
      → ((x : PeerError) (ev : List PeerId) (v : net.World)
          → Walked ids (pos + 1) x ev v (scan net peers hashes rr total ids (pos + 1) x ev v))
      → Walked
          (id ∷ ids)
          pos
          last_err
          to_evict
          w
          (scan net peers hashes rr total (id ∷ ids) pos last_err to_evict w)
  walk_round id ids pos last_err to_evict w (ok rs) e ih =
      rw (scan_ok id ids pos last_err to_evict w rs e) (
        inl (record {
          before = [];
          id = id;
          after = ids;
          errors = [];
          receipts = rs;
          order = refl;
          failed = tt;
          answer = pair_eq (ask net peers id hashes w) (some (ok rs)) e;
          result = rw (append-nil to_evict, add-zero pos);
        }))
  walk_round id ids pos last_err to_evict w (err x) e ih =
      rw (scan_err id ids pos last_err to_evict w x e)
        (after_failure id ids pos last_err to_evict w x _ e (ih x _ _))

  -- Where every peer on the list is registered, the walk asks them in turn up to the first answer.
  pub scan-Walked :
      (ids : List PeerId) (pos : ℕ) (last_err : PeerError) (to_evict : List PeerId) (w : net.World)
      → ((k : PeerId) → count k ids ≤ count k (stored_keys peers))
      → Walked ids pos last_err to_evict w
          (scan net peers hashes rr total ids pos last_err to_evict w)
  unfolding scan
  scan-Walked [] pos last_err to_evict w h =
      inr (record { errors = []; failed = tt; world = refl; result = rw (append-nil to_evict) })
  scan-Walked (id ∷ ids) pos last_err to_evict w h =
      let (p, e) = get-of-count id peers (ground (arith, h id)) in
      walk_round id ids pos last_err to_evict w (fetch_receipts net p hashes w).0
        (ask-some id p w e) (λ x ev v. scan-Walked ids (pos + 1) x ev v (λ k. ground (arith, h k)))
