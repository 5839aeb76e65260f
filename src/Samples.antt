-- ===== src/Samples.antt =====
-- Concrete stand-ins for what the program takes from elsewhere, used by the tests only.
pub mod Wire
pub mod Storage
pub mod Ledger
pub mod Start
use v3_node.Base.{ℕ, zero, suc, ◌+◌, ◌≡◌, refl, ap, List, [], ◌∷◌, ◌++◌, not, length, ◌==◌, arith}
use v3_node.Base.Count.{count}
use v3_node.Base.HashMap.{Hasher}
use v3_node.Peer.{Net, Reply, dropped, failed, replied, Peer, SessionInfo}

-- A session's sender is a number that says how the session behaves: 0 refuses every request, 1 drops
-- the response, 2 reports an error, and any other one answers with itself as its only receipt.
abbrev pub answer_of : {T : Type 0} → (ℕ → T) → ℕ → Reply T ℕ
answer_of f zero = dropped
answer_of f (suc zero) = dropped
answer_of f (suc (suc zero)) = failed 7
answer_of f (suc (suc (suc n))) = replied (f (suc (suc (suc n))))

-- The world remembers the sender that took the last request, and how many channels were opened.
abbrev pub network : Net
network = record {
  Addr = ℕ;
  Capabilities = ℕ;
  Instant = ℕ;
  Reason = ℕ;
  NewBlock = ℕ;
  Receipt = ℕ;
  Bloom = ℕ;
  Receipts70 = ℕ;
  RequestError = ℕ;
  Sender = ℕ;
  World = ℕ × ℕ;
  into_receipts = λ n. ((n, 0) ∷ []) ∷ [];
  error_text = λ e. "timeout";
  now = λ w. (1000, w);
  oneshot = λ w. (w.1, (w.0, w.1 + 1));
  try_send = λ s request w. (not (s == 0), (s, w.1));
  await70 = λ channel w. (answer_of (λ n. n) w.0, w);
  await69 = λ channel w. (answer_of (λ n. (n ∷ []) ∷ []) w.0, w);
  await_legacy = λ channel w. (answer_of (λ n. ((n, 0) ∷ []) ∷ []) w.0, w);
}

-- An iteration that goes through a table backwards.
abbrev pub backwards : List ℕ → List ℕ
backwards [] = []
backwards (x ∷ xs) = backwards xs ++ x ∷ []

count-snoc : (k x : ℕ) (xs : List ℕ) → count k (xs ++ x ∷ []) ≡ count k (x ∷ xs)
count-snoc k x [] = refl
count-snoc k x (y ∷ xs) = ground (arith, count-snoc k x xs)

pub count-backwards : (xs : List ℕ) (k : ℕ) → count k (backwards xs) ≡ count k xs
count-backwards [] k = refl
count-backwards (x ∷ xs) k = ground (arith, count-snoc k x (backwards xs), count-backwards xs k)

length-snoc : (x : ℕ) (xs : List ℕ) → length (xs ++ x ∷ []) ≡ suc (length xs)
length-snoc x [] = refl
length-snoc x (y ∷ xs) = ap suc (length-snoc x xs)

pub length-backwards : (xs : List ℕ) → length (backwards xs) ≡ length xs
length-backwards [] = refl
length-backwards (x ∷ xs) = ground (arith, length-snoc x (backwards xs), length-backwards xs)

abbrev pub table : Hasher
table = record { order = backwards; count-order = count-backwards; length-order = length-backwards }

-- An iteration that goes through a table as it is stored.
abbrev pub in_order : Hasher
in_order = record { order = λ ks. ks; count-order = λ ks k. refl; length-order = λ ks. refl }

-- A session with a peer, by its id and its version.
abbrev pub session : ℕ → ℕ → SessionInfo network
session id version = record {
  peer_id = id;
  remote_addr = 0;
  version = version;
  client_version = "geth";
  capabilities = 0;
}

-- The peer of such a session, connected at 1000, by its id, its version and its behaviour.
abbrev pub peer : ℕ → ℕ → ℕ → Peer network
peer id version sender = record {
  info = record {
    id = id;
    remote_addr = 0;
    eth_version = version;
    client_version = "geth";
    capabilities = 0;
    connected_at = 1000;
  };
  sender = sender;
}
