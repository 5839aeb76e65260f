-- ===== src/Db/Models/Kind.antt =====
-- src/db/models.rs: the discriminator of the liquidity changes.
use v3_node.Base.{◌≡◌, ◌↔◌, refl, true, [], ◌∷◌, some, arith}
use v3_node.Db.Text.{Text, codes}
use v3_node.Db.Models.{text_eq, LiquidityChangeKind, mint, burn, as_str, from_str}

pub text_eq_lem : (s t : Text) → text_eq s t ≡ true → s ≡ t
text_eq_lem [] [] h = refl
text_eq_lem [] (y ∷ ys) h = ground arith
text_eq_lem (x ∷ xs) [] h = ground arith
text_eq_lem (x ∷ xs) (y ∷ ys) h = ground (arith, text_eq_lem xs ys)

pub text_eq_self : (s : Text) → text_eq s s ≡ true
text_eq_self [] = refl
text_eq_self (x ∷ xs) = ground (arith, text_eq_self xs)

as_str-parses : (k : LiquidityChangeKind) → from_str (as_str k) ≡ some k
unfolding from_str as_str
as_str-parses mint = refl
as_str-parses burn = refl

from_str-some : (s : Text) (k : LiquidityChangeKind) → from_str s ≡ some k → s ≡ as_str k
unfolding from_str as_str
from_str-some s mint h = ground (arith, text_eq_lem s (codes "mint"), text_eq_lem s (codes "burn"))
from_str-some s burn h = ground (arith, text_eq_lem s (codes "mint"), text_eq_lem s (codes "burn"))

-- A text parses to a kind exactly if it is the text that the kind is stored as.
pub from_str-as_str : (s : Text) (k : LiquidityChangeKind) → (from_str s ≡ some k) ↔ (s ≡ as_str k)
from_str-as_str s k = (from_str-some s k, λ e. rw e (as_str-parses k))
