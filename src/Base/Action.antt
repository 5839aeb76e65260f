-- ===== src/Base/Action.antt =====
-- Calls that change the world outside and may fail: what was done before an error stays done.
use v3_node.Base.Outcome.{Result, ok, err}

abbrev pub Action {ℓ} : Type ℓ → Type ℓ → Type ℓ → Type ℓ
Action W A E = W → Result A E × W

module _ {ℓ} {W A B E : Type ℓ} where
  abbrev pub continue : Result A E → (A → Action W B E) → Action W B E
  continue (ok a) f w = f a w
  continue (err e) f w = (err e, w)

  infixl 5 ◌>>=◌
  abbrev pub ◌>>=◌ : Action W A E → (A → Action W B E) → Action W B E
  ◌>>=◌ m f w = let (r, w') = m w in continue r f w'

module _ {ℓ} {W A E : Type ℓ} where
  abbrev pub pure : A → Action W A E
  pure a w = (ok a, w)

  -- A call that cannot fail.
  abbrev pub lift : (W → A × W) → Action W A E
  lift f w = let (a, w') = f w in (ok a, w')
