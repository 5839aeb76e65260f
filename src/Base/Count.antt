-- ===== src/Base/Count.antt =====
-- Lists of numbers up to order: how often a value occurs.
use Prim.Native.Nat.{ℕ, ◌+◌, ◌≤◌}
use mathlib.Core.Path.{◌≡◌, refl}
use mathlib.Core.List.{List, [], ◌∷◌, ◌++◌}
use native.Mathlib.Omega.{arith}
use v3_node.Base.Tests.{◌==◌, if◌then◌else◌}

abbrev pub count : ℕ → List ℕ → ℕ
count k [] = 0
count k (x ∷ xs) = (if x == k then 1 else 0) + count k xs

pub count-append : (k : ℕ) (xs ys : List ℕ) → count k (xs ++ ys) ≡ count k xs + count k ys
count-append k [] ys = omega arith
count-append k (x ∷ xs) ys = ground (arith, count-append k xs ys)

-- A list with every occurrence of a value taken out, and of several.
abbrev pub except : ℕ → List ℕ → List ℕ
except k [] = []
except k (x ∷ xs) = let rest = except k xs in if x == k then rest else x ∷ rest

abbrev pub except_all : List ℕ → List ℕ → List ℕ
except_all [] xs = xs
except_all (k ∷ ks) xs = except_all ks (except k xs)

pub except_missing : (k : ℕ) (xs : List ℕ) → count k xs ≡ 0 → except k xs ≡ xs
except_missing k [] h = refl
except_missing k (x ∷ xs) h = ground (arith, except_missing k xs)

-- Of a list with no value twice, a part in front is taken out.
pub except_all-append :
    (ks xs : List ℕ) → ((k : ℕ) → count k (ks ++ xs) ≤ 1) → except_all ks (ks ++ xs) ≡ xs
except_all-append [] xs h = refl
except_all-append (k ∷ ks) xs h =
    let once : count k (ks ++ xs) ≡ 0 = ground (arith, h k) in
    let gone : except k (k ∷ ks ++ xs) ≡ ks ++ xs =
      ground (arith, except_missing k (ks ++ xs) once) in
    rw gone (except_all-append ks xs (λ j. ground (arith, h j)))
