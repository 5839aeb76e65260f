-- ===== src/Db/Text/Digits.antt =====
-- The digits that src/db/models.rs prints, and the number that they stand for.
use mathlib.Core.WellFounded.{Acc}
use mathlib.Core.Logic.{dif_pos, dif_neg}
use native.Mathlib.Bridge.{le_prop}
use native.Mathlib.Decide.{dec_lt}
use native.Mathlib.Nat.{div-add-mod', mod-lt}
use v3_node.Base.{ℕ, ◌+◌, ◌*◌, ◌/◌, ◌%◌, ◌<◌, ◌≡◌, refl, ◌∙◌, List, [], ◌∷◌, ◌++◌, arith}
use v3_node.Base.Order.{lt_wf}
use v3_node.Db.Text.{quotient_lt, digits_acc, digits}

-- The number that digits in some base stand for, read on from another one.
abbrev pub number : ℕ → ℕ → List ℕ → ℕ
number base acc [] = acc
number base acc (d ∷ ds) = number base (acc * base + d) ds

pub number-append :
    (base acc : ℕ) (xs : List ℕ) (d : ℕ)
    → number base acc (xs ++ d ∷ []) ≡ number base acc xs * base + d
number-append base acc [] d = refl
number-append base acc (x ∷ xs) d = number-append base (acc * base + x) xs d

abbrev pub Below : ℕ → List ℕ → Type 0
Below base [] = Unit {0}
Below base (d ∷ ds) = (d < base) × Below base ds

Below-append :
    (base : ℕ) (xs : List ℕ) (d : ℕ) → Below base xs → d < base → Below base (xs ++ d ∷ [])
Below-append base [] d h k = (k, tt)
Below-append base (x ∷ xs) d h k = (h.0, Below-append base xs d h.1 k)

digits_acc-number : (b n : ℕ) (w : Acc ◌<◌ n) → number (b + 2) 0 (digits_acc b n w) ≡ n
unfolding digits_acc
digits_acc-number b n (Acc.intro _ smaller) = elim (dec_lt n (b + 2)) [
  | yes h ↦ rw (dif_pos _ le_prop h) (omega arith)
  | no h ↦ rw (dif_neg _ h) (
      number-append (b + 2) 0
        (digits_acc b (n / (b + 2)) (smaller (n / (b + 2)) (quotient_lt b n h))) (n % (b + 2))
      ∙ rw (digits_acc-number b (n / (b + 2)) (smaller (n / (b + 2)) (quotient_lt b n h)))
          (div-add-mod' n (b + 2)))
]

digits_acc-Below : (b n : ℕ) (w : Acc ◌<◌ n) → Below (b + 2) (digits_acc b n w)
unfolding digits_acc
digits_acc-Below b n (Acc.intro _ smaller) = elim (dec_lt n (b + 2)) [
  | yes h ↦ rw (dif_pos _ le_prop h) (h, tt)
  | no h ↦ rw (dif_neg _ h) (
      Below-append (b + 2) (digits_acc b (n / (b + 2)) (smaller (n / (b + 2)) (quotient_lt b n h)))
        (n % (b + 2)) (digits_acc-Below b (n / (b + 2)) (smaller (n / (b + 2)) (quotient_lt b n h)))
        (mod-lt n (omega arith)))
]

append-cons : (xs : List ℕ) (d : ℕ) → (x : ℕ) × (ys : List ℕ) × (xs ++ d ∷ [] ≡ x ∷ ys)
append-cons [] d = (d, [], refl)
append-cons (x ∷ xs) d = (x, xs ++ d ∷ [], refl)

digits_acc-cons : (b n : ℕ) (w : Acc ◌<◌ n) → (x : ℕ) × (ys : List ℕ) × (digits_acc b n w ≡ x ∷ ys)
unfolding digits_acc
digits_acc-cons b n (Acc.intro _ smaller) = elim (dec_lt n (b + 2)) [
  | yes h ↦ rw (dif_pos _ le_prop h) (n, [], refl)
  | no h ↦ rw (dif_neg _ h) (append-cons _ (n % (b + 2)))
]

pub digits-cons : (b n : ℕ) → (x : ℕ) × (ys : List ℕ) × (digits b n ≡ x ∷ ys)
unfolding digits
digits-cons b n = digits_acc-cons b n (lt_wf.apply n)

pub number-digits : (b n : ℕ) → number (b + 2) 0 (digits b n) ≡ n
unfolding digits
number-digits b n = digits_acc-number b n (lt_wf.apply n)

pub digits-Below : (b n : ℕ) → Below (b + 2) (digits b n)
unfolding digits
digits-Below b n = digits_acc-Below b n (lt_wf.apply n)
