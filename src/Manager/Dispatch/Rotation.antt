-- ===== src/Manager/Dispatch/Rotation.antt =====
-- The order in which the round-robin index of src/network/manager.rs goes through a list.
use v3_node.Base.{
  ℕ, zero, suc, ◌+◌, ◌-◌, ◌%◌, ◌≤◌, ◌<◌, ◌≡◌, ap, ◌∙◌, List, [], ◌∷◌, ◌++◌, length, get_elem?, take,
  drop, length-take, length-drop, length-append, get_elem?-append_lt, get_elem?-append_ge,
  get_elem?-drop, get_elem?-take, arith, ltb, Bool-cases, inl, inr,
}
use v3_node.Base.Count.{count, count-append}

-- The list from an index on, then what stands before it.
abbrev pub rotate {ℓ} : {A : Type ℓ} → ℕ → List A → List A
rotate r xs = drop r xs ++ take r xs

module _ {ℓ} {A : Type ℓ} where
  pub length-rotate : (r : ℕ) (xs : List A) → length (rotate r xs) ≡ length xs
  length-rotate r xs =
      omega (arith, length-append (drop r xs) (take r xs), length-drop r xs, length-take r xs)

  pub get_elem?-rotate :
      (r a : ℕ) (xs : List A)
      → r < length xs
      → a < length xs
      → get_elem? (rotate r xs) a ≡ get_elem? xs ((r + a) % length xs)
  get_elem?-rotate r a xs hr ha = elim (Bool-cases (ltb (r + a) (length xs))) [
    | inl within ↦
        let same : (r + a) % length xs ≡ r + a = grind arith in
        rw same (
          get_elem?-append_lt (drop r xs) (take r xs) a (ground (arith, length-drop r xs))
          ∙ get_elem?-drop r a xs)
    | inr beyond ↦
        let past : length xs ≤ r + a = ground arith in
        let wrapped : (r + a) % length xs ≡ r + a - length xs = grind arith in
        let split : a ≡ length (drop r xs) + (r + a - length xs) =
          omega (arith, length-drop r xs) in
        rw wrapped (
          ap (get_elem? (rotate r xs)) split
          ∙ get_elem?-append_ge (drop r xs) (take r xs) (r + a - length xs)
          ∙ get_elem?-take r (r + a - length xs) xs (omega arith))
  ]

pub count-take-drop :
    (k r : ℕ) (xs : List ℕ) → count k (drop r xs) + count k (take r xs) ≡ count k xs
count-take-drop k zero xs = omega arith
count-take-drop k (suc r) [] = omega arith
count-take-drop k (suc r) (x ∷ xs) = ground (arith, count-take-drop k r xs)

-- A rotation has the same elements, each as often.
pub count-rotate : (k r : ℕ) (xs : List ℕ) → count k (rotate r xs) ≡ count k xs
count-rotate k r xs = count-append k (drop r xs) (take r xs) ∙ count-take-drop k r xs
