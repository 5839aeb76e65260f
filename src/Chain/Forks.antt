-- ===== src/Chain/Forks.antt =====
-- src/network/chainspec.rs: what the table of forks says at a head.
use v3_node.Base.{
  ℕ, zero, suc, ◌≡◌, ◌≤◌, ◌<◌, refl, Bool, true, false, ◌&&◌, List, [], ◌∷◌, some, get_elem?, leb,
  arith,
}
use v3_node.Chain.{
  Hardfork, bsc, BscHardfork, ramanujan, niels, mirror_sync, bruno, euler, nano, moran, gibbs,
  planck, luban, plato, hertz, hertz_fix, kepler, feynman, feynman_fix, haber, haber_fix, bohr,
  pascal, prague, ForkCondition, block, timestamp, bsc_mainnet, Head, head,
}

-- Whether a fork is active at a head.
abbrev pub Reached : Head → ForkCondition → Type 0
Reached h (block b) = b ≤ h.number
Reached h (timestamp t) = t ≤ h.timestamp

-- A head of the chain that reached the first fork by time has all the forks by number behind it.
abbrev pub IsConsistent : Head → Type 0
IsConsistent h = 1705996800 ≤ h.timestamp → 34140700 ≤ h.number

abbrev before : ForkCondition → ForkCondition → Bool
before (block a) (block b) = leb a b
before (block a) (timestamp t) = leb a 34140700 && leb 1705996800 t
before (timestamp s) (timestamp t) = leb s t
before (timestamp s) (block b) = false

before-Reached :
    (h : Head) (c d : ForkCondition)
    → IsConsistent h
    → before c d ≡ true
    → Reached h d
    → Reached h c
before-Reached h (block a) (block b) v e r = ground arith
before-Reached h (block a) (timestamp t) v e r =
    let late : 1705996800 ≤ t = ground arith in
    let early : a ≤ 34140700 = ground arith in let behind = v (omega arith) in omega arith
before-Reached h (timestamp s) (timestamp t) v e r = ground arith
before-Reached h (timestamp s) (block b) v e r = ground arith

abbrev before_all : ForkCondition → List (Hardfork × ForkCondition) → Bool
before_all c [] = true
before_all c ((fork, d) ∷ table) = before c d && before_all c table

abbrev sorted : List (Hardfork × ForkCondition) → Bool
sorted [] = true
sorted ((fork, c) ∷ table) = before_all c table && sorted table

before_all-at :
    (c : ForkCondition) (table : List (Hardfork × ForkCondition)) (j : ℕ)
    (g : Hardfork × ForkCondition)
    → before_all c table ≡ true
    → get_elem? table j ≡ some g
    → before c g.1 ≡ true
before_all-at c [] j g e at = ground arith
before_all-at c ((fork, d) ∷ table) zero g e at = ground arith
before_all-at c ((fork, d) ∷ table) (suc j) g e at = before_all-at c table j g (ground arith) at

sorted-at :
    (table : List (Hardfork × ForkCondition)) (i j : ℕ) (f g : Hardfork × ForkCondition)
    → sorted table ≡ true
    → i < j
    → get_elem? table i ≡ some f
    → get_elem? table j ≡ some g
    → before f.1 g.1 ≡ true
sorted-at [] i j f g s l ei ej = ground arith
sorted-at ((fork, c) ∷ table) i zero f g s l ei ej = absurd (omega arith)
sorted-at ((fork, c) ∷ table) zero (suc j) f g s l ei ej =
    let rest = before_all-at c table j g (ground arith) ej in ground (arith, rest)
sorted-at ((fork, c) ∷ table) (suc i) (suc j) f g s l ei ej =
    sorted-at table i j f g (ground arith) (omega arith) ei ej

-- At a consistent head the forks that are reached come before those that are not, in the order of
-- the table.
pub bsc_mainnet-Reached :
    (h : Head) (i j : ℕ) (f g : Hardfork × ForkCondition)
    → IsConsistent h
    → i < j
    → get_elem? bsc_mainnet i ≡ some f
    → get_elem? bsc_mainnet j ≡ some g
    → Reached h g.1
    → Reached h f.1
unfolding bsc_mainnet
bsc_mainnet-Reached h i j f g v l ei ej r =
    before-Reached h f.1 g.1 v (sorted-at bsc_mainnet i j f g refl l ei ej) r

abbrev behind_head : ForkCondition → Bool
behind_head (block b) = leb b head.number
behind_head (timestamp t) = leb t head.timestamp

behind_head-Reached :
    (h : Head) (c : ForkCondition)
    → head.number ≤ h.number
    → head.timestamp ≤ h.timestamp
    → behind_head c ≡ true
    → Reached h c
behind_head-Reached h (block b) n t e = ground arith
behind_head-Reached h (timestamp s) n t e = ground arith

listed :
    (f : BscHardfork)
    → (i : ℕ) × (c : ForkCondition) × (get_elem? bsc_mainnet i ≡ some (bsc f, c))
      × (behind_head c ≡ true)
unfolding bsc_mainnet
listed ramanujan = (9, block 0, refl, refl)
listed niels = (10, block 0, refl, refl)
listed mirror_sync = (11, block 5184000, refl, refl)
listed bruno = (12, block 13082000, refl, refl)
listed euler = (13, block 18907621, refl, refl)
listed nano = (14, block 21962149, refl, refl)
listed moran = (15, block 22107423, refl, refl)
listed gibbs = (16, block 23846001, refl, refl)
listed planck = (17, block 27281024, refl, refl)
listed luban = (18, block 29020050, refl, refl)
listed plato = (19, block 30720096, refl, refl)
listed hertz = (22, block 31302048, refl, refl)
listed hertz_fix = (23, block 34140700, refl, refl)
listed kepler = (25, timestamp 1705996800, refl, refl)
listed feynman = (26, timestamp 1713419340, refl, refl)
listed feynman_fix = (27, timestamp 1713419340, refl, refl)
listed haber = (29, timestamp 1718863500, refl, refl)
listed haber_fix = (30, timestamp 1727316120, refl, refl)
listed bohr = (31, timestamp 1727317200, refl, refl)
listed pascal = (32, timestamp 1742436600, refl, refl)
listed prague = (33, timestamp 1742436600, refl, refl)

-- Every fork of BSC is in the table, and is reached at each head from the announced one on.
pub head-Reached :
    (f : BscHardfork) (h : Head)
    → head.number ≤ h.number
    → head.timestamp ≤ h.timestamp
    → (i : ℕ) × (c : ForkCondition) × (get_elem? bsc_mainnet i ≡ some (bsc f, c)) × Reached h c
head-Reached f h n t =
    let (i, c, e, behind) = listed f in (i, c, e, behind_head-Reached h c n t behind)
