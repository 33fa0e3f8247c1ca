-- ===== src/History/Evict.antt =====
-- `Store.evictLocked` of operator/pkg/history/history.go: what a round drops, and what is left.
use mycedrive_k8s.Base.{
  ℕ, suc, ◌+◌, ◌-◌, ◌≤◌, true, false, none, some, List, [], ◌∷◌, ◌++◌, ◌≡◌, String, Map, lookup,
  length, ltb, ◌==◌, if◌then◌else◌, arith, eq_iff, Bool-cases, Option-cases, inl, inr, ◌⊎◌,
}
use mycedrive_k8s.History.Types.{Record}
use mycedrive_k8s.History.{Store, evictable, find_evictable, erase_first, drop, evict_fuel, evict}

-- How often a key stands in a list.
unfoldable pub times : String → List String → ℕ
times k [] = 0
times k (key ∷ rest) = let more = times k rest in if key == k then suc more else more

pub times-append : (k : String) (xs ys : List String) → times k (xs ++ ys) ≡ times k xs + times k ys
unfolding times
times-append k [] ys = omega arith
times-append k (x ∷ xs) ys = ground (arith, times-append k xs ys)

pub times-erase_first :
    (k key : String) (xs : List String)
    → times k (erase_first key xs) ≡ (if key == k then times k xs - 1 else times k xs)
unfolding times erase_first
times-erase_first k key [] = ground arith
times-erase_first k key (x ∷ xs) =
    ground (arith, times-erase_first k key xs, eq_iff x key, eq_iff x k, eq_iff key k)

-- What the search finds is in the order, and may be dropped.
pub find_evictable-some :
    (keys : List String) (m : Map Record) (key : String)
    → find_evictable keys m ≡ some key
    → (evictable (lookup key m) ≡ true)
      × (suc (length (erase_first key keys)) ≡ length keys)
      × (1 ≤ times key keys)
unfolding find_evictable erase_first times
find_evictable-some [] m key e = cc
find_evictable-some (k ∷ keys) m key e = elim (Bool-cases (evictable (lookup k m))) [
  | inl may ↦ ground (arith, may, e, eq_iff k key)
  | inr must_stay ↦ ground (arith, must_stay, e, eq_iff k key, find_evictable-some keys m key)
]

-- What every drop of an evictable key keeps, the eviction keeps.
pub evict_fuel-keeps {κ} :
    (Q : Store → Type κ)
    → ((s : Store) (key : String)
        → find_evictable s.order s.records ≡ some key
        → Q s
        → Q (drop key s))
    → (fuel : ℕ) (s : Store) → Q s
    → Q (evict_fuel fuel s)
unfolding evict_fuel
evict_fuel-keeps Q each ℕ.zero s q = q
evict_fuel-keeps Q each (suc fuel) s q = elim (Bool-cases (ltb s.limit (length s.order))) [
  | inl over ↦ elim (Option-cases (find_evictable s.order s.records)) [
    | inl stuck ↦ rw (over, stuck, evict_fuel) q
    | inr (key, found) ↦
        rw (over, found, evict_fuel)
          (evict_fuel-keeps Q each fuel (drop key s) (each s key found q))
  ]
  | inr within ↦ rw (within, evict_fuel) q
]

find_evictable-none :
    (keys : List String) (m : Map Record) (k : String)
    → find_evictable keys m ≡ none
    → 1 ≤ times k keys
    → evictable (lookup k m) ≡ false
unfolding find_evictable times
find_evictable-none [] m k e h = ground arith
find_evictable-none (key ∷ keys) m k e h =
    ground (arith, eq_iff key k, find_evictable-none keys m k, e, h)

-- The order is within the limit, or nothing in it may be dropped.
abbrev pub Settled : Store → Type 0
Settled s =
    (length s.order ≤ s.limit)
    ⊎ ((k : String) → 1 ≤ times k s.order → evictable (lookup k s.records) ≡ false)

evict_fuel-Settled : (fuel : ℕ) (s : Store) → length s.order ≤ fuel → Settled (evict_fuel fuel s)
unfolding evict_fuel drop
evict_fuel-Settled ℕ.zero s h = inl (omega (arith, h))
evict_fuel-Settled (suc fuel) s h = elim (Bool-cases (ltb s.limit (length s.order))) [
  | inl over ↦ elim (Option-cases (find_evictable s.order s.records)) [
    | inl stuck ↦
        rw (over, stuck, evict_fuel) (inr (λ k. find_evictable-none s.order s.records k stuck))
    | inr (key, found) ↦
        let shorter = (find_evictable-some s.order s.records key found).1 in
        rw (over, found, evict_fuel)
          (evict_fuel-Settled fuel (drop key s) (omega (arith, shorter, h)))
  ]
  | inr within ↦ rw (within, evict_fuel) (inl (ground arith))
]

-- The eviction ends with no more keys than the limit, or with nothing left that is terminal or seeded.
pub evict-Settled : (s : Store) → Settled (evict s)
unfolding evict
evict-Settled s = evict_fuel-Settled (length s.order) s (omega arith)
