-- ===== src/Overlay/Order.antt =====
-- sort.Ints and the last number of numberedDirs' list, in go-agent/overlay/volume.go.
use mycedrive_k8s.Base.{ℕ, ◌≤◌, List, [], ◌∷◌, leb, arith, All, Bool-cases, inl, inr}
use mycedrive_k8s.Overlay.{sort_ints, put_in_order, last_or}
use mycedrive_k8s.Overlay.Steady.{count}

unfoldable pub IsAscending : List ℕ → Type 0
IsAscending [] = Unit
IsAscending (n ∷ ns) = All (λ m. n ≤ m) ns × IsAscending ns

All-put_in_order :
    (k n : ℕ) (ns : List ℕ) → k ≤ n → All (λ m. k ≤ m) ns → All (λ m. k ≤ m) (put_in_order n ns)
unfolding put_in_order
All-put_in_order k n [] h hs = (h, tt)
All-put_in_order k n (m ∷ ms) h (hm, hs) = elim (Bool-cases (leb n m)) [
  | inl here ↦ rw (here, put_in_order) (h, (hm, hs))
  | inr later ↦ rw (later, put_in_order) (hm, All-put_in_order k n ms h hs)
]

All-le : (k n : ℕ) (ns : List ℕ) → k ≤ n → All (λ m. n ≤ m) ns → All (λ m. k ≤ m) ns
All-le k n [] h hs = tt
All-le k n (m ∷ ms) h (hm, hs) = (omega (arith, h, hm), All-le k n ms h hs)

put_in_order-IsAscending : (n : ℕ) (ns : List ℕ) → IsAscending ns → IsAscending (put_in_order n ns)
unfolding put_in_order IsAscending
put_in_order-IsAscending n [] a = (tt, tt)
put_in_order-IsAscending n (m ∷ ms) (low, a) = elim (Bool-cases (leb n m)) [
  | inl here ↦
      rw (here, put_in_order)
        ((ground (arith, here), All-le n m ms (ground (arith, here)) low), (low, a))
  | inr later ↦
      rw (later, put_in_order)
        (All-put_in_order m n ms (ground (arith, later)) low, put_in_order-IsAscending n ms a)
]

pub sort_ints-IsAscending : (ns : List ℕ) → IsAscending (sort_ints ns)
unfolding sort_ints IsAscending
sort_ints-IsAscending [] = tt
sort_ints-IsAscending (n ∷ ns) =
    put_in_order-IsAscending n (sort_ints ns) (sort_ints-IsAscending ns)

last_or-ge : (n : ℕ) (ns : List ℕ) → All (λ m. n ≤ m) ns → IsAscending ns → n ≤ last_or n ns
unfolding last_or IsAscending
last_or-ge n [] low a = omega arith
last_or-ge n (m ∷ ms) (h, hs) (low, a) = omega (arith, h, last_or-ge m ms low a)

pub count-last_or : (k n : ℕ) (ns : List ℕ) → IsAscending ns → 1 ≤ count k ns → k ≤ last_or n ns
unfolding last_or IsAscending count
count-last_or k n [] a h = absurd (omega (arith, h))
count-last_or k n (m ∷ ms) (low, a) h =
    ground (arith, h, last_or-ge m ms low a, count-last_or k m ms a)
