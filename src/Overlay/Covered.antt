-- ===== src/Overlay/Covered.antt =====
-- go-agent/overlay/volume.go: a CopyCheckpoint that reports no error has left no frozen layer behind.
use mycedrive_k8s.Base.{
  ℕ, ◌≤◌, ◌<◌, Bool, true, false, if◌then◌else◌, Option, none, some, List, [], ◌∷◌, ◌≡◌, refl,
  String, eqb, leb, ◌==◌, arith, Bool-cases, inl, inr, subst,
}
use mycedrive_k8s.Overlay.State.{
  Prefix, upper, Entry, dir, marker, other, Call, list_dir, send, mark, Manager, Answer, works,
  fails, breaks, Environment, ◌>>=◌, pure, raise, gets, perform, go_on, answered, effect, has_dir,
}
use mycedrive_k8s.Overlay.{
  is_sent, numbered_dirs, numbers_of, sort_ints, put_in_order, send_layer, copy_layers,
  copy_checkpoint,
}
use mycedrive_k8s.Overlay.Marker.{Says, after_or_sent}
use mycedrive_k8s.Overlay.Steady.{IsBacked, count}
use mycedrive_k8s.Overlay.Sending.{copy_layers-Keeps}
use mycedrive_k8s.Overlay.Sent.{copy_checkpoint-Keeps}

-- If it worked, the level is as it was, and the layer is marked.
abbrev IsMarked : ℕ → Manager → Option (Unit {0}) → Manager → Type 0
IsMarked n m none m' = Unit
IsMarked n m (some _) m' = (is_sent n m'.entries ≡ true) × (m'.level ≡ m.level)

abbrev Marks : ℕ → Manager → Option (Unit {0}) × Manager → Type 0
Marks n m result = IsMarked n m result.0 result.1

marked_end :
    (b : Answer) (n : ℕ) (d : List Call) (m : Manager)
    → Marks n m (answered b (mark n) (record m { delivered = n ∷ m.delivered; calls = d }))
unfolding effect is_sent
marked_end works n d m = (ground arith, refl)
marked_end fails n d m = tt
marked_end breaks n d m = tt

sent_end :
    (a : Answer) (env : Environment) (n : ℕ) (c : List Call) (m : Manager)
    → Marks n m (
        go_on
          (answered a (send n) (record m { calls = c })).0
          (λ _. perform env (mark n))
          (answered a (send n) (record m { calls = c })).1)
unfolding effect perform
sent_end works env n c m = marked_end (env c (mark n)) n (mark n ∷ c) m
sent_end fails env n c m = tt
sent_end breaks env n c m = tt

send_layer-Marks : (env : Environment) (n : ℕ) (m : Manager) → Marks n m (send_layer env n m)
unfolding send_layer perform ◌>>=◌
send_layer-Marks env n m = sent_end (env m.calls (send n)) env n (send n ∷ m.calls) m

-- If it worked, each layer of the list that is not the writable one is marked.
abbrev IsCovered : List ℕ → Manager → Option (Unit {0}) → Manager → Type 0
IsCovered ns m none m' = Unit
IsCovered ns m (some _) m' = (n : ℕ) → 1 ≤ count n ns → n < m.level → is_sent n m'.entries ≡ true

abbrev Covers : List ℕ → Manager → Option (Unit {0}) × Manager → Type 0
Covers ns m result = IsCovered ns m result.0 result.1

eqb→eq : (a b : ℕ) → eqb a b ≡ true → a ≡ b
eqb→eq a b e = ground (arith, e)

-- One more layer, which is marked at the end or is the writable one.
widen :
    (n : ℕ) (ns : List ℕ) (m m₁ m' : Manager) (o : Option (Unit {0}))
    → m₁.level ≡ m.level
    → (n < m.level → is_sent n m'.entries ≡ true)
    → IsCovered ns m₁ o m'
    → IsCovered (n ∷ ns) m o m'
unfolding count
widen n ns m m₁ m' none same own h = tt
widen n ns m m₁ m' (some _) same own h = λ k e below. elim (Bool-cases (eqb n k)) [
  | inl is_n ↦
      subst (λ i. is_sent i m'.entries ≡ true) (eqb→eq n k is_n) (own (ground (arith, is_n, below)))
  | inr another ↦ h k (ground (arith, e, another)) (ground (arith, same, below))
]

copy_rest :
    (env : Environment) (n : ℕ) (ns : List ℕ) (m m₁ : Manager) (o : Option (Unit {0}))
    → ((m₂ : Manager) → Covers ns m₂ (copy_layers env ns m₂))
    → IsMarked n m o m₁
    → Covers (n ∷ ns) m (go_on o (λ _. copy_layers env ns) m₁)
copy_rest env n ns m m₁ none ih h = tt
copy_rest env n ns m m₁ (some _) ih (sent, same) =
    widen n ns m m₁ (copy_layers env ns m₁).1 (copy_layers env ns m₁).0 same
      (λ below. (copy_layers-Keeps env ns m₁).stays n sent) (ih m₁)

-- A layer is sent or passed over, as the test before says, and then come the others.
sent_or_not-Covers :
    (env : Environment) (answer : Bool) (n : ℕ) (ns : List ℕ) (m : Manager)
    → Says env (leb m.level n) (is_sent n m.entries) answer
    → ((m₁ : Manager) → Covers ns m₁ (copy_layers env ns m₁))
    → Covers
        (n ∷ ns)
        m
        ((if answer then copy_layers env ns else (send_layer env n >>= λ _. copy_layers env ns)) m)
unfolding ◌>>=◌
sent_or_not-Covers env true n ns m says ih =
    widen n ns m m (copy_layers env ns m).1 (copy_layers env ns m).0 refl
      (λ below. (copy_layers-Keeps env ns m).stays n (elim (says.skips refl) [
        | inl above ↦ absurd (ground (arith, above, below))
        | inr marked ↦ marked
      ]))
      (ih m)
sent_or_not-Covers env false n ns m says ih =
    copy_rest env n ns m (send_layer env n m).1 (send_layer env n m).0 ih (send_layer-Marks env n m)

-- The calls that a manager has made do not matter here.
Covers-of_called :
    (ns : List ℕ) (m : Manager) (calls : List Call) (o : Option (Unit {0})) (m' : Manager)
    → IsCovered ns (record m { calls = calls }) o m'
    → IsCovered ns m o m'
Covers-of_called ns m calls none m' h = tt
Covers-of_called ns m calls (some _) m' h = h

copy_layers-Covers :
    (env : Environment) (ns : List ℕ) (m : Manager) → Covers ns m (copy_layers env ns m)
unfolding copy_layers gets ◌>>=◌ pure count
copy_layers-Covers env [] m = λ n e below. ground (arith, e)
copy_layers-Covers env (n ∷ ns) m =
    after_or_sent env (leb m.level n) n
      (λ skipped.
        if skipped then copy_layers env ns else (send_layer env n >>= λ _. copy_layers env ns))
      (Covers (n ∷ ns) m) m
      (λ answer calls says. Covers-of_called (n ∷ ns) m calls _ _ (
        sent_or_not-Covers env answer n ns (record m { calls = calls }) says
          (copy_layers-Covers env ns)))

count-put_in_order : (k n : ℕ) (ns : List ℕ) → count k (put_in_order n ns) ≡ count k (n ∷ ns)
unfolding count put_in_order
count-put_in_order k n [] = refl
count-put_in_order k n (m ∷ ms) = ground (arith, count-put_in_order k n ms)

pub count-sort_ints : (k : ℕ) (ns : List ℕ) → count k (sort_ints ns) ≡ count k ns
unfolding count sort_ints
count-sort_ints k [] = refl
count-sort_ints k (n ∷ ns) =
    ground (arith, count-put_in_order k n (sort_ints ns), count-sort_ints k ns)

pub has_dir-count :
    (n : ℕ) (entries : List Entry)
    → has_dir upper n entries ≡ true
    → 1 ≤ n
    → 1 ≤ count n (numbers_of upper entries)
unfolding has_dir count numbers_of
has_dir-count n [] e h = ground (arith, e)
has_dir-count n (dir upper k ∷ rest) e h = ground (arith, e, h, has_dir-count n rest)
has_dir-count n (dir Prefix.work k ∷ rest) e h = has_dir-count n rest e h
has_dir-count n (dir Prefix.merged k ∷ rest) e h = has_dir-count n rest e h
has_dir-count n (dir Prefix.lower k ∷ rest) e h = has_dir-count n rest e h
has_dir-count n (marker k ∷ rest) e h = has_dir-count n rest e h
has_dir-count n (other name ∷ rest) e h = has_dir-count n rest e h

-- If it worked, each upper directory below the level is marked.
abbrev pub IsComplete : Manager → Option (Unit {0}) → Manager → Type 0
IsComplete m none m' = Unit
IsComplete m (some _) m' =
    (n : ℕ) → has_dir upper n m.entries ≡ true → 1 ≤ n → n < m.level → is_sent n m'.entries ≡ true

IsComplete-of_sorted :
    (m m' : Manager) (o : Option (Unit {0}))
    → IsCovered (sort_ints (numbers_of upper m.entries)) m o m'
    → IsComplete m o m'
IsComplete-of_sorted m m' none h = tt
IsComplete-of_sorted m m' (some _) h = λ n e positive below.
    h n
      (ground (
        arith,
        count-sort_ints n (numbers_of upper m.entries),
        has_dir-count n m.entries e positive,
      ))
      below

listed_end :
    (a : Answer) (env : Environment) (c : List Call) (m : Manager)
    → (let listed : Option (List ℕ) × Manager =
          go_on
            (answered a list_dir (record m { calls = c })).0
            (λ _. gets (λ m₁. sort_ints (numbers_of upper m₁.entries)))
            (answered a list_dir (record m { calls = c })).1 in
        let result : Option (Unit {0}) × Manager = go_on listed.0 (copy_layers env) listed.1 in
        IsComplete m result.0 result.1)
unfolding effect gets
listed_end works env c m =
    let m₁ : Manager = record m { calls = c } in
    let result : Option (Unit {0}) × Manager =
      copy_layers env (sort_ints (numbers_of upper m.entries)) m₁ in
    IsComplete-of_sorted m₁ result.1 result.0 (copy_layers-Covers env _ m₁)
listed_end fails env c m = tt
listed_end breaks env c m = tt

pub copy_checkpoint-IsComplete :
    (env : Environment) (dest : String) (m : Manager)
    → IsComplete m (copy_checkpoint env dest m).0 (copy_checkpoint env dest m).1
unfolding copy_checkpoint numbered_dirs perform ◌>>=◌ raise
copy_checkpoint-IsComplete env dest m = elim (Bool-cases (dest == "")) [
  | inl empty ↦ rw (empty, copy_checkpoint) tt
  | inr given ↦
      rw (given, copy_checkpoint) (listed_end (env m.calls list_dir) env (list_dir ∷ m.calls) m)
]

-- If CopyCheckpoint reports no error, every frozen layer, that is each upper directory numbered from 1
-- and below the level, is marked as sent and was taken by the destination, provided that the layers
-- that were marked before were taken by it.
pub copied_is_delivered :
    (env : Environment) (dest : String) (m : Manager) (n : ℕ)
    → IsBacked m
    → (copy_checkpoint env dest m).0 ≡ some tt
    → has_dir upper n m.entries ≡ true
    → 1 ≤ n
    → n < m.level
    → (is_sent n (copy_checkpoint env dest m).1.entries ≡ true)
      × (1 ≤ count n (copy_checkpoint env dest m).1.delivered)
copied_is_delivered env dest m n backed worked present positive frozen =
    let sent =
      subst (λ o. IsComplete m o (copy_checkpoint env dest m).1) worked
        (copy_checkpoint-IsComplete env dest m) n present positive frozen in
    (sent, (copy_checkpoint-Keeps env dest m).backed backed n sent)
