-- ===== src/SessionClock/Accuracy.antt =====
-- How far the estimate of a peer's clock is from the truth.
use daw_project.Common.{
  ℕ, zero, suc, ◌-◌, ◌/◌, ◌≤◌, ◌<◌, ◌≡◌, refl, ap, String, true, false, ◌||◌, some, List, [], ◌∷◌,
  ◌++◌, map, ltb, length, get_elem?, drop, All, arith, length-append, length-drop, length-map,
  Bool-cases, inl, inr,
}
use daw_project.Common.Int.{pos, ◌+ℤ◌, ◌-ℤ◌, ◌≤ℤ◌, ltb_ℤ, +ℤ_parts, -ℤ_parts}
use daw_project.Num.{Num, num, min_num}
use daw_project.SessionClock.{
  Sample, Clock, window, max_rtt_ms, Heard, pong, push_sample, min_rtt, is_low, low_ones,
  insert_num, sort_nums, estimate, offset_of,
}

-- `lead`, in steps, is what the peer's clock is ahead: the offset is wrong by half the round trip at most.
abbrev pub IsNear : Num → Sample → Type 0
IsNear lead s =
    (pos 0 ≤ℤ s.rtt)
    × (s.rtt ≤ℤ max_rtt_ms)
    × (s.offset ≤ℤ lead +ℤ lead +ℤ s.rtt)
    × (lead +ℤ lead ≤ℤ s.offset +ℤ s.rtt)

abbrev pub Samples : (String → Num) → String × List Sample → Type 0
Samples lead (id, win) = (0 < length win) × (length win ≤ window) × All (IsNear (lead id)) win

abbrev pub Invariant : (String → Num) → Clock → Type 0
Invariant lead s = All (Samples lead) s.per_peer

-- The peer read its clock after the ping was sent and before the answer came.
abbrev pub Answered : (String → Num) → Num → Heard → Type 0
Answered lead now (pong from t1 t2) = (t1 +ℤ lead from ≤ℤ t2) × (t2 ≤ℤ now +ℤ lead from)
Answered lead now _ = Unit

module _ {ℓ κ} {A : Type ℓ} (P : A → Type κ) where
  All-append : (xs ys : List A) → All P xs → All P ys → All P (xs ++ ys)
  All-append [] ys h k = k
  All-append (x ∷ xs) ys h k = (h.0, All-append xs ys h.1 k)

  All-tail : (xs : List A) → All P xs → All P (drop 1 xs)
  All-tail [] h = tt
  All-tail (x ∷ xs) h = h.1

  All-get_elem? :
      (xs : List A) (i : ℕ) → All P xs → i < length xs → (x : A) × (get_elem? xs i ≡ some x) × P x
  All-get_elem? [] i h l = absurd (omega arith)
  All-get_elem? (x ∷ xs) zero h l = (x, refl, h.0)
  All-get_elem? (x ∷ xs) (suc i) h l = All-get_elem? xs i h.1 (omega arith)

pub sample-IsNear :
    (lead t1 t2 now : Num)
    → t1 +ℤ lead ≤ℤ t2
    → t2 ≤ℤ now +ℤ lead
    → ltb_ℤ (now -ℤ t1) (pos 0) || ltb_ℤ max_rtt_ms (now -ℤ t1) ≡ false
    → IsNear lead (record { offset = t2 +ℤ t2 -ℤ (t1 +ℤ t1 +ℤ (now -ℤ t1)); rtt = now -ℤ t1 })
sample-IsNear lead t1 t2 now a b h =
    let r : (ltb_ℤ (now -ℤ t1) (pos 0) ≡ false) × (ltb_ℤ max_rtt_ms (now -ℤ t1) ≡ false) =
      ground arith in
    (
      ground arith,
      ground arith,
      omega (arith, +ℤ_parts, -ℤ_parts),
      omega (arith, +ℤ_parts, -ℤ_parts),
    )

pub length-push_sample :
    (x : Sample) (win : List Sample)
    → length win ≤ window
    → (0 < length (push_sample x win)) × (length (push_sample x win) ≤ window)
unfolding push_sample
length-push_sample x win h =
    ground (arith, length-append win (x ∷ []), length-drop 1 (win ++ x ∷ []))

pub push_sample-Near :
    (lead : Num) (x : Sample) (win : List Sample)
    → IsNear lead x
    → All (IsNear lead) win
    → All (IsNear lead) (push_sample x win)
unfolding push_sample
push_sample-Near lead x win n h =
    let longer = All-append (IsNear lead) win (x ∷ []) h (n, tt) in
    elim (Bool-cases (ltb window (length (win ++ x ∷ [])))) [
      | inl e ↦ rw e (All-tail (IsNear lead) (win ++ x ∷ []) longer)
      | inr e ↦ rw e longer
    ]

length-insert_num : (x : Num) (ys : List Num) → length (insert_num x ys) ≡ suc (length ys)
unfolding insert_num
length-insert_num x [] = refl
length-insert_num x (y ∷ ys) = ground (arith, length-insert_num x ys)

length-sort_nums : (xs : List Num) → length (sort_nums xs) ≡ length xs
unfolding sort_nums
length-sort_nums [] = refl
length-sort_nums (x ∷ xs) = omega (arith, length-insert_num x (sort_nums xs), length-sort_nums xs)

module _ {κ} (P : Num → Type κ) where
  All-insert_num : (x : Num) (ys : List Num) → P x → All P ys → All P (insert_num x ys)
  unfolding insert_num
  All-insert_num x [] p h = (p, tt)
  All-insert_num x (y ∷ ys) p h = elim (Bool-cases (ltb_ℤ y x)) [
    | inl e ↦ rw e (h.0, All-insert_num x ys p h.1)
    | inr e ↦ rw e (p, h)
  ]

  All-sort_nums : (xs : List Num) → All P xs → All P (sort_nums xs)
  unfolding sort_nums
  All-sort_nums [] h = tt
  All-sort_nums (x ∷ xs) h = All-insert_num x (sort_nums xs) h.0 (All-sort_nums xs h.1)

-- An offset, in half steps, is off by three quarters of the best round trip and half a millisecond at
-- most; both sides count quarter steps.
abbrev pub IsClose : Num → Num → Num → Type 0
IsClose lead best off =
    (off +ℤ off ≤ℤ lead +ℤ lead +ℤ lead +ℤ lead +ℤ best +ℤ best +ℤ best +ℤ num 2)
    × (lead +ℤ lead +ℤ lead +ℤ lead ≤ℤ off +ℤ off +ℤ best +ℤ best +ℤ best +ℤ num 2)

near-IsClose :
    (lead best : Num) (s : Sample)
    → IsNear lead s
    → is_low best s ≡ true
    → IsClose lead best s.offset
unfolding is_low
near-IsClose lead best s n e =
    let low : s.rtt +ℤ s.rtt ≤ℤ best +ℤ best +ℤ best +ℤ num 2 = ground arith in
    (omega (arith, +ℤ_parts, low), omega (arith, +ℤ_parts, low))

All-low_ones :
    (lead best : Num) (win : List Sample)
    → All (IsNear lead) win
    → All (IsClose lead best) (map offset_of (low_ones best win))
unfolding low_ones
All-low_ones lead best [] h = tt
All-low_ones lead best (s ∷ ss) h = elim (Bool-cases (is_low best s)) [
  | inl e ↦ rw e (near-IsClose lead best s h.0 e, All-low_ones lead best ss h.1)
  | inr e ↦ rw e (All-low_ones lead best ss h.1)
]

min_rtt-bounds :
    (lead : Num) (s : Sample) (ss : List Sample)
    → All (IsNear lead) (s ∷ ss)
    → (pos 0 ≤ℤ min_rtt s ss) × (min_rtt s ss ≤ℤ max_rtt_ms)
unfolding min_rtt min_num
min_rtt-bounds lead s [] h = (h.0.0, h.0.1)
min_rtt-bounds lead s (t ∷ ts) h = ground (arith, min_rtt-bounds lead t ts h.1)

is_low_self : (best : Num) (s : Sample) → best ≡ s.rtt → pos 0 ≤ℤ best → is_low best s ≡ true
unfolding is_low
is_low_self best s e h =
    let twice = best +ℤ best in
    ground (
      arith,
      ap (λ r. r +ℤ r) e,
      +ℤ_parts best best,
      +ℤ_parts twice best,
      +ℤ_parts (twice +ℤ best) (num 2),
    )

-- The best sample is among the low ones.
length-low_ones :
    (best : Num) (s : Sample) (ss : List Sample)
    → best ≡ min_rtt s ss
    → pos 0 ≤ℤ best
    → 0 < length (low_ones best (s ∷ ss))
unfolding min_rtt low_ones min_num
length-low_ones best s [] e h = ground (arith, is_low_self best s e h)
length-low_ones best s (t ∷ ts) e h = ground (arith, is_low_self best s, length-low_ones best t ts)

pub estimate-Close :
    (lead : Num) (win : List Sample)
    → 0 < length win
    → All (IsNear lead) win
    → (best off : Num) × (estimate win
        ≡ some (record { offset = some off; rtt = best; samples = length win }))
      × (best ≤ℤ max_rtt_ms)
      × IsClose lead best off
unfolding estimate
estimate-Close lead [] l h = absurd (omega arith)
estimate-Close lead (s ∷ ss) l h =
    let best = min_rtt s ss in
    let offs = map offset_of (low_ones best (s ∷ ss)) in
    let bounds = min_rtt-bounds lead s ss h in
    let (off, at, close) =
      All-get_elem? (IsClose lead best) (sort_nums offs) ((length (sort_nums offs) - 1) / 2)
        (All-sort_nums (IsClose lead best) offs (All-low_ones lead best (s ∷ ss) h))
        (omega (
          arith,
          length-sort_nums offs,
          length-map (low_ones best (s ∷ ss)) offset_of,
          length-low_ones best s ss refl bounds.0,
        )) in
    (best, off, rw at refl, bounds.1, close)
