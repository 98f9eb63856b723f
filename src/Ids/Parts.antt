-- ===== src/Ids/Parts.antt =====
-- The parts of a text between its dashes, and how many an identifier has.
use mathlib.Core.Bool.{false≢true}
use mathlib.Core.Option.{some-injective, none-ne-some}
use daw_project.Common.{
  ℕ, zero, suc, ◌==◌, ◌≡◌, refl, ◌∙◌, ap, sym, Bool, true, false, Option, none, some, List, [], ◌∷◌,
  ◌++◌, length, arith, if◌then◌else◌, Bool-cases, inl, inr, ◌>>=◌,
}
use daw_project.Schema.{Name}
use daw_project.Ids.{
  dash, cons_head, split, join, is_hex, hex_run, after_dash, is_end, uuid_run, is_uuid,
}

split-cons : (s : Name) → (w : Name) × (ws : List Name) × (split s ≡ w ∷ ws)
unfolding split
split-cons [] = ([], [], refl)
split-cons (c ∷ cs) =
    let (w, ws, e) = split-cons cs in
    elim (Bool-cases (c == dash)) [
      | inl q ↦ ([], split cs, rw q refl)
      | inr q ↦ (c ∷ w, ws, rw (q, e) refl)
    ]

join-cons_head :
    (c : ℕ) (w : Name) (ws : List Name) → join (cons_head c (w ∷ ws)) ≡ c ∷ join (w ∷ ws)
unfolding join
join-cons_head c w [] = refl
join-cons_head c w (v ∷ ws) = refl

join-empty : (w : Name) (ws : List Name) → join ([] ∷ w ∷ ws) ≡ dash ∷ join (w ∷ ws)
unfolding join
join-empty w ws = refl

eq-dash : (c : ℕ) → c == dash ≡ true → c ≡ dash
eq-dash c q = ground arith

pub join-split : (s : Name) → join (split s) ≡ s
unfolding split join
join-split [] = refl
join-split (c ∷ cs) =
    let (w, ws, e) = split-cons cs in
    elim (Bool-cases (c == dash)) [
      | inl q ↦ rw (q, e, join-empty w ws, sym e, join-split cs, eq-dash c q) refl
      | inr q ↦ rw (q, e, join-cons_head c w ws, sym e, join-split cs) refl
    ]

pub split-append : (s r : Name) → split (s ++ dash ∷ r) ≡ split s ++ split r
unfolding split
split-append [] r = refl
split-append (c ∷ cs) r =
    let (w, ws, e) = split-cons cs in
    elim (Bool-cases (c == dash)) [
      | inl q ↦ rw q (ap (λ x. [] ∷ x) (split-append cs r))
      | inr q ↦ rw (q, split-append cs r, e) refl
    ]

hex-not_dash : (c : ℕ) → is_hex c ≡ true → c == dash ≡ false
hex-not_dash c h = ground arith

split-plain : (c : ℕ) (cs : Name) → c == dash ≡ false → length (split (c ∷ cs)) ≡ length (split cs)
unfolding split
split-plain c cs q = let (w, ws, e) = split-cons cs in rw (q, e) refl

bind-some {ℓ κ} :
    {A : Type ℓ} {B : Type κ} (m : Option A) (f : A → Option B) (b : B)
    → (m >>= f) ≡ some b
    → (a : A) × (m ≡ some a) × (f a ≡ some b)
bind-some none f b e = absurd (none-ne-some b e)
bind-some (some a) f b e = (a, refl, e)

pub guard-some {ℓ} :
    {A : Type ℓ} (t : Bool) (m : Option A) (a : A)
    → (if t then m else none) ≡ some a
    → (t ≡ true) × (m ≡ some a)
guard-some true m a e = (refl, e)
guard-some false m a e = absurd (none-ne-some a e)

length-hex_run : (n : ℕ) (s r : Name) → hex_run n s ≡ some r → length (split s) ≡ length (split r)
unfolding hex_run
length-hex_run zero s r e = ap (λ t. length (split t)) (some-injective s r e)
length-hex_run (suc n) [] r e = absurd (none-ne-some r e)
length-hex_run (suc n) (c ∷ cs) r e =
    let (h, e') = guard-some (is_hex c) (hex_run n cs) r e in
    split-plain c cs (hex-not_dash c h) ∙ length-hex_run n cs r e'

length-after_dash : (s r : Name) → after_dash s ≡ some r → length (split s) ≡ suc (length (split r))
unfolding after_dash split
length-after_dash [] r e = absurd (none-ne-some r e)
length-after_dash (c ∷ cs) r e =
    let (q, e') = guard-some (c == dash) (some cs) r e in rw (q, some-injective cs r e') refl

length-hex_group :
    (n : ℕ) (m : Option Name) (r : Name)
    → (m >>= hex_run n >>= after_dash) ≡ some r
    → (s : Name) × (m ≡ some s) × (length (split s) ≡ suc (length (split r)))
length-hex_group n m r e =
    let (t, h, d) = bind-some (m >>= hex_run n) after_dash r e in
    let (s, i, g) = bind-some m (hex_run n) t h in
    (s, i, length-hex_run n s t g ∙ length-after_dash t r d)

length-is_end : (s r : Name) → is_end s ≡ some r → length (split s) ≡ 1
unfolding split
length-is_end [] r e = refl
length-is_end (c ∷ cs) r e = absurd (none-ne-some r e)

length-uuid_run : (u r : Name) → uuid_run u ≡ some r → length (split u) ≡ 5
unfolding uuid_run
length-uuid_run u r e =
    let m1 = hex_run 8 u >>= after_dash in
    let m2 = m1 >>= hex_run 4 >>= after_dash in
    let m3 = m2 >>= hex_run 4 >>= after_dash in
    let m4 = m3 >>= hex_run 4 >>= after_dash in
    let (t5, e5, l5) = bind-some (m4 >>= hex_run 12) is_end r e in
    let (t4, e4, l4) = bind-some m4 (hex_run 12) t5 e5 in
    let (t3, e3, l3) = length-hex_group 4 m3 t4 e4 in
    let (t2, e2, l2) = length-hex_group 4 m2 t3 e3 in
    let (t1, e1, l1) = length-hex_group 4 m1 t2 e2 in
    let (t0, e0, l0) = length-hex_group 8 (some u) t1 e1 in
    let end = length-is_end t5 r l5 in
    let last = length-hex_run 12 t4 t5 l4 in
    ap (λ t. length (split t)) (some-injective u t0 e0)
    ∙ l0
    ∙ ap suc (l1 ∙ ap suc (l2 ∙ ap suc (l3 ∙ ap suc (last ∙ end))))

some-is_uuid :
    (o : Option Name) → elim o [ none ↦ false | some _ ↦ true ] ≡ true → (r : Name) × (o ≡ some r)
some-is_uuid none h = absurd (false≢true h)
some-is_uuid (some r) h = (r, refl)

pub length-uuid : (u : Name) → is_uuid u ≡ true → length (split u) ≡ 5
length-uuid u h = let (r, e) = some-is_uuid (uuid_run u) h in length-uuid_run u r e
