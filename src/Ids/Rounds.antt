-- ===== src/Ids/Rounds.antt =====
-- The loop of `clipStem`: a round takes an identifier off, and the rounds end.
use mathlib.Core.Path.{subst}
use mathlib.Core.Option.{some-injective, none-ne-some}
use daw_project.Common.{
  ℕ, zero, suc, ◌+◌, ◌-◌, ◌≡◌, ◌<◌, ◌≤◌, ◌⊎◌, Option-cases, length-take, refl, ◌∙◌, ap, Bool, true,
  false, Option, ◌&&◌, none, some, List, [], ◌∷◌, ◌++◌, leb, length, take, drop, arith,
  length-append, if◌then◌else◌, inl, inr,
}
use daw_project.Schema.{Name}
use daw_project.Ids.{split, join, is_uuid, next_parts, is_number, strip_tail}
use daw_project.Ids.Parts.{join-split, length-uuid, guard-some}

drop-length {ℓ} : {A : Type ℓ} (ps qs : List A) → drop (length ps) (ps ++ qs) ≡ qs
drop-length [] qs = refl
drop-length (p ∷ ps) qs = drop-length ps qs

take-length {ℓ} : {A : Type ℓ} (ps qs : List A) → take (length ps) (ps ++ qs) ≡ ps
take-length [] qs = refl
take-length (p ∷ ps) qs = ap (λ t. p ∷ t) (take-length ps qs)

-- A round takes the identifier off.
next_parts-uuid :
    (ps : List Name) (u : Name) → is_uuid u ≡ true → next_parts (ps ++ split u) ≡ some ps
unfolding next_parts
next_parts-uuid ps u h =
    let five = length-uuid u h in
    let both = length-append ps (split u) in
    let less : length (ps ++ split u) - 5 ≡ length ps = omega arith in
    let many : leb (length (ps ++ split u)) 1 ≡ false = ground arith in
    let enough : leb 5 (length (ps ++ split u)) ≡ true = ground arith in
    rw (many, enough, less, drop-length ps (split u), join-split u, h, take-length ps (split u))
      refl

strip_tail-end : (rounds : ℕ) (ps : List Name) → next_parts ps ≡ none → strip_tail rounds ps ≡ ps
unfolding strip_tail
strip_tail-end zero ps e = refl
strip_tail-end (suc rounds) ps e = rw (strip_tail, e) refl

pub strip_tail-uuid :
    (ps : List Name) (u : Name)
    → is_uuid u ≡ true
    → next_parts ps ≡ none
    → strip_tail (length (ps ++ split u)) (ps ++ split u) ≡ ps
unfolding strip_tail
strip_tail-uuid ps u h e =
    let some_rounds : length (ps ++ split u) ≡ suc (length ps + 4) =
      length-append ps (split u) ∙ rw (length-uuid u h) (omega arith) in
    rw (some_rounds, strip_tail, next_parts-uuid ps u h) (strip_tail-end (length ps + 4) ps e)

if-some {ℓ} :
    {A : Type ℓ} (t : Bool) (a b : A) (m : Option A)
    → (if t then some a else m) ≡ some b
    → ((t ≡ true) × (a ≡ b)) ⊎ (m ≡ some b)
if-some true a b m e = inl (refl, some-injective a b e)
if-some false a b m e = inr e

unless-some {ℓ} :
    {A : Type ℓ} (t : Bool) (m : Option A) (b : A)
    → (if t then none else m) ≡ some b
    → (t ≡ false) × (m ≡ some b)
unless-some true m b e = absurd (none-ne-some b e)
unless-some false m b e = (refl, e)

take-shorter :
    (k : ℕ) (ps : List Name) → 1 ≤ k → 1 < length ps → length (take (length ps - k) ps) < length ps
take-shorter k ps p h = let l = length-take (length ps - k) ps in omega arith

-- A round leaves fewer parts.
next_parts-shorter : (ps qs : List Name) → next_parts ps ≡ some qs → length qs < length ps
unfolding next_parts
next_parts-shorter ps qs e =
    let (t, e1) = unless-some (leb (length ps) 1) _ qs e in
    let more : 1 < length ps = ground arith in
    let number = is_number (join (drop (length ps - 1) ps)) in
    let without_number = take (length ps - 1) ps in
    elim (if-some (leb 5 (length ps) && is_uuid (join (drop (length ps - 5) ps)))
      (take (length ps - 5) ps) qs (if number then some without_number else none) e1) [
        | inl (u, q) ↦ subst (λ rs. length rs < length ps) q (take-shorter 5 ps (omega arith) more)
        | inr e2 ↦
            let (u, q) = guard-some number (some without_number) qs e2 in
            subst (λ rs. length rs < length ps) (some-injective without_number qs q)
              (take-shorter 1 ps (omega arith) more)
      ]

next_parts-one : (ps : List Name) → length ps ≤ 1 → next_parts ps ≡ none
unfolding next_parts
next_parts-one ps h = let t : leb (length ps) 1 ≡ true = ground arith in rw t refl

-- The rounds given are enough: the loop ends by its own test.
strip_tail-ends :
    (rounds : ℕ) (ps : List Name) → length ps ≤ rounds → next_parts (strip_tail rounds ps) ≡ none
unfolding strip_tail
strip_tail-ends zero ps h = next_parts-one ps (omega arith)
strip_tail-ends (suc rounds) ps h = elim (Option-cases (next_parts ps)) [
  | inl e ↦ rw (strip_tail, e, e) refl
  | inr (qs, e) ↦
      let less = next_parts-shorter ps qs e in
      rw (strip_tail, e) (strip_tail-ends rounds qs (omega arith))
]
