-- ===== src/Automation/Bounds.antt =====
-- An envelope stays within the values of its points.
use native.Mathlib.Nat.{mul-le-mul_right}
use daw_project.Common.{
  ℕ, ◌+◌, ◌-◌, ◌*◌, ◌≤◌, ◌<◌, ◌≡◌, refl, ap, true, false, Option, none, some, List, [], ◌∷◌,
  if_elim, length, ◌∙◌, arith, All,
}
use daw_project.Common.Int.{
  ℤ, pos, pos_part, neg_part, ◌+ℤ◌, ◌-ℤ◌, ◌*ℤ◌, ◌≤ℤ◌, ltb_ℤ, +ℤ_parts, -ℤ_parts,
}
use daw_project.Num.{Num}
use daw_project.Schema.{is_some, AutomationPoint, AutomationLaneDef}
use daw_project.Automation.{
  Fraction, exact, interpolate, last_point, scan, value_among, automation_value_at,
}

*ℤ_parts :
    (a b : ℤ)
    → pos_part (a *ℤ b) + (pos_part a * neg_part b + neg_part a * pos_part b)
      ≡ neg_part (a *ℤ b) + (pos_part a * pos_part b + neg_part a * neg_part b)
unfolding ◌*ℤ◌
*ℤ_parts a b = ground arith

-- A fraction between two bounds.
abbrev pub Within : Num → Num → Fraction → Type 0
Within lo hi q = (0 < q.den) × (lo *ℤ pos q.den ≤ℤ q.num) × (q.num ≤ℤ hi *ℤ pos q.den)

-- The sum with weights r and s of two numbers, each given by two parts, against a bound.
weighted :
    (pl nl pa na pb nb pc nc s r : ℕ)
    → pl + na ≤ pa + nl
    → pl + nb ≤ pb + nl
    → pc + nb + pa ≡ nc + pb + na
    → pl * (s + r) + (na * (s + r) + nc * s) ≤ nl * (s + r) + (pa * (s + r) + pc * s)
weighted pl nl pa na pb nb pc nc s r h k e =
    let f : (pl + na) * r ≤ (pa + nl) * r = mul-le-mul_right r h in
    let g : (pl + nb) * s ≤ (pb + nl) * s = mul-le-mul_right s k in
    let c : (pc + nb + pa) * s ≡ (nc + pb + na) * s = ap (λ n. n * s) e in grind (arith, f, g, c)

lower :
    (lo a b : ℤ) (s r : ℕ)
    → lo ≤ℤ a
    → lo ≤ℤ b
    → lo *ℤ pos (s + r) ≤ℤ a *ℤ pos (s + r) +ℤ (b -ℤ a) *ℤ pos s
lower lo a b s r h k = omega (
  arith,
  *ℤ_parts lo (pos (s + r)),
  *ℤ_parts a (pos (s + r)),
  *ℤ_parts (b -ℤ a) (pos s),
  +ℤ_parts (a *ℤ pos (s + r)) ((b -ℤ a) *ℤ pos s),
  weighted (pos_part lo) (neg_part lo) (pos_part a) (neg_part a) (pos_part b) (neg_part b)
      (pos_part (b -ℤ a)) (neg_part (b -ℤ a)) s r (omega arith) (omega arith)
      (omega (arith, -ℤ_parts b a)),
)

upper :
    (hi a b : ℤ) (s r : ℕ)
    → a ≤ℤ hi
    → b ≤ℤ hi
    → a *ℤ pos (s + r) +ℤ (b -ℤ a) *ℤ pos s ≤ℤ hi *ℤ pos (s + r)
upper hi a b s r h k = omega (
  arith,
  *ℤ_parts hi (pos (s + r)),
  *ℤ_parts a (pos (s + r)),
  *ℤ_parts (b -ℤ a) (pos s),
  +ℤ_parts (a *ℤ pos (s + r)) ((b -ℤ a) *ℤ pos s),
  weighted (neg_part hi) (pos_part hi) (neg_part a) (pos_part a) (neg_part b) (pos_part b)
      (neg_part (b -ℤ a)) (pos_part (b -ℤ a)) s r (omega arith) (omega arith)
      (omega (arith, -ℤ_parts b a)),
)

as_pos : (z : ℤ) → pos 0 ≤ℤ z → z ≡ pos (pos_part z)
as_pos z h = ground arith

-- The two distances of a time between two points.
steps :
    (x t y : ℤ)
    → ltb_ℤ t x ≡ false
    → ltb_ℤ t y ≡ true
    → (pos 0 ≤ℤ t -ℤ x) × (pos 0 ≤ℤ y -ℤ x) × (pos_part (t -ℤ x) < pos_part (y -ℤ x))
unfolding ◌-ℤ◌
steps x t y h k = (ground arith, ground arith, ground arith)

module _ (lo hi : Num) where
  exact-Within : (v : Num) → lo ≤ℤ v → v ≤ℤ hi → Within lo hi (exact v)
  unfolding ◌*ℤ◌
  exact-Within v h k = (omega arith, ground arith, ground arith)

  between :
      (a b : AutomationPoint) (s r : ℕ)
      → 0 < s + r
      → (lo ≤ℤ a.v) × (a.v ≤ℤ hi)
      → (lo ≤ℤ b.v) × (b.v ≤ℤ hi)
      → Within lo hi (record { num = a.v *ℤ pos (s + r) +ℤ (b.v -ℤ a.v) *ℤ pos s; den = s + r })
  between a b s r l x y = (l, lower lo a.v b.v s r x.0 y.0, upper hi a.v b.v s r x.1 y.1)

  interpolate-Within :
      (a b : AutomationPoint) (t : Num)
      → ltb_ℤ t a.t ≡ false
      → (lo ≤ℤ a.v) × (a.v ≤ℤ hi)
      → (lo ≤ℤ b.v) × (b.v ≤ℤ hi)
      → ltb_ℤ t b.t ≡ true
      → Within lo hi (interpolate a b t)
  unfolding interpolate
  interpolate-Within a b t h x y k =
      let s = pos_part (t -ℤ a.t) in
      let r = pos_part (b.t -ℤ a.t) - pos_part (t -ℤ a.t) in
      let d = steps a.t t b.t h k in
      let e : t -ℤ a.t ≡ pos s = as_pos (t -ℤ a.t) d.0 in
      let f : b.t -ℤ a.t ≡ pos (s + r) = as_pos (b.t -ℤ a.t) d.1 ∙ ap pos (omega (arith, d.2)) in
      let g : ltb_ℤ (pos 0) (pos (s + r)) ≡ true = ground (arith, d.2) in
      rw (e, f, g) (between a b s r (omega (arith, d.2)) x y)

  abbrev InBounds : AutomationPoint → Type 0
  InBounds p = (lo ≤ℤ p.v) × (p.v ≤ℤ hi)

  last_point-InBounds :
      (p : AutomationPoint) (ps : List AutomationPoint)
      → InBounds p
      → All InBounds ps
      → InBounds (last_point p ps)
  unfolding last_point
  last_point-InBounds p [] h k = h
  last_point-InBounds p (q ∷ qs) h k = last_point-InBounds q qs k.0 k.1

  scan-Within :
      (a : AutomationPoint) (ps : List AutomationPoint) (t : Num) (behind : Fraction)
      → ltb_ℤ t a.t ≡ false
      → InBounds a
      → All InBounds ps
      → Within lo hi behind
      → Within lo hi (scan a ps t behind)
  unfolding scan
  scan-Within a [] t behind h x y w = w
  scan-Within a (b ∷ rest) t behind h x y w =
      if_elim (Within lo hi) (ltb_ℤ t b.t) (interpolate-Within a b t h x y.0)
        (λ e. scan-Within b rest t behind e y.0 y.1 w)

  value_among-some :
      (ps : List AutomationPoint) (t : Num) → 0 < length ps → is_some (value_among ps t) ≡ true
  unfolding value_among
  value_among-some [] t l = absurd (omega arith)
  value_among-some (p ∷ ps) t l = ground arith

  abbrev WithinIfAny : Option Fraction → Type 0
  WithinIfAny none = Unit
  WithinIfAny (some q) = Within lo hi q

  some-Within :
      (o : Option Fraction)
      → is_some o ≡ true
      → WithinIfAny o
      → (q : Fraction) × (o ≡ some q) × Within lo hi q
  some-Within none h w = cc
  some-Within (some q) h w = (q, refl, w)

  value_among-Within :
      (ps : List AutomationPoint) (t : Num) → All InBounds ps → WithinIfAny (value_among ps t)
  unfolding value_among
  value_among-Within [] t h = tt
  value_among-Within (p ∷ ps) t h =
      let last = last_point p ps in
      let end' = last_point-InBounds p ps h.0 h.1 in
      let held = exact-Within last.v end'.0 end'.1 in
      if_elim WithinIfAny (ltb_ℤ p.t t)
        (λ e.
          if_elim (Within lo hi) (ltb_ℤ t last.t)
            (λ _. scan-Within p ps t (exact last.v) (ground arith) h.0 h.1 held) (λ _. held))
        (λ _. exact-Within p.v h.0.0 h.0.1)

  -- An envelope that is enabled and has a point has a value at every time, whatever the order of its
  -- points, also with several at one time: a fraction, never one by zero, that lies between any bounds
  -- of the values of its points.
  pub automation_value_at-Within :
      (lane : AutomationLaneDef) (t : Num)
      → lane.enabled ≡ true
      → 0 < length lane.points
      → All (λ (p : AutomationPoint). (lo ≤ℤ p.v) × (p.v ≤ℤ hi)) lane.points
      → (q : Fraction) × (automation_value_at lane t ≡ some q) × Within lo hi q
  unfolding automation_value_at
  automation_value_at-Within lane t on l h = rw on (
      some-Within (value_among lane.points t) (value_among-some lane.points t l)
        (value_among-Within lane.points t h))
