-- ===== src/TransportSync/Newest.antt =====
-- The last anchor wins: what a received anchor may replace.
use daw_project.Common.{
  ◌≡◌, ◌<◌, ◌⊎◌, ltb, refl, arith, true, false, some, [], ◌∷◌, Bool-cases, Option-cases, inl, inr,
}
use daw_project.Common.Int.{◌-ℤ◌, ltb_ℤ, eq_of_parts}
use daw_project.Num.{Num, eqb_num}
use daw_project.Schema.{Name}
use daw_project.TransportSync.{
  Anchor, Pending, SyncState, Surroundings, ltb_name, is_older, follow, try_apply,
}

-- The order of texts by their units, a text before its continuations.
abbrev pub IsUpTo : Name → Name → Type 0
IsUpTo [] b = Unit
IsUpTo (a ∷ as') [] = ⊥
IsUpTo (a ∷ as') (b ∷ bs) = (a < b) ⊎ ((a ≡ b) × IsUpTo as' bs)

-- Later, or at one time with a peer whose id is not before.
abbrev pub IsAfter : Anchor → Anchor → Type 0
IsAfter l l' =
    (ltb_ℤ l.local_t l'.local_t ≡ true) ⊎ ((l.local_t ≡ l'.local_t) × IsUpTo l.peer l'.peer)

IsUpTo-self : (a : Name) → IsUpTo a a
IsUpTo-self [] = tt
IsUpTo-self (a ∷ as') = inr (refl, IsUpTo-self as')

IsUpTo-ltb_name : (a b : Name) → ltb_name b a ≡ false → IsUpTo a b
unfolding ltb_name
IsUpTo-ltb_name [] b h = tt
IsUpTo-ltb_name (a ∷ as') [] h = cc
IsUpTo-ltb_name (a ∷ as') (b ∷ bs) h = elim (Bool-cases (ltb a b)) [
  | inl e ↦ inl (ground arith)
  | inr e ↦ inr (ground arith, IsUpTo-ltb_name as' bs (ground arith))
]

IsAfter-is_older : (l l' : Anchor) → is_older l'.local_t l'.peer (some l) ≡ false → IsAfter l l'
unfolding is_older eqb_num
IsAfter-is_older l l' h = elim (Bool-cases (ltb_ℤ l.local_t l'.local_t)) [
  | inl e ↦ inl e
  | inr e ↦ inr (
    eq_of_parts l.local_t l'.local_t (ground arith),
    IsUpTo-ltb_name l.peer l'.peer (ground arith),
  )
]

-- The last anchor of the state is `l` or one that is after it.
abbrev pub IsNotBefore : Anchor → SyncState → Type 0
IsNotBefore l s = (l' : Anchor) × (s.last ≡ some l') × IsAfter l l'

stays : (l : Anchor) (s : SyncState) → s.last ≡ some l → IsNotBefore l s
stays l s e = (l, e, inr (refl, IsUpTo-self l.peer))

follow-IsNotBefore :
    (env : Surroundings) (p : Pending) (x : Num) (s : SyncState) (l : Anchor)
    → is_older x p.from (some l) ≡ false
    → IsNotBefore l (follow env p x s).0
follow-IsNotBefore env p x s l h =
    let l' : Anchor = record {
      playing = p.playing;
      pos_sec = p.pos_sec;
      local_t = x;
      peer = p.from;
    } in
    let after = IsAfter-is_older l l' h in
    elim (Bool-cases env.suspended) [
      | inl e ↦ rw e (l', refl, after)
      | inr e ↦ rw e (l', refl, after)
    ]

-- Where a last anchor is known, trying to apply what waits leaves a last anchor that is later, or has
-- the same local time and a peer whose id is not before in the order of texts, on every branch: nothing
-- waiting, no estimate of the sender's clock, an anchor that is too old, a transport suspended or
-- driven.
pub try_apply-IsNotBefore :
    (env : Surroundings) (s : SyncState) (l : Anchor)
    → s.last ≡ some l
    → IsNotBefore l (try_apply env s).0
unfolding try_apply
try_apply-IsNotBefore env s l e = elim (Option-cases s.pending) [
  | inl n ↦ rw (n, try_apply) (stays l s e)
  | inr (p, n) ↦ elim (Option-cases (env.offset_of p.from)) [
    | inl f ↦ rw (n, try_apply, f) (stays l s e)
    | inr (offset, f) ↦ elim (Bool-cases (is_older (p.t -ℤ offset) p.from s.last)) [
      | inl g ↦ rw (n, try_apply, f, g) (stays l s e)
      | inr g ↦ rw (n, try_apply, f, g) (follow-IsNotBefore env p (p.t -ℤ offset) s l (rw e at g))
    ]
  ]
]
