-- ===== src/Jam/Counts.antt =====
-- The connections of a tab: how many times each is kept and was closed.
use daw_project.Common.{
  ℕ, ◌+◌, ◌==◌, ◌≡◌, refl, ap, String, Bool, true, false, Option, none, some, List, [], ◌∷◌, ◌++◌,
  arith, str_eq, str_eq_iff, Bool-cases, inl, inr,
}
use daw_project.Common.Dict.{lookup, insert, remove, Distinct, remove-absent}
use daw_project.Jam.{Connection, Effect, close, close_all, close_old}

abbrev pub bit : Bool → ℕ
bit true = 1
bit false = 0

-- How many peers have the connection h.
unfoldable pub kept : ℕ → List (String × Connection) → ℕ
kept h [] = 0
kept h ((k, c) ∷ m) = bit (c.pc == h) + kept h m

abbrev pub kept_old : ℕ → Option Connection → ℕ
kept_old h none = 0
kept_old h (some c) = bit (c.pc == h)

-- How many times it is closed.
abbrev closing : ℕ → Effect → ℕ
closing h e = elim e [ close pc ↦ bit (pc == h) | _ ↦ 0 ]

unfoldable pub closings : ℕ → List Effect → ℕ
closings h [] = 0
closings h (e ∷ es) = closing h e + closings h es

pub closings-append :
    (h : ℕ) (a b : List Effect) → closings h (a ++ b) ≡ closings h a + closings h b
unfolding closings
closings-append h [] b = omega arith
closings-append h (e ∷ es) b = let r = closings-append h es b in omega arith

pub kept-insert :
    (h : ℕ) (k : String) (c : Connection) (m : List (String × Connection))
    → kept h (insert k c m) + kept_old h (lookup k m) ≡ kept h m + bit (c.pc == h)
unfolding kept insert lookup
kept-insert h k c [] = omega arith
kept-insert h k c ((j, d) ∷ m) = elim (Bool-cases (str_eq j k)) [
  | inl e ↦ rw e (omega arith)
  | inr e ↦ let r = kept-insert h k c m in rw e (omega arith)
]

pub kept-remove :
    (h : ℕ) (k : String) (m : List (String × Connection))
    → Distinct m
    → kept h (remove k m) + kept_old h (lookup k m) ≡ kept h m
unfolding kept remove lookup
kept-remove h k [] d = refl
kept-remove h k ((j, c) ∷ m) d = elim (Bool-cases (str_eq j k)) [
  | inl e ↦
      let key = (str_eq_iff j k).0 e in
      let absent : lookup k m ≡ none = rw (← key) d.0 in
      rw (e, remove-absent k m absent) (omega arith)
  | inr e ↦ let r = kept-remove h k m d.1 in rw e (omega arith)
]

pub closings-close_all :
    (h : ℕ) (m : List (String × Connection)) → closings h (close_all m) ≡ kept h m
unfolding closings close_all kept
closings-close_all h [] = refl
closings-close_all h ((k, c) ∷ m) = ap (λ n. bit (c.pc == h) + n) (closings-close_all h m)

pub closings-close_old : (h : ℕ) (o : Option Connection) → closings h (close_old o) ≡ kept_old h o
unfolding closings
closings-close_old h none = refl
closings-close_old h (some c) = omega arith
