-- ===== src/TrackReorder/Insertion.antt =====
-- The order in which tracks are shown, with one of them inserted last: whatever its key, the others
-- stand as they do without it.
use daw_project.Common.{
  ℕ, suc, ◌≤◌, ◌≡◌, ◌≢◌, refl, ◌∙◌, ap, String, true, false, some, List, [], ◌∷◌, arith, All,
  str_eq_iff, Bool-cases, inl, inr,
}
use daw_project.Common.Find.{any, update_first}
use daw_project.Num.{Num, num, eqb_num}
use daw_project.Schema.{TrackDef, or_else}
use daw_project.Schema.Order.{Keyed, with_keys, comes_before, insert_keyed, sort_keyed}
use daw_project.Schema.Order.Sorted.{Ascending, insert_keyed-Ascending, sort_keyed-Ascending}
use daw_project.Document.{track_is}
use daw_project.Mutators.Tracks.{with_order}

comes_before_total :
    (a b : Keyed) → a.place ≢ b.place → comes_before a b ≡ false → comes_before b a ≡ true
unfolding comes_before eqb_num
comes_before_total a b h e = ground arith

comes_before_trans :
    (a b c : Keyed) → comes_before a b ≡ true → comes_before b c ≡ true → comes_before a c ≡ true
unfolding comes_before eqb_num
comes_before_trans a b c h k = ground arith

comes_before_asym : (a b : Keyed) → comes_before a b ≡ true → comes_before b a ≡ false
unfolding comes_before eqb_num
comes_before_asym a b h = ground arith

-- Two tracks are inserted in either order.
insert_keyed_comm :
    (a b : Keyed) (xs : List Keyed)
    → a.place ≢ b.place
    → insert_keyed a (insert_keyed b xs) ≡ insert_keyed b (insert_keyed a xs)
unfolding insert_keyed
insert_keyed_comm a b [] h = ground (arith, comes_before_total a b h, comes_before_asym a b)
insert_keyed_comm a b (x ∷ xs) h = ground (
  arith,
  comes_before_total a b h,
  comes_before_asym a b,
  comes_before_trans a b x,
  comes_before_trans b a x,
  insert_keyed_comm a b xs h,
)

All-insert_keyed {κ} :
    (P : Keyed → Type κ) (k : Keyed) (xs : List Keyed) → P k → All P xs → All P (insert_keyed k xs)
unfolding insert_keyed
All-insert_keyed P k [] p h = (p, tt)
All-insert_keyed P k (x ∷ xs) p h = elim (Bool-cases (comes_before k x)) [
  | inl e ↦ rw e (p, h)
  | inr e ↦ rw e (h.0, All-insert_keyed P k xs p h.1)
]

All-sort_keyed {κ} : (P : Keyed → Type κ) (xs : List Keyed) → All P xs → All P (sort_keyed xs)
unfolding sort_keyed
All-sort_keyed P [] h = tt
All-sort_keyed P (k ∷ ks) h = All-insert_keyed P k (sort_keyed ks) h.0 (All-sort_keyed P ks h.1)

abbrev pub Distinct : List TrackDef → Type 0
Distinct [] = Unit
Distinct (t ∷ ts) = (any (track_is t.id) ts ≡ false) × Distinct ts

-- The track of this id, with this key.
abbrev pub at_key : Num → Keyed → Keyed
at_key v k = record k { track = with_order (some v) k.track; key = v }

abbrev pub OthersOnly : String → Keyed → Type 0
OthersOnly id x = track_is id x.track ≡ false

-- The shown list is the moved track inserted among the others, before the new order and after.
abbrev pub Split {κ} : (Keyed → Type κ) → String → ℕ → List TrackDef → Type κ
Split P id i ts =
    (k : Keyed) × (rest : List Keyed) × (sort_keyed (with_keys i ts) ≡ insert_keyed k rest)
    × ((v : Num)
        → sort_keyed (with_keys i (update_first (track_is id) (with_order (some v)) ts))
          ≡ insert_keyed (at_key v k) rest)
    × (track_is id k.track ≡ true)
    × (i ≤ k.place)
    × All (OthersOnly id) rest
    × All P rest
    × Ascending rest

any-OthersOnly :
    (id : String) (i : ℕ) (ts : List TrackDef)
    → any (track_is id) ts ≡ false
    → All (OthersOnly id) (with_keys i ts)
unfolding any with_keys
any-OthersOnly id i [] h = tt
any-OthersOnly id i (t ∷ ts) h = (ground arith, any-OthersOnly id (suc i) ts (ground arith))

module _ {κ} (P : Keyed → Type κ) (id : String) where
  split_here :
      (i : ℕ) (t : TrackDef) (ts : List TrackDef)
      → track_is id t ≡ true
      → Distinct (t ∷ ts)
      → All P (with_keys i (t ∷ ts))
      → Split P id i (t ∷ ts)
  unfolding with_keys sort_keyed update_first
  split_here i t ts e d h =
      let alone : any (track_is id) ts ≡ false = rw (← (str_eq_iff t.id id).0 e) d.0 in
      (
        record { track = t; key = or_else t.order (num i); place = i },
        sort_keyed (with_keys (suc i) ts),
        refl,
        λ v. rw e refl,
        e,
        omega arith,
        All-sort_keyed (OthersOnly id) (with_keys (suc i) ts) (any-OthersOnly id (suc i) ts alone),
        All-sort_keyed P (with_keys (suc i) ts) h.1,
        sort_keyed-Ascending (with_keys (suc i) ts),
      )

  split_later :
      (i : ℕ) (t : TrackDef) (ts : List TrackDef)
      → track_is id t ≡ false
      → P (record { track = t; key = or_else t.order (num i); place = i })
      → Split P id (suc i) ts
      → Split P id i (t ∷ ts)
  unfolding with_keys sort_keyed update_first
  split_later i t ts e h (k, rest, was, becomes, is_it, far, others, all, asc) =
      let x : Keyed = record { track = t; key = or_else t.order (num i); place = i } in
      let apart : x.place ≢ k.place = λ q. omega (arith, q, far) in
      (
        k,
        insert_keyed x rest,
        ap (insert_keyed x) was ∙ insert_keyed_comm x k rest apart,
        λ v. rw e (ap (insert_keyed x) (becomes v) ∙ insert_keyed_comm x (at_key v k) rest apart),
        is_it,
        omega (arith, far),
        All-insert_keyed (OthersOnly id) x rest e others,
        All-insert_keyed P x rest h all,
        insert_keyed-Ascending x rest asc,
      )

  pub split :
      (i : ℕ) (ts : List TrackDef)
      → any (track_is id) ts ≡ true
      → Distinct ts
      → All P (with_keys i ts)
      → Split P id i ts
  unfolding any with_keys
  split i [] f d h = cc
  split i (t ∷ ts) f d h = elim (Bool-cases (track_is id t)) [
    | inl e ↦ split_here i t ts e d h
    | inr e ↦ split_later i t ts e h.0 (split (suc i) ts (rw e at f) d.1 h.1)
  ]
