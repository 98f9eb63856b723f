-- ===== src/TrackReorder.antt =====
-- Dragging a track to another place of the arrangement, web/src/app/track_reorder.ts: the slot under
-- the pointer, and the drop, which writes fractional orders and never moves the list. What is drawn
-- meanwhile is left out.
pub mod Insertion
pub mod Fits
pub mod Shown
pub mod Order
pub mod Placed
pub mod Drop
use daw_project.Common.{
  ℕ, zero, suc, ◌-◌, ◌/◌, ◌==◌, String, Bool, ◌||◌, Option, none, some, List, [], ◌∷◌, ltb, map,
  length, get_elem?, if◌then◌else◌,
}
use daw_project.Common.Dict.{lookup, insert}
use daw_project.Common.Find.{locate, without, insert_at}
use daw_project.Common.Int.{pos, negsuc, ◌+ℤ◌, ◌-ℤ◌, ltb_ℤ}
use daw_project.Num.{Num, num}
use daw_project.Schema.{TrackDef, ProjectDef, or_else}
use daw_project.Schema.Order.{ordered_tracks}
use daw_project.Sanitize.{JsValue, finite, other}
use daw_project.Document.{track_is}
use daw_project.Mutators.Tracks.{set_track_order}
use daw_project.Project.{Automerge, Project, mutate, begin_undo_group, end_undo_group}
use daw_project.ServerClient.{Bytes, Browser, ServerClient}
use daw_project.Sending.{Sent, send_last_change}

-- The number of tracks whose middle is above the pointer; the middles are the browser's.
unfoldable pub slot_at : Num → List Num → ℕ
slot_at y [] = 0
slot_at y (middle ∷ middles) =
    let rest = slot_at y middles in if ltb_ℤ middle y then suc rest else rest

-- `keyOf`: the order of each track, or else its place in the list.
unfoldable pub key_of : ℕ → List TrackDef → List (String × Num) → List (String × Num)
key_of i [] keys = keys
key_of i (t ∷ ts) keys = key_of (suc i) ts (insert t.id (or_else t.order (num i)) keys)

-- (a + b) / 2, without the half step where the sum is odd.
unfoldable pub middle : Num → Num → Num
middle a b = elim (a +ℤ b) [ pos n ↦ pos (n / 2) | negsuc n ↦ negsuc (n / 2) ]

-- What is written: nothing, an order for the track that moves, or the orders 0, 1, 2, … for all.
pub data Writing : Type 0 where
  nothing : Writing
  order : JsValue → Writing
  renumber : List String → Writing

-- A key that is not there makes the result NaN.
unfoldable pub shifted : (Num → Num) → Option Num → JsValue
shifted f none = other
shifted f (some key) = finite (f key)

-- MIN_GAP is less than a step of `Num`.
unfoldable pub between : List String → Option Num → Option Num → Writing
between target (some a) (some b) =
    if ltb_ℤ a b then order (finite (middle a b)) else renumber target
between target _ _ = order other

unfoldable pub write_between :
    List (String × Num) → List String → Option TrackDef → Option TrackDef → Writing
unfolding shifted between
write_between keys target none none = nothing
write_between keys target none (some next) = order (shifted (λ k. k -ℤ num 1) (lookup next.id keys))
write_between keys target (some prev) none = order (shifted (λ k. k +ℤ num 1) (lookup prev.id keys))
write_between keys target (some prev) (some next) =
    between target (lookup prev.id keys) (lookup next.id keys)

-- others[i - 1]
unfoldable pub elem_before : List TrackDef → ℕ → Option TrackDef
elem_before others zero = none
elem_before others (suc i) = get_elem? others i

abbrev pub id_of : TrackDef → String
id_of t = t.id

-- `none` where the track is gone or would not move.
unfoldable pub writing_for : ProjectDef → String → ℕ → Option Writing
unfolding write_between elem_before
writing_for d track_id slot =
    let shown = ordered_tracks d in
    elim (locate (track_is track_id) shown) [
      | none ↦ none
      | some (src, t) ↦
          if slot == src || slot == suc src
          then none
          else (let others = without (track_is track_id) shown in
              let place = if ltb src slot then slot - 1 else slot in
              some (
                write_between (key_of 0 d.tracks []) (insert_at place track_id (map id_of others))
                  (elem_before others place) (get_elem? others place)))
    ]

module _ (A : Automerge) where
  open A use {content}

  -- target.forEach((id, i) => …)
  unfoldable pub renumber_all : ℕ → List String → Project A → Project A
  renumber_all i [] p = p
  renumber_all i (id ∷ ids) p =
      renumber_all (suc i) ids (mutate A (set_track_order id (finite (num i))) p).0

  unfoldable pub write : String → Writing → Project A → Project A
  write track_id nothing p = p
  write track_id (order v) p = (mutate A (set_track_order track_id v) p).0
  write track_id (renumber target) p = renumber_all 0 target p

  module _ {B : Browser} (wire : A.Change → Bytes) where
    unfoldable pub apply_drop : String → ℕ → Project A → Option (ServerClient B) → Option (Sent A B)
    apply_drop track_id slot p client = elim (writing_for (content p.doc) track_id slot) [
      | none ↦ some (p, (client, []))
      | some w ↦
          let q = end_undo_group A (write track_id w (begin_undo_group A p)) in
          send_last_change A wire (suc (length q.pending)) q client
    ]
