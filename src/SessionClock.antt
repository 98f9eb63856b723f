-- ===== src/SessionClock.antt =====
-- Class `SessionClock`, web/src/network/session_clock.ts: what each peer's clock is ahead of the own
-- one, from the answers to pings.
pub mod Accuracy
pub mod Estimates
use daw_project.Common.{
  ℕ, suc, ◌+◌, ◌-◌, ◌*◌, ◌/◌, ◌==◌, String, Bool, true, false, ◌&&◌, ◌||◌, not, Option, none, some,
  List, [], ◌∷◌, ◌++◌, map, ltb, length, get_elem?, drop, if◌then◌else◌, str_eq,
}
use daw_project.Common.Int.{pos, ◌+ℤ◌, ◌-ℤ◌, ltb_ℤ}
use daw_project.Common.Dict.{lookup, insert, remove}
use daw_project.Num.{Num, num, min_num}

-- An answered ping. The offset, t2 - (t1 + rtt / 2), counts half steps of `Num`, so that it is exact.
pub record Sample : Type 0 where
  pub offset : Num
  pub rtt : Num

-- What `peers` tells of a peer; the offset in half steps, `none` for an undefined.
pub record PeerClock : Type 0 where
  pub offset : Option Num
  pub rtt : Num
  pub samples : ℕ

-- A signal of the relay: the fields of the type that they must have.
pub record Message : Type 0 where
  pub clk : Option ℕ
  pub from : Option String
  pub to : Option String
  pub t1 : Option Num
  pub t2 : Option Num

pub record Clock : Type 0 where
  pub per_peer : List (String × List Sample)
  pub last_heard : List (String × Num)
  pub timer : Bool

pub data Effect : Type 0 where
  send : Message → Effect
  state_changed : Effect

abbrev pub window : ℕ
window = 16

abbrev pub stale_ms : Num
stale_ms = num 30000

abbrev pub max_rtt_ms : Num
max_rtt_ms = num 5000

-- The constructor starts the timer.
abbrev pub new_clock : Clock
new_clock = record { per_peer = []; last_heard = []; timer = true }

-- The entries not heard of for long.
unfoldable pub expire : Num → List (String × Num) → Clock → Clock × List Effect
expire now [] s = (s, [])
expire now ((id, heard) ∷ rest) s =
    let stale = ltb_ℤ stale_ms (now -ℤ heard) in
    let gone = record s { per_peer = remove id s.per_peer; last_heard = remove id s.last_heard } in
    let (next, effects) = expire now rest (if stale then gone else s) in
    (next, if stale then state_changed ∷ effects else effects)

unfoldable pub tick : String → Num → Clock → Clock × List Effect
unfolding expire
tick own now s =
    let (next, effects) = expire now s.last_heard s in
    (
      next,
      send (record { clk = some 1; from = some own; to = none; t1 = some now; t2 = none })
          ∷ effects,
    )

-- What a signal is to the clock: a ping, a pong for this tab, or nothing.
pub data Heard : Type 0 where
  ping : String → Num → Heard
  pong : String → Num → Num → Heard
  other : Heard

read_body : String → String → ℕ → Option String → Option Num → Option Num → Heard
read_body own from clk to none t2 = other
read_body own from clk to (some t1) t2 = if clk == 1 then ping from t1 else (elim to [
  | none ↦ other
  | some to ↦ elim t2 [
    | none ↦ other
    | some t2 ↦ if clk == 2 && str_eq to own then pong from t1 t2 else other
  ]
])

read_from : String → ℕ → Option String → Message → Heard
unfolding read_body
read_from own clk none m = other
read_from own clk (some from) m =
    if str_eq from "" || str_eq from own then other else read_body own from clk m.to m.t1 m.t2

unfoldable pub read : String → Message → Heard
unfolding read_from
read own m = elim m.clk [ none ↦ other | some clk ↦ read_from own clk m.from m ]

-- `win.push(…)`, and `win.shift()` past the length of the window.
unfoldable pub push_sample : Sample → List Sample → List Sample
push_sample x win =
    let longer = win ++ x ∷ [] in if ltb window (length longer) then drop 1 longer else longer

abbrev pub samples_of : Option (List Sample) → List Sample
samples_of none = []
samples_of (some win) = win

unfoldable pub handle_heard : String → Num → Heard → Clock → Clock × List Effect
unfolding push_sample
handle_heard own now other s = (s, [])
handle_heard own now (ping from t1) s = (
  s,
  send (record { clk = some 2; from = some own; to = some from; t1 = some t1; t2 = some now }) ∷ [],
)
handle_heard own now (pong from t1 t2) s =
    let rtt = now -ℤ t1 in
    let offset = t2 +ℤ t2 -ℤ (t1 +ℤ t1 +ℤ rtt) in
    if ltb_ℤ rtt (pos 0) || ltb_ℤ max_rtt_ms rtt then (s, []) else (
      record s {
        per_peer =
            insert from
              (push_sample (record { offset = offset; rtt = rtt })
                (samples_of (lookup from s.per_peer)))
              s.per_peer;
        last_heard = insert from now s.last_heard;
      },
      state_changed ∷ [],
    )

unfoldable pub handle_signal : String → Num → Message → Clock → Clock × List Effect
unfolding handle_heard read
handle_signal own now m s = handle_heard own now (read own m) s

-- Math.min(...win.map((s) => s.rtt)), of a sample and the ones behind it.
unfoldable pub min_rtt : Sample → List Sample → Num
min_rtt s [] = s.rtt
min_rtt s (t ∷ ts) = min_num s.rtt (min_rtt t ts)

-- s.rtt <= minRtt * 1.5 + 1, both sides doubled.
unfoldable pub is_low : Num → Sample → Bool
is_low best s = not (ltb_ℤ (best +ℤ best +ℤ best +ℤ num 2) (s.rtt +ℤ s.rtt))

-- win.filter((s) => …)
unfoldable pub low_ones : Num → List Sample → List Sample
unfolding is_low
low_ones best [] = []
low_ones best (s ∷ ss) = let rest = low_ones best ss in if is_low best s then s ∷ rest else rest

unfoldable pub insert_num : Num → List Num → List Num
insert_num x [] = x ∷ []
insert_num x (y ∷ ys) = if ltb_ℤ y x then y ∷ insert_num x ys else x ∷ y ∷ ys

-- `sort((a, b) => a - b)`
unfoldable pub sort_nums : List Num → List Num
unfolding insert_num
sort_nums [] = []
sort_nums (x ∷ xs) = insert_num x (sort_nums xs)

abbrev pub offset_of : Sample → Num
offset_of s = s.offset

unfoldable pub estimate : List Sample → Option PeerClock
unfolding min_rtt low_ones sort_nums
estimate [] = none
estimate (s ∷ ss) =
    let best = min_rtt s ss in
    let offs = sort_nums (map offset_of (low_ones best (s ∷ ss))) in
    some (record {
      offset = get_elem? offs ((length offs - 1) / 2);
      rtt = best;
      samples = length (s ∷ ss);
    })

-- An empty window is skipped; the keys are distinct.
unfoldable pub estimates : List (String × List Sample) → List (String × PeerClock)
estimates [] = []
estimates ((id, win) ∷ rest) = elim (estimate win) [
  | none ↦ estimates rest
  | some c ↦ (id, c) ∷ estimates rest
]

unfoldable pub peers : Clock → List (String × PeerClock)
unfolding estimates
peers s = estimates s.per_peer

unfoldable pub stop : Clock → Clock
stop s = record new_clock { timer = false }
