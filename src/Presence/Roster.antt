-- ===== src/Presence/Roster.antt =====
-- Who is in the roster.
use daw_project.Common.{
  ◌≡◌, refl, ◌∙◌, ap, String, Option, none, some, List, [], ◌∷◌, if◌then◌else◌, str_eq, str_eq_iff,
  ◌||◌, Bool-cases, Option-cases, inl, inr,
}
use daw_project.Common.Int.{◌≤ℤ◌}
use daw_project.Common.Dict.{
  lookup, Distinct, lookup-insert, lookup-keep, insert-Distinct, keep-Distinct,
}
use daw_project.Num.{Num}
use daw_project.Presence.{
  PeerPresence, PresenceMsg, Presence, new_presence, is_fresh, set_selection, tick, sender, heard,
  handle_signal, same_track,
}
use daw_project.Presence.Events.{Event, beat, signal, select, step, run, Ordered}
use daw_project.Presence.Said.{note, taken, latest, recent, kept, kept_later, kept_self, taken-said}

module _ (own id : String) where
  -- What is in the roster and what was said differ by what is stale.
  abbrev Agrees : Num → Presence → Option PeerPresence → Type 0
  Agrees t s said = Distinct s.peers × (kept t (lookup id s.peers) ≡ kept t said)

  beat-Agrees :
      (t u : Num) (s : Presence) (said : Option PeerPresence)
      → t ≤ℤ u
      → Agrees t s said
      → Agrees u (tick own u s).0 said
  unfolding tick
  beat-Agrees t u s said h a = (
    keep-Distinct (is_fresh u) s.peers a.0,
    ap (kept u) (lookup-keep (is_fresh u) id s.peers a.0)
        ∙ kept_self u (lookup id s.peers)
        ∙ kept_later t u (lookup id s.peers) said h a.1,
  )

  heard_or :
      (from : String) (u : Num) (m : PresenceMsg) (listed said : Option PeerPresence)
      → kept u listed ≡ kept u said
      → kept u (if str_eq from id then some (heard from u m) else listed)
        ≡ kept u (if str_eq from id then some (heard id u m) else said)
  heard_or from u m listed said h = elim (Bool-cases (str_eq from id)) [
    | inl e ↦ rw (e, (str_eq_iff from id).0 e) refl
    | inr e ↦ rw e h
  ]

  select-Agrees :
      (t : Num) (track_id : Option String) (s : Presence) (said : Option PeerPresence)
      → Agrees t s said
      → Agrees t (set_selection own track_id s).0 said
  unfolding set_selection
  select-Agrees t track_id s said a = elim (Bool-cases (same_track track_id s.my_selection)) [
    | inl e ↦ rw (e, set_selection) a
    | inr e ↦ rw (e, set_selection) a
  ]

  signal-Agrees :
      (t u : Num) (m : PresenceMsg) (s : Presence) (said : Option PeerPresence)
      → t ≤ℤ u
      → Agrees t s said
      → Agrees u (handle_signal own u m s).0 (note id (sender own m) (heard id u m) said)
  unfolding handle_signal
  signal-Agrees t u m s said h a =
      let later = kept_later t u (lookup id s.peers) said h a.1 in
      elim (Option-cases (sender own m)) [
        | inl e ↦ rw (e, handle_signal) (a.0, later)
        | inr (from, e) ↦
            rw (e, handle_signal)
              (
                insert-Distinct from (heard from u m) s.peers a.0,
                ap (kept u) (lookup-insert from id (heard from u m) s.peers)
                    ∙ heard_or from u m (lookup id s.peers) said later,
              )
      ]

  run-Agrees :
      (t now : Num) (es : List Event) (s : Presence) (said : Option PeerPresence)
      → Ordered t es now
      → Agrees t s said
      → Agrees now (run own es s) (taken own id es said)
  unfolding run step taken
  run-Agrees t now [] s said o a = (a.0, kept_later t now (lookup id s.peers) said o a.1)
  run-Agrees t now (beat u ∷ es) s said o a =
      run-Agrees u now es (tick own u s).0 said o.1 (beat-Agrees t u s said o.0 a)
  run-Agrees t now (signal u m ∷ es) s said o a =
      run-Agrees u now es (handle_signal own u m s).0 (note id (sender own m) (heard id u m) said)
        o.1 (signal-Agrees t u m s said o.0 a)
  run-Agrees t now (select track_id ∷ es) s said o a =
      run-Agrees t now es (set_selection own track_id s).0 said o
        (select-Agrees t track_id s said a)

-- After any signals, beats and selections from the start of a tab on, in the order of their times,
-- and one beat more, the roster has by each id the last that was said: by a signal that says it is of
-- the presence and is from that id, with its name and color, or else those made from the id, its
-- selection and the time. It has this where the time is at most six seconds ago, and nothing else; by
-- the empty id and by that of the tab it has nothing.
pub tick-latest :
    (own id : String) (start now : Num) (es : List Event)
    → Ordered start es now
    → lookup id (tick own now (run own es new_presence)).0.peers
      ≡ (if str_eq id "" || str_eq id own then none else recent now (latest id es none))
unfolding tick lookup
tick-latest own id start now es o =
    let a = run-Agrees own id start now es new_presence none o (tt, refl) in
    lookup-keep (is_fresh now) id (run own es new_presence).peers a.0
    ∙ a.1
    ∙ taken-said own id now es
