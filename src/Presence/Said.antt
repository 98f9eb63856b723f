-- ===== src/Presence/Said.antt =====
-- What a peer said last, and what of it is still counted, web/src/network/presence.ts.
use daw_project.Common.{
  ℕ, Bool, true, ◌≡◌, refl, ◌∙◌, ap, sym, String, false, Option, none, some, List, [], ◌∷◌, arith,
  if◌then◌else◌, str_eq, str_eq_iff, ◌==◌, ◌&&◌, ◌||◌, not, Bool-cases, Option-cases, inl, inr,
}
use daw_project.Common.Int.{◌≤ℤ◌, ◌+ℤ◌, ltb_ℤ, -ℤ_parts, +ℤ_parts}
use daw_project.Common.Dict.{if_passes}
use daw_project.Num.{Num, num}
use daw_project.Schema.{or_else}
use daw_project.Presence.{PeerPresence, PresenceMsg, is_fresh, sender, heard, peer_name, peer_color}
use daw_project.Presence.Events.{Event, beat, signal, select}

abbrev pub note : String → Option String → PeerPresence → Option PeerPresence → Option PeerPresence
note id none p old = old
note id (some from) p old = if str_eq from id then some p else old

-- What the code takes it to have said last.
unfoldable pub taken : String → String → List Event → Option PeerPresence → Option PeerPresence
taken own id [] old = old
taken own id (signal now m ∷ es) old = taken own id es (note id (sender own m) (heard id now m) old)
taken own id (_ ∷ es) old = taken own id es old

-- The signal says of itself that it is of the presence and from this peer.
abbrev pub claims : Option ℕ → Option String → String → Bool
claims (some pr) (some from) id = pr == 1 && str_eq from id
claims _ _ _ = false

abbrev pub told : PresenceMsg → String → Num → PeerPresence
told m id now = record {
  id = id;
  name = or_else m.name (peer_name id);
  color = or_else m.color (peer_color id);
  selected_track = m.sel;
  last_seen = now;
}

-- The last that a peer said, whenever it was; `old` is what it said before.
unfoldable pub latest : String → List Event → Option PeerPresence → Option PeerPresence
latest id [] old = old
latest id (signal now m ∷ es) old =
    latest id es (if claims m.pr m.from id then some (told m id now) else old)
latest id (beat now ∷ es) old = latest id es old
latest id (select track_id ∷ es) old = latest id es old

-- Said within six seconds.
unfoldable pub recent : Num → Option PeerPresence → Option PeerPresence
recent now none = none
recent now (some p) = if ltb_ℤ (p.last_seen +ℤ num 6000) now then none else some p

fresh_later :
    (t now : Num) (p : PeerPresence) → t ≤ℤ now → is_fresh t p ≡ false → is_fresh now p ≡ false
unfolding is_fresh
fresh_later t now p h e = ground (arith, -ℤ_parts t p.last_seen, -ℤ_parts now p.last_seen)

abbrev pub kept : Num → Option PeerPresence → Option PeerPresence
kept now = if_passes (is_fresh now)

kept-kept : (t now : Num) (x : Option PeerPresence) → t ≤ℤ now → kept now (kept t x) ≡ kept now x
kept-kept t now none h = refl
kept-kept t now (some p) h = elim (Bool-cases (is_fresh t p)) [
  | inl e ↦ rw e refl
  | inr e ↦ rw (e, fresh_later t now p h e) refl
]

pub kept_later :
    (t now : Num) (x y : Option PeerPresence)
    → t ≤ℤ now
    → kept t x ≡ kept t y
    → kept now x ≡ kept now y
kept_later t now x y h e = sym (kept-kept t now x h) ∙ ap (kept now) e ∙ kept-kept t now y h

pub kept_self : (now : Num) (x : Option PeerPresence) → kept now (kept now x) ≡ kept now x
kept_self now x = kept-kept now now x (omega arith)

told-heard : (id : String) (now : Num) (m : PresenceMsg) → heard id now m ≡ told m id now
unfolding heard
told-heard id now m = refl

claims_from :
    (own id from : String) (pr : Option ℕ) (p : PeerPresence) (old : Option PeerPresence)
    → (str_eq id "" || str_eq id own) ≡ false
    → note id
        (if (elim pr [ none ↦ false | some k ↦ k == 1 ])
            && not (str_eq from "")
            && not (str_eq from own)
          then some from
          else none)
        p
        old
      ≡ (if claims pr (some from) id then some p else old)
claims_from own id from none p old h = refl
claims_from own id from (some pr) p old h = elim (Bool-cases (str_eq from id)) [
  | inl e ↦ rw ((str_eq_iff from id).0 e) (ground (arith, str_eq_iff id id))
  | inr e ↦ ground arith
]

claims-nobody : (pr : Option ℕ) (id : String) → claims pr none id ≡ false
claims-nobody none id = refl
claims-nobody (some pr) id = refl

claims-sender :
    (own id : String) (m : PresenceMsg) (p : PeerPresence) (old : Option PeerPresence)
    → (str_eq id "" || str_eq id own) ≡ false
    → note id (sender own m) p old ≡ (if claims m.pr m.from id then some p else old)
unfolding sender
claims-sender own id m p old h = elim (Option-cases m.from) [
  | inl e ↦ rw (e, claims-nobody m.pr id, sender) refl
  | inr (from, e) ↦ rw (e, sender) (claims_from own id from m.pr p old h)
]

nobody_from :
    (own id from : String) (b : Bool) (p : PeerPresence)
    → (str_eq id "" || str_eq id own) ≡ true
    → note id
        (if b && not (str_eq from "") && not (str_eq from own) then some from else none)
        p
        none
      ≡ none
nobody_from own id from b p h = elim (Bool-cases (str_eq from id)) [
  | inl e ↦ rw ((str_eq_iff from id).0 e) (ground arith)
  | inr e ↦ ground arith
]

note-nobody :
    (own id : String) (m : PresenceMsg) (p : PeerPresence)
    → (str_eq id "" || str_eq id own) ≡ true
    → note id (sender own m) p none ≡ none
unfolding sender
note-nobody own id m p h = elim (Option-cases m.from) [
  | inl e ↦ rw (e, sender) refl
  | inr (from, e) ↦ rw (e, sender) (nobody_from own id from _ p h)
]

recent-kept : (now : Num) (x : Option PeerPresence) → kept now x ≡ recent now x
unfolding is_fresh recent
recent-kept now none = refl
recent-kept now (some p) = ground (arith, -ℤ_parts now p.last_seen, +ℤ_parts p.last_seen (num 6000))

taken-latest :
    (own id : String) (es : List Event) (old : Option PeerPresence)
    → (str_eq id "" || str_eq id own) ≡ false
    → taken own id es old ≡ latest id es old
unfolding taken latest
taken-latest own id [] old h = refl
taken-latest own id (beat now ∷ es) old h = taken-latest own id es old h
taken-latest own id (select track_id ∷ es) old h = taken-latest own id es old h
taken-latest own id (signal now m ∷ es) old h =
    ap (taken own id es) (claims-sender own id m (heard id now m) old h)
    ∙ taken-latest own id es _ h
    ∙ rw (told-heard id now m) refl

nobody-taken :
    (own id : String) (es : List Event)
    → (str_eq id "" || str_eq id own) ≡ true
    → taken own id es none ≡ none
unfolding taken
nobody-taken own id [] h = refl
nobody-taken own id (beat now ∷ es) h = nobody-taken own id es h
nobody-taken own id (select track_id ∷ es) h = nobody-taken own id es h
nobody-taken own id (signal now m ∷ es) h =
    ap (taken own id es) (note-nobody own id m (heard id now m) h) ∙ nobody-taken own id es h

pub taken-said :
    (own id : String) (now : Num) (es : List Event)
    → kept now (taken own id es none)
      ≡ (if str_eq id "" || str_eq id own then none else recent now (latest id es none))
taken-said own id now es = elim (Bool-cases (str_eq id "" || str_eq id own)) [
  | inl e ↦ rw e (ap (kept now) (nobody-taken own id es e))
  | inr e ↦
      rw e (ap (kept now) (taken-latest own id es none e) ∙ recent-kept now (latest id es none))
]
