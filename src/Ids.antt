-- ===== src/Ids.antt =====
-- Ids of the document, web/src/document/ids.ts, and the name that a clip without one takes from its id,
-- `clipDisplayName` of web/src/document/schema.ts. Texts by their UTF-16
-- units; ids are taken to be of characters of one unit each. What the browser draws at random is an argument.
mod Parts
pub mod Uuid
mod Rounds
pub mod Stem
pub mod Shown
use daw_project.Common.{
  ℕ, zero, suc, ◌-◌, ◌+◌, ◌/◌, ◌%◌, ◌==◌, Bool, true, false, ◌&&◌, ◌||◌, not, Option, none, some,
  List, [], ◌∷◌, ◌++◌, leb, length, take, drop, if◌then◌else◌, ◌>>=◌, String,
}
use Prim.Native.Char.{code}
use daw_project.Schema.{Name, ClipDef, or_else}
use daw_project.Document.DisplayName.{trim, eqb_name}

abbrev pub codes : String → Name
codes String.[] = []
codes (String.◌∷◌ c s) = code c ∷ codes s

abbrev pub dash : ℕ
dash = 45

abbrev pub clip_word : Name
clip_word = codes "clip"

abbrev pub hex_digit : ℕ → ℕ
hex_digit d = if leb 10 d then 87 + d else 48 + d

-- Of every byte x.toString(16).padStart(2, '0').
unfoldable pub hex_text : List ℕ → Name
hex_text [] = []
hex_text (b ∷ bs) = hex_digit (b / 16) ∷ hex_digit (b % 16) ∷ hex_text bs

unfoldable pub change_byte : ℕ → (ℕ → ℕ) → List ℕ → List ℕ
change_byte i f [] = []
change_byte zero f (b ∷ bs) = f b ∷ bs
change_byte (suc i) f (b ∷ bs) = b ∷ change_byte i f bs

abbrev pub slice : ℕ → ℕ → Name → Name
slice from to h = take (to - from) (drop from h)

unfoldable pub dashed : Name → Name
dashed h =
    slice 0 8 h
    ++ dash ∷ (slice 8 12 h ++ dash ∷ (slice 12 16 h ++ dash ∷ (slice 16 20 h ++ dash ∷ drop 20 h)))

-- What randomUUID gives, where the browser has it; else from sixteen random bytes.
unfoldable pub uuid : Option Name → List ℕ → Name
uuid (some random) bytes = random
uuid none bytes =
    dashed (hex_text (change_byte 8 (λ b. b % 64 + 128) (change_byte 6 (λ b. b % 16 + 64) bytes)))

-- `${prefix}-${stem}-${uuid()}`, without the stem where it is empty.
unfoldable pub new_id : Name → Name → Name → Name
new_id prefix [] uuid = prefix ++ dash ∷ uuid
new_id prefix (c ∷ cs) uuid = prefix ++ dash ∷ ((c ∷ cs) ++ dash ∷ uuid)

-- s.split('-')
abbrev pub cons_head : ℕ → List Name → List Name
cons_head c [] = (c ∷ []) ∷ []
cons_head c (w ∷ ws) = (c ∷ w) ∷ ws

unfoldable pub split : Name → List Name
split [] = [] ∷ []
split (c ∷ cs) = let rest = split cs in if c == dash then [] ∷ rest else cons_head c rest

-- parts.join('-')
unfoldable pub join : List Name → Name
join [] = []
join (w ∷ []) = w
join (w ∷ v ∷ ws) = w ++ dash ∷ join (v ∷ ws)

abbrev is_digit : ℕ → Bool
is_digit c = leb 48 c && leb c 57

abbrev pub is_hex : ℕ → Bool
is_hex c = is_digit c || leb 97 c && leb c 102

-- Behind n hexadecimal digits.
unfoldable pub hex_run : ℕ → Name → Option Name
hex_run zero s = some s
hex_run (suc n) [] = none
hex_run (suc n) (c ∷ cs) = let rest = hex_run n cs in if is_hex c then rest else none

unfoldable pub after_dash : Name → Option Name
after_dash [] = none
after_dash (c ∷ cs) = if c == dash then some cs else none

abbrev pub is_end : Name → Option Name
is_end [] = some []
is_end (c ∷ cs) = none

-- UUID_RE
unfoldable pub uuid_run : Name → Option Name
uuid_run s =
    hex_run 8 s
    >>= after_dash
    >>= hex_run 4
    >>= after_dash
    >>= hex_run 4
    >>= after_dash
    >>= hex_run 4
    >>= after_dash
    >>= hex_run 12
    >>= is_end

abbrev pub is_uuid : Name → Bool
is_uuid s = elim (uuid_run s) [ none ↦ false | some _ ↦ true ]

all_digits : Name → Bool
all_digits [] = true
all_digits (c ∷ cs) = is_digit c && all_digits cs

-- /^\d+$/
unfoldable pub is_number : Name → Bool
unfolding all_digits
is_number [] = false
is_number (c ∷ cs) = all_digits (c ∷ cs)

-- A round of the loop: `none` where it ends.
unfoldable pub next_parts : List Name → Option (List Name)
next_parts parts =
    if leb (length parts) 1
    then none
    else if leb 5 (length parts) && is_uuid (join (drop (length parts - 5) parts))
    then some (take (length parts - 5) parts)
    else if is_number (join (drop (length parts - 1) parts))
    then some (take (length parts - 1) parts)
    else none

-- The loop, of at most so many rounds.
unfoldable pub strip_tail : ℕ → List Name → List Name
strip_tail zero parts = parts
strip_tail (suc rounds) parts = elim (next_parts parts) [
  | none ↦ parts
  | some shorter ↦ strip_tail rounds shorter
]

-- id.replace(/^clip-/, '')
unfoldable pub without_prefix : Name → Name
without_prefix (a ∷ b ∷ c ∷ d ∷ e ∷ rest) =
    if eqb_name (a ∷ b ∷ c ∷ d ∷ e ∷ []) (codes "clip-") then rest else a ∷ b ∷ c ∷ d ∷ e ∷ rest
without_prefix s = s

abbrev pub or_clip : Name → Name
or_clip [] = clip_word
or_clip (c ∷ cs) = c ∷ cs

-- Each round takes a part at least, so that there are fewer rounds than parts.
unfoldable pub clip_stem : Name → Name
clip_stem id =
    let parts = split (without_prefix id) in or_clip (join (strip_tail (length parts) parts))

is_base36 : Name → Bool
is_base36 [] = true
is_base36 (c ∷ cs) = (is_digit c || leb 97 c && leb c 122) && is_base36 cs

-- The id has the form of the ids of old, of 6 to 12 random characters.
unfoldable pub is_legacy_random : Name → Name → Bool
unfolding is_base36
is_legacy_random id stem =
    eqb_name id (clip_word ++ dash ∷ stem)
    && (is_base36 stem && (leb 6 (length stem) && leb (length stem) 12))

-- clip.notes
abbrev pub has_notes : ClipDef → Bool
has_notes clip = elim clip.notes [ none ↦ false | some _ ↦ true ]

unfoldable pub derived_name : Name → Bool → Name → Name
derived_name id notes stem =
    if eqb_name stem clip_word || is_legacy_random id stem
    then (if notes then codes "MIDI" else codes "clip")
    else stem

unfoldable pub named_or : Name → Name → Name
named_or [] derived = derived
named_or (c ∷ cs) derived = c ∷ cs

unfoldable pub clip_display_name : ClipDef → Name
clip_display_name clip =
    named_or (trim (or_else clip.name []))
      (derived_name (codes clip.id) (has_notes clip) (clip_stem (codes clip.id)))
