-- ===== src/Ids/Uuid.antt =====
-- The random part of an id has the form of a UUID.
use mathlib.Core.Path.{subst}
use daw_project.Common.{
  ℕ, zero, suc, ◌+◌, ◌*◌, ◌/◌, ◌%◌, ◌≤◌, ◌<◌, ◌≡◌, refl, ap, true, Option, none, some, List, [],
  ◌∷◌, ◌++◌, length, take, drop, All, arith, length-take, length-drop,
}
use daw_project.Schema.{Name}
use daw_project.Ids.{
  is_hex, hex_run, after_dash, uuid_run, is_uuid, hex_digit, hex_text, change_byte, dashed, uuid,
}

abbrev IsHex : ℕ → Type 0
IsHex c = is_hex c ≡ true

abbrev pub IsByte : ℕ → Type 0
IsByte b = b < 256

hex_digit-IsHex : (d : ℕ) → d < 16 → IsHex (hex_digit d)
hex_digit-IsHex d h = ground arith

hex_text-IsHex : (bs : List ℕ) → All IsByte bs → All IsHex (hex_text bs)
unfolding hex_text
hex_text-IsHex [] h = tt
hex_text-IsHex (b ∷ bs) (l, h) = (
  hex_digit-IsHex (b / 16) (omega arith),
  (hex_digit-IsHex (b % 16) (omega arith), hex_text-IsHex bs h),
)

length-hex_text : (bs : List ℕ) → length (hex_text bs) ≡ 2 * length bs
unfolding hex_text
length-hex_text [] = refl
length-hex_text (b ∷ bs) = let l = length-hex_text bs in omega arith

length-change_byte : (i : ℕ) (f : ℕ → ℕ) (bs : List ℕ) → length (change_byte i f bs) ≡ length bs
unfolding change_byte
length-change_byte i f [] = refl
length-change_byte zero f (b ∷ bs) = refl
length-change_byte (suc i) f (b ∷ bs) = ap suc (length-change_byte i f bs)

All-change_byte :
    (i : ℕ) (f : ℕ → ℕ) (bs : List ℕ)
    → ((b : ℕ) → IsByte (f b))
    → All IsByte bs
    → All IsByte (change_byte i f bs)
unfolding change_byte
All-change_byte i f [] k h = tt
All-change_byte zero f (b ∷ bs) k h = (k b, h.1)
All-change_byte (suc i) f (b ∷ bs) k h = (h.0, All-change_byte i f bs k h.1)

All-take {ℓ κ} : {A : Type ℓ} (P : A → Type κ) (n : ℕ) (xs : List A) → All P xs → All P (take n xs)
All-take P zero xs h = tt
All-take P (suc n) [] h = tt
All-take P (suc n) (x ∷ xs) h = (h.0, All-take P n xs h.1)

All-drop {ℓ κ} : {A : Type ℓ} (P : A → Type κ) (n : ℕ) (xs : List A) → All P xs → All P (drop n xs)
All-drop P zero xs h = h
All-drop P (suc n) [] h = tt
All-drop P (suc n) (x ∷ xs) h = All-drop P n xs h.1

hex_run-append : (a r : Name) → All IsHex a → hex_run (length a) (a ++ r) ≡ some r
unfolding hex_run
hex_run-append [] r h = refl
hex_run-append (c ∷ cs) r h = rw (h.0) (hex_run-append cs r h.1)

hex_run-whole : (a : Name) → All IsHex a → hex_run (length a) a ≡ some []
unfolding hex_run
hex_run-whole [] h = refl
hex_run-whole (c ∷ cs) h = rw (h.0) (hex_run-whole cs h.1)

hex_run-slice :
    (n from : ℕ) (h r : Name)
    → n + from ≤ length h
    → All IsHex h
    → hex_run n (take n (drop from h) ++ r) ≡ some r
hex_run-slice n from h r l k =
    let d = length-drop from h in
    let t = length-take n (drop from h) in
    let exactly : length (take n (drop from h)) ≡ n = omega arith in
    subst (λ m. hex_run m (take n (drop from h) ++ r) ≡ some r) exactly
      (hex_run-append (take n (drop from h)) r
        (All-take IsHex n (drop from h) (All-drop IsHex from h k)))

hex_run-rest :
    (n from : ℕ) (h : Name) → n + from ≡ length h → All IsHex h → hex_run n (drop from h) ≡ some []
hex_run-rest n from h l k =
    let d = length-drop from h in
    let exactly : length (drop from h) ≡ n = omega arith in
    subst (λ m. hex_run m (drop from h) ≡ some []) exactly
      (hex_run-whole (drop from h) (All-drop IsHex from h k))

dashed-uuid_run : (h : Name) → length h ≡ 32 → All IsHex h → uuid_run (dashed h) ≡ some []
unfolding uuid_run dashed after_dash
dashed-uuid_run h l k =
    rw
      (
        hex_run-slice 8 0 h _ (omega arith) k,
        hex_run-slice 4 8 h _ (omega arith) k,
        hex_run-slice 4 12 h _ (omega arith) k,
        hex_run-slice 4 16 h _ (omega arith) k,
        hex_run-rest 12 20 h (omega arith) k,
      )
      refl

-- Where randomUUID gives what its documentation says, or else from sixteen bytes.
pub uuid-is_uuid :
    (native : Option Name) (bytes : List ℕ)
    → ((v : Name) → native ≡ some v → is_uuid v ≡ true)
    → length bytes ≡ 16
    → All IsByte bytes
    → is_uuid (uuid native bytes) ≡ true
unfolding uuid
uuid-is_uuid (some v) bytes d l k = d v refl
uuid-is_uuid none bytes d l k =
    let six = change_byte 6 (λ b. b % 16 + 64) bytes in
    let both = change_byte 8 (λ b. b % 64 + 128) six in
    let l6 = length-change_byte 6 (λ b. b % 16 + 64) bytes in
    let l8 = length-change_byte 8 (λ b. b % 64 + 128) six in
    let l32 = length-hex_text both in
    let size : length (hex_text both) ≡ 32 = omega arith in
    let hex : All IsHex (hex_text both) = hex_text-IsHex both (
      All-change_byte 8 (λ b. b % 64 + 128) six (λ b. omega arith)
        (All-change_byte 6 (λ b. b % 16 + 64) bytes (λ b. omega arith) k)) in
    rw (is_uuid, dashed-uuid_run (hex_text both) size hex) refl
