-- ===== src/Pairing/Hex.antt =====
-- `Buffer.from(text, 'hex')`: pairs of hexadecimal digits, up to the first pair that is none.
use git_pigeon.Prelude.{
  ℕ, ◌+◌, ◌-◌, ◌*◌, ◌%◌, ◌<◌, ◌≡◌, refl, Bool, true, ◌&&◌, ◌||◌, List, [], ◌∷◌, arith, length, leb,
  sym, ◌∙◌, if◌then◌else◌,
}
use git_pigeon.Prelude.Text.{Text}
use git_pigeon.Prelude.Patterns.{every, every-head, every-tail, is_hex, is_hex_digit}

-- `Buffer.from` reads upper case digits too.
abbrev is_any_hex_digit : ℕ → Bool
is_any_hex_digit c = is_hex_digit c || (leb b'A' c && leb c b'F')

digit_value : ℕ → ℕ
digit_value c = if leb c b'9' then c - b'0' else if leb b'a' c then c - b'a' + 10 else c - b'A' + 10

unfoldable pub hex_bytes : Text → List ℕ
unfolding digit_value
hex_bytes [] = []
hex_bytes (a ∷ []) = []
hex_bytes (a ∷ b ∷ s) =
    let rest = hex_bytes s in
    if is_any_hex_digit a && is_any_hex_digit b
    then (digit_value a * 16 + digit_value b) ∷ rest
    else []

digit_value-injective :
    (a b : ℕ)
    → is_hex_digit a ≡ true
    → is_hex_digit b ≡ true
    → digit_value a ≡ digit_value b
    → a ≡ b
unfolding digit_value
digit_value-injective a b ha hb e = ground arith

digit_value-lt : (a : ℕ) → is_hex_digit a ≡ true → digit_value a < 16
unfolding digit_value
digit_value-lt a h = ground arith

byte-injective :
    (a b c d : ℕ)
    → is_hex_digit a ≡ true
    → is_hex_digit b ≡ true
    → is_hex_digit c ≡ true
    → is_hex_digit d ≡ true
    → digit_value a * 16 + digit_value b ≡ digit_value c * 16 + digit_value d
    → (a ≡ c) × (b ≡ d)
byte-injective a b c d ha hb hc hd e =
    let pa : digit_value b < 16 = digit_value-lt b hb in
    let pc : digit_value d < 16 = digit_value-lt d hd in
    (digit_value-injective a c ha hc (omega arith), digit_value-injective b d hb hd (omega arith))

hex_bytes-cons :
    (a b : ℕ) (s : Text)
    → is_hex_digit a ≡ true
    → is_hex_digit b ≡ true
    → hex_bytes (a ∷ b ∷ s) ≡ (digit_value a * 16 + digit_value b) ∷ hex_bytes s
unfolding hex_bytes
hex_bytes-cons a b s ha hb = rw (ha, hb)

-- Texts of equally many lower case digits that decode to the same bytes are the same.
bytes-injective :
    (s t : Text)
    → every is_hex_digit s ≡ true
    → every is_hex_digit t ≡ true
    → length s ≡ length t
    → length s % 2 ≡ 0
    → hex_bytes s ≡ hex_bytes t
    → s ≡ t
bytes-injective [] [] hs ht l p e = refl
bytes-injective [] (c ∷ t) hs ht l p e = absurd (omega arith)
bytes-injective (a ∷ s) [] hs ht l p e = absurd (omega arith)
bytes-injective (a ∷ []) (c ∷ t) hs ht l p e = absurd (omega arith)
bytes-injective (a ∷ b ∷ s) (c ∷ []) hs ht l p e = absurd (omega arith)
bytes-injective (a ∷ b ∷ s) (c ∷ d ∷ t) hs ht l p e =
    let us = every-tail is_hex_digit a (b ∷ s) hs in
    let ut = every-tail is_hex_digit c (d ∷ t) ht in
    let ha = every-head is_hex_digit a (b ∷ s) hs in
    let hb = every-head is_hex_digit b s us in
    let hc = every-head is_hex_digit c (d ∷ t) ht in
    let hd = every-head is_hex_digit d t ut in
    let e' : (digit_value a * 16 + digit_value b) ∷ hex_bytes s
        ≡ (digit_value c * 16 + digit_value d) ∷ hex_bytes t =
      sym (hex_bytes-cons a b s ha hb) ∙ e ∙ hex_bytes-cons c d t hc hd in
    let eb : (a ≡ c) × (b ≡ d) = byte-injective a b c d ha hb hc hd (cc e') in
    let es : s ≡ t =
      bytes-injective s t (every-tail is_hex_digit b s us) (every-tail is_hex_digit d t ut)
        (omega arith) (omega arith) (cc e') in
    cc (eb.0, eb.1, es)

pub hex-injective :
    (s t : Text) → is_hex 64 s ≡ true → is_hex 64 t ≡ true → hex_bytes s ≡ hex_bytes t → s ≡ t
unfolding is_hex
hex-injective s t hs ht e =
    bytes-injective s t (ground arith) (ground arith) (ground arith) (ground arith) e
