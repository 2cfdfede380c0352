-- ===== src/ControlServer/Reply/Reads.antt =====
-- What a client reads of the strings in the JSON texts of src/ControlServer.h.
use open_prlx.Prelude.{
  ℕ, ◌≡◌, refl, ap, ◌∙◌, ◌==◌, ◌≤◌, leb, ◌&&◌, ◌||◌, arith, if_true, if◌then◌else◌, if_false, Bool,
  true, false, Bool-cases, inl, inr, Option, none, some, [], ◌∷◌, ◌++◌,
}
use open_prlx.Wire.{Bytes}
use open_prlx.ControlServer.Reply.{json_escape}

abbrev pub add_char : ℕ → Option (Bytes × Bytes) → Option (Bytes × Bytes)
add_char c none = none
add_char c (some (s, rest)) = some (c ∷ s, rest)

-- What the character after a backslash stands for; `\u` is left out.
abbrev pub unescape : ℕ → Option ℕ
unescape c =
    if (c == 34) || (c == 92) || (c == 47)
    then some c
    else if c == 98
    then some 8
    else if c == 102
    then some 12
    else if c == 110
    then some 10
    else if c == 114
    then some 13
    else if c == 116
    then some 9
    else none

abbrev pub add_escaped : Option ℕ → Option (Bytes × Bytes) → Option (Bytes × Bytes)
add_escaped none more = none
add_escaped (some c) more = add_char c more

-- A string of JSON after its opening quote: its value, and what follows the closing quote; none where
-- JSON has no such string, as with a control character. `escaped` is whether a backslash came before.
abbrev pub read_string : Bytes → Bool → Option (Bytes × Bytes)
read_string [] escaped = none
read_string (c ∷ s) true = add_escaped (unescape c) (read_string s false)
read_string (c ∷ s) false =
    let next = read_string s true in
    let more = read_string s false in
    if c == 34
    then some ([], s)
    else if c == 92
    then next
    else if leb 32 c
    then add_char c more
    else none

-- No character of the text is a control character.
abbrev pub no_control : Bytes → Bool
no_control [] = true
no_control (c ∷ s) = leb 32 c && no_control s

add_char-printable :
    (fine : Bool) (c : ℕ) (s rest : Bytes)
    → add_char c (if fine then some (s, rest) else none)
      ≡ (if fine then some (c ∷ s, rest) else none)
add_char-printable true c s rest = refl
add_char-printable false c s rest = refl

unescape-kept : (c : ℕ) → ((c == 34) || (c == 92) || (c == 47)) ≡ true → unescape c ≡ some c
unescape-kept c e = if_true (some c) _ e

kept :
    (c : ℕ) (s rest : Bytes) {r : Option (Bytes × Bytes)}
    → ((c == 34) || (c == 92) || (c == 47)) ≡ true
    → add_char c (read_string (json_escape s ++ (34 ∷ rest)) false) ≡ r
    → add_escaped (unescape c) (read_string (json_escape s ++ (34 ∷ rest)) false) ≡ r
kept c s rest e grown =
    ap (λ u. add_escaped u (read_string (json_escape s ++ (34 ∷ rest)) false)) (unescape-kept c e)
    ∙ grown

-- A string that `jsonEscape` has prepared is a string of JSON exactly if it has no control character,
-- and then it is read back as it was, up to its closing quote, whatever quotes and backslashes it has.
pub json_escape-read_string :
    (s rest : Bytes)
    → read_string (json_escape s ++ (34 ∷ rest)) false
      ≡ (if no_control s then some (s, rest) else none)
unfolding json_escape
json_escape-read_string [] rest = refl
json_escape-read_string (c ∷ s) rest =
    let grown =
      ap (add_char c) (json_escape-read_string s rest)
      ∙ add_char-printable (no_control s) c s rest in
    elim (Bool-cases (c == 34)) [
      | inl quote ↦ rw (quote, above c 34 quote (omega arith)) (kept c s rest (rw quote refl) grown)
      | inr other ↦ elim (Bool-cases (c == 92)) [
        | inl slash ↦
            rw (other, slash, above c 92 slash (omega arith))
              (kept c s rest (rw (other, slash) refl) grown)
        | inr simple ↦ elim (Bool-cases (leb 32 c)) [
          | inl fine ↦ rw (other, simple, fine) (if_false _ _ other ∙ if_false _ _ simple ∙ grown)
          | inr control ↦ rw (other, simple, control) (if_false _ _ other ∙ if_false _ _ simple)
        ]
      ]
    ]
  where
    above : (c n : ℕ) → (c == n) ≡ true → 32 ≤ n → leb 32 c ≡ true
    above c n e low = ground (arith, e, low)
