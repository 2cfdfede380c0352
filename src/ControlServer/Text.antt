-- ===== src/ControlServer/Text.antt =====
-- The helpers of namespace `openprlx_http` in src/ControlServer.h, over strings as lists of bytes.
-- `none` of a search is `npos`.
use open_prlx.Prelude.{
  ℕ, zero, suc, ◌+◌, ◌-◌, ◌*◌, ◌^◌, ◌==◌, ◌&&◌, ◌||◌, not, if◌then◌else◌, leb, min, Bool, true,
  false, Option, none, some, [], ◌∷◌, ◌++◌, map, reverse, ℤ, pos, sub_ℕ, take, drop, length,
}
use open_prlx.Wire.{Bytes, same_bytes}

abbrev lower : ℕ → ℕ
lower c = if leb 65 c && leb c 90 then c + 32 else c

-- `tolower` in the C locale, on each byte.
unfoldable pub to_lower : Bytes → Bytes
to_lower s = map lower s

abbrev pub starts_with : Bytes → Bytes → Bool
starts_with s [] = true
starts_with [] (c ∷ cs) = false
starts_with (b ∷ bs) (c ∷ cs) = (b == c) && starts_with bs cs

abbrev pub find_in : Bytes → Bytes → ℕ → Option ℕ
find_in needle [] i = if starts_with [] needle then some i else none
find_in needle (b ∷ bs) i =
    let rest = find_in needle bs (i + 1) in if starts_with (b ∷ bs) needle then some i else rest

-- `s.find(needle, p)` for a needle that is not empty.
unfoldable pub find : Bytes → Bytes → ℕ → Option ℕ
find s needle p = find_in needle (drop p s) p

unfoldable pub or_end : Option ℕ → Bytes → ℕ
or_end none s = length s
or_end (some p) s = p

-- `s.substr(p, n)`
abbrev pub substr : Bytes → ℕ → ℕ → Bytes
substr s p n = take n (drop p s)

unfoldable pub is_blank : ℕ → Bool
is_blank c = (c == 32) || (c == 9)

unfoldable pub skip_blanks : Bytes → Bytes
skip_blanks [] = []
skip_blanks (b ∷ bs) = let rest = skip_blanks bs in if is_blank b then rest else b ∷ bs

-- `find_first_not_of` and `find_last_not_of` of blanks, as used on a header's value.
unfoldable pub trim : Bytes → Bytes
trim s = reverse (skip_blanks (reverse (skip_blanks s)))

unfoldable pub header_value : Bytes → Bytes → Bytes
header_value headers name =
    let key = (13 ∷ 10 ∷ []) ++ (to_lower name ++ (58 ∷ [])) in
    elim (find (to_lower headers) key 0) [
      | none ↦ []
      | some p ↦
          let from = p + length key in
          trim (substr headers from (or_end (find headers (13 ∷ 10 ∷ []) from) headers - from))
    ]

-- The loop over the pairs of a query; the query's length and one are enough rounds.
unfoldable pub query_pairs : ℕ → Bytes → Bytes → ℕ → Option Bytes
query_pairs zero query key p = none
query_pairs (suc fuel) query key p =
    let amp = find query (38 ∷ []) p in
    let pair = substr query p (or_end amp query - p) in
    let rest : Option Bytes = elim amp [
      | none ↦ some []
      | some a ↦ query_pairs fuel query key (a + 1)
    ] in
    elim (find pair (61 ∷ []) 0) [
      | none ↦ rest
      | some eq ↦ if same_bytes (take eq pair) key then some (drop (eq + 1) pair) else rest
    ]

unfoldable pub query_value : Bytes → Bytes → Bytes
query_value query key = elim (query_pairs (suc (length query)) query key 0) [
  | none ↦ []
  | some v ↦ v
]

-- From the end of a field's name on: the text after the colon and the blanks.
unfoldable pub json_after : Bytes → Bytes → Option Bytes
json_after body field =
    let k = (34 ∷ []) ++ (field ++ (34 ∷ [])) in
    elim (find body k 0) [
      | none ↦ none
      | some p ↦ elim (find body (58 ∷ []) (p + length k)) [
        | none ↦ none
        | some q ↦ some (skip_blanks (drop (q + 1) body))
      ]
    ]

unfoldable pub quoted : Bytes → Option Bytes
quoted [] = none
quoted (c ∷ s) =
    if c == 34 then elim (find s (34 ∷ []) 0) [ none ↦ none | some e ↦ some (take e s) ] else none

unfoldable pub json_find_string : Bytes → Bytes → Option Bytes
json_find_string body field = elim (json_after body field) [ none ↦ none | some s ↦ quoted s ]

unfoldable pub is_digit : ℕ → Bool
is_digit c = leb 48 c && leb c 57

unfoldable pub digits : ℕ → Bytes → ℕ
digits acc [] = acc
digits acc (c ∷ s) = let rest = digits (acc * 10 + (c - 48)) s in if is_digit c then rest else acc

-- `isspace` in the C locale.
unfoldable pub skip_space : Bytes → Bytes
skip_space [] = []
skip_space (c ∷ s) =
    let rest = skip_space s in if (c == 32) || (leb 9 c && leb c 13) then rest else c ∷ s

-- `strtol` in base 10, on a `long` of 32 bits: a value out of range becomes the nearest bound, and
-- `none` is that there is no digit.
unfoldable pub number : Bool → Bytes → Option ℤ
number minus [] = none
number minus (c ∷ s) =
    let n = digits 0 (c ∷ s) in
    if is_digit c
    then some (if minus then sub_ℕ 0 (min n (2 ^ 31)) else pos (min n (2 ^ 31 - 1)))
    else none

unfoldable pub signed : Bytes → Option ℤ
signed [] = none
signed (c ∷ s) =
    if c == 45 then number true s else if c == 43 then number false s else number false (c ∷ s)

unfoldable pub json_find_int : Bytes → Bytes → Option ℤ
json_find_int body field = elim (json_after body field) [
  | none ↦ none
  | some s ↦ signed (skip_space s)
]

-- `sodium_memcmp` is an equality test on memory.
unfoldable pub token_equal : Bytes → Bytes → Bool
token_equal a b =
    if not (length a == length b) then false else if length a == 0 then true else same_bytes a b
