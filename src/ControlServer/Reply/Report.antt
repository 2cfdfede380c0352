-- ===== src/ControlServer/Reply/Report.antt =====
-- The report of `health` in src/ControlServer.h, as a reader of JSON takes it.
use open_prlx.Prelude.{
  ℕ, zero, suc, ◌≡◌, ◌≢◌, ◌≤◌, ◌⊎◌, inl, inr, refl, ap, ◌∙◌, if_true, if_false, ◌==◌, ◌||◌, true,
  false, if◌then◌else◌, Option, none, some, List, [], ◌∷◌, ◌++◌, drop, length, length-append, ◌<◌,
  All, arith,
}
use open_prlx.Wire.{Bytes}
use open_prlx.ControlServer.Reply.Reads.{read_string}

-- A value of the report: a string, or a number or a Boolean as it is written.
pub data Value : Type 0 where
  text : Bytes → Value
  word : Bytes → Value

abbrev pub Field : Type 0
Field = Bytes × Value

-- What is written up to a comma or a brace, and what is left.
abbrev pub read_word : Bytes → Bytes × Bytes
read_word [] = ([], [])
read_word (c ∷ s) =
    let rest = read_word s in if (c == 44) || (c == 125) then ([], c ∷ s) else (c ∷ rest.0, rest.1)

abbrev pub as_text : Option (Bytes × Bytes) → Option (Value × Bytes)
as_text none = none
as_text (some (s, rest)) = some (text s, rest)

abbrev pub read_value : Bytes → Option (Value × Bytes)
read_value [] = none
read_value (c ∷ s) =
    if c == 34
    then as_text (read_string s false)
    else some (word (read_word (c ∷ s)).0, (read_word (c ∷ s)).1)

abbrev pub read_name : Bytes → Option (Bytes × Bytes)
read_name [] = none
read_name (c ∷ s) = if c == 34 then read_string s false else none

abbrev pub read_colon : Bytes → Option (Value × Bytes)
read_colon [] = none
read_colon (c ∷ s) = if c == 58 then read_value s else none

abbrev pub add_field : Field → Option (List Field) → Option (List Field)
add_field m none = none
add_field m (some ms) = some (m ∷ ms)

-- After a value: a comma and more, or the brace that ends the text.
abbrev pub finish : Field → Bytes → Option (List Field) → Option (List Field)
finish m [] more = none
finish m (c ∷ []) more = if c == 125 then some (m ∷ []) else none
finish m (c ∷ d ∷ s) more = if c == 44 then add_field m more else none

module _ (read : Bytes → Option (List Field)) where
  abbrev pub with_value : Bytes → Option (Value × Bytes) → Option (List Field)
  with_value name none = none
  with_value name (some (v, rest)) = finish (name, v) rest (read (drop 1 rest))

  abbrev pub with_name : Option (Bytes × Bytes) → Option (List Field)
  with_name none = none
  with_name (some (name, rest)) = with_value name (read_colon rest)

-- The fields of an object, with at most `fuel` of them.
abbrev pub read_fields : ℕ → Bytes → Option (List Field)
read_fields zero s = none
read_fields (suc fuel) s = with_name (read_fields fuel) (read_name s)

-- An object without objects in it: its fields in order, each with at least one byte.
abbrev pub read_object : Bytes → Option (List Field)
read_object [] = none
read_object (c ∷ s) = if c == 123 then read_fields (length s) s else none

-- A field as it is written: with a string in quotes, or bare.
pub data Member : Type 0 where
  quoted : Bytes → Bytes → Bytes → Member
  bare : Bytes → Bytes → Member

abbrev name_of : Member → Bytes
name_of (quoted name raw s) = name
name_of (bare name raw) = name

abbrev field_of : Member → Field
field_of (quoted name raw s) = (name, text s)
field_of (bare name raw) = (name, word raw)

abbrev print_value : Member → Bytes → Bytes
print_value (quoted name raw s) rest = 34 ∷ (raw ++ (34 ∷ rest))
print_value (bare name raw) rest = raw ++ rest

abbrev pub print_fields : Member → List Member → Bytes
print_fields m [] = 34 ∷ (name_of m ++ (34 ∷ 58 ∷ print_value m (125 ∷ [])))
print_fields m (n ∷ ms) = 34 ∷ (name_of m ++ (34 ∷ 58 ∷ print_value m (44 ∷ print_fields n ms)))

abbrev pub fields_of : List Member → List Field
fields_of [] = []
fields_of (m ∷ ms) = field_of m ∷ fields_of ms

-- What a string is read as, in front of its closing quote.
unfoldable pub Reads : Bytes → Bytes → Type 0
Reads raw s = (rest : Bytes) → read_string (raw ++ (34 ∷ rest)) false ≡ some (s, rest)

-- Neither a comma nor a brace nor a quote.
abbrev pub IsWord : Bytes → Type 0
IsWord s = All (λ c. (c ≢ 44) × (c ≢ 125) × (c ≢ 34)) s

abbrev pub IsMember : Member → Type 0
IsMember (quoted name raw s) = Reads name name × Reads raw s
IsMember (bare name raw) = Reads name name × IsWord raw

member_name : (m : Member) → IsMember m → Reads (name_of m) (name_of m)
member_name (quoted name raw s) h = h.0
member_name (bare name raw) h = h.0

IsStop : ℕ → Type 0
IsStop c = (c ≡ 44) ⊎ (c ≡ 125)

stops : (c : ℕ) → IsStop c → ((c == 44) || (c == 125)) ≡ true
unfolding IsStop
stops c (inl e) = ground (arith, e)
stops c (inr e) = ground (arith, e)

no_quote : (c : ℕ) → IsStop c → (c == 34) ≡ false
unfolding IsStop
no_quote c (inl e) = ground (arith, e)
no_quote c (inr e) = ground (arith, e)

read_word_stop :
    (raw : Bytes) (c : ℕ) (rest : Bytes)
    → IsWord raw
    → IsStop c
    → read_word (raw ++ (c ∷ rest)) ≡ (raw, c ∷ rest)
read_word_stop [] c rest h stop = if_true ([], c ∷ rest) _ (stops c stop)
read_word_stop (x ∷ raw) c rest h stop =
    if_false {b = (x == 44) || (x == 125)} ([], x ∷ (raw ++ (c ∷ rest))) _
      (ground (arith, h.0.0, h.0.1))
    ∙ ap (λ r. (x ∷ r.0, r.1)) (read_word_stop raw c rest h.1 stop)

read_bare :
    (raw : Bytes) (c : ℕ) (rest : Bytes)
    → IsWord raw
    → IsStop c
    → read_value (raw ++ (c ∷ rest)) ≡ some (word raw, c ∷ rest)
read_bare [] c rest h stop =
    if_false (as_text (read_string rest false)) _ (no_quote c stop)
    ∙ ap (λ r. some (word r.0, r.1)) (read_word_stop [] c rest h stop)
read_bare (x ∷ raw) c rest h stop =
    if_false {b = x == 34} (as_text (read_string (raw ++ (c ∷ rest)) false)) _
      (ground (arith, h.0.2))
    ∙ ap (λ r. some (word r.0, r.1)) (read_word_stop (x ∷ raw) c rest h stop)

read_printed :
    (m : Member) (c : ℕ) (rest : Bytes)
    → IsMember m
    → IsStop c
    → read_value (print_value m (c ∷ rest)) ≡ some ((field_of m).1, c ∷ rest)
unfolding Reads
read_printed (quoted name raw s) c rest h stop = ap as_text (h.1 (c ∷ rest))
read_printed (bare name raw) c rest h stop = read_bare raw c rest h.1 stop

-- What is printed of fields is read back, with as much fuel as there are fields.
read_fields-print_fields :
    (fuel : ℕ) (m : Member) (ms : List Member)
    → length ms ≤ fuel
    → IsMember m
    → All IsMember ms
    → read_fields (suc fuel) (print_fields m ms) ≡ some (fields_of (m ∷ ms))
unfolding Reads IsStop
read_fields-print_fields fuel m [] few h hs =
    ap (with_name (read_fields fuel)) (member_name m h (58 ∷ print_value m (125 ∷ [])))
    ∙ ap (with_value (read_fields fuel) (name_of m)) (read_printed m 125 [] h (inr refl))
    ∙ whole m
  where
    whole :
        (m : Member)
        → finish (name_of m, (field_of m).1) (125 ∷ []) (read_fields fuel [])
          ≡ some (field_of m ∷ [])
    whole (quoted name raw s) = refl
    whole (bare name raw) = refl
read_fields-print_fields zero m (n ∷ ms) few h hs = absurd (omega (arith, few))
read_fields-print_fields (suc fuel) m (n ∷ ms) few h hs =
    let more = print_fields n ms in
    ap (with_name (read_fields (suc fuel))) (member_name m h (58 ∷ print_value m (44 ∷ more)))
    ∙ ap (with_value (read_fields (suc fuel)) (name_of m)) (read_printed m 44 more h (inl refl))
    ∙ goes_on m ms
    ∙ ap (add_field (field_of m))
        (read_fields-print_fields fuel n ms (omega (arith, few)) hs.0 hs.1)
  where
    goes_on :
        (m : Member) (ms : List Member)
        → finish
            (name_of m, (field_of m).1)
            (44 ∷ print_fields n ms)
            (read_fields (suc fuel) (print_fields n ms))
          ≡ add_field (field_of m) (read_fields (suc fuel) (print_fields n ms))
    goes_on (quoted name raw s) [] = refl
    goes_on (quoted name raw s) (l ∷ ms) = refl
    goes_on (bare name raw) [] = refl
    goes_on (bare name raw) (l ∷ ms) = refl

-- A field takes at least one byte.
value_length : (m : Member) (rest : Bytes) → length rest ≤ length (print_value m rest)
value_length (quoted name raw s) rest = omega (arith, length-append raw (34 ∷ rest))
value_length (bare name raw) rest = omega (arith, length-append raw rest)

fields_length : (m : Member) (ms : List Member) → length ms < length (print_fields m ms)
fields_length m [] = omega arith
fields_length m (n ∷ ms) =
    let more = print_fields n ms in
    omega (
      arith,
      fields_length n ms,
      value_length m (44 ∷ more),
      length-append (name_of m) (34 ∷ 58 ∷ print_value m (44 ∷ more)),
    )

-- An object of fields is read back as these.
pub read_object-print_fields :
    (m : Member) (ms : List Member)
    → IsMember m
    → All IsMember ms
    → read_object (123 ∷ print_fields m ms) ≡ some (fields_of (m ∷ ms))
read_object-print_fields m ms h hs = with_fuel (length (print_fields m ms)) (fields_length m ms)
  where
    with_fuel :
        (fuel : ℕ)
        → length ms < fuel
        → read_fields fuel (print_fields m ms) ≡ some (fields_of (m ∷ ms))
    with_fuel zero few = absurd (omega (arith, few))
    with_fuel (suc fuel) few = read_fields-print_fields fuel m ms (omega (arith, few)) h hs
