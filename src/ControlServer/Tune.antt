-- ===== src/ControlServer/Tune.antt =====
-- What POST /tune of src/ControlServer.h makes of a body that a client prints with std::to_string.
use open_prlx.Prelude.{
  ℕ, zero, suc, ◌+◌, ◌≡◌, refl, ap, sym, ◌∙◌, if_false, leb, ◌==◌, ◌&&◌, ◌||◌, not, Bool, true,
  false, if◌then◌else◌, Option, none, some, [], ◌∷◌, ◌++◌, drop, length, length-append,
  append_assoc, All, IsDigit, decimal, decimal-IsDigit, to_string, ℤ, pos, negsuc, arith, ascii,
  append_all,
}
use open_prlx.Wire.{Bytes}
use open_prlx.Context.{Context, streaming, is_valid_channel, is_valid_width, request_tune}
use open_prlx.ControlServer.{
  Response, plain, is_streaming, channel_field, width_field, is_keep, tune_to, or_keep, handle_tune,
}
use open_prlx.ControlServer.Text.{
  starts_with, find_in, find, skip_blanks, json_after, json_find_int, signed, skip_space, is_digit,
}
use open_prlx.ControlServer.Search.{Lacks, drop_past}
use open_prlx.ControlServer.Numbers.{IsInt, signed-to_string}

-- A search passes what lacks the first byte of the needle.
find_in_skip :
    (c : ℕ) (needle xs ys : Bytes) (i : ℕ)
    → Lacks c xs
    → find_in (c ∷ needle) (xs ++ ys) i ≡ find_in (c ∷ needle) ys (i + length xs)
find_in_skip c needle [] ys i h = ap (find_in (c ∷ needle) ys) (omega arith)
find_in_skip c needle (x ∷ xs) ys i h =
    if_false {b = (x == c) && starts_with (xs ++ ys) needle} (some i) _ (ground (arith, h.0))
    ∙ find_in_skip c needle xs ys (i + 1) h.1
    ∙ ap (find_in (c ∷ needle) ys) (omega arith)

drop_self : (xs ys : Bytes) → drop (length xs) (xs ++ ys) ≡ ys
drop_self [] ys = refl
drop_self (x ∷ xs) ys = drop_self xs ys

-- A field whose name is found, with the colon right after it.
json_after_found :
    (field xs post : Bytes) (p : ℕ)
    → find (xs ++ (58 ∷ post)) ((34 ∷ []) ++ (field ++ (34 ∷ []))) 0 ≡ some p
    → p + length ((34 ∷ []) ++ (field ++ (34 ∷ []))) ≡ length xs
    → json_after (xs ++ (58 ∷ post)) field ≡ some (skip_blanks post)
unfolding json_after find
json_after_found field xs post p found there =
    ap next found
    ∙ ap (λ n. after (find_in (58 ∷ []) (drop n body) n)) there
    ∙ ap (λ l. after (find_in (58 ∷ []) l (length xs))) (drop_self xs (58 ∷ post))
    ∙ ap (λ l. some (skip_blanks l)) (drop_past xs 58 post)
  where
    body : Bytes
    body = xs ++ (58 ∷ post)

    key : Bytes
    key = (34 ∷ []) ++ (field ++ (34 ∷ []))

    after : Option ℕ → Option Bytes
    after none = none
    after (some q) = some (skip_blanks (drop (q + 1) body))

    next : Option ℕ → Option Bytes
    next none = none
    next (some n) = after (find_in (58 ∷ []) (drop (n + length key) body) (n + length key))

-- An `int` is printed without quotes.
digits_lack : (xs : Bytes) → All IsDigit xs → Lacks 34 xs
digits_lack [] h = tt
digits_lack (x ∷ xs) h = ((λ e. omega (arith, e, h.0.0)), digits_lack xs h.1)

to_string-Lacks : (z : ℤ) → Lacks 34 (to_string z)
unfolding to_string
to_string-Lacks (pos n) = digits_lack (decimal n) (decimal-IsDigit n)
to_string-Lacks (negsuc n) =
    ((λ e. omega (arith, e)), digits_lack (decimal (suc n)) (decimal-IsDigit (suc n)))

-- The body {"channel":C,"width":W}.
abbrev pub tune_body : ℤ → ℤ → Bytes
tune_body channel width =
    append_all
      (ascii "{\"channel\":" ∷ to_string channel ∷ ascii ",\"width\":" ∷ to_string width ∷ [])
      (ascii "}")

find_int : Option Bytes → Option ℤ
find_int none = none
find_int (some s) = signed (skip_space s)

channel_found :
    (channel width : ℤ)
    → IsInt channel
    → json_find_int (tune_body channel width) channel_field ≡ some channel
unfolding json_find_int find is_digit find_int
channel_found channel width h =
    let post = to_string channel ++ (ascii ",\"width\":" ++ (to_string width ++ ascii "}")) in
    ap find_int (json_after_found channel_field (ascii "{\"channel\"") post 1 refl refl)
    ∙ signed-to_string channel 44 (ascii "\"width\":" ++ (to_string width ++ ascii "}")) h refl

width_found :
    (channel width : ℤ)
    → IsInt width
    → json_find_int (tune_body channel width) width_field ≡ some width
unfolding json_find_int find is_digit find_int
width_found channel width h =
    ap (λ l. find_int (json_after l width_field)) (sym same)
    ∙ ap find_int (
        json_after_found width_field front post (11 + length printed + 1)
          (ap (λ l. find_in key l 0) same
            ∙ find_in_skip 34 (width_field ++ (34 ∷ [])) printed tail 11 (to_string-Lacks channel))
          (omega (arith, length-append printed (ascii ",\"width\""))))
    ∙ signed-to_string width 125 [] h refl
  where
    printed : Bytes
    printed = to_string channel

    front : Bytes
    front = ascii "{\"channel\":" ++ (printed ++ ascii ",\"width\"")

    post : Bytes
    post = to_string width ++ ascii "}"

    key : Bytes
    key = (34 ∷ []) ++ (width_field ++ (34 ∷ []))

    tail : Bytes
    tail = ascii ",\"width\"" ++ (58 ∷ post)

    same : front ++ (58 ∷ post) ≡ tune_body channel width
    same =
        ap (λ l. ascii "{\"channel\":" ++ l) (append_assoc printed (ascii ",\"width\"") (58 ∷ post))

-- A channel from 1 to 177, and a width from 0 to 2, or -1 to keep the one there is.
abbrev pub is_tunable : ℤ → ℤ → Bool
is_tunable (pos channel) (pos width) = leb 1 channel && leb channel 177 && leb width 2
is_tunable (pos channel) (negsuc zero) = leb 1 channel && leb channel 177
is_tunable (pos channel) (negsuc (suc n)) = false
is_tunable (negsuc n) width = false

if_not :
    {A : Type 0} (b d : Bool) (x y : A) → b ≡ not d → (if b then x else y) ≡ (if d then y else x)
if_not true true x y e = absurd (cc e)
if_not true false x y e = refl
if_not false true x y e = refl
if_not false false x y e = absurd (cc e)

refused : (channel width : ℤ) → Bool
refused channel width =
    not (is_valid_channel channel) || (not (is_keep width) && not (is_valid_width width))

refused-is_tunable : (channel width : ℤ) → refused channel width ≡ not (is_tunable channel width)
unfolding refused is_valid_channel is_valid_width
refused-is_tunable (negsuc n) width = refl
refused-is_tunable (pos c) (pos w) = ground arith
refused-is_tunable (pos c) (negsuc zero) = ground arith
refused-is_tunable (pos c) (negsuc (suc n)) = ground arith

-- In a session that is Streaming, POST /tune with the body {"channel":C,"width":W}, for any two ints
-- as std::to_string prints them: the tune to exactly these is staged and the answer is 202, if the
-- channel is from 1 to 177 and the width from 0 to 2 or -1; else the answer is 400 and nothing is
-- changed.
pub handle_tune-tune_body :
    (ctx : Context) (channel width : ℤ)
    → ctx.state ≡ streaming
    → IsInt channel
    → IsInt width
    → handle_tune ctx (tune_body channel width) ≡ (
        if is_tunable channel width
        then (request_tune ctx channel width, plain 202)
        else (ctx, plain 400))
unfolding handle_tune tune_to refused
handle_tune-tune_body ctx channel width live c_int w_int =
    ap
      (λ s.
        if not (is_streaming s) then (ctx, plain 409) else found (json_find_int body channel_field))
      live
    ∙ ap found (channel_found channel width c_int)
    ∙ ap (λ w. tune_to ctx channel (or_keep w)) (width_found channel width w_int)
    ∙ if_not (refused channel width) (is_tunable channel width) (ctx, plain 400)
        (request_tune ctx channel width, plain 202) (refused-is_tunable channel width)
  where
    body : Bytes
    body = tune_body channel width

    found : Option ℤ → Context × Response
    found none = (ctx, plain 400)
    found (some c) = tune_to ctx c (or_keep (json_find_int body width_field))
