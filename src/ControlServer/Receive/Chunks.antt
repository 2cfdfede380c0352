-- ===== src/ControlServer/Receive/Chunks.antt =====
-- `recvRequest` of src/ControlServer.h gives the same request however its bytes come in.
use open_prlx.Prelude.{
  append_assoc, append_nil, ℕ, zero, suc, ◌+◌, ◌≤◌, ◌≡◌, inl, inr, refl, ap, sym, ◌∙◌,
  if◌then◌else◌, if_true, if_false, ltb, Bool, true, false, Option, none, some, some-injective,
  List, [], ◌∷◌, ◌++◌, map, pos_part, take, drop, length, length-append, length-drop, ascii, ◌>>=◌,
  ◌==◌, ◌&&◌, Bool-cases, Option-cases, arith,
}
use open_prlx.Wire.{Bytes}
use open_prlx.ControlServer.{Request}
use open_prlx.ControlServer.Text.{starts_with, find_in, find, or_end}
use open_prlx.ControlServer.Query.{find_in-bounds}
use open_prlx.ControlServer.Receive.{
  Recv, chunk, read_headers, read_body, split_line, content_length, finish_request, recv_request,
}

abbrev pub join : List Bytes → Bytes
join [] = []
join (b ∷ bs) = b ++ join bs

-- What does not depend on the bytes after it.
starts_with-append :
    (xs ys cs : Bytes) → length cs ≤ length xs → starts_with (xs ++ ys) cs ≡ starts_with xs cs
starts_with-append xs ys [] h = refl
starts_with-append [] ys (c ∷ cs) h = absurd (omega arith)
starts_with-append (x ∷ xs) ys (c ∷ cs) h =
    ap (λ t. (x == c) && t) (starts_with-append xs ys cs (omega arith))

starts_with-length : (xs cs : Bytes) → starts_with xs cs ≡ true → length cs ≤ length xs
starts_with-length xs [] e = omega arith
starts_with-length [] (c ∷ cs) e = absurd (cc e)
starts_with-length (x ∷ xs) (c ∷ cs) e =
    omega (arith, starts_with-length xs cs (right (x == c) _ e))
  where
    right : (p q : Bool) → (p && q) ≡ true → q ≡ true
    right true q f = f
    right false q f = absurd (cc f)

-- The same for the first place where the needle stands.
find_in-length :
    (c : ℕ) (cs xs : Bytes) (i q : ℕ)
    → find_in (c ∷ cs) xs i ≡ some q
    → q + suc (length cs) ≤ i + length xs
find_in-length c cs [] i q e = absurd (cc e)
find_in-length c cs (x ∷ xs) i q e = elim (Bool-cases (starts_with (x ∷ xs) (c ∷ cs))) [
  | inl here ↦ omega (
    arith,
    starts_with-length (x ∷ xs) (c ∷ cs) here,
    some-injective i q (sym (if_true (some i) (find_in (c ∷ cs) xs (i + 1)) here) ∙ e),
  )
  | inr away ↦ omega (
    arith,
    find_in-length c cs xs (i + 1) q
        (sym (if_false (some i) (find_in (c ∷ cs) xs (i + 1)) away) ∙ e),
  )
]

find_in-append :
    (c : ℕ) (cs xs ys : Bytes) (i q : ℕ)
    → find_in (c ∷ cs) xs i ≡ some q
    → find_in (c ∷ cs) (xs ++ ys) i ≡ some q
find_in-append c cs [] ys i q e = absurd (cc e)
find_in-append c cs (x ∷ xs) ys i q e = elim (Bool-cases (starts_with (x ∷ xs) (c ∷ cs))) [
  | inl here ↦
      if_true (some i) (find_in (c ∷ cs) (xs ++ ys) (i + 1))
        (starts_with-append (x ∷ xs) ys (c ∷ cs) (starts_with-length (x ∷ xs) (c ∷ cs) here) ∙ here)
      ∙ sym (if_true (some i) (find_in (c ∷ cs) xs (i + 1)) here)
      ∙ e
  | inr away ↦
      let later = sym (if_false (some i) (find_in (c ∷ cs) xs (i + 1)) away) ∙ e in
      if_false (some i) (find_in (c ∷ cs) (xs ++ ys) (i + 1)) (
        starts_with-append (x ∷ xs) ys (c ∷ cs) (
          omega (
            arith,
            find_in-length c cs xs (i + 1) q later,
            (find_in-bounds c cs xs (i + 1) q later).0,
          ))
        ∙ away)
      ∙ find_in-append c cs xs ys (i + 1) q later
]

-- The end of the headers.
abbrev header_end : Bytes
header_end = ascii "\r\n\r\n"

find-append :
    (xs ys : Bytes) (q : ℕ)
    → find xs header_end 0 ≡ some q
    → (find (xs ++ ys) header_end 0 ≡ some q) × (q + 4 ≤ length xs)
unfolding find
find-append xs ys q e = (
  find_in-append 13 (10 ∷ 13 ∷ 10 ∷ []) xs ys 0 q e,
  omega (arith, find_in-length 13 (10 ∷ 13 ∷ 10 ∷ []) xs 0 q e),
)

pub take-append : (n : ℕ) (xs ys : Bytes) → n ≤ length xs → take n (xs ++ ys) ≡ take n xs
take-append zero xs ys h = refl
take-append (suc n) [] ys h = absurd (omega arith)
take-append (suc n) (x ∷ xs) ys h = ap (λ l. x ∷ l) (take-append n xs ys (omega arith))

pub drop-append : (n : ℕ) (xs ys : Bytes) → n ≤ length xs → drop n (xs ++ ys) ≡ drop n xs ++ ys
drop-append zero xs ys h = refl
drop-append (suc n) [] ys h = absurd (omega arith)
drop-append (suc n) (x ∷ xs) ys h = drop-append n xs ys (omega arith)

-- The first loop stops in the chunk that completes the headers.
record Headers (text : Bytes) (p : ℕ) (r : Option (Bytes × ℕ × List Recv)) : Type 0 where
  buf : Bytes
  rest : List Bytes
  read : r ≡ some (buf, p, map chunk rest)
  whole : buf ++ join rest ≡ text
  inside : p + 4 ≤ length buf

read_headers-Headers :
    (bs : List Bytes) (buf text : Bytes) (p : ℕ)
    → buf ++ join bs ≡ text
    → find text header_end 0 ≡ some p
    → find buf header_end 0 ≡ none
    → length text ≤ 16384
    → Headers text p (read_headers (map chunk bs) buf)
unfolding read_headers
read_headers-Headers [] buf text p e f g small =
    absurd (cc (f, g, ap (λ t. find t header_end 0) (sym (append_nil buf) ∙ e)))
read_headers-Headers (b ∷ bs) buf text p e f g small =
    let grown : (buf ++ b) ++ join bs ≡ text = append_assoc buf b (join bs) ∙ e in
    let fits : ltb 16384 (length (buf ++ b)) ≡ false =
      ground (arith, small, ap length grown, length-append (buf ++ b) (join bs)) in
    elim (Option-cases (find (buf ++ b) header_end 0)) [
      | inl not_yet ↦
          let h = read_headers-Headers bs (buf ++ b) text p grown f not_yet small in
          record {
            buf = h.buf;
            rest = h.rest;
            read = rw (fits, not_yet) (h.read);
            whole = h.whole;
            inside = h.inside;
          }
      | inr (q, found) ↦
          let (there, inside) = find-append (buf ++ b) (join bs) q found in
          let same : q ≡ p =
            some-injective q p (sym there ∙ ap (λ t. find t header_end 0) grown ∙ f) in
          record {
            buf = buf ++ b;
            rest = bs;
            read = rw (fits, found) (ap (λ l. some (buf ++ b, l, map chunk bs)) same);
            whole = grown;
            inside = omega (arith, inside, same);
          }
    ]

append_short : (xs ys zs : Bytes) → xs ++ ys ≡ zs → length zs ≤ length xs → xs ≡ zs
append_short xs [] zs e h = sym (append_nil xs) ∙ e
append_short xs (y ∷ ys) zs e h = absurd (omega (arith, ap length e, length-append xs (y ∷ ys)))

-- The second loop reads the body to its end.
read_body-join :
    (bs : List Bytes) (body full : Bytes)
    → body ++ join bs ≡ full
    → length full ≤ 16384
    → read_body (map chunk bs) body (length full) ≡ some full
unfolding read_body
read_body-join [] body full e small = ap some (sym (append_nil body) ∙ e)
read_body-join (b ∷ bs) body full e small =
    let grown : (body ++ b) ++ join bs ≡ full = append_assoc body b (join bs) ∙ e in
    elim (Bool-cases (ltb (length body) (length full))) [
      | inl short ↦
          let fits : ltb 16384 (length (body ++ b)) ≡ false =
            ground (arith, small, ap length grown, length-append (body ++ b) (join bs)) in
          rw (short, fits) (read_body-join bs (body ++ b) full grown small)
      | inr done ↦
          rw done (ap some (append_short body (b ++ join bs) full e (ground (arith, done))))
    ]

-- The request of a text, whose headers end at `p`.
abbrev pub request_of : Bytes → ℕ → Option Request
request_of text p = do
  (method, path, query) ←
      split_line (take (or_end (find (take p text) (ascii "\r\n") 0) (take p text)) (take p text))
  some (record {
    method = method;
    path = path;
    query = query;
    headers = take p text;
    body = drop (p + 4) text;
  })

-- If the headers of a text end at `p`, the text has at most 16384 bytes, and the length of the
-- content that its headers name is that of what follows them, then `recvRequest` gives the request of
-- this text, into whatever chunks `recv` has cut it; it gives none only if the request line has not
-- two blanks.
pub recv_request-chunks :
    (bs : List Bytes) (p : ℕ)
    → find (join bs) (ascii "\r\n\r\n") 0 ≡ some p
    → length (join bs) ≤ 16384
    → pos_part (content_length (take p (join bs))) ≡ length (drop (p + 4) (join bs))
    → recv_request (map chunk bs) ≡ request_of (join bs) p
unfolding recv_request finish_request find
recv_request-chunks bs p e small len =
    let text = join bs in
    let h = read_headers-Headers bs [] text p refl e refl small in
    let head : take p h.buf ≡ take p text =
      sym (take-append p h.buf (join h.rest) (omega (arith, h.inside))) ∙ ap (take p) h.whole in
    let tail : drop (p + 4) h.buf ++ join h.rest ≡ drop (p + 4) text =
      sym (drop-append (p + 4) h.buf (join h.rest) h.inside) ∙ ap (drop (p + 4)) h.whole in
    let short : length (drop (p + 4) text) ≤ 16384 = omega (arith, length-drop (p + 4) text) in
    let body = read_body-join h.rest (drop (p + 4) h.buf) (drop (p + 4) text) tail short in
    let n = pos_part (content_length (take p text)) in
    let rounds = map chunk h.rest in
    let whole : (if ltb 16384 n then none else read_body rounds (drop (p + 4) h.buf) n)
        ≡ some (drop (p + 4) text) =
      if_false none (read_body rounds (drop (p + 4) h.buf) n) (ground (arith, len, short))
      ∙ ap (read_body rounds (drop (p + 4) h.buf)) len
      ∙ body in
    rw (h.read, recv_request) (rw head (ap (after text p) whole))
  where
    after : Bytes → ℕ → Option Bytes → Option Request
    after text p o = do
      (method, path, query) ←
          split_line
            (take (or_end (find (take p text) (ascii "\r\n") 0) (take p text)) (take p text))
      full ← o
      some (record {
        method = method;
        path = path;
        query = query;
        headers = take p text;
        body = full;
      })
