-- ===== src/ControlServer/Reply/Heads.antt =====
-- What a client of src/ControlServer.h reads of the head of a response, and of its body.
use open_prlx.Prelude.{
  ℕ, ◌≡◌, ◌≢◌, refl, ap, sym, ◌∙◌, ◌==◌, if◌then◌else◌, if_false, Bool, true, false, Option, none,
  some, List, [], ◌∷◌, ◌++◌, All, All-append, length, ascii, append_all, decimal, decimal-IsDigit,
  print_lines, IsLine, lacks, lacks-IsLine, digits-IsLine, IsLine-append_all, append_assoc,
  append_nil, arith,
}
use open_prlx.Wire.{Bytes}
use open_prlx.ControlServer.Reply.{respond}

abbrev pub add_first : Bytes → Option (List Bytes × Bytes) → Option (List Bytes × Bytes)
add_first line none = none
add_first line (some (ls, body)) = some (line ∷ ls, body)

-- A line with bytes goes before the rest of the head; an empty one ends the head.
abbrev pub end_line : Bytes → Bytes → Option (List Bytes × Bytes) → Option (List Bytes × Bytes)
end_line [] s rest = some ([], s)
end_line (c ∷ line) s rest = add_first (c ∷ line) rest

-- The lines of a head and the body. `cr` is whether the last byte was a carriage return, which a line
-- feed has to follow; `line` is what has been read of the line.
abbrev pub read_head : Bytes → Bool → Bytes → Option (List Bytes × Bytes)
read_head [] cr line = none
read_head (c ∷ s) true line =
    let rest = read_head s false [] in if c == 10 then end_line line s rest else none
read_head (c ∷ s) false line =
    let ended = read_head s true line in
    let more = read_head s false (line ++ (c ∷ [])) in if c == 13 then ended else more

-- A line of a head, which is not empty.
abbrev pub IsHeadLine : Bytes → Type 0
IsHeadLine l = IsLine l × (l ≢ [])

read_head-line :
    (l rest acc : Bytes)
    → IsLine l
    → read_head (l ++ (13 ∷ 10 ∷ rest)) false acc
      ≡ end_line (acc ++ l) rest (read_head rest false [])
read_head-line [] rest acc h =
    ap (λ l. end_line l rest (read_head rest false [])) (sym (append_nil acc))
read_head-line (c ∷ l) rest acc h =
    if_false {b = c == 13} (read_head (l ++ (13 ∷ 10 ∷ rest)) true acc) _ (ground (arith, h.0))
    ∙ read_head-line l rest (acc ++ (c ∷ [])) h.1
    ∙ ap (λ l. end_line l rest (read_head rest false [])) (append_assoc acc (c ∷ []) l)

end_line_some :
    (l s : Bytes) (r : Option (List Bytes × Bytes)) → l ≢ [] → end_line l s r ≡ add_first l r
end_line_some [] s r h = absurd (h refl)
end_line_some (c ∷ l) s r h = refl

read_head-print_lines :
    (ls : List Bytes) (body : Bytes)
    → All IsHeadLine ls
    → read_head (print_lines ls ++ (13 ∷ 10 ∷ body)) false [] ≡ some (ls, body)
read_head-print_lines [] body h = refl
read_head-print_lines (l ∷ ls) body h =
    let rest = print_lines ls ++ (13 ∷ 10 ∷ body) in
    ap (λ t. read_head t false []) (append_assoc l (13 ∷ 10 ∷ print_lines ls) (13 ∷ 10 ∷ body))
    ∙ read_head-line l rest [] h.0.0
    ∙ end_line_some l rest (read_head rest false []) h.0.1
    ∙ ap (add_first l) (read_head-print_lines ls body h.1)

print_lines-append :
    (xs ys : List Bytes) (z : Bytes)
    → print_lines (xs ++ ys) ++ z ≡ print_lines xs ++ (print_lines ys ++ z)
print_lines-append [] ys z = refl
print_lines-append (x ∷ xs) ys z =
    append_assoc x (13 ∷ 10 ∷ print_lines (xs ++ ys)) z
    ∙ ap (λ t. x ++ (13 ∷ 10 ∷ t)) (print_lines-append xs ys z)
    ∙ sym (append_assoc x (13 ∷ 10 ∷ print_lines xs) (print_lines ys ++ z))

abbrev pub status_line : ℕ → Bytes → Bytes
status_line code reason = append_all (ascii "HTTP/1.1 " ∷ decimal code ∷ ascii " " ∷ []) reason

abbrev pub length_line : Bytes → Bytes
length_line body = append_all (ascii "Content-Length: " ∷ []) (decimal (length body))

-- The lines of a head, with `extra` ones.
abbrev pub head_of : ℕ → Bytes → Bytes → List Bytes → Bytes → List Bytes
head_of code reason body extra content_type =
    status_line code reason
    ∷ (ascii "Content-Type: " ++ content_type)
    ∷ ascii "Connection: close"
    ∷ (extra ++ (length_line body ∷ []))

respond-head :
    (code : ℕ) (reason body : Bytes) (extra : List Bytes) (content_type : Bytes)
    → respond code reason body (print_lines extra) content_type
      ≡ print_lines (head_of code reason body extra content_type) ++ (13 ∷ 10 ∷ body)
unfolding respond
respond-head code reason body extra content_type =
    let end = 13 ∷ 10 ∷ body in
    let lengths = length_line body ∷ [] in
    let rest = print_lines (extra ++ lengths) in
    let others =
      (ascii "Content-Type: " ++ content_type)
      ++ (13 ∷ 10 ∷ (ascii "Connection: close" ++ (13 ∷ 10 ∷ rest))) in
    sym (
      append_assoc (status_line code reason) (13 ∷ 10 ∷ others) end
      ∙ ap (λ t. ascii "HTTP/1.1 " ++ t)
          (append_assoc (decimal code) (32 ∷ reason) (13 ∷ 10 ∷ (others ++ end)))
      ∙ ap (λ t. ascii "HTTP/1.1 " ++ (decimal code ++ (32 ∷ (reason ++ (13 ∷ 10 ∷ t)))))
          (ap (λ t. ascii "Content-Type: " ++ t)
              (append_assoc content_type (13 ∷ 10 ∷ (ascii "Connection: close" ++ (13 ∷ 10 ∷ rest)))
                end)
            ∙ ap
                (λ t.
                  ascii "Content-Type: "
                  ++ (content_type ++ (13 ∷ 10 ∷ (ascii "Connection: close" ++ (13 ∷ 10 ∷ t)))))
                (print_lines-append extra lengths end
                  ∙ ap (λ t. print_lines extra ++ (ascii "Content-Length: " ++ t))
                      (append_assoc (decimal (length body)) (13 ∷ 10 ∷ []) end))))

-- A client that reads lines up to an empty one reads of a response its status, the type and the
-- length of the content, and the lines that are given besides, and then exactly the body, whatever
-- bytes this has, if no line that is given has a carriage return.
pub respond-read_head :
    (code : ℕ) (reason body : Bytes) (extra : List Bytes) (content_type : Bytes)
    → IsLine reason
    → All IsHeadLine extra
    → IsLine content_type
    → read_head (respond code reason body (print_lines extra) content_type) false []
      ≡ some (head_of code reason body extra content_type, body)
unfolding lacks
respond-read_head code reason body extra content_type h k m =
    ap (λ t. read_head t false []) (respond-head code reason body extra content_type)
    ∙ read_head-print_lines (head_of code reason body extra content_type) body (
      (
        IsLine-append_all (ascii "HTTP/1.1 " ∷ decimal code ∷ ascii " " ∷ []) reason
            (
              lacks-IsLine (ascii "HTTP/1.1 ") refl,
              (
                digits-IsLine (decimal code) (decimal-IsDigit code),
                (lacks-IsLine (ascii " ") refl, tt),
              ),
            )
            h,
        λ e. cc e,
      ),
      (
        (
          All-append (λ c. c ≢ 13) (ascii "Content-Type: ") content_type
              (lacks-IsLine (ascii "Content-Type: ") refl) m,
          λ e. cc e,
        ),
        (
          (lacks-IsLine (ascii "Connection: close") refl, λ e. cc e),
          All-append IsHeadLine extra (length_line body ∷ []) k (
            (
              All-append (λ c. c ≢ 13) (ascii "Content-Length: ") (decimal (length body))
                  (lacks-IsLine (ascii "Content-Length: ") refl)
                  (digits-IsLine (decimal (length body)) (decimal-IsDigit (length body))),
              λ e. cc e,
            ),
            tt,
          ),
        ),
      ),
    )
