-- ===== src/ControlServer/Receive/Line.antt =====
-- The request line that `recvRequest` of src/ControlServer.h takes apart.
use open_prlx.Prelude.{
  ℕ, ◌+◌, ◌-◌, ◌≡◌, ◌≢◌, refl, ap, ap₂, ◌∙◌, Option, none, some, [], ◌∷◌, ◌++◌, take, drop, length,
  All-append, ascii, ◌>>=◌, arith,
}
use open_prlx.Wire.{Bytes}
use open_prlx.ControlServer.Text.{find_in, find, substr}
use open_prlx.ControlServer.Search.{
  Lacks, find_in_first, find_first, find_in-none, take_self, drop_past,
}
use open_prlx.ControlServer.Receive.{split_line}

-- The target with a query or none, and the line.
abbrev pub target_of : Bytes → Option Bytes → Bytes
target_of path none = path
target_of path (some query) = path ++ (63 ∷ query)

abbrev pub print_line : Bytes → Bytes → Bytes → Bytes
print_line method target version = method ++ (32 ∷ (target ++ (32 ∷ version)))

abbrev pub or_empty : Option Bytes → Bytes
or_empty none = []
or_empty (some query) = query

target_of-Lacks :
    (path : Bytes) (query : Option Bytes)
    → Lacks 32 path
    → Lacks 32 (or_empty query)
    → Lacks 32 (target_of path query)
target_of-Lacks path none h k = h
target_of-Lacks path (some q) h k =
    All-append (λ x. x ≢ 32) path (63 ∷ q) h ((λ e. absurd (omega (arith, e))), k)

abbrev split_target : Bytes → Bytes → Bytes × Bytes × Bytes
split_target method target = elim (find target (63 ∷ []) 0) [
  | none ↦ (method, target, [])
  | some q ↦ (method, take q target, drop (q + 1) target)
]

split_target-target_of :
    (method path : Bytes) (query : Option Bytes)
    → Lacks 63 path
    → split_target method (target_of path query) ≡ (method, path, or_empty query)
unfolding find
split_target-target_of method path none h = rw (find_in-none 63 path 0 h, split_target) refl
split_target-target_of method path (some q) h =
    rw (find_first 63 path q h, split_target)
      (ap₂ (λ p d. (method, p, d)) (take_self path (63 ∷ q)) (drop_past path 63 q))

-- A request line that is printed from a method, a path, and a query if there is one, is taken apart
-- into these, if none of them has a blank and the path has no question mark.
pub split_line-print :
    (method path : Bytes) (query : Option Bytes) (version : Bytes)
    → Lacks 32 method
    → Lacks 32 path
    → Lacks 63 path
    → Lacks 32 (or_empty query)
    → split_line (print_line method (target_of path query) version)
      ≡ some (method, path, or_empty query)
unfolding split_line find
split_line-print method path query version m p mark q =
    let target = target_of path query in
    let rest = target ++ (32 ∷ version) in
    let n = length method in
    let line = print_line method target version in
    let past = drop_past method 32 rest in
    let len = length target in
    let count : n + 1 + len - n - 1 ≡ len = omega arith in
    let one : find line (ascii " ") 0 ≡ some n = find_first 32 method rest m in
    let two : find line (ascii " ") (n + 1) ≡ some (n + 1 + len) =
      ap (λ l. find_in (32 ∷ []) l (n + 1)) past
      ∙ find_in_first 32 target version (n + 1) (target_of-Lacks path query p q) in
    let middle : substr line (n + 1) (n + 1 + len - n - 1) ≡ target =
      ap (λ c. take c (drop (n + 1) line)) count
      ∙ ap (take len) past
      ∙ take_self target (32 ∷ version) in
    ap (λ o. o >>= λ sp1. find line (ascii " ") (sp1 + 1) >>= parts line sp1) one
    ∙ ap (λ o. o >>= parts line n) two
    ∙ ap₂ (λ l t. some (split_target l t)) (take_self method (32 ∷ rest)) middle
    ∙ ap some (split_target-target_of method path query mark)
  where
    parts : Bytes → ℕ → ℕ → Option (Bytes × Bytes × Bytes)
    parts line sp1 sp2 = some (split_target (take sp1 line) (substr line (sp1 + 1) (sp2 - sp1 - 1)))
