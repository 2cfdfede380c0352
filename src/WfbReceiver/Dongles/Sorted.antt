-- ===== src/WfbReceiver/Dongles/Sorted.antt =====
-- The order of `GetDongleList` of src/wifi/WFBReceiver.cpp, and that its result is sorted by it.
use open_prlx.Prelude.{
  ℕ, ◌≡◌, refl, sym, ap, ap₂, ◌∙◌, inl, inr, ◌==◌, ◌&&◌, ◌||◌, not, if◌then◌else◌, Bool-cases, ltb,
  Bool, true, false, Option, some, List, [], ◌∷◌, arith,
}
use mathlib.Core.List.{Perm, Pairwise, Mem, Pairwise-singleton, mem-cons_self, forall_mem-cons}
use mathlib.Core.List.Perm
use mathlib.Core.List.Pairwise
use open_prlx.Wire.{Bytes}
use open_prlx.WfbReceiver.Dongles.{
  Descriptor, names, less, is_special, before, insert_name, sort_names, get_dongle_list,
}

-- `a` may stand before `b`.
abbrev pub MayPrecede : Bytes → Bytes → Type 0
MayPrecede a b = before b a ≡ false

less_asym : (a b : Bytes) → less a b ≡ true → less b a ≡ false
unfolding less
less_asym a [] e = absurd (cc e)
less_asym [] (y ∷ b) e = refl
less_asym (x ∷ a) (y ∷ b) e = elim (Bool-cases (less b a)) [
  | inl back ↦
      let forth : less a b ≡ false = elim (Bool-cases (less a b)) [
        | inl forth ↦ absurd (cc (back, less_asym a b forth))
        | inr never ↦ never
      ] in
      ground (arith, e, forth)
  | inr never ↦ ground (arith, e, never)
]

less_antisym : (a b : Bytes) → less a b ≡ false → less b a ≡ false → a ≡ b
unfolding less
less_antisym [] [] e f = refl
less_antisym [] (y ∷ b) e f = absurd (cc e)
less_antisym (x ∷ a) [] e f = absurd (cc f)
less_antisym (x ∷ a) (y ∷ b) e f =
    let same : x ≡ y = ground (arith, e, f) in
    ap₂ ◌∷◌ same (less_antisym a b (ground (arith, e, same)) (ground (arith, f, same)))

-- What is not less is transitive.
less_trans : (a b c : Bytes) → less b a ≡ false → less c b ≡ false → less c a ≡ false
unfolding less
less_trans [] b [] e f = refl
less_trans [] [] (z ∷ c) e f = refl
less_trans [] (y ∷ b) (z ∷ c) e f = refl
less_trans (x ∷ a) [] c e f = absurd (cc e)
less_trans (x ∷ a) (y ∷ b) [] e f = absurd (cc f)
less_trans (x ∷ a) (y ∷ b) (z ∷ c) e f = elim (Bool-cases ((x == y) && (y == z))) [
  | inl same ↦
      let e1 : less b a ≡ false = ground (arith, e, same) in
      let f1 : less c b ≡ false = ground (arith, f, same) in
      let h = less_trans a b c e1 f1 in ground (arith, h, same)
  | inr other ↦ ground (arith, e, f, other)
]

-- The special names are a first letter that is less.
abbrev rank : Bool → ℕ
rank true = 0
rank false = 1

abbrev key_of : Bytes → Bytes
key_of s = rank (is_special s) ∷ s

before-key_of : (a b : Bytes) → before a b ≡ less (key_of a) (key_of b)
unfolding before less
before-key_of a b = by_tests (is_special a) (is_special b)
  where
    by_tests :
        (p q : Bool)
        → (if p && not q then true else if q && not p then false else less a b)
          ≡ (ltb (rank p) (rank q) || ((rank p == rank q) && less a b))
    by_tests true true = refl
    by_tests true false = refl
    by_tests false true = refl
    by_tests false false = refl

before_asym : (a b : Bytes) → before a b ≡ true → before b a ≡ false
before_asym a b e =
    before-key_of b a ∙ less_asym (key_of a) (key_of b) (sym (before-key_of a b) ∙ e)

before_trans : (a b c : Bytes) → MayPrecede a b → MayPrecede b c → MayPrecede a c
before_trans a b c e f =
    before-key_of c a
    ∙ less_trans (key_of a) (key_of b) (key_of c) (sym (before-key_of b a) ∙ e)
        (sym (before-key_of c b) ∙ f)

tail_of : Bytes → Bytes
tail_of [] = []
tail_of (x ∷ xs) = xs

before_antisym : (a b : Bytes) → MayPrecede a b → MayPrecede b a → a ≡ b
unfolding tail_of
before_antisym a b e f =
    ap tail_of (
      less_antisym (key_of a) (key_of b) (sym (before-key_of a b) ∙ f)
        (sym (before-key_of b a) ∙ e))

before_refl : (a : Bytes) → MayPrecede a a
before_refl a = elim (Bool-cases (before a a)) [
  | inl self ↦ absurd (cc (self, before_asym a a self))
  | inr never ↦ never
]

AllAfter : Bytes → List Bytes → Type 0
AllAfter a xs = (x : Bytes) → Mem x xs → MayPrecede a x

insert_name-perm : (x : Bytes) (ys : List Bytes) → Perm (insert_name x ys) (x ∷ ys)
unfolding insert_name
insert_name-perm x [] = Perm.rfl
insert_name-perm x (y ∷ ys) = elim (Bool-cases (before y x)) [
  | inl later ↦ rw later (Perm.trans (Perm.cons y (insert_name-perm x ys)) (Perm.swap x y ys))
  | inr here ↦ rw here Perm.rfl
]

sort_names-perm : (xs : List Bytes) → Perm (sort_names xs) xs
unfolding sort_names
sort_names-perm [] = Perm.rfl
sort_names-perm (x ∷ xs) =
    Perm.trans (insert_name-perm x (sort_names xs)) (Perm.cons x (sort_names-perm xs))

AllAfter-perm : (a : Bytes) (xs ys : List Bytes) → Perm xs ys → AllAfter a ys → AllAfter a xs
unfolding AllAfter
AllAfter-perm a xs ys p h x m = h x ((Perm.mem_iff p).0 m)

AllAfter-cons :
    (a b : Bytes) (xs : List Bytes) → MayPrecede a b → AllAfter a xs → AllAfter a (b ∷ xs)
unfolding AllAfter
AllAfter-cons a b xs p h = (forall_mem-cons (λ x. hlevel)).1 (p, h)

insert_name-sorted :
    (x : Bytes) (ys : List Bytes) → Pairwise MayPrecede ys → Pairwise MayPrecede (insert_name x ys)
unfolding insert_name AllAfter
insert_name-sorted x [] s = Pairwise-singleton _ x
insert_name-sorted x (y ∷ ys) (Pairwise.cons below s) = elim (Bool-cases (before y x)) [
  | inl later ↦ rw later (
      Pairwise.cons
        (AllAfter-perm y (insert_name x ys) (x ∷ ys) (insert_name-perm x ys)
          (AllAfter-cons y x ys (before_asym y x later) below))
        (insert_name-sorted x ys s))
  | inr here ↦ rw here (
      Pairwise.cons (AllAfter-cons x y ys here λ z m. before_trans x y z here (below z m))
        (Pairwise.cons below s))
]

sort_names-sorted : (xs : List Bytes) → Pairwise MayPrecede (sort_names xs)
unfolding sort_names
sort_names-sorted [] = Pairwise.nil
sort_names-sorted (x ∷ xs) = insert_name-sorted x (sort_names xs) (sort_names-sorted xs)

-- The first of a sorted list may stand before each of its names.
first_le :
    (a b : Bytes) (xs ys : List Bytes)
    → Pairwise MayPrecede (a ∷ xs)
    → Perm (b ∷ ys) (a ∷ xs)
    → MayPrecede a b
unfolding AllAfter
first_le a b xs ys (Pairwise.cons below s) p =
    AllAfter-perm a (b ∷ ys) (a ∷ xs) p (AllAfter-cons a a xs (before_refl a) below) b mem-cons_self

sorted_unique :
    (xs ys : List Bytes) → Pairwise MayPrecede xs → Pairwise MayPrecede ys → Perm xs ys → xs ≡ ys
sorted_unique [] ys s t p = Perm.nil-eq p
sorted_unique (x ∷ xs) [] s t p = Perm.eq-nil p
sorted_unique (x ∷ xs) (y ∷ ys) s t p =
    let same : x ≡ y =
      before_antisym x y (first_le x y xs ys s (Perm.symm p)) (first_le y x ys xs t p) in
    let rest = Perm.cons_inv (Perm.trans p (Perm.symm (Perm.cons' same Perm.rfl))) in
    ap₂ ◌∷◌ same (sorted_unique xs ys (Pairwise.of_cons s) (Pairwise.of_cons t) rest)

-- The result of `GetDongleList` has exactly the names of the adapters, none of which should stand
-- before an earlier one by the comparison of the code; and a list of which this is true is the result,
-- so it does not depend on how `std::sort` works.
pub get_dongle_list-sorted :
    (devs : List (Option Descriptor))
    → Perm (get_dongle_list (some devs)) (names devs)
      × Pairwise MayPrecede (get_dongle_list (some devs))
      × ((ys : List Bytes)
          → Perm ys (names devs)
          → Pairwise MayPrecede ys
          → ys ≡ get_dongle_list (some devs))
unfolding get_dongle_list
get_dongle_list-sorted devs =
    let p = sort_names-perm (names devs) in
    let s = sort_names-sorted (names devs) in
    (p, s, λ ys q t. sorted_unique ys (sort_names (names devs)) t s (Perm.trans q (Perm.symm p)))
