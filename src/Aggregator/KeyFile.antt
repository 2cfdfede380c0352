-- ===== src/Aggregator/KeyFile.antt =====
-- The constructor of the `Aggregator` of src/wifi/WFBProcessor.cpp from a key file.
use open_prlx.Prelude.{
  ℕ, zero, suc, ◌+◌, ◌≡◌, refl, ap, sym, ◌∙◌, if◌then◌else◌, if_true, if_false, Bool-cases, inl,
  inr, ltb, Bool, true, false, Option, none, some, [], ◌∷◌, ◌++◌, take, drop, length, length-drop,
  replicate, ◌>>=◌, arith,
}
use open_prlx.Wire.{Bytes}
use open_prlx.Aggregator.{Aggregator, new}

-- `loadKeypairFile`, on what the file has, if it can be opened; none is an exception.
unfoldable pub load_keypair_file : Option Bytes → Option Bytes
load_keypair_file none = none
load_keypair_file (some file) =
    let rest = drop 32 file in
    if ltb (length file) 32
    then none
    else if ltb (length rest) 32
    then none
    else some (take 32 file ++ take 32 rest)

-- With a key of zeros first, in whose place the file's is put.
unfoldable pub new_from_file : Option Bytes → ℕ → ℕ → Bool → Option Aggregator
new_from_file file epoch channel_id dcb = do
  kp ← load_keypair_file file
  some (record (new (replicate 64 0) epoch channel_id dcb) {
    rx_secretkey = take 32 kp;
    tx_publickey = take 32 (drop 32 kp);
  })

take-append_drop :
    (m n s : ℕ) (xs : Bytes) → s ≡ m + n → take m xs ++ take n (drop m xs) ≡ take s xs
take-append_drop zero n s xs e = ap (λ k. take k xs) same
  where
    same : n ≡ s
    same = omega (arith, e)
take-append_drop (suc m) n zero xs e = absurd (omega (arith, e))
take-append_drop (suc m) zero (suc s) [] e = refl
take-append_drop (suc m) (suc n) (suc s) [] e = refl
take-append_drop (suc m) n (suc s) (x ∷ xs) e =
    ap (λ l. x ∷ l) (take-append_drop m n s xs (omega (arith, e)))

-- An `Aggregator` that is made from a key file is the one that is made from the file's first 64 bytes
-- in memory, as from a key that was sealed; from a file that has fewer, or is not there, none is.
pub new_from_file-new :
    (file : Option Bytes) (epoch channel_id : ℕ) (dcb : Bool)
    → new_from_file file epoch channel_id dcb ≡ (
        file >>= λ key.
        if ltb (length key) 64 then none else some (new (take 64 key) epoch channel_id dcb))
unfolding new_from_file load_keypair_file new
new_from_file-new none epoch channel_id dcb = refl
new_from_file-new (some file) epoch channel_id dcb = elim (Bool-cases (ltb (length file) 64)) [
  | inl short ↦ ap (λ o. o >>= with_key) (refused short) ∙ sym (if_true none _ short)
  | inr long ↦
      ap (λ o. o >>= with_key) (loaded long)
      ∙ ap with_key (take-append_drop 32 32 64 file refl)
      ∙ sym (if_false none (some (new (take 64 file) epoch channel_id dcb)) long)
]
  where
    with_key : Bytes → Option Aggregator
    with_key kp = some (record (new (replicate 64 0) epoch channel_id dcb) {
      rx_secretkey = take 32 kp;
      tx_publickey = take 32 (drop 32 kp);
    })

    kp : Bytes
    kp = take 32 file ++ take 32 (drop 32 file)

    both : Option Bytes
    both =
        if ltb (length file) 32
        then none
        else if ltb (length (drop 32 file)) 32
        then none
        else some kp

    refused : ltb (length file) 64 ≡ true → both ≡ none
    refused short = elim (Bool-cases (ltb (length file) 32)) [
      | inl less ↦ if_true none _ less
      | inr more ↦
          if_false none _ more ∙ if_true none (some kp) (ground (arith, short, length-drop 32 file))
    ]

    loaded : ltb (length file) 64 ≡ false → both ≡ some kp
    loaded long =
        if_false none (if ltb (length (drop 32 file)) 32 then none else some kp)
          (ground (arith, long))
        ∙ if_false none (some kp) (ground (arith, long, length-drop 32 file))
