-- ===== src/WfbReceiver/Frames/Reads.antt =====
-- When the capture loop ends the session for errors of its reads.
use open_prlx.Prelude.{
  ℕ, suc, ◌+◌, ◌≤◌, ◌<◌, ◌≡◌, ◌⊎◌, ◌↔◌, inl, inr, refl, ap, ◌==◌, if◌then◌else◌, leb, true, false,
  Option, none, some, List, [], ◌∷◌, ℤ, neg_part, Bool-cases, ◌>>=◌, arith,
}
use open_prlx.WfbReceiver.Frames.{is_gone, is_timeout, check_read}

-- `consecutiveErrors` after the reads with these results, the last one first, or `none` once the loop
-- has thrown.
abbrev pub streak : List ℤ → Option ℕ
streak [] = some 0
streak (rc ∷ earlier) = streak earlier >>= λ errors. check_read errors rc

-- The failed reads since the last one that went well, timeouts left out.
abbrev pub errors_since : List ℤ → ℕ
errors_since [] = 0
errors_since (rc ∷ earlier) =
    if is_timeout rc
    then errors_since earlier
    else if neg_part rc == 0
    then 0
    else suc (errors_since earlier)

-- Some read found the adapter gone, or was the tenth that failed since one went well.
pub data IsFatal : List ℤ → Type 0 where
  gone : (rc : ℤ) (earlier : List ℤ) → is_gone rc ≡ true → IsFatal (rc ∷ earlier)
  tenth : (rcs : List ℤ) → 10 ≤ errors_since rcs → IsFatal rcs
  before : (rc : ℤ) (earlier : List ℤ) → IsFatal earlier → IsFatal (rc ∷ earlier)

abbrev Outcome : List ℤ → Type 0
Outcome rcs =
    ((streak rcs ≡ none) × IsFatal rcs)
    ⊎ ((streak rcs ≡ some (errors_since rcs)) × (errors_since rcs < 10) × (¬ IsFatal rcs))

not-IsFatal-cons :
    (rc : ℤ) (earlier : List ℤ)
    → is_gone rc ≡ false
    → errors_since (rc ∷ earlier) < 10
    → ¬ IsFatal earlier
    → ¬ IsFatal (rc ∷ earlier)
not-IsFatal-cons rc earlier here few h (gone _ _ e) = cc (here, e)
not-IsFatal-cons rc earlier here few h (tenth _ le) = omega arith
not-IsFatal-cons rc earlier here few h (before _ _ f) = h f

-- A read that does not find the adapter gone.
check_read-cases :
    (rc : ℤ) (earlier : List ℤ)
    → is_gone rc ≡ false
    → errors_since earlier < 10
    → ((check_read (errors_since earlier) rc ≡ none) × (10 ≤ errors_since (rc ∷ earlier)))
      ⊎ ((check_read (errors_since earlier) rc ≡ some (errors_since (rc ∷ earlier)))
          × (errors_since (rc ∷ earlier) < 10))
unfolding check_read
check_read-cases rc earlier here few =
    let n = errors_since earlier in
    elim (Bool-cases (is_timeout rc)) [
      | inl silence ↦ inr (rw (here, silence) refl, rw silence few)
      | inr loud ↦ elim (Bool-cases (neg_part rc == 0)) [
        | inl clean ↦ inr (rw (here, loud, clean) refl, rw (loud, clean) (omega arith))
        | inr failed ↦ elim (Bool-cases (leb 10 (n + 1))) [
          | inl many ↦
              inl (rw (here, loud, failed, many) refl, rw (loud, failed) (ground (arith, many)))
          | inr some_left ↦ inr (
            rw (here, loud, failed, some_left) (ap some (omega arith)),
            rw (loud, failed) (ground (arith, some_left)),
          )
        ]
      ]
    ]

streak-gone : (n : ℕ) (rc : ℤ) → is_gone rc ≡ true → check_read n rc ≡ none
unfolding check_read
streak-gone n rc e = rw e refl

streak-Outcome : (rcs : List ℤ) → Outcome rcs
streak-Outcome [] = inr (refl, omega arith, not_yet)
  where
    not_yet : ¬ IsFatal []
    not_yet (tenth _ le) = omega arith
streak-Outcome (rc ∷ earlier) = elim (streak-Outcome earlier) [
  | inl (e, fatal) ↦ inl (rw e refl, before rc earlier fatal)
  | inr (e, few, fine) ↦ elim (Bool-cases (is_gone rc)) [
    | inl lost ↦ inl (rw e (streak-gone (errors_since earlier) rc lost), gone rc earlier lost)
    | inr here ↦ elim (check_read-cases rc earlier here few) [
      | inl (thrown, many) ↦ inl (rw e thrown, tenth (rc ∷ earlier) many)
      | inr (more, below) ↦ inr (rw e more, below, not-IsFatal-cons rc earlier here below fine)
    ]
  ]
]

-- The capture loop throws exactly if some read found the adapter gone, or was the tenth that failed
-- since one went well, timeouts left out.
pub streak-none_iff : (rcs : List ℤ) → (streak rcs ≡ none) ↔ IsFatal rcs
streak-none_iff rcs = elim (streak-Outcome rcs) [
  | inl (e, fatal) ↦ ((λ _. fatal), λ _. e)
  | inr (e, few, fine) ↦ ((λ p. absurd (cc (e, p))), λ fatal. absurd (fine fatal))
]
