-- ===== src/MultiSource/Loop.antt =====
-- hvac_multi_source_read.cpp: the decision of a round, and the loop around it.
use hvac_arc.Base.{
  ℕ, ℤ, pos, minus_one, ◌≡◌, ◌≢◌, ◌⊎◌, inl, inr, true, false, Option, none, some, [], ◌∷◌, arith,
  Option-cases,
}
use hvac_arc.MultiSource.{RpcState, succeeded, decide_round, Looks, ms_read_tracked}

-- A tier has answered with a count of bytes.
abbrev pub IsValid : RpcState → ℤ → Type 0
IsValid st r = (st.completed ≡ true) × (st.read_result ≡ r) × (succeeded r ≡ true)

-- A round decides on the answer of a tier that has one, or on -1 if both tiers are done and neither
-- has; or it leaves the loop running, and then no tier has an answer and one is not done.
pub decide_round_lem :
    (pm ssd : RpcState)
    → ((r : ℤ) × (decide_round pm ssd ≡ some r)
        × (IsValid pm r
            ⊎ (IsValid ssd r
                ⊎ ((r ≡ minus_one)
                    × (pm.completed ≡ true)
                    × (ssd.completed ≡ true)
                    × (succeeded pm.read_result ≡ false)
                    × (succeeded ssd.read_result ≡ false)))))
      ⊎ ((decide_round pm ssd ≡ none)
          × ((pm.completed ≡ false) ⊎ (ssd.completed ≡ false))
          × ((r : ℤ) → ¬ IsValid pm r)
          × ((r : ℤ) → ¬ IsValid ssd r))
unfolding decide_round
decide_round_lem pm ssd = elim (Option-cases (decide_round pm ssd)) [
  | inl e ↦ inr (e, ground arith, (λ r v. ground arith), λ r v. ground arith)
  | inr (r, e) ↦ inl (r, e, ground arith)
]

-- What the header promises: the first answer, looking round by round.
abbrev pub first_answer : Looks → Option ℤ
first_answer [] = none
first_answer ((pm, ssd) ∷ looks) = elim (decide_round pm ssd) [
  | some r ↦ some r
  | none ↦ first_answer looks
]

-- The loop, if `ms_read` came to it, would be entered with `done` false and would not run: whenever a
-- tier answers, what is returned behind the loop is not its answer.
pub ms_read_ignores_answers :
    (looks : Looks) (n : ℕ)
    → first_answer looks ≡ some (pos n)
    → ms_read_tracked looks ≢ some (pos n)
unfolding ms_read_tracked
ms_read_ignores_answers looks n e = λ q. ground arith
