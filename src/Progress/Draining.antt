-- ===== src/Progress/Draining.antt =====
-- That each callback is run, in the order of the completions.
use mathlib.Core.List.{append_assoc, append-nil}
use hvac_arc.Base.{
  ℕ, zero, suc, ◌+◌, ◌-◌, ◌*◌, ◌≤◌, ◌≡◌, ◌≢◌, refl, ap, sym, ◌∙◌, true, false, List, [], ◌∷◌, ◌++◌,
  some, length, arith,
}
use hvac_arc.Progress.Defs.{
  At, outer, triggering, inner, testing, progressing, ended, Comm, Triggers, IsOldestFirst,
  triggered, step_at, step,
}

module _ {ℓ} {Callback : Type ℓ} where
  -- The callbacks that were run and those that wait to be.
  abbrev pub known : Comm Callback → List Callback
  known c = c.ran ++ c.completed

  -- `n` steps of the thread alone.
  abbrev pub steps : Triggers Callback → ℕ → Comm Callback → Comm Callback
  steps hg_trigger zero c = c
  steps hg_trigger (suc n) c = steps hg_trigger n (step hg_trigger c)

  -- What `HG_Trigger` is: the oldest completion first.
  module _ (hg_trigger : Triggers Callback) (order : IsOldestFirst hg_trigger) where
    known-triggered :
        (q : List Callback) (c : Comm Callback)
        → c.completed ≡ q
        → known (triggered (hg_trigger q) c) ≡ known c
    known-triggered [] c e = rw (order.empty) (refl)
    known-triggered (cb ∷ q) c e = rw (e, order.oldest cb q) (append_assoc c.ran (cb ∷ []) q)

    known-step_at : (a : At) (c : Comm Callback) → known (step_at hg_trigger a c) ≡ known c
    known-step_at outer c = refl
    known-step_at triggering c = known-triggered c.completed c refl
    known-step_at (inner b) c = refl
    known-step_at testing c = refl
    known-step_at progressing c = refl
    known-step_at ended c = refl

    steps_add :
        (m n : ℕ) (c : Comm Callback)
        → steps hg_trigger (m + n) c ≡ steps hg_trigger n (steps hg_trigger m c)
    steps_add zero n c =
        let same : 0 + n ≡ n = omega arith in ap (λ (k : ℕ). steps hg_trigger k c) same
    steps_add (suc m) n c =
        let shifted : suc m + n ≡ suc (m + n) = omega arith in
        ap (λ (k : ℕ). steps hg_trigger k c) shifted ∙ steps_add m n (step hg_trigger c)

    known-steps : (n : ℕ) (c : Comm Callback) → known (steps hg_trigger n c) ≡ known c
    unfolding step
    known-steps zero c = refl
    known-steps (suc n) c = known-steps n (step hg_trigger c) ∙ known-step_at c.at c

    stays_empty :
        (n : ℕ) (c : Comm Callback) → c.completed ≡ [] → (steps hg_trigger n c).completed ≡ []
    unfolding step
    stays_empty zero c e = e
    stays_empty (suc n) c e = stays_empty n (step hg_trigger c) (ground (arith, e))

    abbrev double : List Callback → ℕ
    double [] = 0
    double (cb ∷ q) = suc (suc (double q))

    double_lem : (q : List Callback) → double q ≡ 2 * length q
    double_lem [] = refl
    double_lem (cb ∷ q) = omega (arith, double_lem q)

    -- From HG_Trigger, two steps for each completion.
    triggers_all :
        (q : List Callback) (c : Comm Callback)
        → c.at ≡ triggering
        → c.shutdown_flags ≡ false
        → c.completed ≡ q
        → (steps hg_trigger (double q) c).completed ≡ []
    unfolding step
    triggers_all [] c here running e = e
    triggers_all (cb ∷ q) c here running e =
        let takes : hg_trigger c.completed ≡ some (cb, q) = ap hg_trigger e ∙ order.oldest cb q in
        triggers_all q (step hg_trigger (step hg_trigger c)) (ground (arith, here, running, takes))
          (ground (arith, here, running, takes)) (ground (arith, here, running, takes))

    -- After `n` steps the thread is at HG_Trigger, and has run nothing.
    pub record Leads (c : Comm Callback) (n : ℕ) : Type ℓ where
      pub near : n ≤ 4
      pub at_trigger : (steps hg_trigger n c).at ≡ triggering
      pub running : (steps hg_trigger n c).shutdown_flags ≡ false
      pub waiting : (steps hg_trigger n c).completed ≡ c.completed
      pub kept : (steps hg_trigger n c).ran ≡ c.ran

    -- The way to the next HG_Trigger.
    pub lead : (c : Comm Callback) → c.shutdown_flags ≡ false → c.at ≢ ended → (n : ℕ) × Leads c n
    unfolding step
    lead c on alive = go c.at refl
      where
        go : (a : At) → c.at ≡ a → (n : ℕ) × Leads c n
        go outer e = (1, ground (arith, e, on))
        go triggering e = (0, ground (arith, e, on))
        go (inner true) e = (1, ground (arith, e, on))
        go (inner false) e = (4, ground (arith, e, on))
        go testing e = (3, ground (arith, e, on))
        go progressing e = (2, ground (arith, e, on))
        go ended e = absurd (alive e)

    -- If HG_Trigger takes the completions in their order, then while the flag is not set and the
    -- thread has not ended, its next 2n + 4 steps run the n
    -- callbacks that wait, in their order, and so do any more steps.
    pub steps-drain :
        (n : ℕ) (c : Comm Callback)
        → c.shutdown_flags ≡ false
        → c.at ≢ ended
        → 2 * length c.completed + 4 ≤ n
        → ((steps hg_trigger n c).completed ≡ [])
          × ((steps hg_trigger n c).ran ≡ c.ran ++ c.completed)
    steps-drain n c running alive enough =
        let (m, l) = lead c running alive in
        let c' = steps hg_trigger m c in
        let rest = n - (m + double c.completed) in
        let whole : n ≡ (m + double c.completed) + rest =
          omega (arith, double_lem c.completed, l.near) in
        let empty : (steps hg_trigger n c).completed ≡ [] =
          rw (whole, steps_add (m + double c.completed) rest c, steps_add m (double c.completed) c)
            (stays_empty rest (steps hg_trigger (double c.completed) c')
              (triggers_all c.completed c' l.at_trigger l.running l.waiting)) in
        (
          empty,
          sym (append-nil (steps hg_trigger n c).ran)
              ∙ ap (λ v. (steps hg_trigger n c).ran ++ v) (sym empty)
              ∙ known-steps n c,
        )

    -- Some number of steps runs just the first callbacks of those that wait.
    pub steps-prefix :
        (first rest : List Callback) (c : Comm Callback)
        → c.shutdown_flags ≡ false
        → c.at ≢ ended
        → c.completed ≡ first ++ rest
        → (n : ℕ) × (((steps hg_trigger n c).ran ≡ c.ran ++ first)
            × ((steps hg_trigger n c).completed ≡ rest))
    unfolding step
    steps-prefix [] rest c running alive e = (0, (sym (append-nil c.ran), e))
    steps-prefix (cb ∷ first) rest c running alive e =
        let (m, l) = lead c running alive in
        let c' = steps hg_trigger m c in
        let waits : c'.completed ≡ cb ∷ (first ++ rest) = l.waiting ∙ e in
        let takes : hg_trigger c'.completed ≡ some (cb, first ++ rest) =
          ap hg_trigger waits ∙ order.oldest cb (first ++ rest) in
        let (n, (ran, left)) =
          steps-prefix first rest (step hg_trigger c') (ground (arith, l, takes))
            (ground (arith, l, takes)) (ground (arith, l, takes)) in
        let one : (step hg_trigger c').ran ≡ c.ran ++ cb ∷ [] = ground (arith, l, takes) in
        (
          m + suc n,
          rw (steps_add m (suc n) c)
              (ran ∙ ap (λ v. v ++ first) one ∙ append_assoc c.ran (cb ∷ []) first, left),
        )
