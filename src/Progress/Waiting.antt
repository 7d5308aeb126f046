-- ===== src/Progress/Waiting.antt =====
-- A block function of hvac_comm_client.cpp beside the progress thread of hvac_comm.cpp.
use hvac_arc.Base.{
  ℕ, ◌≡◌, ◌≢◌, refl, ap, ◌∙◌, false, List, [], ◌∷◌, ◌++◌, arith, inl, inr, Prog, Outcome-cases,
  returns, pure, ◌>>◌, eqb, Bool-cases, int_ord,
}
use hvac_arc.Host.{Delivery}
use hvac_arc.Client.{Client, Callback, run_callback, wait_done, client_block}
use hvac_arc.Progress.Defs.{ended, Comm, Triggers, IsOldestFirst}
use hvac_arc.Progress.Draining.{steps, steps-prefix}

module _ {W : Type 0} where
  -- The callbacks of some answers, one after the other.
  unfoldable pub run_all : List (Callback × Delivery) → Prog (Client W) (Unit {0})
  run_all [] = pure tt
  run_all ((cb, d) ∷ rest) = do run_callback cb d; run_all rest

  -- A callback does not look at the answers that wait.
  run_callback-pending :
      (cb : Callback) (d : Delivery) (c e : Client W) (q : List (Callback × Delivery))
      (r : Unit {0})
      → run_callback cb d c ≡ returns r e
      → (run_callback cb d (record c { pending = q }) ≡ returns tt (record e { pending = q }))
        × (e.pending ≡ c.pending)
  unfolding run_callback
  run_callback-pending cb d c e q r ran = ground (arith, ran)

  -- A wait that returns has run the callbacks of the first answers, in order, up to the one behind
  -- which `done` is 1.
  wait_done-prefix :
      (q : List (Callback × Delivery)) (c e : Client W)
      → wait_done q c ≡ returns tt e
      → c.pending ≡ q
      → (first : List (Callback × Delivery)) × ((q ≡ first ++ e.pending)
          × (run_all first (record c { pending = e.pending }) ≡ returns tt e)
          × (e.done ≡ 1))
  unfolding wait_done run_all
  wait_done-prefix [] c e w p =
      ([], (ground (arith, w, p), ground (arith, w, p), ground (arith, w)))
  wait_done-prefix ((cb, d) ∷ rest) c e w p = elim (Bool-cases (eqb c.done 1)) [
    | inl over ↦
        ([], (ground (arith, w, p, over), ground (arith, w, over), ground (arith, w, over)))
    | inr waits ↦ elim (Outcome-cases (run_callback cb d (record c { pending = rest }))) [
      | inl (r, (c', ran)) ↦
          let (first, (all, runs, one)) =
            wait_done-prefix rest c' e (ground (arith, w, waits, ran))
              (run_callback-pending cb d (record c { pending = rest }) c' rest r ran).1 in
          let early =
            (run_callback-pending cb d (record c { pending = rest }) c' e.pending r ran).0 in
          ((cb, d) ∷ first, (ap (λ v. (cb, d) ∷ v) all, ground (arith, early, runs), one))
      | inr (s, (c', stopped)) ↦ ground (arith, w, waits, stopped)
    ]
  ]

  -- Suppose that HG_Trigger takes the completions in their order, that a block function returns, in the model where it takes the answers that wait one
  -- after the other, and that Mercury holds these answers as completions, with the progress thread
  -- alive and not shut down. Then some number of steps of the thread alone runs just the callbacks
  -- of the first answers, and leaves the others; the effect of these callbacks, in this order, is
  -- the state that the block function leaves; and `done` is HG_TRUE in it.
  pub client_block-steps :
      (hg_trigger : Triggers (Callback × Delivery)) (c e : Client W)
      (p : Comm (Callback × Delivery))
      → IsOldestFirst hg_trigger
      → client_block c ≡ returns tt e
      → p.completed ≡ c.pending
      → p.shutdown_flags ≡ false
      → p.at ≢ ended
      → (n : ℕ) × ((first : List (Callback × Delivery)) × ((steps hg_trigger n p).ran
            ≡ p.ran ++ first)
          × ((steps hg_trigger n p).completed ≡ e.pending)
          × (run_all first (record c { pending = e.pending }) ≡ returns tt e)
          × (e.done ≡ 1))
  unfolding client_block
  client_block-steps hg_trigger c e p order returned holds running alive =
      let (first, (all, runs, one)) = wait_done-prefix c.pending c e returned refl in
      let (n, (ran, left)) =
        steps-prefix hg_trigger order first e.pending p running alive (holds ∙ all) in
      (n, (first, ran, left, runs, one))
