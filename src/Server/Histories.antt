-- ===== src/Server/Histories.antt =====
-- The data mover's thread, and the histories of its steps.
use hvac_arc.Base.{
  ◌≡◌, refl, sym, ap, ◌∙◌, none, List, [], ◌∷◌, ◌++◌, Bytes, Stop, Outcome, Outcome-cases, inl, inr,
  Prog, returns, stops, hangs, faults, state_of, continue, Option-cases, arith,
}
use hvac_arc.Host.{Request}
use hvac_arc.CachePolicy.Init.{Env}
use hvac_arc.Server.Defs.{Kernel, Server}
use hvac_arc.Server.Handlers.{serve}
use hvac_arc.Server.Mover.{pop, drain_into, move_one, move_all, mover_round}
use hvac_arc.Server.Events.{copy_next, Event, requested, woken, copies, happen, happen_all}
use hvac_arc.Server.Queue.{drain_into_lem}
use hvac_arc.Server.Thread.{bbpath_name, serve_all, wake_all, data_mover_fn}

-- One copy for each path.
abbrev copies_of : Bytes → List Bytes → List Event
copies_of bbpath [] = []
copies_of bbpath (path ∷ rest) = copies bbpath ∷ copies_of bbpath rest

module _ (k : Kernel) where
  happen_all-append :
      (es fs : List Event) (s : Server k.World)
      → happen_all k (es ++ fs) s ≡ happen_all k fs (happen_all k es s)
  unfolding happen_all
  happen_all-append [] fs s = refl
  happen_all-append (e ∷ es) fs s = happen_all-append es fs (happen k e s)

  move_all-happen_all :
      (bbpath : Bytes) (paths : List Bytes) (s : Server k.World)
      → s.local_list ≡ paths
      → move_all k bbpath paths s ≡ happen_all k (copies_of bbpath paths) s
  unfolding move_all happen_all happen move_one
  move_all-happen_all bbpath [] s e = refl
  move_all-happen_all bbpath (path ∷ rest) s e =
      move_all-happen_all bbpath rest (move_one k bbpath path s) (ap pop e)
      ∙ ap (happen_all k (copies_of bbpath rest)) (ap (λ l. copy_next k bbpath l s) (sym e))

  -- A round of the data mover is the history of one wake-up and of a copy for each file that waits,
  -- where no request comes in between.
  pub mover_round-happen_all :
      (bbpath : Bytes) (s : Server k.World)
      → mover_round k bbpath s
        ≡ happen_all k (woken ∷ copies_of bbpath (s.local_list ++ s.data_queue)) s
  unfolding mover_round happen_all happen
  mover_round-happen_all bbpath s =
      let drained = drain_into s.data_queue s in
      move_all-happen_all bbpath drained.local_list drained refl
      ∙ ap (λ l. happen_all k (copies_of bbpath l) drained)
          (ap (λ (d : Server k.World). d.local_list) (drain_into_lem s.data_queue s))

  -- The state that a run leaves is one that a history reaches.
  abbrev pub IsHistory : {A : Type 0} → Server k.World → Outcome (Server k.World) A → Type 0
  IsHistory s o = (es : List Event) × (state_of o ≡ happen_all k es s)

  serve-IsHistory : (r : Request) (s : Server k.World) → IsHistory s (serve k r s)
  unfolding happen_all happen
  serve-IsHistory r s = (requested r ∷ [], refl)

  -- What follows a step goes on from the history of the step.
  continue-IsHistory :
      {A B : Type 0} (f : A → Prog (Server k.World) B) (s : Server k.World)
      (o : Outcome (Server k.World) A)
      → IsHistory s o
      → ((a : A) (t : Server k.World) → IsHistory t (f a t))
      → IsHistory s (continue f o)
  continue-IsHistory f s (stops stop t) (es, e) next = (es, e)
  continue-IsHistory f s (returns a t) (es, e) next =
      let (fs, e') = next a t in
      (es ++ fs, e' ∙ ap (happen_all k fs) e ∙ sym (happen_all-append es fs s))

  serve_all-IsHistory : (rs : List Request) (s : Server k.World) → IsHistory s (serve_all k rs s)
  unfolding serve_all happen_all
  serve_all-IsHistory [] s = ([], refl)
  serve_all-IsHistory (r ∷ rs) s =
      continue-IsHistory (λ _. serve_all k rs) s (serve k r s) (serve-IsHistory r s)
        (λ a t. serve_all-IsHistory rs t)

  wake_all-IsHistory :
      (bbpath : Bytes) (wakes : List (List Request)) (s : Server k.World)
      → IsHistory s (wake_all k bbpath wakes s)
  unfolding wake_all happen_all
  wake_all-IsHistory bbpath [] s = ([], refl)
  wake_all-IsHistory bbpath (rs ∷ more) s =
      continue-IsHistory _ s (serve_all k rs s) (serve_all-IsHistory rs s) (λ a t.
        continue-IsHistory (λ _. wake_all k bbpath more) t (returns tt (mover_round k bbpath t))
          (woken ∷ copies_of bbpath (t.local_list ++ t.data_queue), mover_round-happen_all bbpath t)
          (λ b u. wake_all-IsHistory bbpath more u))

  wake_all_endless :
      (bbpath : Bytes) (wakes : List (List Request)) (s : Server k.World)
      → (e : Stop) × ((u : Server k.World) × (wake_all k bbpath wakes s ≡ stops e u))
  unfolding wake_all
  wake_all_endless bbpath [] s = (hangs, (s, refl))
  wake_all_endless bbpath (rs ∷ more) s = elim (Outcome-cases (serve_all k rs s)) [
    | inl (a, (t, served)) ↦
        let (e, (u, ends)) = wake_all_endless bbpath more (mover_round k bbpath t) in
        (e, (u, ground (arith, served, ends)))
    | inr (e, (u, stopped)) ↦ (e, (u, ground (arith, stopped)))
  ]

  -- Whatever the environment and the requests between the signals are, the data mover's thread
  -- never returns; and the state that it leaves, where it sleeps for ever or the process has ended,
  -- is one that a history of requests, wake-ups and copies reaches. Without BBPATH it ends in
  -- undefined behaviour before any of them.
  pub data_mover_fn-happen_all :
      (getenv : Env) (wakes : List (List Request)) (s : Server k.World)
      → (e : Stop) × ((es : List Event) × (data_mover_fn k getenv wakes s
            ≡ stops e (happen_all k es s))
          × (getenv bbpath_name ≡ none → (e ≡ faults) × (es ≡ [])))
  unfolding data_mover_fn happen_all
  data_mover_fn-happen_all getenv wakes s = elim (Option-cases (getenv bbpath_name)) [
    | inl missing ↦ (faults, ([], ground (arith, missing), λ _. (refl, refl)))
    | inr (bbpath, found) ↦
        let (e, (u, ends)) = wake_all_endless bbpath wakes s in
        let (es, reached) = wake_all-IsHistory bbpath wakes s in
        (e, (es, ground (arith, found, ends, reached), λ missing. ground (arith, found, missing)))
  ]
