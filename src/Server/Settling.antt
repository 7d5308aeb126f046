-- ===== src/Server/Settling.antt =====
-- The data mover's thread of Server/Waking when nothing interrupts it.
use mathlib.Core.List.{append_assoc, append-nil}
use hvac_arc.Base.{◌≡◌, refl, ap, sym, ◌∙◌, List, [], ◌∷◌, ◌++◌, Bytes, arith}
use hvac_arc.Server.Waking.{
  Mover, asleep, notified, moving, signalled, closed, Turn, close, wake, copy, sleep, rouse, IsOwn,
}

-- Whatever steps of its own the data mover takes, it comes to sleep with nothing queued or listed
-- and with `paths` copied: it is there, or it can take such a step, and settles after each.
pub data Settles (paths : List Bytes) : Mover → Type 0 where
  settled :
      (s : Mover)
      → s.phase ≡ asleep
      → s.queue ≡ []
      → s.list ≡ []
      → s.copied ≡ paths
      → Settles paths s
  onward :
      (s t : Mover) (m : Turn s t)
      → IsOwn m
      → ((u : Mover) (n : Turn s u) → IsOwn n → Settles paths u)
      → Settles paths s

copies_next :
    {s u : Mover} (n : Turn s u) (path : Bytes) (rest : List Bytes)
    → IsOwn n
    → s.phase ≡ moving
    → s.list ≡ path ∷ rest
    → (u.phase ≡ moving)
      × (u.queue ≡ s.queue)
      × (u.list ≡ rest)
      × (u.copied ≡ s.copied ++ path ∷ [])
copies_next (close s p) path rest o m l = elim o [ ]
copies_next (wake s e) path rest o m l = absurd (ground arith)
copies_next (copy s p r e f) path rest o m l = ground (arith, f, l, e)
copies_next (sleep s e f) path rest o m l = absurd (ground arith)
copies_next (rouse s e) path rest o m l = elim o [ ]

sleeps_next :
    {s u : Mover} (n : Turn s u)
    → IsOwn n
    → s.phase ≡ moving
    → s.list ≡ []
    → (u.phase ≡ asleep) × (u.queue ≡ s.queue) × (u.list ≡ []) × (u.copied ≡ s.copied)
sleeps_next (close s p) o m l = elim o [ ]
sleeps_next (wake s e) o m l = absurd (ground arith)
sleeps_next (copy s p r e f) o m l = absurd (ground arith)
sleeps_next (sleep s e f) o m l = (refl, refl, l, refl)
sleeps_next (rouse s e) o m l = elim o [ ]

wakes_next :
    {s u : Mover} (n : Turn s u)
    → IsOwn n
    → s.phase ≡ notified
    → (u.phase ≡ moving) × (u.queue ≡ []) × (u.list ≡ s.list ++ s.queue) × (u.copied ≡ s.copied)
wakes_next (close s p) o m = elim o [ ]
wakes_next (wake s e) o m = (refl, refl, refl, refl)
wakes_next (copy s p r e f) o m = absurd (ground arith)
wakes_next (sleep s e f) o m = absurd (ground arith)
wakes_next (rouse s e) o m = elim o [ ]

moving-Settles :
    (list paths : List Bytes) (s : Mover)
    → s.phase ≡ moving
    → s.queue ≡ []
    → s.list ≡ list
    → s.copied ++ list ≡ paths
    → Settles paths s
moving-Settles [] paths s p q l c = onward s _ (sleep s p l) tt λ u n o.
    (let (asleep_now, same, none_listed, kept) = sleeps_next n o p l in
      settled u asleep_now (same ∙ q) none_listed (kept ∙ sym (append-nil s.copied) ∙ c))
moving-Settles (path ∷ rest) paths s p q l c = onward s _ (copy s path rest p l) tt λ u n o.
    (let (still, same, shorter, longer) = copies_next n path rest o p l in
      moving-Settles rest paths u still (same ∙ q) shorter
        (ap (λ v. v ++ rest) longer ∙ append_assoc s.copied (path ∷ []) rest ∙ c))

-- A path that is queued while the data mover sleeps wakes it. Whatever steps of its own it takes
-- then, it sleeps again with both lists empty, and it has copied, after what it had copied before,
-- the paths of its list, those that were queued, and the new one, in this order.
pub close-Settles :
    (s : Mover) (path : Bytes)
    → s.phase ≡ asleep
    → Settles (s.copied ++ (s.list ++ (s.queue ++ path ∷ []))) (closed path s)
close-Settles s path e =
    let notified_now : (closed path s).phase ≡ notified = ap signalled e in
    onward (closed path s) _ (wake (closed path s) notified_now) tt λ u n o.
      (let (awake, drained, listed, kept) = wakes_next n o notified_now in
        moving-Settles (s.list ++ (s.queue ++ path ∷ [])) _ u awake drained listed
          (ap (λ v. v ++ (s.list ++ (s.queue ++ path ∷ []))) kept))
