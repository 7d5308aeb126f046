-- ===== src/Tests/Threads.antt =====
-- Waiting for answers and for closed files.
use hvac_arc.Base.{codes, [], ◌∷◌, refl, [], ◌∷◌}
use hvac_arc.Completion.{Shared, Step, issue, idle, IsAnswer}
use hvac_arc.Completion.Solo.{start, next, WaitEnds, solo-WaitEnds}
use hvac_arc.Completion.Overlap.{Steps, IsQuiet, overlapped, overlap_loses_wakeups}
use hvac_arc.Server.Waking.{Mover, asleep, closed, at_rest, Turn, Turns, IsOwn, close-lost}
use hvac_arc.Server.Settling.{Settles, close-Settles}

abbrev asked_once : Shared
asked_once = record { done = 0; in_flight = 1; waiting = 1; asleep = 0 }

solo-WaitEnds_example : WaitEnds asked_once
solo-WaitEnds_example = solo-WaitEnds asked_once (next start (issue idle) (refl, refl))

overlap_loses_wakeups_example :
    Steps idle (overlapped idle)
    × ((t u : Shared) (r : Steps (overlapped idle) t) → IsQuiet r → (m : Step t u) → ¬ IsAnswer m)
overlap_loses_wakeups_example = overlap_loses_wakeups idle refl

abbrev sleeping : Mover
sleeping = record { phase = asleep; queue = codes "a" ∷ []; list = []; copied = codes "c" ∷ [] }

close-Settles_example :
    Settles (codes "c" ∷ codes "a" ∷ codes "b" ∷ []) (closed (codes "b") sleeping)
close-Settles_example = close-Settles sleeping (codes "b") refl

close-lost_example :
    Turns (at_rest [] []) (at_rest (codes "b" ∷ []) (codes "a" ∷ []))
    × ((t : Mover) (m : Turn (at_rest (codes "b" ∷ []) (codes "a" ∷ [])) t) → ¬ IsOwn m)
close-lost_example = close-lost (codes "a") (codes "b")
