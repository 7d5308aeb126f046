-- ===== src/Server/Manners.antt =====
-- Clients of hvac_comm.cpp that use only what they opened.
use hvac_arc.Base.{
  ◌≡◌, ◌≢◌, ℤ, pos, negsuc, int_ord, eqz, eqz_iff, Bool, true, false, ◌||◌, some, List, [], ◌∷◌,
  if◌then◌else◌, Bytes, bytes_ord, Outcome, returns, arith,
}
use hvac_arc.Host.{Request, Delivery, replied, open_in, read_in, seek_in, close_in}
use hvac_arc.Server.Defs.{Kernel, Server}
use hvac_arc.Server.Handlers.{serve}
use hvac_arc.Server.Events.{Event, requested, woken, copies, happen}
use hvac_arc.Server.Cache.{StaticFiles}

-- The descriptors that clients hold: each that an open was answered with, until it is closed.
abbrev pub holds : ℤ → List ℤ → Bool
holds fd [] = false
holds fd (g ∷ held) = eqz g fd || holds fd held

abbrev pub without : ℤ → List ℤ → List ℤ
without fd [] = []
without fd (g ∷ held) = if eqz g fd then without fd held else g ∷ without fd held

abbrev pub holding : {S : Type 0} → Request → Outcome S Delivery → List ℤ → List ℤ
holding (open_in path) (returns (replied fd bytes) s) held = fd ∷ held
holding (close_in fd) o held = without fd held
holding r o held = held

pub holds-without :
    (g fd : ℤ) (held : List ℤ) → holds g (without fd held) ≡ true → (g ≢ fd) × (holds g held ≡ true)
holds-without g fd [] h = absurd (ground arith)
holds-without g fd (x ∷ held) h = ground (arith, holds-without g fd held, eqz_iff x fd, eqz_iff x g)

-- The offset -1, for the current one, or one that is not negative.
abbrev pub IsPlace : ℤ → Type 0
IsPlace (pos m) = Unit
IsPlace (negsuc m) = m ≡ 0

module _ (k : Kernel) (files : StaticFiles k) where
  -- What a client that holds these descriptors may ask for.
  abbrev pub MayAsk : List ℤ → Request → Server k.World → Type 0
  MayAsk held (open_in path) s = (contents : Bytes) × (files.content path s.world ≡ some contents)
  MayAsk held (read_in (pos n) fd offset) s = (holds fd held ≡ true) × IsPlace offset
  MayAsk held (read_in (negsuc n) fd offset) s = ⊥
  MayAsk held (seek_in fd offset whence) s = holds fd held ≡ true
  MayAsk held (close_in fd) s = holds fd held ≡ true

  -- A history of such requests, with steps of the data mover between them.
  abbrev pub IsPolite : List ℤ → List Event → Server k.World → Type 0
  IsPolite held [] s = Unit
  IsPolite held (requested r ∷ es) s =
      MayAsk held r s × IsPolite (holding r (serve k r s) held) es (happen k (requested r) s)
  IsPolite held (woken ∷ es) s = IsPolite held es (happen k woken s)
  IsPolite held (copies bbpath ∷ es) s = IsPolite held es (happen k (copies bbpath) s)
