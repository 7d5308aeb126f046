-- ===== src/Wrappers/Mapping.antt =====
-- `MAP_OR_FAIL` of hvac_internal.h: the first call of each wrapper.
use hvac_arc.Base.{ℕ, ℤ, pos, ◌≡◌, true, false, Bytes, stops, exits, arith}
use hvac_arc.Host.{Host}
use hvac_arc.Wrappers.Defs.{
  unmapped, Symbol, open_symbol, close_symbol, read_symbol, pread_symbol, name_of, set_mapped,
  Process,
}
use hvac_arc.Wrappers.Calls.{wrap_open, wrap_close, wrap_read, wrap_pread}
use hvac_arc.Wrappers.Passing.{in_world, after_clock}

module _ (h : Host) where
  abbrev pub mapping : Symbol → Process h.World → Process h.World
  mapping symbol p = record p { mapped = set_mapped symbol p.mapped }

  -- Where `dlsym` finds a function, the first call of its wrapper is as any later one.
  pub first_call :
      (p : Process h.World) (path : Bytes) (flags mode count : ℕ) (fd offset : ℤ)
      → ((symbol : Symbol) → h.resolves (name_of symbol) ≡ true)
      → (wrap_open h path flags mode p ≡ wrap_open h path flags mode (mapping open_symbol p))
        × (wrap_close h fd p ≡ wrap_close h fd (mapping close_symbol p))
        × (wrap_read h fd count p ≡ wrap_read h fd count (mapping read_symbol p))
        × (wrap_pread h fd count offset p ≡ wrap_pread h fd count offset (mapping pread_symbol p))
  unfolding wrap_open wrap_close wrap_read wrap_pread
  first_call p path flags mode count fd offset finds = (
    ground (arith, finds open_symbol),
    ground (arith, finds close_symbol),
    ground (arith, finds read_symbol),
    ground (arith, finds pread_symbol),
  )

  -- Where none of the functions has been found and `dlsym` finds none, each wrapper reads the clock
  -- and ends the process with the status 1: no other function is called, and no server is asked.
  pub unmapped_exits :
      (p : Process h.World) (path : Bytes) (flags mode count : ℕ) (fd offset : ℤ)
      → p.mapped ≡ unmapped
      → ((symbol : Symbol) → h.resolves (name_of symbol) ≡ false)
      → let q = in_world h p (after_clock h p p.client.world) p in
        (wrap_open h path flags mode p ≡ stops (exits (pos 1)) q)
        × (wrap_close h fd p ≡ stops (exits (pos 1)) q)
        × (wrap_read h fd count p ≡ stops (exits (pos 1)) q)
        × (wrap_pread h fd count offset p ≡ stops (exits (pos 1)) q)
  unfolding wrap_open wrap_close wrap_read wrap_pread
  unmapped_exits p path flags mode count fd offset new lost = (
    ground (arith, lost open_symbol),
    ground (arith, lost close_symbol),
    ground (arith, lost read_symbol),
    ground (arith, lost pread_symbol),
  )
