-- ===== src/Wrappers/Tallies.antt =====
-- The statistics of wrappers.c over a program's calls, and the file that they are exported to.
use hvac_arc.Base.{
  ℕ, ◌+◌, ◌≡◌, ℤ, pos, minus_one, eqz, Bool, true, false, not, ◌||◌, ◌&&◌, List, [], ◌∷◌,
  if◌then◌else◌, Bytes, contains, Outcome, returns, stops, arith,
}
use hvac_arc.Host.{Host}
use hvac_arc.Wrappers.Defs.{Process, note_call}
use hvac_arc.Client.{Client, tracked_path, track_file, is_some}
use hvac_arc.Wrappers.Calls.{
  creates, data_set, Wrapper, wrap_open, wrap_close, wrap_read, wrap_pread,
}

pub data WrapperCall : Type 0 where
  open_call : Bytes → ℕ → ℕ → WrapperCall
  close_call : ℤ → WrapperCall
  read_call : ℤ → ℕ → WrapperCall
  pread_call : ℤ → ℕ → ℤ → WrapperCall

-- A call that returned: whether redirection was off when it began, whether the rules for tracking
-- take its file once it is open, and its result.
pub record Finished : Type 0 where
  pub call : WrapperCall
  pub direct : Bool
  pub tracked : Bool
  pub result : ℤ

-- An open that began with redirection on and did not fail.
abbrev pub is_open : Finished → Bool
is_open f = not (f.direct || eqz f.result minus_one)

abbrev pub is_tracked_open : Finished → Bool
is_tracked_open f = elim f.call [
  | open_call path flags mode ↦ is_open f && f.tracked
  | other ↦ false
]

abbrev pub is_data_open : Finished → Bool
is_data_open f = elim f.call [
  | open_call path flags mode ↦ is_open f && (not f.tracked && contains path data_set)
  | other ↦ false
]

abbrev pub is_system_open : Finished → Bool
is_system_open f = elim f.call [
  | open_call path flags mode ↦ is_open f && (not f.tracked && not (contains path data_set))
  | other ↦ false
]

abbrev pub is_close : Finished → Bool
is_close f = elim f.call [ close_call fd ↦ not f.direct && eqz f.result (pos 0) | other ↦ false ]

abbrev pub is_read : Finished → Bool
is_read f = elim f.call [ read_call fd n ↦ true | other ↦ false ]

abbrev pub is_pread : Finished → Bool
is_pread f = elim f.call [ pread_call fd n offset ↦ true | other ↦ false ]

abbrev pub count_if : (Finished → Bool) → List Finished → ℕ
count_if test [] = 0
count_if test (f ∷ fs) = (if test f then 1 else 0) + count_if test fs

-- How many calls each of the statistics has counted.
pub record Tally : Type 0 where
  pub tracked_opens : ℕ
  pub data_opens : ℕ
  pub system_opens : ℕ
  pub closes : ℕ
  pub reads : ℕ
  pub preads : ℕ

abbrev pub tally_of : {W : Type 0} → Process W → Tally
tally_of p = record {
  tracked_opens = p.open_stats.count;
  data_opens = p.open_data_stats.count;
  system_opens = p.open_system_stats.count;
  closes = p.close_stats.count;
  reads = p.read_stats.count;
  preads = p.pread_stats.count;
}

-- A call that ends the process has counted nothing.
abbrev pub Ends : {W A : Type 0} → Tally → (A → Process W → Type 0) → Outcome (Process W) A → Type 0
Ends t Q (returns a q) = Q a q
Ends t Q (stops e q) = tally_of q ≡ t

module _ (h : Host) where
  abbrev pub direct_of : Process h.World → Bool
  direct_of p = p.client.disable_redirect || p.tl_disable_redirect

  abbrev pub added : List Finished → Tally → Tally
  added done t = record {
    tracked_opens = t.tracked_opens + count_if is_tracked_open done;
    data_opens = t.data_opens + count_if is_data_open done;
    system_opens = t.system_opens + count_if is_system_open done;
    closes = t.closes + count_if is_close done;
    reads = t.reads + count_if is_read done;
    preads = t.preads + count_if is_pread done;
  }

  read_tally :
      (fd : ℤ) (n : ℕ) (p : Process h.World)
      → Ends
          (tally_of p)
          (λ r q. tally_of q ≡ record (tally_of p) { reads = p.read_stats.count + 1 })
          (wrap_read h fd n p)
  unfolding wrap_read note_call
  read_tally fd n p = ground arith

  pread_tally :
      (fd : ℤ) (n : ℕ) (offset : ℤ) (p : Process h.World)
      → Ends
          (tally_of p)
          (λ r q. tally_of q ≡ record (tally_of p) { preads = p.pread_stats.count + 1 })
          (wrap_pread h fd n offset p)
  unfolding wrap_pread note_call
  pread_tally fd n offset p = ground arith

  close_tally :
      (fd : ℤ) (p : Process h.World)
      → Ends
          (tally_of p)
          (λ r q. tally_of q ≡ record (tally_of p) {
            closes = p.close_stats.count + (if not (direct_of p) && eqz r (pos 0) then 1 else 0);
          })
          (wrap_close h fd p)
  unfolding wrap_close note_call
  close_tally fd p = ground arith

  -- Whether a call opens a file that the client tracks, by what the client is once the local file
  -- is open.
  abbrev pub tracks : WrapperCall → Process h.World → Bool
  tracks (open_call path flags given) p =
      let mode = if creates flags then given else 0 in
      let w = (h.real_open path flags mode (h.clock p.client.world).1).1 in
      is_some (tracked_path h (record p.client { world = w }) path flags)
  tracks (close_call fd) p = false
  tracks (read_call fd n) p = false
  tracks (pread_call fd n offset) p = false

  abbrev Says : Outcome (Client h.World) Bool → Bool → Type 0
  Says (returns b c) tracked = b ≡ tracked
  Says (stops e c) tracked = Unit

  track_file-Says :
      (path : Bytes) (flags : ℕ) (fd : ℤ) (c : Client h.World)
      → Says (track_file h path flags fd c) (is_some (tracked_path h c path flags))
  unfolding track_file
  track_file-Says path flags fd c = ground arith

  open_tally :
      (path : Bytes) (flags mode : ℕ) (p : Process h.World)
      → let tracked = tracks (open_call path flags mode) p in
        Ends
          (tally_of p)
          (λ fd q.
            tally_of q
            ≡ added
                (record {
                  call = open_call path flags mode;
                  direct = direct_of p;
                  tracked = tracked;
                  result = fd;
                }
                  ∷ [])
                (tally_of p))
          (wrap_open h path flags mode p)
  unfolding wrap_open note_call
  open_tally path flags mode p =
      let given = if creates flags then mode else 0 in
      let (fd, w) = h.real_open path flags given (h.clock p.client.world).1 in
      ground (arith, track_file-Says path flags fd (record p.client { world = w }))

  abbrev pub run_call : WrapperCall → Wrapper h ℤ
  run_call (open_call path flags mode) = wrap_open h path flags mode
  run_call (close_call fd) = wrap_close h fd
  run_call (read_call fd n) = wrap_read h fd n
  run_call (pread_call fd n offset) = wrap_pread h fd n offset

  -- A program's calls, in order, as long as the process lives: those that returned, and what the
  -- process is at the end.
  abbrev continued :
      WrapperCall
      → Bool
      → Bool
      → (Process h.World → List Finished × Process h.World)
      → Outcome (Process h.World) ℤ
      → List Finished × Process h.World
  continued call direct tracked next (returns r q) =
      let (done, u) = next q in
      (record { call = call; direct = direct; tracked = tracked; result = r } ∷ done, u)
  continued call direct tracked next (stops e q) = ([], q)

  unfoldable pub made : List WrapperCall → Process h.World → List Finished × Process h.World
  unfolding wrap_open wrap_close wrap_read wrap_pread
  made [] p = ([], p)
  made (call ∷ calls) p =
      continued call (direct_of p) (tracks call p) (made calls) (run_call call p)

  call_tally :
      (call : WrapperCall) (p : Process h.World)
      → Ends
          (tally_of p)
          (λ r q.
            tally_of q
            ≡ added
                (record { call = call; direct = direct_of p; tracked = tracks call p; result = r }
                  ∷ [])
                (tally_of p))
          (run_call call p)
  call_tally (open_call path flags mode) p = ground (arith, open_tally path flags mode p)
  call_tally (close_call fd) p = ground (arith, close_tally fd p)
  call_tally (read_call fd n) p = ground (arith, read_tally fd n p)
  call_tally (pread_call fd n offset) p = ground (arith, pread_tally fd n offset p)

  continued_tally :
      (call : WrapperCall) (direct tracked : Bool)
      (next : Process h.World → List Finished × Process h.World) (t : Tally)
      (o : Outcome (Process h.World) ℤ)
      → ((q : Process h.World) → tally_of (next q).1 ≡ added (next q).0 (tally_of q))
      → Ends t
          (λ r q.
            tally_of q
            ≡ added (record { call = call; direct = direct; tracked = tracked; result = r } ∷ []) t)
          o
      → tally_of (continued call direct tracked next o).1
        ≡ added (continued call direct tracked next o).0 t
  continued_tally call direct tracked next t (stops e q) later ends = ground (arith, ends)
  continued_tally call direct tracked next t (returns r q) later ends =
      ground (arith, later q, ends)

  pub made_tally :
      (calls : List WrapperCall) (p : Process h.World)
      → tally_of (made calls p).1 ≡ added (made calls p).0 (tally_of p)
  unfolding made
  made_tally [] p = ground arith
  made_tally (call ∷ calls) p =
      continued_tally call (direct_of p) (tracks call p) (made calls) (tally_of p) (run_call call p)
        (made_tally calls) (call_tally call p)
