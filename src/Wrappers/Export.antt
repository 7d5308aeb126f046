-- ===== src/Wrappers/Export.antt =====
-- export_stats_to_file of wrappers.c.
use hvac_arc.Base.{
  ℕ, ◌+◌, ◌≡◌, refl, ap, ◌∙◌, pos, Bool, true, false, Option, none, some, List, [], ◌∷◌, ◌++◌,
  Bytes, codes,
}
use hvac_arc.Text.{print_int}
use hvac_arc.Host.{Host}
use hvac_arc.Wrappers.Defs.{Process}
use hvac_arc.Wrappers.Tallies.{
  Tally, tally_of, WrapperCall, count_if, is_tracked_open, is_data_open, is_system_open, is_close,
  is_read, is_pread, made, made_tally,
}

-- `printf` writes a `double` as `seconds` says; times are in nanoseconds here.
module _ (seconds : ℕ → Bytes) where
  -- `fprintf(file, "... Stats: count=%zu, total_time=%.6f\n", ...)`.
  unfoldable pub stats_line : Bytes → ℕ → ℕ → Bytes
  stats_line name count time =
      name
      ++ (codes " Stats: count="
          ++ (print_int (pos count) ++ (codes ", total_time=" ++ (seconds time ++ 10 ∷ []))))

  -- The lines on the opens.
  unfoldable pub open_lines : {W : Type 0} → Process W → Bytes
  unfolding stats_line
  open_lines p =
      stats_line (codes "Open") p.open_stats.count p.open_stats.total_time
      ++ (stats_line (codes "Open Data") p.open_data_stats.count p.open_data_stats.total_time
          ++ (stats_line (codes "Open System") p.open_system_stats.count
                p.open_system_stats.total_time
              ++ (codes "Open total_time="
                  ++ (seconds (p.open_data_stats.total_time + p.open_system_stats.total_time)
                      ++ 10 ∷ []))))

  -- What the file holds; it is not written if it cannot be opened.
  unfoldable pub export_stats_to_file : {W : Type 0} → Bool → Process W → Option Bytes
  unfolding stats_line open_lines
  export_stats_to_file false p = none
  export_stats_to_file true p = some (
      open_lines p
      ++ (stats_line (codes "Close") p.close_stats.count p.close_stats.total_time
          ++ (stats_line (codes "Read") p.read_stats.count p.read_stats.total_time
              ++ stats_line (codes "Pread") p.pread_stats.count p.pread_stats.total_time)))

  -- A line of the file: its words up to the count, the count, and a time.
  abbrev counted : Bytes → ℕ → ℕ → Bytes
  counted words count time =
      words ++ (print_int (pos count) ++ (codes ", total_time=" ++ (seconds time ++ codes "\n")))

  -- The seven lines, given what each statistic has counted.
  abbrev pub report : {W : Type 0} → Tally → Process W → Bytes
  report t q =
      counted (codes "Open Stats: count=") t.tracked_opens q.open_stats.total_time
      ++ (counted (codes "Open Data Stats: count=") t.data_opens q.open_data_stats.total_time
          ++ (counted (codes "Open System Stats: count=") t.system_opens
                q.open_system_stats.total_time
              ++ (codes "Open total_time="
                  ++ (seconds (q.open_data_stats.total_time + q.open_system_stats.total_time)
                      ++ codes "\n"))))
      ++ (counted (codes "Close Stats: count=") t.closes q.close_stats.total_time
          ++ (counted (codes "Read Stats: count=") t.reads q.read_stats.total_time
              ++ counted (codes "Pread Stats: count=") t.preads q.pread_stats.total_time))

  export-report :
      {W : Type 0} (q : Process W) → export_stats_to_file true q ≡ some (report (tally_of q) q)
  unfolding export_stats_to_file stats_line open_lines
  export-report q = refl

  -- Whatever calls of the four wrappers a program makes, and wherever the process ends, the exported
  -- file has these seven lines, with the process's total times. Their counts are what the statistics
  -- were, and one more for each finished open that began with redirection on and did not fail, in
  -- the first line if the client's rules track its file, else in the second if the path holds the
  -- data set's directory, else in the third; one more for each finished close that began with
  -- redirection on and did not fail; and one more for each finished read and for each pread.
  pub made-export_stats_to_file :
      (h : Host) (calls : List WrapperCall) (p : Process h.World)
      → let (done, q) = made h calls p in
        export_stats_to_file true q
        ≡ some (
            report
              (record {
                tracked_opens = p.open_stats.count + count_if is_tracked_open done;
                data_opens = p.open_data_stats.count + count_if is_data_open done;
                system_opens = p.open_system_stats.count + count_if is_system_open done;
                closes = p.close_stats.count + count_if is_close done;
                reads = p.read_stats.count + count_if is_read done;
                preads = p.pread_stats.count + count_if is_pread done;
              })
              q)
  made-export_stats_to_file h calls p =
      let (done, q) = made h calls p in
      export-report q ∙ ap (λ t. some (report t q)) (made_tally h calls p)
