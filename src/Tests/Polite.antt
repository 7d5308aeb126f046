-- ===== src/Tests/Polite.antt =====
-- Clients that use only what they opened.
use hvac_arc.Base.{
  ℕ, ◌≤◌, ◌≡◌, refl, ℤ, pos, negsuc, minus_one, some, List, [], ◌∷◌, Bytes, bytes_ord, codes,
  length, take, drop, returns, length-take-le, le→leb, arith,
}
use hvac_arc.OrderedMap.{lookup, insert}
use hvac_arc.Host.{Delivery, open_in, read_in, seek_in, close_in}
use hvac_arc.Server.{Event, requested, woken, copies, happen, move_one, happen_all, serve, redirect}
use hvac_arc.Server.Streams.{Transfers}
use hvac_arc.Server.Manners.{IsPolite}
use hvac_arc.Server.Survival.{Posix, answers, answers-happen_all}
use hvac_arc.Tests.Samples.{data_file, text}
use hvac_arc.Tests.Shared.{Unix, unix, unix_files, unix_open, unix_server, rest_of, reading_at}

unix_preads :
    (fd : ℤ) (n offset : ℕ) (bytes : Bytes) (w : Unix)
    → rest_of fd w ≡ some bytes
    → (m : ℕ) × ((reading_at fd n (pos offset) w).0 ≡ pos m) × (m ≤ n)
unix_preads (negsuc m) n offset bytes w h = absurd (ground arith)
unix_preads (pos m) n offset bytes w h = (
  length (take n (drop offset (w.whole m))),
  ground arith,
  length-take-le n (drop offset (w.whole m)),
)

pub unix-Posix : Posix unix unix_files unix_open
unix-Posix = record {
  pread_own = unix_preads;
  lseek_own = λ fd offset whence bytes w h. (bytes, h);
  close_own = λ fd bytes w h. refl;
}

pub unix_transfers : Transfers unix
unix_transfers = record { registers = λ n. refl; transfers = λ size n le. le→leb size n le }

-- Two clients, of which the second reads at an offset, and the data mover.
abbrev shared_use : List Event
shared_use =
    requested (open_in data_file)
    ∷ requested (open_in data_file)
    ∷ requested (read_in (pos 2) (pos 5) minus_one)
    ∷ requested (read_in (pos 2) (pos 6) (pos 1))
    ∷ requested (close_in (pos 6))
    ∷ woken
    ∷ copies (codes "/bb")
    ∷ requested (seek_in (pos 5) (pos 0) (pos 0))
    ∷ requested (close_in (pos 5))
    ∷ []

shared_use-IsPolite : IsPolite unix unix_files [] shared_use unix_server
unfolding lookup redirect serve happen move_one insert
shared_use-IsPolite =
    ((text, refl), ((text, refl), ((refl, refl), ((refl, tt), (refl, (refl, (refl, tt)))))))

answers-happen_all_example :
    (ds : List Delivery) × (answers unix unix_files shared_use unix_server
      ≡ returns ds (happen_all unix shared_use unix_server))
answers-happen_all_example =
    answers-happen_all unix unix_files unix_open unix_transfers unix-Posix [] shared_use unix_server
      shared_use-IsPolite tt (λ fd h. absurd (ground arith))
