-- ===== src/Tests/Descriptors.antt =====
-- A kernel that keeps the list of its open descriptors, and two clients of its server.
use hvac_arc.Base.{
  ℕ, ◌+◌, ◌≤◌, ◌≡◌, ◌≢◌, refl, ℤ, pos, negsuc, minus_one, int_ord, inl, inr, Bool, true, false,
  ◌||◌, none, some, List, [], ◌∷◌, ◌++◌, if◌then◌else◌, eqb, eqb_iff, Bytes, bytes_ord, codes,
  state_of, arith, Bool-cases,
}
use hvac_arc.OrderedMap.{lookup, member}
use hvac_arc.Host.{open_in, read_in, close_in}
use hvac_arc.Server.{Kernel, Server, Event, requested, woken, copies, happen_all, serve}
use hvac_arc.Server.Descriptors.{Descriptors, close-after_open}

abbrev pub among : ℕ → List ℕ → Bool
among n [] = false
among n (m ∷ ms) = eqb m n || among n ms

abbrev pub sum : List ℕ → ℕ
sum [] = 0
sum (m ∷ ms) = m + sum ms

abbrev pub without : ℕ → List ℕ → List ℕ
without n [] = []
without n (m ∷ ms) = let rest = without n ms in if eqb m n then rest else m ∷ rest

pub among-sum : (n : ℕ) (ms : List ℕ) → among n ms ≡ true → n ≤ sum ms
among-sum n [] h = ground arith
among-sum n (m ∷ ms) h = ground (arith, among-sum n ms)

pub among-without :
    (n g : ℕ) (ms : List ℕ) → n ≢ g → among n ms ≡ true → among n (without g ms) ≡ true
among-without n g [] other h = h
among-without n g (m ∷ ms) other h = ground (arith, among-without n g ms other)

abbrev pub live_in : ℤ → List ℕ → Bool
live_in (pos n) ms = among n ms
live_in (negsuc n) ms = false

abbrev pub closing : ℤ → List ℕ → List ℕ
closing (pos n) ms = without n ms
closing (negsuc n) ms = ms

abbrev counting : Kernel
counting = record {
  World = List ℕ;
  open_ro = λ path w. (pos (sum w + 1), (sum w + 1) ∷ w);
  read = λ fd n w. (pos 0, [], w);
  pread = λ fd n offset w. (pos 0, [], w);
  lseek = λ fd offset whence w. (offset, w);
  close = λ fd w. (pos 0, closing fd w);
  mkdtemp = λ template w. (some template, w);
  copy = λ source target w. (true, w);
  registers = λ n. true;
  transfers = λ size n. true;
}

fresh : (ms : List ℕ) → among (sum ms + 1) ms ≡ false
fresh ms = elim (Bool-cases (among (sum ms + 1) ms)) [
  | inl there ↦ absurd (ground (arith, among-sum (sum ms + 1) ms there))
  | inr new ↦ new
]

live-cons : (fd : ℤ) (m : ℕ) (ms : List ℕ) → live_in fd ms ≡ true → live_in fd (m ∷ ms) ≡ true
live-cons (pos n) m ms h = ground arith
live-cons (negsuc n) m ms h = h

live-closing :
    (fd g : ℤ) (ms : List ℕ) → fd ≢ g → live_in fd ms ≡ true → live_in fd (closing g ms) ≡ true
live-closing (pos n) (pos g) ms other h = among-without n g ms (λ e. ground arith) h
live-closing (pos n) (negsuc g) ms other h = h
live-closing (negsuc n) g ms other h = absurd (ground arith)

descriptors : Descriptors counting
descriptors = record {
  live = live_in;
  open_fresh = λ path w. fresh w;
  open_opens = λ path w good. ground (arith, eqb_iff (sum w + 1) (sum w + 1));
  open_live = λ fd path w h. live-cons fd (sum w + 1) w h;
  read_live = λ fd g n w h. h;
  pread_live = λ fd g n offset w h. h;
  lseek_live = λ fd g offset whence w h. h;
  close_live = λ fd g w other h. live-closing fd g w other h;
  mkdtemp_live = λ fd t w h. h;
  copy_live = λ fd source target w h. h;
}

abbrev first_file : Bytes
first_file = codes "/d/a"

abbrev started : Server (List ℕ)
started = record {
  world = [];
  fd_to_path = [];
  path_cache_map = [];
  data_queue = [];
  local_list = [];
}

-- Another client opens, reads and closes a file of its own, under the descriptor 2.
abbrev others : List Event
others =
    requested (open_in (codes "/d/b"))
    ∷ requested (read_in (pos 4) (pos 2) minus_one)
    ∷ requested (close_in (pos 2))
    ∷ woken
    ∷ copies (codes "/bb")
    ∷ []

close-after_open_example :
    let t = happen_all counting others (state_of (serve counting (open_in first_file) started)) in
    let u = state_of (serve counting (close_in (pos 1)) t) in
    (u.data_queue ≡ (
      if member first_file t.path_cache_map then t.data_queue else t.data_queue ++ first_file ∷ []))
    × (lookup (pos 1) u.fd_to_path ≡ none)
close-after_open_example =
    close-after_open counting descriptors (pos 1) first_file started others _ refl
      (λ e. ground arith) (tt, (tt, ((λ e. ground arith), (tt, (tt, tt))))) refl
