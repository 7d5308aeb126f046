-- ===== src/Registry/Order.antt =====
-- The order in which servers post: hvac_comm_list_addr locks the file, and no server waits for another.
use mathlib.Core.List.{Mem, mem-cons_of_mem, Memᴰ, Perm}
use mathlib.Core.List.Perm
use mathlib.Core.Logic.{∥∥₁_elim}
use hvac_arc.Base.{
  ◌≡◌, refl, sym, ap, ◌∙◌, ℤ, int_ord, some, List, [], ◌∷◌, if◌then◌else◌, ◌==◌, Bytes, Bool-cases,
  Option-cases, inl, inr, arith, eqz_iff,
}
use hvac_arc.Registry.RoundTrip.{Server, first_of_rank}

-- Servers of one rank have one address, so that each rank stands for a server.
abbrev pub OnePerRank : List Server → Type 0
OnePerRank ss = (s t : Server) → Mem s ss → Mem t ss → s.rank ≡ t.rank → s.address ≡ t.address

-- What a rank finds was posted under it.
pub first_of_rank-Mem :
    (ss : List Server) (rank : ℤ) (address : Bytes)
    → first_of_rank rank ss ≡ some address
    → Mem (record { rank = rank; address = address }) ss
first_of_rank-Mem [] rank address e = absurd (ground arith)
first_of_rank-Mem (s ∷ ss) rank address e = elim (Bool-cases (s.rank == rank)) [
  | inl this ↦ ∣ Memᴰ.head (ground (arith, eqz_iff s.rank rank)) ∣₁
  | inr other ↦ mem-cons_of_mem s (first_of_rank-Mem ss rank address (ground arith))
]

found :
    (ss : List Server) (s : Server)
    → Memᴰ s ss
    → (address : Bytes) × (first_of_rank s.rank ss ≡ some address)
found [] s m = elim m [ ]
found (t ∷ ss) s (Memᴰ.head e) = (t.address, ground (arith, eqz_iff t.rank s.rank))
found (t ∷ ss) s (Memᴰ.tail m) =
    let (address, e) = found ss s m in
    ((if t.rank == s.rank then t.address else address), ground arith)

-- With one server for each rank, what a rank finds is exactly what was posted under it.
pub Mem-first_of_rank :
    (ss : List Server) (s : Server)
    → OnePerRank ss
    → Mem s ss
    → first_of_rank s.rank ss ≡ some s.address
Mem-first_of_rank ss s one m = ∥∥₁_elim m (hlevel) λ d.
    let (address, e) = found ss s d in
    e
    ∙ ap some (
        one (record { rank = s.rank; address = address }) s (first_of_rank-Mem ss s.rank address e)
          m refl)

-- Two lists of the same servers find the same.
pub first_of_rank-Perm :
    (ss ts : List Server) (rank : ℤ)
    → OnePerRank ts
    → Perm ss ts
    → first_of_rank rank ss ≡ first_of_rank rank ts
first_of_rank-Perm ss ts rank one p = elim (Option-cases (first_of_rank rank ss)) [
  | inr (address, e) ↦
      e
      ∙ sym (
          Mem-first_of_rank ts (record { rank = rank; address = address }) one
            ((Perm.mem_iff p).0 (first_of_rank-Mem ss rank address e)))
  | inl gone ↦ elim (Option-cases (first_of_rank rank ts)) [
    | inl too ↦ gone ∙ sym too
    | inr (address, e) ↦
        Mem-first_of_rank ss (record { rank = rank; address = address })
          (λ s t ms mt. one s t ((Perm.mem_iff p).0 ms) ((Perm.mem_iff p).0 mt))
          ((Perm.mem_iff p).1 (first_of_rank-Mem ts rank address e))
        ∙ sym e
  ]
]
