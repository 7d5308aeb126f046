-- ===== src/Client/Addresses.antt =====
-- `hvac_client_comm_lookup_addr` over the file that `hvac_comm_list_addr` writes.
use mathlib.Core.List.{Mem, Perm}
use hvac_arc.Base.{
  ◌↔◌, ap, ◌+◌, ◌≡◌, ◌∙◌, inl, inr, ℤ, int_ord, Option, none, some, List, [], length, Bytes,
  returns, arith, Option-cases,
}
use hvac_arc.OrderedMap.{lookup, insert, AllEntries, AllEntries-insert, AllEntries-lookup}
use hvac_arc.Registry.{find_rank}
use hvac_arc.Registry.RoundTrip.{Server, Tokens, post_all, first_of_rank, find_rank-post_all}
use hvac_arc.Registry.Order.{OnePerRank, first_of_rank-Mem, Mem-first_of_rank, first_of_rank-Perm}
use hvac_arc.Host.{Host}
use hvac_arc.Client.Defs.{Client}
use hvac_arc.Client.Rpc.{lookup_addr, read_config}

-- What the file says of a rank.
abbrev pub in_file : Bytes → ℤ → Option Bytes
in_file file rank = find_rank (length file + 1) rank file

module _ (h : Host) (file : Bytes) where
  -- The client sees the file, and remembers nothing else.
  pub record Agrees (c : Client h.World) : Type 0 where
    pub reads : h.config_file c.world ≡ some file
    pub cached : AllEntries (λ rank address. in_file file rank ≡ some address) c.address_cache

  read_config_found :
      (rank : ℤ) (address : Bytes) (c : Client h.World)
      → Agrees c
      → in_file file rank ≡ some address
      → (read_config h rank c
          ≡ returns
              (some address)
              (record c { address_cache = insert rank address c.address_cache }))
        × Agrees (record c { address_cache = insert rank address c.address_cache })
  unfolding read_config
  read_config_found rank address c a e = (
    ground (arith, a.reads),
    record {
      reads = a.reads;
      cached =
          AllEntries-insert (λ r known. in_file file r ≡ some known) rank address c.address_cache e
            a.cached;
    },
  )

  read_config_missing :
      (rank : ℤ) (c : Client h.World)
      → Agrees c
      → in_file file rank ≡ none
      → read_config h rank c ≡ returns none c
  unfolding read_config
  read_config_missing rank c a e = ground (arith, a.reads)

  lookup_addr_unknown :
      (rank : ℤ) (c : Client h.World)
      → lookup rank c.address_cache ≡ none
      → lookup_addr h rank c ≡ read_config h rank c
  unfolding lookup_addr
  lookup_addr_unknown rank c e = ground arith

  lookup_addr_known :
      (rank : ℤ) (address : Bytes) (c : Client h.World)
      → lookup rank c.address_cache ≡ some address
      → lookup_addr h rank c ≡ returns (some address) c
  unfolding lookup_addr
  lookup_addr_known rank address c e = ground arith

  -- A lookup says what the file says, whether it was remembered or read now, and what is remembered
  -- goes on agreeing with the file.
  pub lookup_addr_lem :
      (rank : ℤ) (c : Client h.World)
      → Agrees c
      → (d : Client h.World) × (lookup_addr h rank c ≡ returns (in_file file rank) d) × Agrees d
  lookup_addr_lem rank c a = elim (Option-cases (lookup rank c.address_cache)) [
    | inr (address, known) ↦ (
      c,
      ground (
        arith,
        lookup_addr_known rank address c known,
        AllEntries-lookup (λ r found. in_file file r ≡ some found) rank c.address_cache address
            a.cached known,
      ),
      a,
    )
    | inl unknown ↦ elim (Option-cases (in_file file rank)) [
      | inr (address, found) ↦
          let (reads, agrees) = read_config_found rank address c a found in
          (_, rw found (lookup_addr_unknown rank c unknown ∙ reads), agrees)
      | inl missing ↦ (
        c,
        rw missing (lookup_addr_unknown rank c unknown ∙ read_config_missing rank c a missing),
        a,
      )
    ]
  ]

-- When all servers have posted their addresses, a client that sees their file finds for each rank
-- the address that the first server of the rank posted, and a null address for any other rank.
pub lookup_addr-post_all :
    (h : Host) (ss : List Server) (file : Bytes) (rank : ℤ) (c : Client h.World)
    → Tokens ss
    → post_all ss [] ≡ returns tt file
    → Agrees h file c
    → (d : Client h.World) × (lookup_addr h rank c ≡ returns (first_of_rank rank ss) d)
      × Agrees h file d
lookup_addr-post_all h ss file rank c t posted a =
    let (d, says, agrees) = lookup_addr_lem h file rank c a in
    let (same, posts, found) = find_rank-post_all ss rank t in
    (d, ground (arith, says, posts, found), agrees)

-- Servers, one for each rank, post their addresses, which are not empty and hold no white space, in
-- any order. Then a client that sees their file, and remembers nothing that the file does not say,
-- finds for each rank the same address whatever the order, the one that the server of this rank
-- posted, or a null address where there is no such server; and what it remembers afterwards goes on
-- agreeing with the file.
pub lookup_addr-Perm :
    (h : Host) (ss order : List Server) (file : Bytes) (rank : ℤ) (c : Client h.World)
    → Tokens order
    → OnePerRank ss
    → Perm order ss
    → post_all order [] ≡ returns tt file
    → Agrees h file c
    → (d : Client h.World) × (lookup_addr h rank c ≡ returns (first_of_rank rank ss) d)
      × ((address : Bytes)
          → (first_of_rank rank ss ≡ some address)
            ↔ Mem (record { rank = rank; address = address }) ss)
      × Agrees h file d
lookup_addr-Perm h ss order file rank c t one p posted a =
    let (d, says, agrees) = lookup_addr-post_all h order file rank c t posted a in
    (
      d,
      says ∙ ap (λ o. returns o d) (first_of_rank-Perm order ss rank one p),
      λ address. (
        first_of_rank-Mem ss rank address,
        Mem-first_of_rank ss (record { rank = rank; address = address }) one,
      ),
      agrees,
    )
