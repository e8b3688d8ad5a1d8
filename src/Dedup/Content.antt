-- ===== src/Dedup/Content.antt =====
-- What a deduplication leaves readable.
use mathlib.Core.Path.{ap, subst}
use filehost.Base.{
  ◌≡◌, refl, sym, ◌∙◌, ◌≢◌, ◌⊎◌, inl, inr, Bool, some, List, [], ◌∷◌, All, Bytes, ◌==◌, ==_iff,
  Bool-cases, Option-cases, arith,
}
use filehost.Db.Model.{Uuid}
use filehost.Dedup.{Node, Store, put, Groups, Run, link_one, link_all, link_group, dedup}

-- A path reads as some bytes, through its links.
pub data Reads (store : Store) : Uuid → Bytes → Type 0 where
  here : {id : Uuid} {bytes : Bytes} → store id ≡ some (Node.regular bytes) → Reads store id bytes
  through :
      {id target : Uuid} {bytes : Bytes}
      → store id ≡ some (Node.symlink target)
      → Reads store target bytes
      → Reads store id bytes

module _ (store : Store) (canonical dup : Uuid) (bytes : Bytes) (apart : canonical ≢ dup)
    (h : store canonical ≡ some (Node.regular bytes))
    (g : store dup ≡ some (Node.regular bytes)) where
  abbrev linked : Store
  linked = put dup (Node.symlink canonical) store

  Reads-dup : (id : Uuid) → id ≡ dup → Reads linked id bytes
  Reads-dup id e =
      Reads.through {target = canonical} (ground (arith, ==_iff id dup))
        (Reads.here (ground (arith, ==_iff canonical dup)))

  same_bytes : (id : Uuid) (c : Bytes) → id ≡ dup → store id ≡ some (Node.regular c) → bytes ≡ c
  same_bytes id c e r = let both = sym g ∙ ap store (sym e) ∙ r in cc

  -- A link to the canonical copy in place of a file with the same bytes changes no reading.
  Reads-put : (id : Uuid) (c : Bytes) → Reads store id c → Reads linked id c
  Reads-put id c (Reads.here {id = _} {bytes = _} e) = elim (Bool-cases (id == dup)) [
    | inl q ↦
        rw (sym (same_bytes id c ((==_iff id dup).0 q) e)) (Reads-dup id ((==_iff id dup).0 q))
    | inr q ↦ Reads.here (ground (arith, q, e))
  ]
  Reads-put id c (Reads.through {id = _} {target = t} {bytes = _} e r) =
      elim (Bool-cases (id == dup)) [
        | inl q ↦
            let both = sym g ∙ ap store (sym ((==_iff id dup).0 q)) ∙ e in absurd (ground arith)
        | inr q ↦ Reads.through {target = t} (ground (arith, q, e)) (Reads-put t c r)
      ]

-- What stays of a store `s` in a store `t`: `t` has no file of its own, and all that `s` reads.
abbrev Keeps : Store → Store → Type 0
Keeps s t =
    ((id : Uuid) (b : Bytes) → t id ≡ some (Node.regular b) → s id ≡ some (Node.regular b))
    × ((id : Uuid) (b : Bytes) → Reads s id b → Reads t id b)

-- The duplicates of a group, against a store: none is the canonical file, and a file has its bytes.
abbrev pub AreCopies : Store → Uuid → List Uuid → Type 0
AreCopies s canonical = All (λ dup.
    (canonical ≢ dup)
    × ((a b : Bytes) → s canonical ≡ some (Node.regular a) → s dup ≡ some (Node.regular b) → a ≡ b))

Node-cases : (n : Node) → ((b : Bytes) × (n ≡ Node.regular b)) ⊎ ((t : Uuid) × (n ≡ Node.symlink t))
Node-cases (Node.regular b) = inl (b, refl)
Node-cases (Node.symlink t) = inr (t, refl)

module _ (dry_run : Bool) (can_link can_resolve : Uuid → Bool) where
  link_one-store :
      (canonical dup : Uuid) (run : Run)
      → ((link_one dry_run can_link can_resolve canonical dup run).store ≡ run.store)
        ⊎ ((b : Bytes) × (run.store dup ≡ some (Node.regular b))
            × ((link_one dry_run can_link can_resolve canonical dup run).store
                ≡ put dup (Node.symlink canonical) run.store))
  unfolding link_one
  link_one-store canonical dup run = elim (Option-cases (run.store dup)) [
    | inl e ↦ inl (ground (arith, e))
    | inr (n, e) ↦ elim (Node-cases n) [
      | inr (t, f) ↦ inl (ground (arith, e, f))
      | inl (b, f) ↦ elim (Bool-cases dry_run) [
        | inl d ↦ inl (ground (arith, e, f, d))
        | inr d ↦ elim (Bool-cases (can_link dup)) [
          | inr l ↦ inl (ground (arith, e, f, d, l))
          | inl l ↦ inr (b, ground (arith, e, f), ground (arith, e, f, d, l))
        ]
      ]
    ]
  ]

  module _ (s : Store) where
    Linked : Uuid → Bytes → Store → Type 0
    Linked canonical bytes t = Keeps s t × (t canonical ≡ some (Node.regular bytes))

    Linked-put :
        (canonical dup : Uuid) (bytes b : Bytes) (t : Store)
        → AreCopies s canonical (dup ∷ [])
        → t dup ≡ some (Node.regular b)
        → Linked canonical bytes t
        → Linked canonical bytes (put dup (Node.symlink canonical) t)
    unfolding Linked
    Linked-put canonical dup bytes b t ((apart, same), u) g ((files, reads), h) =
        let e : bytes ≡ b = same bytes b (files canonical bytes h) (files dup b g) in
        (
          (
            λ id c q. elim (Bool-cases (id == dup)) [
              | inl r ↦ absurd (ground (arith, r, q))
              | inr r ↦ files id c (ground (arith, r, q))
            ],
            λ id c r. Reads-put t canonical dup bytes apart h (rw e g) id c (reads id c r),
          ),
          ground (arith, ==_iff canonical dup, apart, h),
        )

    link_one-Linked :
        (canonical dup : Uuid) (bytes : Bytes) (run : Run)
        → AreCopies s canonical (dup ∷ [])
        → Linked canonical bytes run.store
        → Linked canonical bytes (link_one dry_run can_link can_resolve canonical dup run).store
    link_one-Linked canonical dup bytes run copies l = elim (link_one-store canonical dup run) [
      | inl e ↦ subst (Linked canonical bytes) (sym e) l
      | inr (b, g, e) ↦
          subst (Linked canonical bytes) (sym e)
            (Linked-put canonical dup bytes b run.store copies g l)
    ]

    link_all-Linked :
        (canonical : Uuid) (bytes : Bytes) (dups : List Uuid) (run : Run)
        → AreCopies s canonical dups
        → Linked canonical bytes run.store
        → Linked canonical bytes (link_all dry_run can_link can_resolve canonical dups run).store
    unfolding link_all
    link_all-Linked canonical bytes [] run copies l = l
    link_all-Linked canonical bytes (dup ∷ dups) run (c, copies) l =
        link_all-Linked canonical bytes dups
          (link_one dry_run can_link can_resolve canonical dup run) copies
          (link_one-Linked canonical dup bytes run (c, tt) l)

    link_group-store :
        (canonical : Uuid) (dups : List Uuid) (run : Run)
        → ((link_group dry_run can_link can_resolve (canonical, dups) run).store ≡ run.store)
          ⊎ ((b : Bytes) × (run.store canonical ≡ some (Node.regular b))
              × ((link_group dry_run can_link can_resolve (canonical, dups) run).store
                  ≡ (link_all dry_run can_link can_resolve canonical dups run).store))
    unfolding link_group
    link_group-store canonical dups run = elim (Option-cases (run.store canonical)) [
      | inl e ↦ inl (ground (arith, e))
      | inr (n, e) ↦ elim (Node-cases n) [
        | inr (t, f) ↦ inl (ground (arith, e, f))
        | inl (b, f) ↦ elim (Bool-cases (can_resolve canonical)) [
          | inl g ↦ inr (b, ground (arith, e, f), ground (arith, e, f, g))
          | inr g ↦ inl (ground (arith, e, f, g))
        ]
      ]
    ]

    link_group-Keeps :
        (canonical : Uuid) (dups : List Uuid) (run : Run)
        → AreCopies s canonical dups
        → Keeps s run.store
        → Keeps s (link_group dry_run can_link can_resolve (canonical, dups) run).store
    unfolding Linked
    link_group-Keeps canonical dups run copies k = elim (link_group-store canonical dups run) [
      | inl e ↦ subst (Keeps s) (sym e) k
      | inr (b, h, e) ↦
          subst (Keeps s) (sym e) (link_all-Linked canonical b dups run copies (k, h)).0
    ]

    dedup-Keeps :
        (groups : Groups) (run : Run)
        → All (λ g. AreCopies s g.0 g.1) groups
        → Keeps s run.store
        → Keeps s (dedup dry_run can_link can_resolve groups run).store
    unfolding dedup
    dedup-Keeps [] run copies k = k
    dedup-Keeps ((c, dups) ∷ gs) run (copied, copies) k =
        dedup-Keeps gs (link_group dry_run can_link can_resolve (c, dups) run) copies
          (link_group-Keeps c dups run copied k)

-- Where, in the store before the run, no canonical upload is listed as its own duplicate and a
-- duplicate's file has the bytes of its canonical file, whatever could be read of an upload before the
-- deduplication is read after it: for any groups, in any order, dry or not, and whichever links fail.
pub dedup-Reads :
    (dry_run : Bool) (can_link can_resolve : Uuid → Bool) (groups : Groups) (run : Run)
    → All (λ g. AreCopies run.store g.0 g.1) groups
    → (id : Uuid) (bytes : Bytes) → Reads run.store id bytes
    → Reads (dedup dry_run can_link can_resolve groups run).store id bytes
dedup-Reads dry_run can_link can_resolve groups run copies =
    (dedup-Keeps dry_run can_link can_resolve run.store groups run copies
      (λ id b e. e, λ id b r. r)).1
