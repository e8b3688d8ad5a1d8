-- ===== src/Service/Links.antt =====
-- The links that the loop over a form's files (src/handlers.rs) answers.
use mathlib.Core.Path.{subst}
use mathlib.Core.List.{append-nil, append_assoc}
use filehost.Base.{ℕ, ◌≡◌, sym, ◌∙◌, Bool, Option, List, [], ◌∷◌, ◌++◌, Bytes, arith}
use filehost.Base.Results.{Result, ok, err}
use filehost.Ip.Addr.{IpAddr}
use filehost.Ip.Xff.{XffTrust}
use filehost.Db.Model.{Upload}
use filehost.Db.World.{World}
use filehost.Handlers.Reply.{Settings}
use filehost.Handlers.Types.{HashedTempFile}
use filehost.Handlers.Process.{Libraries, Draw, Stop, process_file}
use filehost.Handlers.Upload.{process_files}
use filehost.Service.Added.{process_file-Leads}
use filehost.Service.Leads.{Leads-case}
use filehost.Service.Linked.{Linked, Linked-append, Answers, process_file-Answers}

module _ (lib : Libraries) (settings : Settings) where
  -- The answer has one link for each of the files, to an upload with its content.
  abbrev pub LinksTo : List (HashedTempFile × Draw) → List Bytes → List Upload → Type 0
  LinksTo [] [] us = Unit
  LinksTo [] (l ∷ ls) us = ⊥
  LinksTo (f ∷ fs) [] us = ⊥
  LinksTo ((file, draw) ∷ fs) (l ∷ ls) us = Linked lib settings file.hash l us × LinksTo fs ls us

module _ (lib : Libraries) (settings : Settings) (xff_trust : XffTrust) (ip : IpAddr)
    (ua : Option Bytes) (len : ℕ) (keep : Bool) where
  -- What is linked stays linked while more files are stored.
  process_files-Linked :
      (hash l : Bytes) (files : List (HashedTempFile × Draw)) (links : List Bytes) (w : World)
      → Linked lib settings hash l w.tables.uploads
      → Linked lib settings hash l
          ((process_files lib settings xff_trust files ip ua len keep links w).1).tables.uploads
  unfolding process_files
  process_files-Linked hash l [] links w h = h
  process_files-Linked hash l ((file, draw) ∷ files) links w h =
      let P = Linked lib settings hash l in
      (Leads-case P P (λ us h. h) ((process_file lib settings draw file ip ua len keep w).0)
          (λ link. process_files lib settings xff_trust files ip ua len keep (links ++ (link ∷ [])))
          (λ link. record {
            after = process_files-Linked hash l files (links ++ (link ∷ []));
          })).after
        ((process_file lib settings draw file ip ua len keep w).1)
        ((process_file-Leads P P (λ us h. h) lib settings draw file ip ua len keep
            (λ us r same free h. Linked-append lib settings hash l us r h)).after
          w h)

  -- What the loop answers from a result on.
  abbrev LinksAll :
      List (HashedTempFile × Draw)
      → List Bytes
      → List Bytes
      → Result Stop (List Bytes) × World
      → Type 0
  LinksAll files links all (r, w) =
      r ≡ ok all
      → (new : List Bytes) × (all ≡ links ++ new) × LinksTo lib settings files new w.tables.uploads

  after_file :
      (file : HashedTempFile) (draw : Draw) (files : List (HashedTempFile × Draw))
      (links all : List Bytes) (q : Result Stop Bytes) (w : World)
      → Answers lib settings file.hash (q, w)
      → ((l : Bytes)
          → LinksAll files
              (links ++ (l ∷ []))
              all
              (process_files lib settings xff_trust files ip ua len keep (links ++ (l ∷ [])) w))
      → LinksAll
          ((file, draw) ∷ files)
          links
          all
          (elim q as (λ q. Result Stop (List Bytes) × World) [
            | ok l ↦ process_files lib settings xff_trust files ip ua len keep (links ++ (l ∷ [])) w
            | err stop ↦ (err stop, w)
          ])
  after_file file draw files links all (err x) w a rest h = absurd (ground (arith, h))
  after_file file draw files links all (ok l) w a rest h =
      let (new, e, linked) = rest l h in
      (
        l ∷ new,
        e ∙ append_assoc links (l ∷ []) new,
        (process_files-Linked file.hash l files (links ++ (l ∷ [])) w a, linked),
      )

  each_file :
      (files : List (HashedTempFile × Draw)) (links all : List Bytes) (w : World)
      → LinksAll files links all (process_files lib settings xff_trust files ip ua len keep links w)
  unfolding process_files
  each_file [] links all w = λ h. ([], ground (arith, h, append-nil links), tt)
  each_file ((file, draw) ∷ files) links all w =
      let (q, w1) = process_file lib settings draw file ip ua len keep w in
      after_file file draw files links all q w1
        (process_file-Answers lib settings draw file ip ua len keep w)
        (λ l. each_file files (links ++ (l ∷ [])) all w1)

  -- The links that the loop over a form's files answers are one for each of the files, in order,
  -- and each is the link to an active upload of the table that the run ends with, which has the
  -- file's content hash.
  pub process_files-LinksTo :
      (files : List (HashedTempFile × Draw)) (links : List Bytes) (w : World)
      → (process_files lib settings xff_trust files ip ua len keep [] w).0 ≡ ok links
      → LinksTo lib settings files links
          ((process_files lib settings xff_trust files ip ua len keep [] w).1).tables.uploads
  process_files-LinksTo files links w h =
      let (new, e, linked) = each_file files [] links w h in
      subst
        (λ ls.
          LinksTo lib settings files ls
            ((process_files lib settings xff_trust files ip ua len keep [] w).1).tables.uploads)
        (sym e) linked
