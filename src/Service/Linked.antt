-- ===== src/Service/Linked.antt =====
-- The link that `process_file` (src/handlers.rs) answers names an active upload.
use mathlib.Core.Path.{subst}
use filehost.Base.{
  ℕ, ◌≡◌, refl, sym, inl, inr, Bool, true, false, Option, none, some, List, [], ◌∷◌, ◌++◌,
  bytes_eq_refl, Bytes, arith,
}
use filehost.Base.Results.{Result, ok, err, Step, Result-cases, ◌>>◌}
use filehost.Ip.Addr.{IpAddr}
use filehost.Db.Model.{Upload, Uuid}
use filehost.Db.World.{World}
use filehost.Db.Uploads.{row_of, NewUpload, insert_upload_row, is_active, has_hash}
use filehost.Handlers.Reply.{Settings}
use filehost.Handlers.Types.{HashedTempFile}
use filehost.Handlers.Process.{
  Libraries, Draw, Stop, new_slug, save, row, store, link, query, existing, file_checks, orelse,
  process_file,
}
use filehost.Service.Named.{Has}
use filehost.Service.Found.{IsExisting, looked-at}

Has-append : (u : Upload) (us : List Upload) (r : Upload) → Has u us → Has u (us ++ (r ∷ []))
Has-append u [] r h = absurd h
Has-append u (v ∷ us) r (inl e) = inl e
Has-append u (v ∷ us) r (inr h) = inr (Has-append u us r h)

Has-last : (us : List Upload) (r : Upload) → Has r (us ++ (r ∷ []))
Has-last [] r = inl refl
Has-last (u ∷ us) r = inr (Has-last us r)

module _ (lib : Libraries) (settings : Settings) where
  -- The link is that of an active upload of the table with the content.
  abbrev pub Linked : Bytes → Bytes → List Upload → Type 0
  Linked hash l us =
      (u : Upload) × Has u us
      × (is_active u ≡ true)
      × (has_hash hash u ≡ true)
      × (link lib settings u.slug ≡ ok l)

  pub Linked-append :
      (hash l : Bytes) (us : List Upload) (r : Upload)
      → Linked hash l us
      → Linked hash l (us ++ (r ∷ []))
  Linked-append hash l us r (u, h, a, same, e) = (u, Has-append u us r h, a, same, e)

  -- What a run answers, if it is a link, is linked.
  abbrev pub Answers : Bytes → Result Stop Bytes × World → Type 0
  Answers hash (ok l, w) = Linked hash l w.tables.uploads
  Answers hash (err stop, w) = Unit

  -- A step whose continuation answers links.
  Answers->>= :
      {A : Type 0} (hash : Bytes) (r : Result Stop A) (w : World) (f : A → Step World Stop Bytes)
      → ((a : A) → r ≡ ok a → Answers hash (f a w))
      → Answers hash (elim r [ ok a ↦ f a w | err e ↦ (err e, w) ])
  Answers->>= hash (ok a) w f k = k a refl
  Answers->>= hash (err e) w f k = tt

  -- The link to an active row.
  link-Answers :
      (hash : Bytes) (u : Upload) (w : World)
      → Has u w.tables.uploads
      → is_active u ≡ true
      → has_hash hash u ≡ true
      → Answers hash (link lib settings u.slug, w)
  link-Answers hash u w h a same = elim (Result-cases (link lib settings u.slug)) [
    | inl (l, e) ↦ subst (λ r. Answers hash (r, w)) (sym e) (u, h, a, same, e)
    | inr (x, e) ↦ subst (λ r. Answers hash (r, w)) (sym e) tt
  ]

  -- A row that was inserted is in the table.
  inserted-at :
      (n : NewUpload) (os : List Bool) (w : World)
      → (query lib settings (insert_upload_row n) (record w { outages = os })).0 ≡ ok tt
      → Has (row_of w.now n) ((insert_upload_row n (record w { outages = os })).1).tables.uploads
  unfolding insert_upload_row
  inserted-at n [] w h = Has-last w.tables.uploads (row_of w.now n)
  inserted-at n (true ∷ os) w h = absurd (ground (arith, h))
  inserted-at n (false ∷ os) w h = Has-last w.tables.uploads (row_of w.now n)

  module _ (draw : Draw) (file : HashedTempFile) (ip : IpAddr) (ua : Option Bytes) (len : ℕ)
      (keep : Bool) where
    put-at :
        (n : NewUpload) (r : Result Stop (Unit {0})) (w : World)
        → let (q, w') = elim r as (λ r. Result Stop (Unit {0}) × World) [
          | ok u ↦ query lib settings (insert_upload_row n) w
          | err e ↦ (err e, w)
        ] in
          q ≡ ok tt → Has (row_of w.now n) w'.tables.uploads
    put-at n (ok u) w h = inserted-at n w.outages w h
    put-at n (err e) w h = absurd (ground (arith, h))

    store-Answers : (w : World) → Answers file.hash (store lib settings draw file ip ua len keep w)
    unfolding store
    store-Answers w =
        let (s, w1) = new_slug lib settings draw file ip ua len keep w in
        let put : Bytes → Step World Stop Bytes = λ slug.
          save lib settings draw file ip ua len keep
          >> query lib settings (insert_upload_row (row lib settings draw file ip ua len keep slug))
          >> λ w. (link lib settings slug, w) in
        Answers->>= file.hash s w1 put (λ slug e.
          let n = row lib settings draw file ip ua len keep slug in
          let (t, w2) = save lib settings draw file ip ua len keep w1 in
          let (r, w3) =
            (save lib settings draw file ip ua len keep >> query lib settings (insert_upload_row n))
              w1 in
          Answers->>= file.hash r w3 (λ u w. (link lib settings slug, w))
            (λ u done.
              link-Answers file.hash (row_of w2.now n) w3 (put-at n t w2 done) refl
                (bytes_eq_refl file.hash)))

    -- What follows the search for the same content.
    found-Answers :
        (found : Option (Uuid × Bytes)) (w : World)
        → IsExisting lib settings file.hash (ok found) w.tables.uploads
        → Answers file.hash (
            (elim found as (λ x. Step World Stop Bytes) [
              | some (id, slug) ↦ λ w. (link lib settings slug, w)
              | none ↦ store lib settings draw file ip ua len keep
            ])
              w)
    found-Answers none w x = store-Answers w
    found-Answers (some (id, slug)) w (u, h, a, same, e) =
        subst (λ s. Answers file.hash (link lib settings s, w)) e
          (link-Answers file.hash u w h a same)

    pub process_file-Answers :
        (w : World) → Answers file.hash (process_file lib settings draw file ip ua len keep w)
    unfolding process_file
    process_file-Answers w =
        let (c, w1) = orelse (file_checks lib settings file) w in
        let (r, w2) =
          (orelse (file_checks lib settings file)
              >> query lib settings (existing lib settings file.hash))
            w in
        Answers->>= file.hash r w2
          (λ found. elim found as (λ x. Step World Stop Bytes) [
            | some (id, slug) ↦ λ w. (link lib settings slug, w)
            | none ↦ store lib settings draw file ip ua len keep
          ])
          (λ found e. found-Answers found w2 (
            subst (λ q. IsExisting lib settings file.hash q w2.tables.uploads) e
              (looked-at lib settings file.hash c w1)))
