-- ===== src/Service/Queries.antt =====
-- The calls of src/db.rs, src/ban_cache.rs and src/challenge.rs, and what they leave of the uploads.
use mathlib.Core.Path.{subst}
use filehost.Base.{
  ℕ, ◌≡◌, sym, refl, inl, inr, Bool, some, List, [], ◌∷◌, filter, Bytes, Bool-cases,
}
use filehost.Base.Results.{Result, ok, err, modify}
use filehost.Ip.Addr.{IpAddr, same_family}
use filehost.Db.Model.{Upload, Uuid, Score}
use filehost.Db.World.{World, DbError, statement, select}
use filehost.Db.Uploads.{is_active, update_where_id, update_upload_hash, update_nsfw_score}
use filehost.Db.Deletes.{
  remove_file, mark, ids, delete_one, delete_each, matches, delete_matching, delete_expired,
  delete_by_id, delete_by_ip, delete_by_slug, delete_by_ip_range, in_range, lift,
}
use filehost.Service.Rows.{Later, Later-refl, Evolves, update_where_id-Evolves}
use filehost.Service.Kept.{
  Kept, Kept-pure, Kept-same, Kept-if, Kept-modify, Kept->>=, Kept-statement, Kept-select,
}

lift-same : (p : Result DbError ℕ × World) → (lift p).1 ≡ p.1
lift-same (ok n, w) = refl
lift-same (err e, w) = refl

mark-Later : (now : ℕ) (u : Upload) → Later u (mark now u)
mark-Later now u = record {
  same_id = refl;
  same_slug = refl;
  same_name = refl;
  same_size = refl;
  same_uploader = refl;
  same_type = refl;
  same_expiry = refl;
  stays_deleted = elim (Bool-cases (is_active u)) [ inl e ↦ rw e refl | inr e ↦ rw e refl ];
}

module _ (P : List Upload → Type 0)
    (closed : (us vs : List Upload) → Evolves us vs → P us → P vs) where
  -- An update of rows by their id.
  pub Kept-update :
      (id : Uuid) (f : ℕ → Upload → Upload)
      → ((now : ℕ) (u : Upload) → Later u (f now u))
      → Kept P (
          statement {A = Unit {0}}
            (λ now t. (tt, record t { uploads = update_where_id id (f now) t.uploads })))
  Kept-update id f later =
      Kept-statement P (λ now t. (tt, record t { uploads = update_where_id id (f now) t.uploads }))
        (λ now t.
          closed t.uploads (update_where_id id (f now) t.uploads)
            (update_where_id-Evolves id (f now) t.uploads (later now)))

  delete_one-Kept : (id : Uuid) → Kept P (delete_one id)
  unfolding delete_one remove_file
  delete_one-Kept id =
      Kept->>= P (modify (remove_file id)) _ (Kept-modify P (remove_file id) (λ w. refl))
        (λ u. Kept-update id mark mark-Later)

  delete_each-Kept : (rows : List Uuid) → Kept P (delete_each rows)
  unfolding delete_each
  delete_each-Kept [] = Kept-pure P
  delete_each-Kept (id ∷ rows) =
      Kept->>= P (delete_one id) _ (delete_one-Kept id) (λ u. delete_each-Kept rows)

  pub delete_matching-Kept : (clause : ℕ → Upload → Bool) → Kept P (delete_matching clause)
  unfolding delete_matching
  delete_matching-Kept clause =
      Kept->>= P (select (λ now t. ids (filter (matches clause now) t.uploads))) _ (Kept-select P _)
        (λ rows. Kept->>= P (delete_each rows) _ (delete_each-Kept rows) (λ u. Kept-pure P))

  pub delete_expired-Kept : Kept P delete_expired
  unfolding delete_expired
  delete_expired-Kept = delete_matching-Kept _

  pub delete_by_id-Kept : (id : Uuid) → Kept P (delete_by_id id)
  unfolding delete_by_id
  delete_by_id-Kept id = delete_matching-Kept _

  pub delete_by_ip-Kept : (ip : IpAddr) → Kept P (delete_by_ip ip)
  unfolding delete_by_ip
  delete_by_ip-Kept ip = delete_matching-Kept _

  pub delete_by_slug-Kept :
      (collate : Bytes → Bytes) (slug : Bytes) → Kept P (delete_by_slug collate slug)
  unfolding delete_by_slug
  delete_by_slug-Kept collate slug = delete_matching-Kept _

  -- A change of the hash or of the score.
  unmarked-Later :
      (f : Upload → Upload) (u : Upload)
      → f u ≡ record (f u) {
        id = u.id;
        slug = u.slug;
        original_name = u.original_name;
        file_size = u.file_size;
        uploader_ip = u.uploader_ip;
        content_type = u.content_type;
        expiry_timestamp = u.expiry_timestamp;
        deleted_timestamp = u.deleted_timestamp;
      }
      → Later u (f u)
  unmarked-Later f u e = subst (Later u) (sym e) (record {
    same_id = refl;
    same_slug = refl;
    same_name = refl;
    same_size = refl;
    same_uploader = refl;
    same_type = refl;
    same_expiry = refl;
    stays_deleted = (Later-refl u).stays_deleted;
  })

  pub update_upload_hash-Kept : (id : Uuid) (hash : Bytes) → Kept P (update_upload_hash id hash)
  unfolding update_upload_hash
  update_upload_hash-Kept id hash =
      Kept-update id (λ now u. record u { hash = some hash })
        (λ now u. unmarked-Later (λ u. record u { hash = some hash }) u refl)

  pub update_nsfw_score-Kept : (id : Uuid) (score : Score) → Kept P (update_nsfw_score id score)
  unfolding update_nsfw_score
  update_nsfw_score-Kept id score =
      Kept-update id (λ now u. record u { nsfw_score = some score })
        (λ now u. unmarked-Later (λ u. record u { nsfw_score = some score }) u refl)

  pub delete_by_ip_range-Kept : (start end : IpAddr) → Kept P (delete_by_ip_range start end)
  unfolding delete_by_ip_range
  delete_by_ip_range-Kept start end =
      Kept-if P (same_family start end)
        (Kept-same P lift lift-same (delete_matching-Kept (in_range start end))) (Kept-pure P)
