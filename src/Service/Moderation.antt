-- ===== src/Service/Moderation.antt =====
-- The admin API (src/admin.rs) on bans, and what it leaves of the uploads.
use filehost.Base.{ℕ, ◌≡◌, refl, Bool, Option, List, Bytes, length, ◌==◌}
use filehost.Hex.{hex_decode}
use filehost.Ip.Addr.{IpAddr, same_family}
use filehost.Times.{OffsetDateTime}
use filehost.Db.Model.{Upload, BannedKey}
use filehost.Db.World.{World, Query}
use filehost.Db.Bans.{
  BanSet, NewBan, insert_banned_ip, delete_banned_ip, insert_banned, delete_banned, banned_hashes,
  banned_filenames, banned_mimes, banned_user_agents,
}
use filehost.Db.Bans
use filehost.Guard.BanCache.{invalidate_ip_ranges, invalidate_filenames, invalidate_hashes}
use filehost.Admin.Reply.{
  Formats, Body, respond_list, banned_ip_range_dto, respond_created, respond_removed,
}
use filehost.Admin.Uploads.{ℤ}
use filehost.Admin.Bans.{
  BannedIpRangeCreate, KeyCreate, ban_type_of, banned_reply, remove_banned_ip, add_banned_ip,
  expiry_of, list_banned_ips, list_keys, add_key, remove_key, add_banned_hash, remove_banned_hash,
  add_banned_filename,
}
use filehost.Service.Kept.{
  Kept, Kept-pure, Kept-modify, Kept-same, Kept-if, Kept-option, Kept-result, Kept-select,
  Kept-other,
}
use filehost.Service.Guards.{IsApart, list_banned-Kept, insert_banned-Kept, delete_banned-Kept}

module _ (P : List Upload → Type 0) where
  -- A change of the caches only.
  abbrev Spares : (World → World) → Type 0
  Spares f = (w : World) → (f w).tables.uploads ≡ w.tables.uploads

  created-Kept :
      (q : Query (Unit {0})) (f : World → World)
      → Kept P q
      → Spares f
      → Kept P (λ w. respond_created (q w) f)
  unfolding respond_created
  created-Kept q f k spares = Kept-result P _ _ k (λ u. Kept-modify P f spares) (λ e. Kept-pure P)

  removed-Kept :
      (q : Query Bool) (f : World → World)
      → Kept P q
      → Spares f
      → Kept P (λ w. respond_removed (q w) f)
  unfolding respond_removed
  removed-Kept q f k spares =
      Kept-result P _ _ k (λ b. Kept-if P b (Kept-modify P f spares) (Kept-pure P))
        (λ e. Kept-pure P)

  pub list_keys-Kept : (s : BanSet) (dto : BannedKey → BannedKey) → Kept P (list_keys s dto)
  list_keys-Kept s dto =
      Kept-same P (λ (r, w). (respond_list r dto Body.keys, w)) (λ p. refl) (list_banned-Kept P s)

  pub add_key-Kept :
      (s : BanSet) (f : World → World) (key : Bytes) (reason : Option Bytes)
      → IsApart s
      → Spares f
      → Kept P (add_key s f key reason)
  add_key-Kept s f key reason apart spares =
      created-Kept (insert_banned s key reason) f (insert_banned-Kept P s key reason apart) spares

  pub remove_key-Kept :
      (s : BanSet) (f : World → World) (key : Bytes)
      → IsApart s
      → Spares f
      → Kept P (remove_key s f key)
  remove_key-Kept s f key apart spares =
      removed-Kept (delete_banned s key) f (delete_banned-Kept P s key apart) spares

  pub list_banned_ips-Kept :
      (formats : Formats) (limit offset : Option ℤ) → Kept P (list_banned_ips formats limit offset)
  unfolding list_banned_ips Bans.list_banned_ips
  list_banned_ips-Kept formats limit offset =
      Kept-same P (λ (r, w). (respond_list r (banned_ip_range_dto formats) Body.ranges, w))
        (λ p. refl) (Kept-select P _)

  pub remove_banned_ip-Kept : (id : ℕ) → Kept P (remove_banned_ip id)
  unfolding remove_banned_ip delete_banned_ip invalidate_ip_ranges
  remove_banned_ip-Kept id =
      removed-Kept (delete_banned_ip id) invalidate_ip_ranges (Kept-other P _ (λ now t. refl))
        (λ w. refl)

  pub insert_banned_ip-Kept : (n : NewBan) → Kept P (insert_banned_ip n)
  unfolding insert_banned_ip
  insert_banned_ip-Kept n = Kept-other P _ (λ now t. refl)

  banned_reply-Kept : (n : NewBan) → Kept P (λ w. banned_reply (insert_banned_ip n w))
  unfolding banned_reply invalidate_ip_ranges
  banned_reply-Kept n =
      Kept-result P _ _ (insert_banned_ip-Kept n)
        (λ id. Kept-modify P invalidate_ip_ranges (λ w. refl)) (λ e. Kept-pure P)

  pub add_banned_ip-Kept :
      (parse_ip : Bytes → Option IpAddr) (parse_time : Bytes → Option OffsetDateTime)
      (body : BannedIpRangeCreate)
      → Kept P (add_banned_ip parse_ip parse_time body)
  unfolding add_banned_ip
  add_banned_ip-Kept parse_ip parse_time body =
      Kept-option P (parse_ip body.start_ip) _ _ (Kept-pure P) (λ start.
        Kept-option P (parse_ip body.end_ip) _ _ (Kept-pure P) (λ end.
          Kept-if P (same_family start end)
            (Kept-option P (expiry_of parse_ip parse_time body.expires_timestamp) _ _ (Kept-pure P)
              (λ expires.
                Kept-option P (ban_type_of body.type_) _ _ (Kept-pure P)
                  (λ ban_type. banned_reply-Kept _)))
            (Kept-pure P)))

  pub add_banned_hash-Kept : (body : KeyCreate) → Kept P (add_banned_hash body)
  unfolding add_banned_hash invalidate_hashes
  add_banned_hash-Kept body = Kept-option P (hex_decode body.key) _ _ (Kept-pure P) (λ hash.
      Kept-if P (length hash == 32)
        (add_key-Kept banned_hashes invalidate_hashes hash body.reason (λ rows t. refl) (λ w. refl))
        (Kept-pure P))

  pub remove_banned_hash-Kept : (hex : Bytes) → Kept P (remove_banned_hash hex)
  unfolding remove_banned_hash invalidate_hashes
  remove_banned_hash-Kept hex =
      Kept-option P (hex_decode hex) _ _ (Kept-pure P)
        (λ hash. remove_key-Kept banned_hashes invalidate_hashes hash (λ rows t. refl) (λ w. refl))

  module _ (collate lower to_lowercase : Bytes → Bytes) (regex_error : Bytes → Option Bytes) where
    pub add_banned_filename-Kept :
        (body : KeyCreate)
        → Kept P (add_banned_filename collate lower to_lowercase regex_error body)
    unfolding add_banned_filename invalidate_filenames
    add_banned_filename-Kept body =
        Kept-option P (regex_error body.key) _ _
          (add_key-Kept (banned_filenames collate lower) invalidate_filenames body.key body.reason
            (λ rows t. refl) (λ w. refl))
          (λ message. Kept-pure P)
