-- ===== src/Admin/Enforced.antt =====
-- What the routes of src/admin.rs that ban and unban change in what the cached checks of
-- src/ban_cache.rs answer next.
use mathlib.Core.Path.{ap}
use filehost.Base.{
  ℕ, min, ◌≡◌, refl, sym, ◌∙◌, inl, inr, Bool, true, not, ◌&&◌, ◌||◌, Option, none, some, List, [],
  ◌∷◌, ◌++◌, any, any-append, or_false, Bool-cases, Bytes, bytes_eq, leb, if◌then◌else◌,
}
use filehost.Base.Results.{ok}
use filehost.Ip.Addr.{IpAddr, IsAddr, to_db_bytes, same_family}
use filehost.Ip.Octets.{rank}
use filehost.Ttl.Cache.{invalidate}
use filehost.Times.{OffsetDateTime}
use filehost.Db.Model.{BanType, severity, BannedKey, Tables}
use filehost.Db.World.{World}
use filehost.Db.Answered.{statement-answered}
use filehost.Db.Bans
use filehost.Db.Bans.{
  BanSet, NewBan, varchar, kept_reason, same_key, insert_banned, delete_banned, insert_banned_ip,
  covers, unexpired, delete_banned_ip, banned_hashes, banned_filenames,
}
use filehost.Db.Columns.{chars, varchar_lem}
use filehost.Db.Banned.{
  with_ban, insert_banned_ip-answered, is_ip_banned-answered, is_ip_banned-insert_banned_ip,
}
use filehost.Guard.BanCache.{
  is_ip_banned, is_filename_banned, invalidate_ip_ranges, invalidate_filenames,
}
use filehost.Guard.Fresh.{is_ip_banned-empty, is_filename_banned-empty}
use filehost.Admin.Reply.{Body, AdminResponse, respond_created}
use filehost.Admin.Bans.{
  BannedIpRangeCreate, KeyCreate, ban_type_of, banned_reply, new_ban, expiry_of, add_range,
  add_banned_ip, add_banned_filename,
}

-- The state after a ban was written and the cache of addresses emptied.
abbrev banned_ip : NewBan → World → World
banned_ip n w = record (with_ban n w) { caches = record w.caches { ip_bans = [] } }

module _ (parse_ip : Bytes → Option IpAddr) (parse_time : Bytes → Option OffsetDateTime) where
  add_banned_ip-run :
      (body : BannedIpRangeCreate) (start_ip end_ip : IpAddr) (expires : Option ℕ)
      (ban_type : BanType) (w : World)
      → w.outages ≡ []
      → parse_ip body.start_ip ≡ some start_ip
      → parse_ip body.end_ip ≡ some end_ip
      → same_family start_ip end_ip ≡ true
      → expiry_of parse_ip parse_time body.expires_timestamp ≡ some expires
      → ban_type_of body.type_ ≡ some ban_type
      → add_banned_ip parse_ip parse_time body w ≡ (
        record { status = 201; body = Body.id w.tables.next_ban_id },
        banned_ip (new_ban body start_ip end_ip expires ban_type) w,
      )
  unfolding add_banned_ip banned_reply invalidate_ip_ranges invalidate
  add_banned_ip-run body start_ip end_ip expires ban_type w up s e f x t =
      let reply =
        ap banned_reply
          (insert_banned_ip-answered (new_ban body start_ip end_ip expires ban_type) w up) in
      rw (add_banned_ip, s, e, f, add_range, x, t) reply

  -- Where every query is answered and a body names two addresses of one family, a type, and either no
  -- expiry or one that can be read: the route answers 201 with the id of the new row, and whatever the
  -- cache held, the next check of an address finds it banned if it was banned in the table, or if it is
  -- in the new range, the ban has not expired and is as severe as asked; and in no other case.
  pub add_banned_ip_lem :
      (body : BannedIpRangeCreate) (start_ip end_ip : IpAddr) (expires : Option ℕ)
      (ban_type : BanType) (w : World) (ttl : ℕ) (ip : IpAddr) (asked : BanType)
      → w.outages ≡ []
      → parse_ip body.start_ip ≡ some start_ip
      → parse_ip body.end_ip ≡ some end_ip
      → same_family start_ip end_ip ≡ true
      → expiry_of parse_ip parse_time body.expires_timestamp ≡ some expires
      → ban_type_of body.type_ ≡ some ban_type
      → IsAddr ip
      → IsAddr start_ip
      → IsAddr end_ip
      → let (r, w') = add_banned_ip parse_ip parse_time body w in
        (r ≡ record { status = 201; body = Body.id w.tables.next_ban_id })
        × ((is_ip_banned ttl ip asked w').0
            ≡ ok (
                any (covers (to_db_bytes ip) asked w.now) w.tables.banned_ip_ranges
                || (((leb (rank start_ip) (rank ip) && leb (rank ip) (rank end_ip))
                      && leb (severity asked) (severity ban_type))
                    && unexpired w.now expires)))
  add_banned_ip_lem body start_ip end_ip expires ban_type w ttl ip asked up s e f x t hi hs he =
      let n = new_ban body start_ip end_ip expires ban_type in
      let run = add_banned_ip-run body start_ip end_ip expires ban_type w up s e f x t in
      (
        ap (λ p. p.0) run,
        ap (λ p. (is_ip_banned ttl ip asked p.1).0) run
            ∙ is_ip_banned-empty ttl ip asked (banned_ip n w) refl
            ∙ ap (λ p. p.0) (is_ip_banned-answered ip asked (banned_ip n w) up)
            ∙ sym (ap (λ p. p.0) (is_ip_banned-answered ip asked (with_ban n w) up))
            ∙ sym (ap (λ p. (Bans.is_ip_banned ip asked p.1).0) (insert_banned_ip-answered n w up))
            ∙ is_ip_banned-insert_banned_ip n ip asked w up hi hs he,
      )

-- The table of a banned set after `INSERT IGNORE` of a key.
abbrev with_key : BanSet → Bytes → Option Bytes → Tables → Tables
with_key s key reason t =
    if any (same_key s (s.column (s.key_of key))) (s.rows t)
    then t
    else s.write
        (s.rows t ++ (record { key = s.column (s.key_of key); reason = kept_reason reason } ∷ [])) t

module _ (s : BanSet)
    (rows-write : (rows : List BannedKey) (t : Tables) → s.rows (s.write rows t) ≡ rows) where
  insert_banned-answered :
      (key : Bytes) (reason : Option Bytes) (w : World)
      → w.outages ≡ []
      → insert_banned s key reason w ≡ (ok tt, record w { tables = with_key s key reason w.tables })
  unfolding insert_banned
  insert_banned-answered key reason w up =
      statement-answered (λ now t. (tt, with_key s key reason t)) w up

  any-with_key :
      (p : BannedKey → Bool) (key : Bytes) (reason : Option Bytes) (t : Tables)
      → any p (s.rows (with_key s key reason t)) ≡ (
          any p (s.rows t)
          || (not (any (same_key s (s.column (s.key_of key))) (s.rows t))
              && p (record { key = s.column (s.key_of key); reason = kept_reason reason })))
  any-with_key p key reason t =
      elim (Bool-cases (any (same_key s (s.column (s.key_of key))) (s.rows t))) [
        | inl e ↦ rw e (sym (or_false (any p (s.rows t))))
        | inr e ↦ rw e (
            ap (any p) (rows-write _ t)
            ∙ any-append p (s.rows t) _
            ∙ ap (λ b. any p (s.rows t) || b) (or_false _))
      ]

-- The answer of `respond_created` to a key that is written.
module _ (s : BanSet) (invalidate : World → World) (key : Bytes) (reason : Option Bytes)
    (w : World) where
  abbrev created : AdminResponse × World
  created = (
    record { status = 201; body = Body.empty },
    invalidate (record w { tables = with_key s key reason w.tables }),
  )

  respond_created-run :
      (rows-write : (rows : List BannedKey) (t : Tables) → s.rows (s.write rows t) ≡ rows)
      → w.outages ≡ []
      → respond_created (insert_banned s key reason w) invalidate ≡ created
  unfolding respond_created
  respond_created-run rows-write up =
      ap (λ q. respond_created q invalidate) (insert_banned-answered s rows-write key reason w up)

-- Where every query is answered, the route takes a pattern that compiles with 201, and whatever the
-- cache held, the next check of a name finds it banned if a pattern of the table matches it, or if the
-- first 255 characters of the new pattern do, which are all that the table keeps of it, and no pattern
-- of the table has their sort key in the database's collation; and in no other case. They may be no
-- pattern that compiles, and then match nothing.
pub add_banned_filename_lem :
    (collate lower to_lowercase : Bytes → Bytes) (regex_error : Bytes → Option Bytes)
    (compiles : Bytes → Bool) (is_match : Bytes → Bytes → Bool) (ttl : ℕ) (body : KeyCreate)
    (filename : Bytes) (w : World)
    → w.outages ≡ []
    → regex_error body.key ≡ none
    → let (r, w') = add_banned_filename collate lower to_lowercase regex_error body w in
      (r ≡ record { status = 201; body = Body.empty })
      × ((is_filename_banned ttl collate lower to_lowercase compiles is_match filename w').0
          ≡ ok (
              any (λ r. compiles r.key && is_match r.key filename) w.tables.banned_filenames
              || (not (
                    any
                      (λ r. bytes_eq (collate r.key) (collate (varchar 255 body.key)))
                      w.tables.banned_filenames)
                  && (compiles (varchar 255 body.key)
                      && is_match (varchar 255 body.key) filename))))
      × ((cut : Bytes) × (body.key ≡ varchar 255 body.key ++ cut))
      × (chars (varchar 255 body.key) ≡ min (chars body.key) 255)
unfolding add_banned_filename same_key invalidate_filenames invalidate
add_banned_filename_lem collate lower to_lowercase regex_error compiles is_match ttl body filename w
      up valid =
    let s = banned_filenames collate lower in
    let p : BannedKey → Bool = λ r. compiles r.key && is_match r.key filename in
    let w' = (created s invalidate_filenames body.key body.reason w).1 in
    let run : add_banned_filename collate lower to_lowercase regex_error body w
        ≡ created s invalidate_filenames body.key body.reason w =
      rw (add_banned_filename, valid)
        (respond_created-run s invalidate_filenames body.key body.reason w (λ rows t. refl) up) in
    (
      ap (λ q. q.0) run,
      ap (λ q. (is_filename_banned ttl collate lower to_lowercase compiles is_match filename q.1).0)
            run
          ∙ is_filename_banned-empty ttl w' up collate lower to_lowercase compiles is_match filename
              refl
          ∙ ap ok (any-with_key s (λ rows t. refl) p body.key body.reason w.tables),
      (varchar_lem 255 body.key).0,
      (varchar_lem 255 body.key).1,
    )
