-- ===== src/Db/Banned.antt =====
-- What the bans of addresses answer.
use mathlib.Core.Path.{ap}
use filehost.Base.{
  ℕ, ◌+◌, ◌≡◌, ◌∙◌, true, ◌&&◌, ◌||◌, List, [], ◌∷◌, ◌++◌, any, any-append, or_false, leb, arith,
  Bytes,
}
use filehost.Base.Results.{ok}
use filehost.Ip.Addr.{IpAddr, IsAddr, to_db_bytes}
use filehost.Ip.Octets.{rank, between-to_db_bytes}
use filehost.Db.Model.{BanType, severity, BannedIpRange}
use filehost.Db.World.{World}
use filehost.Db.Answered.{select-answered}
use filehost.Db.Bans.{NewBan, ban_of, covers, unexpired, is_ip_banned, insert_banned_ip}

-- The state with one more ban.
abbrev pub with_ban : NewBan → World → World
with_ban n w = record w {
  tables = record w.tables {
    banned_ip_ranges = w.tables.banned_ip_ranges ++ (ban_of w.tables.next_ban_id w.now n ∷ []);
    next_ban_id = w.tables.next_ban_id + 1;
  };
}

pub insert_banned_ip-answered :
    (n : NewBan) (w : World)
    → w.outages ≡ []
    → insert_banned_ip n w ≡ (ok w.tables.next_ban_id, with_ban n w)
unfolding insert_banned_ip
insert_banned_ip-answered n w up = ground (arith, up)

pub is_ip_banned-answered :
    (ip : IpAddr) (ban_type : BanType) (w : World)
    → w.outages ≡ []
    → is_ip_banned ip ban_type w
      ≡ (ok (any (covers (to_db_bytes ip) ban_type w.now) w.tables.banned_ip_ranges), w)
unfolding is_ip_banned
is_ip_banned-answered ip ban_type w up =
    select-answered (λ now t. any (covers (to_db_bytes ip) ban_type now) t.banned_ip_ranges) w up

covers-ban_of :
    (n : NewBan) (ip : IpAddr) (ban_type : BanType) (id now : ℕ)
    → IsAddr ip
    → IsAddr n.start_ip
    → IsAddr n.end_ip
    → covers (to_db_bytes ip) ban_type now (ban_of id now n) ≡ (
        ((leb (rank n.start_ip) (rank ip) && leb (rank ip) (rank n.end_ip))
          && leb (severity ban_type) (severity n.ban_type))
        && unexpired now n.expires_timestamp)
unfolding covers
covers-ban_of n ip ban_type id now hi hs he =
    ap
      (λ b.
        (b && leb (severity ban_type) (severity n.ban_type)) && unexpired now n.expires_timestamp)
      (between-to_db_bytes ip n.start_ip n.end_ip hi hs he)

covers_weaker :
    (ip : Bytes) (now : ℕ) (rows : List BannedIpRange)
    → any (covers ip BanType.full now) rows ≡ true
    → any (covers ip BanType.read_only now) rows ≡ true
unfolding covers
covers_weaker ip now [] h = h
covers_weaker ip now (r ∷ rows) h = ground (arith, covers_weaker ip now rows)

-- An address that may not even download may not upload: in any state, the answer to whether it is
-- banned fully, if it is `true`, is also that to whether it is banned from uploading.
pub is_ip_banned_full :
    (ip : IpAddr) (w : World)
    → (is_ip_banned ip BanType.full w).0 ≡ ok true
    → (is_ip_banned ip BanType.read_only w).0 ≡ ok true
unfolding is_ip_banned
is_ip_banned_full ip w h =
    ground (arith, covers_weaker (to_db_bytes ip) w.now w.tables.banned_ip_ranges)

-- Where every query is answered: after a range is banned, an address is banned if it was, or if its
-- place in the order of stored addresses is in the range, the ban has not expired and is as severe as
-- asked; and it is not in any other case.
pub is_ip_banned-insert_banned_ip :
    (n : NewBan) (ip : IpAddr) (ban_type : BanType) (w : World)
    → w.outages ≡ []
    → IsAddr ip
    → IsAddr n.start_ip
    → IsAddr n.end_ip
    → let w' = (insert_banned_ip n w).1 in
      (is_ip_banned ip ban_type w').0
      ≡ ok (
          any (covers (to_db_bytes ip) ban_type w.now) w.tables.banned_ip_ranges
          || (((leb (rank n.start_ip) (rank ip) && leb (rank ip) (rank n.end_ip))
                && leb (severity ban_type) (severity n.ban_type))
              && unexpired w.now n.expires_timestamp))
is_ip_banned-insert_banned_ip n ip ban_type w up hi hs he =
    let old = w.tables.banned_ip_ranges in
    let row = ban_of w.tables.next_ban_id w.now n in
    let p = covers (to_db_bytes ip) ban_type w.now in
    let last = any-append p old (row ∷ []) in
    let new = covers-ban_of n ip ban_type w.tables.next_ban_id w.now hi hs he in
    ap (λ q. (is_ip_banned ip ban_type q.1).0) (insert_banned_ip-answered n w up)
    ∙ ap (λ q. q.0) (is_ip_banned-answered ip ban_type (with_ban n w) up)
    ∙ ap ok (last ∙ ap (λ b. any p old || b) (or_false (p row) ∙ new))
