-- ===== src/Guard/Fresh.antt =====
-- What the checks of bans answer once their cache has been emptied: what the tables say.
use mathlib.Core.Path.{ap}
use filehost.Base.{
  ℕ, ◌≡◌, refl, ◌∙◌, inl, inr, Bool, ◌&&◌, ◌||◌, List, [], ◌∷◌, map, filter, any, Bool-cases, Bytes,
  bytes_eq, contains, arith,
}
use filehost.Base.Results.{ok, Step, ◌>>=◌, pure}
use filehost.Ip.Addr.{IpAddr, ip_eq_iff, bytes_le}
use filehost.Ttl.Cache.{Cell, look}
use filehost.Ttl.Laws.{IsEq, IsCell, look_nil, get_or_refresh_miss}
use filehost.Db.Model.{BanType, severity, BannedKey}
use filehost.Db.World.{World}
use filehost.Db.Bans
use filehost.Db.Bans.{
  BanSet, list_banned, order_by_key, put, banned_filenames, banned_mimes, banned_hashes,
  banned_user_agents,
}
use filehost.Guard.BanCache.{
  ip_bans, hashes, mimes, user_agent_patterns, filename_patterns, readings, same_ban, same_unit,
  is_ip_banned, keys, cached, is_in_cached_set, is_hash_banned, is_mime_banned,
  is_user_agent_banned, is_filename_banned,
}

severity_injective : (a b : BanType) → severity a ≡ severity b → a ≡ b
severity_injective BanType.read_only BanType.read_only h = refl
severity_injective BanType.read_only BanType.full h = absurd (ground arith)
severity_injective BanType.full BanType.read_only h = absurd (ground arith)
severity_injective BanType.full BanType.full h = refl

same_ban_iff : IsEq same_ban
same_ban_iff (ip, b) (ip', b') = ground (arith, ip_eq_iff ip ip', severity_injective b b')

pub same_unit_iff : IsEq same_unit
same_unit_iff j k = (λ h. refl, λ e. refl)

-- With an empty cache a check of an address answers what the database answers.
pub is_ip_banned-empty :
    (ttl : ℕ) (ip : IpAddr) (ban_type : BanType) (w : World)
    → w.caches.ip_bans ≡ []
    → (is_ip_banned ttl ip ban_type w).0 ≡ (Bans.is_ip_banned ip ban_type w).0
unfolding is_ip_banned
is_ip_banned-empty ttl ip ban_type w empty =
    let miss =
      ap (look same_ban ttl w.instant (ip, ban_type)) empty
      ∙ look_nil same_ban same_ban_iff ttl w.instant (ip, ban_type) in
    get_or_refresh_miss same_ban same_ban_iff ip_bans (λ m w. refl) ttl (readings w) (ip, ban_type)
      (Bans.is_ip_banned ip ban_type) w miss miss

-- The order of a list of banned keys does not change what it has.
any-put :
    (s : BanSet) (p : BannedKey → Bool) (r : BannedKey) (rows : List BannedKey)
    → any p (put s r rows) ≡ (p r || any p rows)
unfolding put
any-put s p r [] = refl
any-put s p r (x ∷ rows) = elim (Bool-cases (bytes_le (s.collation r.key) (s.collation x.key))) [
  | inl e ↦ ground (arith, e)
  | inr e ↦ ground (arith, e, any-put s p r rows)
]

any-order_by_key :
    (s : BanSet) (p : BannedKey → Bool) (rows : List BannedKey)
    → any p (order_by_key s rows) ≡ any p rows
unfolding order_by_key
any-order_by_key s p [] = refl
any-order_by_key s p (r ∷ rows) =
    any-put s p r (order_by_key s rows) ∙ ap (λ b. p r || b) (any-order_by_key s p rows)

any-map :
    {A B : Type 0} (p : B → Bool) (f : A → B) (xs : List A)
    → any p (map f xs) ≡ any (λ x. p (f x)) xs
any-map p f [] = refl
any-map p f (x ∷ xs) = ap (λ b. p (f x) || b) (any-map p f xs)

any-filter :
    {A : Type 0} (p q : A → Bool) (xs : List A) → any p (filter q xs) ≡ any (λ x. q x && p x) xs
any-filter p q [] = refl
any-filter p q (x ∷ xs) = elim (Bool-cases (q x)) [
  | inl e ↦ ground (arith, e, any-filter p q xs)
  | inr e ↦ ground (arith, e, any-filter p q xs)
]

-- The keys of the rows in the order of the listing.
abbrev listed : BanSet → World → List Bytes
listed s w = keys (order_by_key s (s.rows w.tables))

any-listed :
    (s : BanSet) (p : Bytes → Bool) (w : World)
    → any p (listed s w) ≡ any (λ r. p r.key) (s.rows w.tables)
any-listed s p w =
    any-map p (λ (r : BannedKey). r.key) (order_by_key s (s.rows w.tables))
    ∙ any-order_by_key s (λ r. p r.key) (s.rows w.tables)

bind_pure :
    {W E A B : Type 0} (m : Step W E A) (g : A → B) (w : W) (a : A)
    → (m w).0 ≡ ok a
    → ((m >>= λ x. pure (g x)) w).0 ≡ ok (g a)
bind_pure m g w a h = ground arith

module _ (ttl : ℕ) (w : World) (up : w.outages ≡ []) where
  -- With an empty cache a cached list is the one that the database has.
  cached-empty :
      (cell : Cell World (Unit {0}) (List Bytes)) (is_cell : IsCell cell) (s : BanSet)
      (prepare : List Bytes → List Bytes)
      → cell.read w ≡ []
      → (cached ttl cell s prepare w).0 ≡ ok (prepare (listed s w))
  unfolding cached list_banned
  cached-empty cell is_cell s prepare empty =
      let miss =
        ap (look same_unit ttl w.instant tt) empty
        ∙ look_nil same_unit same_unit_iff ttl w.instant tt in
      get_or_refresh_miss same_unit same_unit_iff cell is_cell ttl (readings w) tt
        (list_banned s >>= λ rows. pure (prepare (keys rows))) w miss miss
      ∙ ground (arith, up)

  pub is_hash_banned-empty :
      (hash : Bytes)
      → w.caches.hashes ≡ []
      → (is_hash_banned ttl hash w).0
        ≡ ok (any (λ r. bytes_eq r.key hash) w.tables.banned_file_hashes)
  unfolding is_hash_banned is_in_cached_set
  is_hash_banned-empty hash empty =
      bind_pure (cached ttl hashes banned_hashes (λ ks. ks)) (any (λ k. bytes_eq k hash)) w _
        (cached-empty hashes (λ m w. refl) banned_hashes (λ ks. ks) empty)
      ∙ ap ok (any-listed banned_hashes (λ k. bytes_eq k hash) w)

  module _ (collate lower to_lowercase : Bytes → Bytes) where
    pub is_mime_banned-empty :
        (mime : Bytes)
        → w.caches.mimes ≡ []
        → (is_mime_banned ttl collate lower to_lowercase mime w).0
          ≡ ok (any (λ r. bytes_eq r.key (to_lowercase mime)) w.tables.banned_file_mimes)
    unfolding is_mime_banned is_in_cached_set
    is_mime_banned-empty mime empty =
        bind_pure (cached ttl mimes (banned_mimes collate lower) (λ ks. ks))
          (any (λ k. bytes_eq k (to_lowercase mime))) w _
          (cached-empty mimes (λ m w. refl) (banned_mimes collate lower) (λ ks. ks) empty)
        ∙ ap ok (any-listed (banned_mimes collate lower) (λ k. bytes_eq k (to_lowercase mime)) w)

    pub is_user_agent_banned-empty :
        (user_agent : Bytes)
        → w.caches.user_agent_patterns ≡ []
        → (is_user_agent_banned ttl collate lower to_lowercase user_agent w).0
          ≡ ok (
              any
                (λ r. contains (to_lowercase r.key) (to_lowercase user_agent))
                w.tables.banned_user_agents)
    unfolding is_user_agent_banned
    is_user_agent_banned-empty user_agent empty =
        let s = banned_user_agents collate lower in
        let p : Bytes → Bool = λ k. contains k (to_lowercase user_agent) in
        bind_pure (cached ttl user_agent_patterns s (map to_lowercase)) (any p) w _
          (cached-empty user_agent_patterns (λ m w. refl) s (map to_lowercase) empty)
        ∙ ap ok (any-map p to_lowercase (listed s w) ∙ any-listed s (λ k. p (to_lowercase k)) w)

    pub is_filename_banned-empty :
        (compiles : Bytes → Bool) (is_match : Bytes → Bytes → Bool) (filename : Bytes)
        → w.caches.filename_patterns ≡ []
        → (is_filename_banned ttl collate lower to_lowercase compiles is_match filename w).0
          ≡ ok (any (λ r. compiles r.key && is_match r.key filename) w.tables.banned_filenames)
    unfolding is_filename_banned
    is_filename_banned-empty compiles is_match filename empty =
        let s = banned_filenames collate lower in
        let p : Bytes → Bool = λ k. is_match k filename in
        bind_pure (cached ttl filename_patterns s (filter compiles)) (any p) w _
          (cached-empty filename_patterns (λ m w. refl) s (filter compiles) empty)
        ∙ ap ok (any-filter p compiles (listed s w) ∙ any-listed s (λ k. compiles k && p k) w)
