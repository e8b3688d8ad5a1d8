-- ===== src/Service/Commands.antt =====
-- The commands of src/cli.rs on the bans, and what they leave of the uploads.
use filehost.Base.{refl, Bool, Option, List, Bytes, length, ◌==◌}
use filehost.Hex.{hex_decode}
use filehost.Ip.Addr.{same_family}
use filehost.Db.Model.{Upload, BannedKey}
use filehost.Db.World.{Query}
use filehost.Db.Bans.{
  BanSet, delete_banned_ip, list_banned_ips, banned_hashes, banned_filenames, banned_mimes,
  banned_user_agents,
}
use filehost.Cli.Lines.{Line, query, lifted, removal_result, parse_ban_type, CliLibraries}
use filehost.Cli.Bans.{
  BanKeyCommand, BanIpCommand, BanTarget, list_keys, add_key, remove_key, expiry_of, ban_ip,
  ban_filename, ban_mime, ban_hash, ban_user_agent, ban,
}
use filehost.Service.Kept.{
  Kept, Kept-pure, Kept-same, Kept-if_step, Kept-option_step, Kept-case_step, Kept-select,
  Kept-other, Kept->>=,
}
use filehost.Service.Guards.{IsApart, list_banned-Kept, insert_banned-Kept, delete_banned-Kept}
use filehost.Service.Moderation.{insert_banned_ip-Kept}

module _ (P : List Upload → Type 0) where
  pub query-Kept : {A : Type 0} (q : Query A) → Kept P q → Kept P (query q)
  query-Kept q k = Kept-same P (λ (r, w). (lifted r, w)) (λ p. refl) k

  pub removal_result-Kept : (found : Bool) (line : Line) → Kept P (removal_result found line)
  unfolding removal_result
  removal_result-Kept found line = Kept-if_step P found _ _ (Kept-pure P) (Kept-pure P)

  module _ (lib : CliLibraries) where
    list_keys-Kept :
        (s : BanSet) (empty : Bytes) (print_one : BannedKey → Line)
        → Kept P (list_keys lib s empty print_one)
    list_keys-Kept s empty print_one =
        Kept->>= P _ _ (query-Kept _ (list_banned-Kept P s)) (λ rows. Kept-pure P)

    add_key-Kept :
        (s : BanSet) (shown key : Bytes) (reason : Option Bytes)
        → IsApart s
        → Kept P (add_key lib s shown key reason)
    add_key-Kept s shown key reason apart =
        Kept->>= P _ _ (query-Kept _ (insert_banned-Kept P s key reason apart)) (λ u. Kept-pure P)

    remove_key-Kept :
        (s : BanSet) (shown key : Bytes) → IsApart s → Kept P (remove_key lib s shown key)
    remove_key-Kept s shown key apart =
        Kept->>= P _ _ (query-Kept _ (delete_banned-Kept P s key apart))
          (λ found. removal_result-Kept found _)

    ban_filename-Kept : (c : BanKeyCommand) → Kept P (ban_filename lib c)
    unfolding ban_filename
    ban_filename-Kept BanKeyCommand.list = list_keys-Kept _ _ _
    ban_filename-Kept (BanKeyCommand.add pattern reason) =
        Kept-option_step P (lib.regex_error pattern) _ _
          (add_key-Kept (banned_filenames lib.collate lib.lower) _ _ _ (λ rows t. refl))
          (λ message. Kept-pure P)
    ban_filename-Kept (BanKeyCommand.remove pattern) =
        remove_key-Kept (banned_filenames lib.collate lib.lower) _ _ (λ rows t. refl)

    ban_mime-Kept : (c : BanKeyCommand) → Kept P (ban_mime lib c)
    unfolding ban_mime
    ban_mime-Kept BanKeyCommand.list = list_keys-Kept _ _ _
    ban_mime-Kept (BanKeyCommand.add key reason) =
        add_key-Kept (banned_mimes lib.collate lib.lower) _ _ _ (λ rows t. refl)
    ban_mime-Kept (BanKeyCommand.remove key) =
        remove_key-Kept (banned_mimes lib.collate lib.lower) _ _ (λ rows t. refl)

    ban_user_agent-Kept : (c : BanKeyCommand) → Kept P (ban_user_agent lib c)
    unfolding ban_user_agent
    ban_user_agent-Kept BanKeyCommand.list = list_keys-Kept _ _ _
    ban_user_agent-Kept (BanKeyCommand.add key reason) =
        add_key-Kept (banned_user_agents lib.collate lib.lower) _ _ _ (λ rows t. refl)
    ban_user_agent-Kept (BanKeyCommand.remove key) =
        remove_key-Kept (banned_user_agents lib.collate lib.lower) _ _ (λ rows t. refl)

    ban_hash-Kept : (c : BanKeyCommand) → Kept P (ban_hash lib c)
    unfolding ban_hash
    ban_hash-Kept BanKeyCommand.list = list_keys-Kept _ _ _
    ban_hash-Kept (BanKeyCommand.add hex reason) =
        Kept-option_step P (hex_decode hex) _ _ (Kept-pure P) (λ bytes.
          Kept-if_step P (length bytes == 32) _ _
            (add_key-Kept banned_hashes _ _ _ (λ rows t. refl)) (Kept-pure P))
    ban_hash-Kept (BanKeyCommand.remove hex) =
        Kept-option_step P (hex_decode hex) _ _ (Kept-pure P)
          (λ bytes. remove_key-Kept banned_hashes _ _ (λ rows t. refl))

    ban_ip-Kept : (c : BanIpCommand) → Kept P (ban_ip lib c)
    unfolding ban_ip list_banned_ips delete_banned_ip
    ban_ip-Kept BanIpCommand.list =
        Kept->>= P _ _ (query-Kept _ (Kept-select P _)) (λ rows. Kept-pure P)
    ban_ip-Kept (BanIpCommand.add start end reason expires type_) =
        Kept-if_step P (same_family start end) _ _
          (Kept-case_step P (parse_ban_type type_) _ _
            (λ ban_type. Kept-option_step P (expiry_of lib expires) _ _ (Kept-pure P) (λ e.
              Kept->>= P _ _ (query-Kept _ (insert_banned_ip-Kept P _)) (λ range. Kept-pure P)))
            (λ e. Kept-pure P))
          (Kept-pure P)
    ban_ip-Kept (BanIpCommand.remove range) =
        Kept->>= P _ _ (query-Kept _ (Kept-other P _ (λ now t. refl)))
          (λ found. removal_result-Kept found _)

    pub ban-Kept : (target : BanTarget) → Kept P (ban lib target)
    unfolding ban
    ban-Kept (BanTarget.ip c) = ban_ip-Kept c
    ban-Kept (BanTarget.filename c) = ban_filename-Kept c
    ban-Kept (BanTarget.mime c) = ban_mime-Kept c
    ban-Kept (BanTarget.hash c) = ban_hash-Kept c
    ban-Kept (BanTarget.user_agent c) = ban_user_agent-Kept c
