-- ===== src/Handlers/Captcha.antt =====
-- `captcha_challenge` and `captcha_verify` (src/handlers.rs). The hash functions, the process's secret,
-- its random bytes and the Unix time are arguments, as in Pow/Token.
use filehost.Base.{ℕ, Option, none, some, Bytes, ascii, if◌then◌else◌}
use filehost.Base.Results.{ok, err}
use filehost.Ip.Addr.{IpAddr}
use filehost.Ip.Xff.{XffTrust}
use filehost.Pow.Token.{issue, verify}
use filehost.Db.World.{World}
use filehost.Guard.Challenge.{mark_ip_verified}
use filehost.Handlers.Reply.{Settings, ContentType, Response, error_page, internal_err}
use filehost.Handlers.Process.{Libraries}
use filehost.Handlers.Upload.{Request, extract_ip}

-- `ChallengeResponse` and `VerifyRequest`.
pub record ChallengeResponse : Type 0 where
  pub token : Bytes
  pub difficulty : ℕ

pub record VerifyRequest : Type 0 where
  pub token : Bytes
  pub nonce : Bytes

module _ (lib : Libraries) (settings : Settings) (xff_trust : XffTrust)
    (keyed_hash : Bytes → Bytes → Bytes) (sha256 : Bytes → Bytes) (key : Bytes) where
  -- With the random bytes `rnd`, at the time `unix`.
  unfoldable pub captcha_challenge : Bytes → ℕ → ChallengeResponse
  captcha_challenge rnd unix = record {
    token = issue keyed_hash sha256 key rnd unix settings.pow_challenge_ttl_seconds;
    difficulty = settings.pow_difficulty;
  }

  -- The part that follows a solved challenge.
  unfoldable pub record_verified : Option IpAddr → World → Response × World
  record_verified none w =
      (error_page lib.show_status 400 (ascii "Could not determine your IP."), w)
  record_verified (some ip) w =
      let (r, w') = mark_ip_verified ip settings.challenge_verified_ttl_seconds w in
      elim r [
        | ok u ↦ (
          record {
            status = 200;
            content_type = ContentType.plaintext;
            body = ascii "Verified -- you can retry your request now.\n";
          },
          w',
        )
        | err e ↦ (internal_err lib.show_status, w')
      ]

  unfoldable pub captcha_verify : Request → VerifyRequest → ℕ → World → Response × World
  captcha_verify req body unix w =
      if verify keyed_hash sha256 key unix body.token body.nonce settings.pow_difficulty
      then (record_verified (extract_ip lib.parse_ip req xff_trust) w)
      else (error_page lib.show_status 403 (ascii "Challenge not solved."), w)
