-- ===== src/Db/Hourly.antt =====
-- What the hourly counts of an address (src/db.rs) add up to.
use mathlib.Core.Path.{ap}
use filehost.Base.{
  ℕ, zero, suc, ◌+◌, ◌-◌, ◌*◌, ◌/◌, ◌≤◌, ◌≡◌, refl, sym, ◌∙◌, inl, inr, Bool, true, false, ◌&&◌,
  ◌||◌, List, [], ◌∷◌, All, Bytes, filter, length, ltb, ◌==◌, Bool-cases, arith,
}
use filehost.Base.Results.{ok}
use filehost.Ip.Addr.{IpAddr, to_db_bytes}
use filehost.Db.Model.{Upload}
use filehost.Db.World.{World}
use filehost.Db.Answered.{select-answered}
use filehost.Db.Uploads.{is_active, stored_eq}
use filehost.Db.Stats.{
  HourlyUploadCount, hour_of, in_hours, is_since, hourly_slots, uploads_hourly_counts,
}

abbrev pub total : List HourlyUploadCount → ℕ
total [] = 0
total (h ∷ hs) = h.count + total hs

abbrev count : (Upload → Bool) → List Upload → ℕ
count p us = length (filter p us)

-- Two tests of which no row meets both count up to the one that either meets.
count_add :
    (p q r : Upload → Bool) (us : List Upload)
    → All (λ u. (r u ≡ (p u || q u)) × ((p u && q u) ≡ false)) us
    → count p us + count q us ≡ count r us
count_add p q r [] h = refl
count_add p q r (u ∷ us) (here, h) = ground (arith, here, count_add p q r us h)

-- The hours of the slots: those that begin less than `left` hours before the present one's end.
abbrev in_slots : ℕ → ℕ → Upload → Bool
in_slots left now_hour u = ltb now_hour (hour_of u + left)

none_counted :
    (now_hour : ℕ) (us : List Upload)
    → All (λ u. hour_of u ≤ now_hour) us
    → count (in_slots 0 now_hour) us ≡ 0
none_counted now_hour [] h = refl
none_counted now_hour (u ∷ us) (here, h) = ground (arith, none_counted now_hour us h)

slots_split :
    (left now_hour : ℕ) (us : List Upload)
    → suc left ≤ now_hour + 1
    → All (λ u. hour_of u ≤ now_hour) us
    → All
        (λ u.
          (in_slots (suc left) now_hour u
            ≡ ((hour_of u == now_hour - left) || in_slots left now_hour u))
          × (((hour_of u == now_hour - left) && in_slots left now_hour u) ≡ false))
        us
slots_split left now_hour [] h past = tt
slots_split left now_hour (u ∷ us) h (here, past) =
    ((ground arith, ground arith), slots_split left now_hour us h past)

hourly_slots-total :
    (left now_hour : ℕ) (us : List Upload)
    → left ≤ now_hour + 1
    → All (λ u. hour_of u ≤ now_hour) us
    → total (hourly_slots left now_hour us) ≡ count (in_slots left now_hour) us
unfolding hourly_slots
hourly_slots-total zero now_hour us h past = sym (none_counted now_hour us past)
hourly_slots-total (suc left) now_hour us h past = omega (
  arith,
  hourly_slots-total left now_hour us (omega arith) past,
  count_add (λ u. hour_of u == now_hour - left) (in_slots left now_hour)
      (in_slots (suc left) now_hour) us (slots_split left now_hour us h past),
)

length-hourly_slots :
    (left now_hour : ℕ) (us : List Upload) → length (hourly_slots left now_hour us) ≡ left
unfolding hourly_slots
length-hourly_slots zero now_hour us = refl
length-hourly_slots (suc left) now_hour us = ap suc (length-hourly_slots left now_hour us)

-- The rows that the counts are of.
abbrev pub in_week : Bytes → ℕ → ℕ → Upload → Bool
in_week ip hours now_hour u =
    stored_eq u.uploader_ip ip && is_active u && ltb now_hour (hour_of u + hours)

filter_past :
    (ip : Bytes) (hours now : ℕ) (us : List Upload)
    → All (λ (u : Upload). u.upload_timestamp ≤ now) us
    → All (λ u. hour_of u ≤ now / 3600) (filter (in_hours ip hours now) us)
filter_past ip hours now [] h = tt
filter_past ip hours now (u ∷ us) (here, h) = elim (Bool-cases (in_hours ip hours now u)) [
  | inl e ↦ rw e (omega arith, filter_past ip hours now us h)
  | inr e ↦ rw e (filter_past ip hours now us h)
]

count_filter :
    (p q r : Upload → Bool)
    → ((u : Upload) → (p u && q u) ≡ r u)
    → (us : List Upload) → count q (filter p us) ≡ count r us
count_filter p q r same [] = refl
count_filter p q r same (u ∷ us) =
    let here = same u in
    let rest = count_filter p q r same us in
    elim (Bool-cases (p u)) [ inl e ↦ ground arith | inr e ↦ ground arith ]

since_slots :
    (hours now : ℕ) (u : Upload)
    → in_slots hours (now / 3600) u ≡ true
    → is_since now (hours * 3600) u ≡ true
since_slots hours now u h = ground arith

and_implied : (a b s c : Bool) → (c ≡ true → s ≡ true) → ((a && b && s) && c) ≡ (a && b && c)
and_implied false b s c h = refl
and_implied true false s c h = refl
and_implied true true true c h = refl
and_implied true true false false h = refl
and_implied true true false true h = h refl

-- Of the rows that the query counts, those of the slots are the rows of the week.
in_week_iff :
    (ip : Bytes) (hours now : ℕ) (u : Upload)
    → (in_hours ip hours now u && in_slots hours (now / 3600) u) ≡ in_week ip hours (now / 3600) u
unfolding in_hours
in_week_iff ip hours now u =
    and_implied (stored_eq u.uploader_ip ip) (is_active u) (is_since now (hours * 3600) u)
      (in_slots hours (now / 3600) u) (since_slots hours now u)

-- Where the query is answered, no upload is of a later time than the present, and the clock is past as
-- many hours: there is a count for each of the hours, and together they are the number of the active
-- uploads from the address since the first of these hours began.
pub uploads_hourly_counts_lem :
    (ip : IpAddr) (hours : ℕ) (w : World)
    → w.outages ≡ []
    → All (λ (u : Upload). u.upload_timestamp ≤ w.now) w.tables.uploads
    → hours ≤ w.now / 3600 + 1
    → (counts : List HourlyUploadCount) × (uploads_hourly_counts ip hours w ≡ (ok counts, w))
      × (length counts ≡ hours)
      × (total counts
          ≡ length (filter (in_week (to_db_bytes ip) hours (w.now / 3600)) w.tables.uploads))
unfolding uploads_hourly_counts
uploads_hourly_counts_lem ip hours w up past long =
    let rows = filter (in_hours (to_db_bytes ip) hours w.now) w.tables.uploads in
    (
      hourly_slots hours (w.now / 3600) rows,
      select-answered
          (λ now t.
            hourly_slots hours (now / 3600)
              (filter (in_hours (to_db_bytes ip) hours now) t.uploads))
          w up,
      length-hourly_slots hours (w.now / 3600) rows,
      hourly_slots-total hours (w.now / 3600) rows long
            (filter_past (to_db_bytes ip) hours w.now w.tables.uploads past)
          ∙ count_filter (in_hours (to_db_bytes ip) hours w.now) (in_slots hours (w.now / 3600))
              (in_week (to_db_bytes ip) hours (w.now / 3600))
              (in_week_iff (to_db_bytes ip) hours w.now) w.tables.uploads,
    )
