-- ===== src/Nsfw/Tests.antt =====
-- A run over two images.
use filehost.Base.{
  ◌-◌, ◌≡◌, refl, true, false, Option, none, some, [], ◌∷◌, map, filter, length, ascii, ◌==◌,
  if◌then◌else◌,
}
use filehost.Base.Results.{ok}
use filehost.Db.Model.{Upload, Uuid, Score}
use filehost.Db.World.{World}
use filehost.Db.Samples.{sample, sample_tables, upload_row}
use filehost.Nsfw.{rensfw}
use filehost.Nsfw.Scores.{to_scan, classified, scored_row, rensfw_lem}

abbrev image : Uuid → Upload
image id = record (upload_row id (ascii "abc") 500) { content_type = some (ascii "image/png") }

abbrev gallery : World
gallery = record sample { tables = record sample_tables { uploads = image 1 ∷ image 2 ∷ [] } }

-- The second file cannot be classified.
abbrev classify : Uuid → Option Score
classify id = if id == 1 then some 7 else none

rensfw_lem_example :
    ((rensfw (some classify) true false gallery).0
      ≡ ok (record {
        scanned = classified classify (filter (to_scan true) gallery.tables.uploads);
        errors =
            length (filter (to_scan true) gallery.tables.uploads)
            - classified classify (filter (to_scan true) gallery.tables.uploads);
      }))
    × ((rensfw (some classify) true false gallery).1.tables.uploads
        ≡ map
            (λ u. if to_scan true u then scored_row classify u.id u else u)
            gallery.tables.uploads)
    × ((rensfw (some classify) true true gallery).1 ≡ gallery)
rensfw_lem_example = rensfw_lem classify true gallery refl ((refl, tt), (tt, tt))
