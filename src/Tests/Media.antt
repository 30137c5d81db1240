-- ===== src/Tests/Media.antt =====
-- Pages of media, on a small database.
use trust_server.Common.{◌≡◌, ◌≢◌, refl, false, none, some, List, [], ◌∷◌, any, arith}
use trust_server.Common.{◌≤◌, ℕ, max, min, some}
use trust_server.Common.Int.{negsuc, pos}
use trust_server.Server.Media.{page_limit}
use trust_server.Server.Media.Limit.{page_limit_bounds}
use trust_server.Exec.{ok}
use trust_server.Storage.Tables.{Media}
use trust_server.Storage.Backend.{Backend, execute}
use trust_server.Server.Db.Media.{ordered, list_media}
use trust_server.Server.Db.Media.Follow.{follow, follow_complete}
use trust_server.Server.Db.Media.Albums.{is_attachment, split_album_lost}
use trust_server.Tests.Sample.{backend, tables, attachment}

follow_complete_example : (follow 4 100 none none 1 backend).0 ≡ ok (ordered 100 none none tables)
follow_complete_example =
    follow_complete 4 100 none none 1 backend (λ n. refl) (ground arith) (refl, (refl, (refl, tt)))
      (ground arith)

-- an album of two attachments with the number 2, and an older one
abbrev album : Backend
album = record backend {
  tables = record tables { media = attachment 401 2 ∷ attachment 402 2 ∷ attachment 403 1 ∷ [] };
}

first_page :
    list_media 100 none none 1 album
    ≡ (ok (attachment 401 2 ∷ [], some 2), record album { calls = 1 })
unfolding list_media execute
first_page = refl

split_album_lost_example :
    (rows : List Media) × ((follow 5 100 none none 1 album).0 ≡ ok rows)
    × (any (is_attachment (attachment 402 2)) rows ≡ false)
    × (rows ≢ ordered 100 none none album.tables)
split_album_lost_example =
    split_album_lost 4 100 none 1 album (record album { calls = 1 }) (attachment 401 2 ∷ [])
      (attachment 402 2) (λ n. refl) first_page refl refl

page_limit_bounds_example :
    (1 ≤ page_limit (some (pos 500)))
    × (page_limit (some (pos 500)) ≤ 100)
    × ((n : ℕ)
        → (page_limit (some (pos n)) ≡ max 1 (min n 100)) × (page_limit (some (negsuc n)) ≡ 1))
    × (page_limit none ≡ 30)
page_limit_bounds_example = page_limit_bounds (some (pos 500))
