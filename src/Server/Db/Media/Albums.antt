-- ===== src/Server/Db/Media/Albums.antt =====
-- What a client that follows the cursors of `list_media` (crates/server/src/db.rs) does not get where
-- a page ends inside an album.
use trust_server.Common.{
  ℕ, zero, suc, ◌≡◌, ◌≤◌, refl, subst, sym, ◌∙◌, String, Bool, true, false, Option, none, some,
  List, [], ◌∷◌, ◌++◌, arith, ltb, if◌then◌else◌, All, All-take, All-map, All-append, length, take,
  get_last?,
}
use trust_server.Common.Int.{pos}
use trust_server.Exec.{ok, pure}
use trust_server.Storage.Models.{Uuid}
use trust_server.Storage.Tables.{Tables, Media}
use trust_server.Storage.Backend.{Backend, Sql}
use trust_server.Server.Db.Media.{listed, ordered, list_media}
use trust_server.Server.Db.Media.Paging.{cursor_of, All-last, list_media-page}
use trust_server.Common.{◌≢◌, ap, any, any-append, ◌==◌, ◌&&◌}
use trust_server.Exec.{Result}
use trust_server.Storage.Outside.{SqlError}
use trust_server.Server.Db.Media.Follow.{ordered-All, follow}

page-below :
    (k : ℕ) (cid : Uuid) (kind : Option String) (limit : ℕ) (t : Tables)
    → All (λ r. ltb r.seq k ≡ true) (take limit (ordered cid kind (some (pos k)) t))
page-below k cid kind limit t =
    All-take (λ r. ltb r.seq k ≡ true) limit (ordered cid kind (some (pos k)) t)
      (All-map (λ r. listed cid kind (some (pos k)) r ≡ true) (λ r. ltb r.seq k ≡ true)
        (ordered cid kind (some (pos k)) t) (λ r h. ground arith)
        (ordered-All cid kind (some (pos k)) t))

cursor-below :
    (k j : ℕ) (more : Bool) (rows : List Media)
    → All (λ r. ltb r.seq k ≡ true) rows
    → (if more then cursor_of rows else none) ≡ some j
    → j ≤ k
cursor-below k j more rows h e = go (get_last? rows) refl
  where
    go : (o : Option Media) → get_last? rows ≡ o → j ≤ k
    go none l = ground (arith, l)
    go (some r) l = let low = All-last (λ r. ltb r.seq k ≡ true) rows r h l in ground (arith, l)

-- what the pages from a cursor on bear
abbrev pub FollowsBelow : ℕ → Uuid → Option String → ℕ → ℕ → Backend → Type 0
FollowsBelow fuel cid kind limit k b =
    (rows : List Media) × ((follow fuel cid kind (some (pos k)) limit b).0 ≡ ok rows)
    × All (λ r. ltb r.seq k ≡ true) rows

-- the pages after the first
follow-rest :
    (fuel k : ℕ) (cid : Uuid) (kind : Option String) (limit : ℕ) (b : Backend) (o : Option ℕ)
    → ((j : ℕ) → FollowsBelow fuel cid kind limit j b)
    → ((j : ℕ) → o ≡ some j → j ≤ k)
    → (rows : List Media) × ((elim o as (λ _. Sql (List Media)) [
      | none ↦ pure []
      | some j ↦ follow fuel cid kind (some (pos j)) limit
    ]
          b).0
        ≡ ok rows)
      × All (λ r. ltb r.seq k ≡ true) rows
follow-rest fuel k cid kind limit b none ih h = ([], refl, tt)
follow-rest fuel k cid kind limit b (some j) ih h =
    let (rows, e, low) = ih j in
    let le = h j refl in
    (
      rows,
      e,
      All-map (λ r. ltb r.seq j ≡ true) (λ r. ltb r.seq k ≡ true) rows (λ r l. ground arith) low,
    )

-- whatever pages a client follows from a cursor on, they bear only attachments with numbers below it
follow-below :
    (fuel k : ℕ) (cid : Uuid) (kind : Option String) (limit : ℕ) (b : Backend)
    → ((n : ℕ) → b.outside.fault n ≡ false)
    → FollowsBelow fuel cid kind limit k b
follow-below zero k cid kind limit b up = ([], refl, tt)
follow-below (suc fuel) k cid kind limit b up =
    let all = ordered cid kind (some (pos k)) b.tables in
    let b' : Backend = record b { calls = suc b.calls } in
    let here = page-below k cid kind limit b.tables in
    let (rs, e, low) =
      follow-rest fuel k cid kind limit b'
        (if ltb limit (length all) then cursor_of (take limit all) else none)
        (λ j. follow-below fuel j cid kind limit b' up)
        (λ j e. cursor-below k j (ltb limit (length all)) (take limit all) here e) in
    (
      take limit all ++ rs,
      rw (list_media-page cid kind (some (pos k)) limit b (up b.calls), e) refl,
      All-append (λ r. ltb r.seq k ≡ true) (take limit all) rs here low,
    )

-- the attachment with the id and the number of another
abbrev pub is_attachment : Media → Media → Bool
is_attachment x r = r.id == x.id && r.seq == x.seq

not-below :
    (x : Media) (rows : List Media)
    → All (λ r. ltb r.seq x.seq ≡ true) rows
    → any (is_attachment x) rows ≡ false
not-below x [] h = refl
not-below x (r ∷ rows) h = ground (arith, h.0, not-below x rows h.1)

-- Where the first page ends at the number of an attachment that the filter admits but that is not
-- on the page, as it does inside an album, whose attachments share the number of their message, a
-- client that follows the cursors never gets this attachment, whatever number of pages it reads,
-- and so not all that the filter admits. The database is in reach.
pub split_album_lost :
    (fuel : ℕ) (cid : Uuid) (kind : Option String) (limit : ℕ) (b b' : Backend) (items : List Media)
    (x : Media)
    → ((n : ℕ) → b.outside.fault n ≡ false)
    → list_media cid kind none limit b ≡ (ok (items, some x.seq), b')
    → any (is_attachment x) items ≡ false
    → any (is_attachment x) (ordered cid kind none b.tables) ≡ true
    → (rows : List Media) × ((follow (suc fuel) cid kind none limit b).0 ≡ ok rows)
      × (any (is_attachment x) rows ≡ false)
      × (rows ≢ ordered cid kind none b.tables)
split_album_lost fuel cid kind limit b b' items x up e out there =
    let here = list_media-page cid kind none limit b (up b.calls) in
    let next : b' ≡ record b { calls = suc b.calls } =
      ap (λ (r : Result SqlError (List Media × Option ℕ) × Backend). r.1) (sym e ∙ here) in
    let (rs, run, low) =
      follow-below fuel x.seq cid kind limit b'
        (subst (λ z. (n : ℕ) → z.outside.fault n ≡ false) (sym next) up) in
    let lost : any (is_attachment x) (items ++ rs) ≡ false =
      rw (any-append, out) (not-below x rs low) in
    (
      items ++ rs,
      rw (e, run) refl,
      lost,
      λ same.
          let both : true ≡ false = sym there ∙ sym (ap (any (is_attachment x)) same) ∙ lost in cc,
    )
