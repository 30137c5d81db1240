-- ===== src/Server/Db/Media/Follow.antt =====
-- A client that follows the cursors of `list_media` (crates/server/src/db.rs).
use trust_server.Common.{
  ℕ, zero, suc, ◌≡◌, ◌≤◌, ◌<◌, refl, subst, sym, ◌∙◌, String, Bool, true, false, Option, none, some,
  List, [], ◌∷◌, ◌++◌, arith, filter, ltb, All, All-take, length, take, drop, get_last?, Bool-cases,
  inl, inr,
}
use mathlib.Core.List.{append-nil}
use trust_server.Common.Int.{ℤ, pos, negsuc}
use trust_server.Common.Sorting.{sort_by}
use trust_server.Common.Sorting.Laws.{Ordered, sort_by-filter}
use trust_server.Exec.{ok, pure, ◌>>=◌}
use trust_server.Storage.Models.{Uuid}
use trust_server.Storage.Tables.{Tables, Media}
use trust_server.Storage.Backend.{Backend, Sql}
use trust_server.Server.Db.Media.{listed, before_cursor, newest_first, ordered, list_media}
use trust_server.Server.Db.Media.Paging.{
  strictly, cursor_of, newest_first-IsOrder, length-drop, take-all, take-drop, All-last,
  filter-drop, list_media-page, IsNumbered, ordered-strictly, ordered-below,
}

filter-All : (p : Media → Bool) (xs : List Media) → All (λ r. p r ≡ true) (filter p xs)
filter-All p [] = tt
filter-All p (x ∷ xs) = elim (Bool-cases (p x)) [
  | inl e ↦ rw e (e, filter-All p xs)
  | inr e ↦ rw e (filter-All p xs)
]

pub ordered-All :
    (cid : Uuid) (kind : Option String) (before : Option ℤ) (t : Tables)
    → All (λ r. listed cid kind before r ≡ true) (ordered cid kind before t)
ordered-All cid kind before t =
    rw (sort_by-filter newest_first newest_first-IsOrder (listed cid kind before) t.media)
      (filter-All (listed cid kind before) (sort_by newest_first t.media))

last-taken :
    (n : ℕ) (x : Media) (xs : List Media)
    → (r : Media) × (get_last? (take (suc n) (x ∷ xs)) ≡ some r)
last-taken zero x xs = (x, refl)
last-taken (suc n) x [] = (x, refl)
last-taken (suc n) x (y ∷ ys) = last-taken n y ys

below-before :
    (before : Option ℤ) (r s : Media)
    → before_cursor before s ≡ true
    → ltb r.seq s.seq ≡ true
    → before_cursor before r ≡ true
below-before none r s h l = refl
below-before (some (pos n)) r s h l = ground arith
below-before (some (negsuc n)) r s h l = ground arith

-- where the page from the next cursor begins
next_page :
    (cid : Uuid) (kind : Option String) (before : Option ℤ) (n : ℕ) (t : Tables) (x : Media)
    (xs : List Media)
    → IsNumbered cid t
    → ordered cid kind before t ≡ x ∷ xs
    → (k : ℕ) × (cursor_of (take (suc n) (x ∷ xs)) ≡ some k)
      × (ordered cid kind (some (pos k)) t ≡ drop (suc n) (x ∷ xs))
next_page cid kind before n t x xs d e =
    let (r, last) = last-taken n x xs in
    let passes : listed cid kind before r ≡ true =
      All-last (λ z. listed cid kind before z ≡ true) (take (suc n) (x ∷ xs)) r
        (All-take (λ z. listed cid kind before z ≡ true) (suc n) (x ∷ xs)
          (subst (All (λ z. listed cid kind before z ≡ true)) e (ordered-All cid kind before t)))
        last in
    let below =
      ordered-below cid kind before r.seq t (λ z l. below-before before z r (ground arith) l) in
    (
      r.seq,
      rw last refl,
      below
          ∙ rw e (
              filter-drop n x r xs
                (subst (Ordered strictly) e (ordered-strictly cid kind before t d)) last),
    )

uncons :
    (rows : List Media) (n : ℕ)
    → n < length rows
    → (x : Media) × (xs : List Media) × (rows ≡ x ∷ xs)
uncons [] n h = ground arith
uncons (x ∷ xs) n h = (x, xs, refl)

next_page-ordered :
    (cid : Uuid) (kind : Option String) (before : Option ℤ) (n : ℕ) (t : Tables)
    → IsNumbered cid t
    → suc n < length (ordered cid kind before t)
    → (k : ℕ) × (cursor_of (take (suc n) (ordered cid kind before t)) ≡ some k)
      × (ordered cid kind (some (pos k)) t ≡ drop (suc n) (ordered cid kind before t))
next_page-ordered cid kind before n t d more =
    let (x, xs, e) = uncons (ordered cid kind before t) (suc n) more in
    subst
      (λ rows.
        (k : ℕ) × (cursor_of (take (suc n) rows) ≡ some k)
        × (ordered cid kind (some (pos k)) t ≡ drop (suc n) rows))
      (sym e) (next_page cid kind before n t x xs d e)

-- the client: page after page, from the cursor that the page before bears
abbrev pub follow : ℕ → Uuid → Option String → Option ℤ → ℕ → Sql (List Media)
follow zero cid kind before limit = pure []
follow (suc fuel) cid kind before limit = do
  (items, next) ← list_media cid kind before limit
  rest ← elim next [ none ↦ pure [] | some k ↦ follow fuel cid kind (some (pos k)) limit ]
  pure (items ++ rest)

-- If every page reaches the database and has room for one attachment at least, and no two
-- attachments of the conversation bear the same number, a client that follows the cursors gets every
-- attachment that the filter and its first cursor admit, each once and the newest first, with one
-- page more than there are attachments left.
pub follow_complete :
    (fuel : ℕ) (cid : Uuid) (kind : Option String) (before : Option ℤ) (limit : ℕ) (b : Backend)
    → ((n : ℕ) → b.outside.fault n ≡ false)
    → 1 ≤ limit
    → IsNumbered cid b.tables
    → length (ordered cid kind before b.tables) < fuel
    → (follow fuel cid kind before limit b).0 ≡ ok (ordered cid kind before b.tables)
follow_complete zero cid kind before limit b up l d f = ground arith
follow_complete (suc fuel) cid kind before zero b up l d f = ground arith
follow_complete (suc fuel) cid kind before (suc n) b up l d f =
    rw (list_media-page cid kind before (suc n) b (up b.calls))
      (elim (Bool-cases (ltb (suc n) (length (ordered cid kind before b.tables)))) [
        | inl e ↦
            let more : suc n < length (ordered cid kind before b.tables) = ground arith in
            let (k, cursor, rest) = next_page-ordered cid kind before n b.tables d more in
            let later =
              follow_complete fuel cid kind (some (pos k)) (suc n)
                (record b { calls = suc b.calls }) up l d
                (rw rest (omega (arith, length-drop (suc n) (ordered cid kind before b.tables)))) in
            rw (e, cursor, later, rest, take-drop (suc n) (ordered cid kind before b.tables)) refl
        | inr e ↦
            rw (e, append-nil, take-all (suc n) (ordered cid kind before b.tables) (ground arith))
              refl
      ])
