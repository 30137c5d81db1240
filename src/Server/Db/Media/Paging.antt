-- ===== src/Server/Db/Media/Paging.antt =====
-- The pages of `list_media` of crates/server/src/db.rs, for a client that follows the cursors.
use trust_server.Common.{
  ℕ, zero, suc, ◌+◌, ◌-◌, ◌≡◌, ◌≤◌, refl, subst, sym, ◌∙◌, String, Bool, true, false, ◌&&◌, Option,
  none, some, List, [], ◌∷◌, ◌++◌, arith, filter, ltb, ◌==◌, if◌then◌else◌, All, All-take, length,
  length-take, take, drop, get_last?, Distinct, Bool-cases, inl, inr,
}
use trust_server.Common.Int.{ℤ, pos}
use trust_server.Common.Sorting.Laws.{
  Ordered, IsOrder, sort_by-Ordered, sort_by-filter, Distinct-sort_by, Distinct-filter,
  Ordered-strict,
}
use trust_server.Common.Selection.{filter-filter, filter-ext}
use trust_server.Exec.{ok}
use trust_server.Storage.Models.{Uuid}
use trust_server.Storage.Tables.{Tables, Media}
use trust_server.Storage.Backend.{Backend}
use trust_server.Server.Db.Media.{
  listed, of_kind, before_cursor, newest_first, page, ordered, list_media,
}

abbrev pub strictly : Media → Media → Bool
strictly x y = ltb y.seq x.seq

pub newest_first-IsOrder : IsOrder newest_first
newest_first-IsOrder = record { total = λ x y e. ground arith; trans = λ x y z e f. ground arith }

abbrev pub cursor_of : List Media → Option ℕ
cursor_of rows = elim (get_last? rows) [ none ↦ none | some r ↦ some r.seq ]

pub length-drop : (n : ℕ) (xs : List Media) → length (drop n xs) ≡ length xs - n
length-drop zero xs = omega arith
length-drop (suc n) [] = omega arith
length-drop (suc n) (x ∷ xs) = omega (arith, length-drop n xs)

pub take-all : (n : ℕ) (xs : List Media) → length xs ≤ n → take n xs ≡ xs
take-all zero [] h = refl
take-all zero (x ∷ xs) h = ground arith
take-all (suc n) [] h = refl
take-all (suc n) (x ∷ xs) h = ground (arith, take-all n xs)

take-take : (n : ℕ) (xs : List Media) → take n (take (suc n) xs) ≡ take n xs
take-take zero xs = refl
take-take (suc n) [] = refl
take-take (suc n) (x ∷ xs) = ground (arith, take-take n xs)

pub take-drop : (n : ℕ) (xs : List Media) → take n xs ++ drop n xs ≡ xs
take-drop zero xs = refl
take-drop (suc n) [] = refl
take-drop (suc n) (x ∷ xs) = ground (arith, take-drop n xs)

-- the page of all rows from which one more than the limit was fetched
page-take :
    (limit : ℕ) (rows : List Media)
    → page limit (take (limit + 1) rows)
      ≡ (take limit rows, if ltb limit (length rows) then cursor_of (take limit rows) else none)
page-take limit rows =
    let one_more : limit + 1 ≡ suc limit = omega arith in
    rw one_more (elim (Bool-cases (ltb limit (length rows))) [
      | inl e ↦
          let more : ltb limit (length (take (suc limit) rows)) ≡ true =
            ground (arith, length-take (suc limit) rows) in
          rw (more, e, take-take limit rows) refl
      | inr e ↦
          ground
            (arith, length-take (suc limit) rows, take-all (suc limit) rows, take-all limit rows)
    ])

-- With the database in reach, a page is the first rows, as many as the limit, of the ordered rows
-- that the filter and the cursor admit, and it bears the number of its last row as the next cursor exactly
-- if more rows follow.
pub list_media-page :
    (cid : Uuid) (kind : Option String) (before : Option ℤ) (limit : ℕ) (b : Backend)
    → b.outside.fault b.calls ≡ false
    → list_media cid kind before limit b ≡ (
      ok (
        take limit (ordered cid kind before b.tables),
        if ltb limit (length (ordered cid kind before b.tables))
            then cursor_of (take limit (ordered cid kind before b.tables))
            else none,
      ),
      record b { calls = suc b.calls },
    )
unfolding list_media
list_media-page cid kind before limit b up =
    ground (arith, page-take limit (ordered cid kind before b.tables))

pub All-last :
    (P : Media → Type 0) (xs : List Media) (r : Media) → All P xs → get_last? xs ≡ some r → P r
All-last P [] r h e = cc
All-last P (x ∷ []) r h e = let same : x ≡ r = ground arith in subst P same h.0
All-last P (x ∷ y ∷ ys) r h e = All-last P (y ∷ ys) r h.1 e

keep-below :
    (k : ℕ) (xs : List Media) → All (λ y. ltb y.seq k ≡ true) xs → filter (λ y. ltb y.seq k) xs ≡ xs
keep-below k [] h = refl
keep-below k (x ∷ xs) h = ground (arith, h.0, keep-below k xs h.1)

-- in a strictly falling list the rows below the last of a page are those after the page
pub filter-drop :
    (n : ℕ) (x r : Media) (xs : List Media)
    → Ordered strictly (x ∷ xs)
    → get_last? (take (suc n) (x ∷ xs)) ≡ some r
    → filter (λ y. ltb y.seq r.seq) (x ∷ xs) ≡ drop (suc n) (x ∷ xs)
filter-drop zero x r xs h e =
    let same : x ≡ r = ground arith in
    subst (λ z. filter (λ y. ltb y.seq z.seq) (x ∷ xs) ≡ xs) same
      (ground (arith, keep-below x.seq xs h.0))
filter-drop (suc n) x r [] h e =
    let same : x ≡ r = ground arith in
    subst (λ z. filter (λ y. ltb y.seq z.seq) (x ∷ []) ≡ []) same (ground arith)
filter-drop (suc n) x r (y ∷ ys) h e =
    let above =
      All-last (λ z. ltb z.seq x.seq ≡ true) (take (suc n) (y ∷ ys)) r
        (All-take (λ z. ltb z.seq x.seq ≡ true) (suc n) (y ∷ ys) h.0) e in
    ground (arith, filter-drop n y r ys h.1 e)

-- no two attachments of a conversation bear the same number
abbrev pub IsNumbered : Uuid → Tables → Type 0
IsNumbered cid t = Distinct (λ r. r.seq) (filter (λ r. r.conversation_id == cid) t.media)

pub ordered-strictly :
    (cid : Uuid) (kind : Option String) (before : Option ℤ) (t : Tables)
    → IsNumbered cid t
    → Ordered strictly (ordered cid kind before t)
ordered-strictly cid kind before t d =
    Ordered-strict (λ r. r.seq) (ordered cid kind before t)
      (Distinct-sort_by newest_first (λ r. r.seq) (filter (listed cid kind before) t.media)
        distinct)
      (sort_by-Ordered newest_first newest_first-IsOrder (filter (listed cid kind before) t.media))
  where
    rest : Media → Bool
    rest r = of_kind kind r && before_cursor before r

    distinct : Distinct (λ r. r.seq) (filter (listed cid kind before) t.media)
    distinct =
        subst (Distinct (λ r. r.seq))
          (filter-filter rest (λ r. r.conversation_id == cid) t.media
            ∙ filter-ext (λ r. r.conversation_id == cid && rest r) (listed cid kind before) t.media
                (λ r. ground arith))
          (Distinct-filter (λ r. r.seq) rest (filter (λ r. r.conversation_id == cid) t.media) d)

-- a cursor below the one before
pub ordered-below :
    (cid : Uuid) (kind : Option String) (before : Option ℤ) (k : ℕ) (t : Tables)
    → ((r : Media) → ltb r.seq k ≡ true → before_cursor before r ≡ true)
    → ordered cid kind (some (pos k)) t ≡ filter (λ r. ltb r.seq k) (ordered cid kind before t)
ordered-below cid kind before k t h =
    rw
      (
        sym (
            sort_by-filter newest_first newest_first-IsOrder (λ r. ltb r.seq k)
              (filter (listed cid kind before) t.media)),
        filter-filter (λ r. ltb r.seq k) (listed cid kind before) t.media,
        filter-ext (listed cid kind (some (pos k))) (λ r. listed cid kind before r && ltb r.seq k)
            t.media (λ r. ground (arith, h r)),
      )
      refl
