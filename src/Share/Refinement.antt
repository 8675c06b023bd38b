-- ===== src/Share/Refinement.antt =====
-- The share in SQLite (core/share.ts) against the one in memory: what the statements on the table
-- `files` do, and that no client can tell the two stores apart.
use vpn_pi.Common.{
  ℕ, ◌+◌, ◌≡◌, refl, sym, ap, ◌∙◌, Option, none, some, List, [], ◌∷◌, ◌++◌, map, nat_eq, length,
  All, arith, ltb, if◌then◌else◌, Bool-cases, Option-cases, inl, inr, Str,
}
use vpn_pi.Common.Maps
use vpn_pi.Common.Maps.{Map}
use vpn_pi.Errors.{Thrown}
use vpn_pi.Platform.{Bytes}
use vpn_pi.Errors.Result.{Result, ok, err, ◌>>=◌, Result-cases}
use vpn_pi.Share.{
  SharedFile, FileContent, Share, Row, new_share, sort_files, list, add_file, get_file, remove_file,
  step, adds, removes, sanitize_file_name,
}
use vpn_pi.Share.Sqlite.{NewRow, FilesTable, SqliteShare, list_rows, add_row, get_row, remove_row}
use vpn_pi.Share.Interface.{
  Request, Answer, browse, upload, download, discard, answered, ask, ask_all, browsed, uploaded,
  downloaded, thrown, memory_share, sqlite_share,
}
use vpn_pi.Share.Quota.{
  IsSound, IsRow, stored_bytes, Ascending-append, step-IsSound, new_share-IsSound,
}

abbrev pub file_of : ℕ × NewRow → SharedFile
file_of (id, row) = record {
  id = id;
  name = row.name;
  size = row.size;
  node = row.node;
  modified = row.modified;
}

abbrev pub content_of : NewRow → FileContent
content_of row = record { name = row.name; content_type = row.content_type; content = row.content }

unfoldable pub sum_sizes : Map ℕ NewRow → ℕ
sum_sizes [] = 0
sum_sizes ((id, row) ∷ m) = row.size + sum_sizes m

abbrev pub map_option : {A B : Type 0} → (A → B) → Option A → Option B
map_option f none = none
map_option f (some a) = some (f a)

-- What the statements do with the rows of the table and with the last id given. An id that was
-- given is not given again (AUTOINCREMENT), also once its row is deleted.
pub record FilesTableLaws {S : Type 0} (table : FilesTable S) : Type 0 where
  pub rows : S → Map ℕ NewRow
  pub last_id : S → ℕ
  pub all-rows : (s : S) → table.all s ≡ sort_files (map file_of (rows s))
  pub sum_size-rows : (s : S) → table.sum_size s ≡ sum_sizes (rows s)
  pub select-rows :
      (id : ℕ) (s : S) → table.select id s ≡ map_option content_of (Maps.get id (rows s))
  pub insert-id : (row : NewRow) (s : S) → (table.insert row s).0 ≡ last_id s + 1
  pub insert-rows :
      (row : NewRow) (s : S) → rows (table.insert row s).1 ≡ rows s ++ (last_id s + 1, row) ∷ []
  pub insert-last_id : (row : NewRow) (s : S) → last_id (table.insert row s).1 ≡ last_id s + 1
  pub remove-changes :
      (id : ℕ) (s : S) → (table.remove id s).0 ≡ (if Maps.has id (rows s) then 1 else 0)
  pub remove-rows : (id : ℕ) (s : S) → rows (table.remove id s).1 ≡ Maps.delete id (rows s)
  pub remove-last_id : (id : ℕ) (s : S) → last_id (table.remove id s).1 ≡ last_id s

abbrev row_of : ℕ × Row → ℕ × NewRow
row_of (id, r) = (
  id,
  record {
    name = r.file.name;
    size = r.file.size;
    node = r.file.node;
    content_type = r.content_type;
    content = r.content;
    modified = r.file.modified;
  },
)

files-row_of : (m : Map ℕ Row) → All IsRow m → map file_of (map row_of m) ≡ map (λ e. e.1.file) m
files-row_of [] a = refl
files-row_of ((id, r) ∷ m) ((same, size), a) =
    let key : file_of (row_of (id, r)) ≡ r.file = rw same refl in rw (key, files-row_of m a) refl

sum_sizes-row_of : (m : Map ℕ Row) → All IsRow m → sum_sizes (map row_of m) ≡ stored_bytes m
unfolding sum_sizes stored_bytes
sum_sizes-row_of [] a = refl
sum_sizes-row_of ((id, r) ∷ m) ((same, size), a) = omega (arith, size, sum_sizes-row_of m a)

get-row_of :
    (id : ℕ) (m : Map ℕ Row)
    → Maps.get id (map row_of m) ≡ map_option (λ r. (row_of (id, r)).1) (Maps.get id m)
unfolding Maps.get
get-row_of id [] = refl
get-row_of id ((j, r) ∷ m) = ground (arith, get-row_of id m)

delete-row_of :
    (id : ℕ) (m : Map ℕ Row) → Maps.delete id (map row_of m) ≡ map row_of (Maps.delete id m)
unfolding Maps.delete
delete-row_of id [] = refl
delete-row_of id ((j, r) ∷ m) = ground (arith, delete-row_of id m)

append-row_of :
    (e : ℕ × Row) (m : Map ℕ Row) → map row_of m ++ row_of e ∷ [] ≡ map row_of (m ++ e ∷ [])
append-row_of e [] = refl
append-row_of e (x ∷ m) = rw (append-row_of e m) refl

ask-step-adds :
    (name : Str) (content : Bytes) (node : Str) (content_type : Option Str) (now : ℕ) (s : Share)
    → (ask memory_share (upload name content node content_type now) s).1
      ≡ step s (adds name content node content_type now)
unfolding ask memory_share step
ask-step-adds name content node content_type now s = ground arith

ask-step-removes : (id : ℕ) (s : Share) → (ask memory_share (discard id) s).1 ≡ step s (removes id)
unfolding ask memory_share step
ask-step-removes id s = ground arith

abbrev row_under : ℕ → NewRow → Row
row_under id row = record {
  file = file_of (id, row);
  content_type = row.content_type;
  content = row.content;
}

module _ {S : Type 0} (table : FilesTable S) (laws : FilesTableLaws table) where
  -- The table holds the rows of the store in memory, and gives the same id next.
  record Agrees (d : SqliteShare S) (s : Share) : Type 0 where
    rows : laws.rows d.db ≡ map row_of s.rows
    next : laws.last_id d.db + 1 ≡ s.next_id
    max : d.max_total_bytes ≡ s.max_total_bytes
    sound : IsSound s

  sum_size-total : (d : SqliteShare S) (s : Share) → Agrees d s → table.sum_size d.db ≡ s.total
  sum_size-total d s v =
      laws.sum_size-rows d.db
      ∙ ap sum_sizes v.rows
      ∙ sum_sizes-row_of s.rows v.sound.rows
      ∙ sym v.sound.total

  all-list : (d : SqliteShare S) (s : Share) → Agrees d s → table.all d.db ≡ list s
  unfolding list
  all-list d s v =
      laws.all-rows d.db
      ∙ ap (λ m. sort_files (map file_of m)) v.rows
      ∙ ap sort_files (files-row_of s.rows v.sound.rows)

  select-get :
      (id : ℕ) (d : SqliteShare S) (s : Share) → Agrees d s → get_row table id d ≡ get_file id s
  unfolding get_row get_file
  select-get id d s v =
      rw (laws.select-rows id d.db, v.rows, get-row_of id s.rows)
        elim (Option-cases (Maps.get id s.rows)) [
          | inl gone ↦ rw gone refl
          | inr (r, found) ↦ rw found refl
        ]

  -- Both calls throw the same, or both succeed, with the same result and states that agree.
  abbrev Match :
      {A : Type 0} → Result Thrown (A × SqliteShare S) → Result Thrown (A × Share) → Type 0
  Match (ok (a, d)) (ok (b, s)) = (a ≡ b) × Agrees d s
  Match (ok x) (err e) = ⊥
  Match (err e) (ok x) = ⊥
  Match (err e) (err f) = e ≡ f

  add_row-Match :
      (name : Str) (content : Bytes) (node : Str) (content_type : Option Str) (now : ℕ)
      (d : SqliteShare S) (s : Share)
      → Agrees d s
      → Match
          (add_row table name content node content_type now d)
          (add_file name content node content_type now s)
  unfolding add_row add_file step
  add_row-Match name content node content_type now d s v =
      let sound = step-IsSound s (adds name content node content_type now) v.sound in
      elim (Bool-cases (ltb s.max_total_bytes (s.total + length content))) [
        | inl full ↦ rw (sum_size-total d s v, v.max, full) refl
        | inr room ↦
            let row : NewRow = record {
              name = sanitize_file_name name;
              size = length content;
              node = node;
              content_type = content_type;
              content = content;
              modified = now;
            } in
            let kept = row_under s.next_id row in
            let fresh = (Ascending-append 0 s.next_id kept s.rows v.sound.ids).1 in
            rw (sum_size-total d s v, v.max, room)
              (
                rw (laws.insert-id, v.next) refl,
                record {
                  rows =
                      laws.insert-rows row d.db
                      ∙ rw (v.rows, v.next) (append-row_of (s.next_id, kept) s.rows)
                      ∙ ap (map row_of) (sym (Maps.set-new s.next_id kept s.rows fresh));
                  next = rw (laws.insert-last_id row d.db, v.next) refl;
                  max = refl;
                  sound = rw room at sound;
                },
              )
      ]

  remove_row-Match :
      (id : ℕ) (d : SqliteShare S) (s : Share)
      → Agrees d s
      → Match (remove_row table id d >>= λ d'. ok (tt, d')) (remove_file id s >>= λ s'. ok (tt, s'))
  unfolding remove_row remove_file step
  remove_row-Match id d s v =
      let sound = step-IsSound s (removes id) v.sound in
      elim (Option-cases (Maps.get id s.rows)) [
        | inl gone ↦ rw (laws.remove-changes id d.db, v.rows, get-row_of id s.rows, gone) refl
        | inr (r, found) ↦
            rw (laws.remove-changes id d.db, v.rows, get-row_of id s.rows, found)
              (
                refl,
                record {
                  rows = laws.remove-rows id d.db ∙ rw v.rows (delete-row_of id s.rows);
                  next = rw (laws.remove-last_id id d.db) v.next;
                  max = v.max;
                  sound = rw found at sound;
                },
              )
      ]

  answered-Match :
      {A : Type 0} (says : A → Answer) (d : SqliteShare S) (s : Share)
      (a : Result Thrown (A × SqliteShare S)) (b : Result Thrown (A × Share))
      → Agrees d s
      → Match a b
      → ((answered says d a).0 ≡ (answered says s b).0)
        × Agrees (answered says d a).1 (answered says s b).1
  answered-Match says d s (ok (x, d')) (ok (y, s')) v (same, agrees) = (ap says same, agrees)
  answered-Match says d s (err e) (err e') v same = (ap thrown same, v)
  answered-Match says d s (ok x) (err e) v h = elim h [ ]
  answered-Match says d s (err e) (ok x) v h = elim h [ ]

  get_row-Match :
      (id : ℕ) (d : SqliteShare S) (s : Share)
      → Agrees d s
      → Match (get_row table id d >>= λ c. ok (c, d)) (get_file id s >>= λ c. ok (c, s))
  get_row-Match id d s v = rw (select-get id d s v) elim (Result-cases (get_file id s)) [
    | inl (c, found) ↦ rw found (refl, v)
    | inr (e, gone) ↦ rw gone refl
  ]

  ask-Agrees :
      (r : Request) (d : SqliteShare S) (s : Share)
      → Agrees d s
      → ((ask (sqlite_share table) r d).0 ≡ (ask memory_share r s).0)
        × (Agrees (ask (sqlite_share table) r d).1 (ask memory_share r s).1)
  unfolding ask memory_share sqlite_share list_rows
  ask-Agrees browse d s v = (ap browsed (all-list d s v), v)
  ask-Agrees (upload name content node content_type now) d s v =
      answered-Match uploaded d s _ _ v (add_row-Match name content node content_type now d s v)
  ask-Agrees (download id) d s v = answered-Match downloaded d s _ _ v (get_row-Match id d s v)
  ask-Agrees (discard id) d s v = answered-Match _ d s _ _ v (remove_row-Match id d s v)

  ask_all-Agrees :
      (rs : List Request) (d : SqliteShare S) (s : Share)
      → Agrees d s
      → ask_all (sqlite_share table) rs d ≡ ask_all memory_share rs s
  unfolding ask_all
  ask_all-Agrees [] d s v = refl
  ask_all-Agrees (r ∷ rs) d s v =
      let (same, agrees) = ask-Agrees r d s v in
      rw (same, ask_all-Agrees rs (ask (sqlite_share table) r d).1 (ask memory_share r s).1 agrees)
        refl

  -- Over any table on which the statements do what the laws say, a share in SQLite that starts
  -- empty gives every client the answers of the share in memory with the same quota: to any
  -- sequence of listings, uploads, downloads and removals, the ones that throw included, each
  -- answer is the same, ids, sizes and order of the listings included.
  pub ask_all-sqlite_share :
      (d : SqliteShare S) (rs : List Request)
      → laws.rows d.db ≡ []
      → laws.last_id d.db ≡ 0
      → ask_all (sqlite_share table) rs d ≡ ask_all memory_share rs (new_share d.max_total_bytes)
  unfolding new_share
  ask_all-sqlite_share d rs empty none_given =
      ask_all-Agrees rs d (new_share d.max_total_bytes) (record {
        rows = empty;
        next = rw none_given refl;
        max = refl;
        sound = new_share-IsSound d.max_total_bytes;
      })
