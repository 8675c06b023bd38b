-- ===== src/Share/Quota.antt =====
-- The quota, the ids and the order of the share in memory (core/share.ts).
use vpn_pi.Common.{
  ℕ, ◌+◌, ◌≤◌, ◌<◌, ◌≡◌, refl, false, List, [], ◌∷◌, ◌++◌, map, Option, some, nat_eq, nat_beq_iff,
  ◌==◌, subst, length, All, All-append, arith, ltb, leb, Str, All-imp, Bool-cases, inl, inr,
  Option-cases, sym, ap, ◌∙◌,
}
use vpn_pi.Common.Maps
use vpn_pi.Common.Maps.{Map}
use vpn_pi.Platform.{Bytes}
use vpn_pi.Errors.{Thrown, file_not_found}
use vpn_pi.Errors.Result.{Result, ok, err}
use vpn_pi.Share.{
  Share, Row, SharedFile, Call, adds, removes, new_share, add_file, get_file, remove_file,
  sanitize_file_name, sort_files, insert_file, list, step, run,
}

-- The bytes that the rows hold.
unfoldable pub stored_bytes : Map ℕ Row → ℕ
stored_bytes [] = 0
stored_bytes ((id, r) ∷ rs) = length r.content + stored_bytes rs

-- Each row is kept under its own id and states the size of its content.
abbrev pub IsRow : ℕ × Row → Type 0
IsRow e = (e.0 ≡ e.1.file.id) × (e.1.file.size ≡ length e.1.content)

-- Ids grow from `low` on and stay below `high`.
abbrev pub Ascending : ℕ → ℕ → Map ℕ Row → Type 0
Ascending low high [] = low ≤ high
Ascending low high ((id, r) ∷ rs) = (low ≤ id) × Ascending (id + 1) high rs

pub record IsSound (s : Share) : Type 0 where
  pub rows : All IsRow s.rows
  pub ids : Ascending 0 s.next_id s.rows
  pub total : s.total ≡ stored_bytes s.rows
  pub quota : s.total ≤ s.max_total_bytes

pub Ascending-append :
    (low high : ℕ) (r : Row) (m : Map ℕ Row)
    → Ascending low high m
    → (Ascending low (high + 1) (m ++ (high, r) ∷ [])) × (Maps.has high m ≡ false) × (low ≤ high)
unfolding Maps.get
Ascending-append low high r [] h = (omega arith, refl, h)
Ascending-append low high r ((id, q) ∷ m) (h, a) =
    let (b, c, d) = Ascending-append (id + 1) high r m a in
    let other : (id == high) ≡ false = ground (arith, nat_beq_iff id high) in
    ((h, b), rw (other) c, omega arith)

stored_bytes-append :
    (id : ℕ) (r : Row) (m : Map ℕ Row)
    → stored_bytes (m ++ (id, r) ∷ []) ≡ stored_bytes m + length r.content
unfolding stored_bytes
stored_bytes-append id r [] = omega arith
stored_bytes-append id r (e ∷ m) = omega (arith, stored_bytes-append id r m)

Ascending-weaken :
    (low low' high : ℕ) (m : Map ℕ Row) → low' ≤ low → Ascending low high m → Ascending low' high m
Ascending-weaken low low' high [] h a = omega arith
Ascending-weaken low low' high ((id, r) ∷ m) h (l, a) = (omega arith, a)

delete-above :
    (id low high : ℕ) (m : Map ℕ Row) → id < low → Ascending low high m → Maps.delete id m ≡ m
unfolding Maps.delete
delete-above id low high [] h a = refl
delete-above id low high ((j, r) ∷ m) h (l, a) =
    let other : (j == id) ≡ false = ground (arith, nat_beq_iff j id) in
    rw (other, delete-above id (j + 1) high m (omega arith) a)

Ascending-delete :
    (id low high : ℕ) (m : Map ℕ Row) (r : Row)
    → Ascending low high m
    → Maps.get id m ≡ some r
    → (Ascending low high (Maps.delete id m))
      × (stored_bytes (Maps.delete id m) + length r.content ≡ stored_bytes m)
unfolding Maps.delete Maps.get stored_bytes
Ascending-delete id low high [] r a h = absurd (cc)
Ascending-delete id low high ((j, q) ∷ m) r (l, a) h = elim (Bool-cases (j == id)) [
  | inl hit ↦
      let same : j ≡ id = (nat_beq_iff j id).0 hit in
      let found : q ≡ r = ground arith in
      let gone = delete-above id (j + 1) high m (omega (arith, same)) a in
      rw (hit, gone, found) (Ascending-weaken (j + 1) low high m (omega (arith, l)) a, omega arith)
  | inr miss ↦
      let (b, c) = Ascending-delete id (j + 1) high m r a (ground arith) in
      rw miss ((l, b), omega (arith, c))
]

size-of :
    (id : ℕ) (r : Row) (m : Map ℕ Row)
    → All IsRow m
    → Maps.get id m ≡ some r
    → r.file.size ≡ length r.content
size-of id r m a h = (Maps.All-get IsRow id r m a h).1

pub new_share-IsSound : (max : ℕ) → IsSound (new_share max)
unfolding new_share stored_bytes
new_share-IsSound max = record { rows = tt; ids = omega arith; total = refl; quota = omega arith }

pub step-IsSound : (s : Share) (c : Call) → IsSound s → IsSound (step s c)
unfolding step add_file remove_file
step-IsSound s (adds name content node content_type now) v =
    elim (Bool-cases (ltb s.max_total_bytes (s.total + length content))) [
      | inl full ↦ rw full v
      | inr room ↦
          rw room
            let file : SharedFile = record {
              id = s.next_id;
              name = sanitize_file_name name;
              size = length content;
              node = node;
              modified = now;
            } in
              let row : Row = record {
                file = file;
                content_type = content_type;
                content = content;
              } in
              let (grown, fresh, low) = Ascending-append 0 s.next_id row s.rows v.ids in
              let appended = Maps.set-new s.next_id row s.rows fresh in
              record {
                rows = Maps.All-set IsRow s.next_id row s.rows (refl, refl) v.rows;
                ids = rw appended grown;
                total =
                    rw appended (omega (arith, stored_bytes-append s.next_id row s.rows, v.total));
                quota = ground (arith, v.quota);
              }
    ]
step-IsSound s (removes id) v = elim (Option-cases (Maps.get id s.rows)) [
  | inl gone ↦ rw gone v
  | inr (r, found) ↦
      let (b, c) = Ascending-delete id 0 s.next_id s.rows r v.ids found in
      let size = size-of id r s.rows v.rows found in
      rw found (record {
        rows = Maps.All-delete IsRow id s.rows v.rows;
        ids = b;
        total = omega (arith, size, c, v.total);
        quota = omega (arith, v.quota);
      })
]

run-IsSound : (s : Share) (cs : List Call) → IsSound s → IsSound (run s cs)
unfolding run
run-IsSound s [] v = v
run-IsSound s (c ∷ cs) v = run-IsSound (step s c) cs (step-IsSound s c v)

max-step : (s : Share) (c : Call) → (step s c).max_total_bytes ≡ s.max_total_bytes
unfolding step add_file remove_file
max-step s (adds name content node content_type now) = ground arith
max-step s (removes id) = ground arith

max-run : (s : Share) (cs : List Call) → (run s cs).max_total_bytes ≡ s.max_total_bytes
unfolding run
max-run s [] = refl
max-run s (c ∷ cs) = max-run (step s c) cs ∙ max-step s c

-- After any sequence of uploads and removals, failed ones included, the contents in the share hold
-- at most the quota's bytes together, and the running sum that the check reads is exactly theirs.
pub run-quota :
    (max : ℕ) (cs : List Call)
    → ((run (new_share max) cs).total ≡ stored_bytes (run (new_share max) cs).rows)
      × (stored_bytes (run (new_share max) cs).rows ≤ max)
unfolding new_share
run-quota max cs =
    let v = run-IsSound (new_share max) cs (new_share-IsSound max) in
    (v.total, omega (arith, v.total, v.quota, max-run (new_share max) cs))

-- Newest first: the ids fall strictly, from below `high`.
abbrev pub Newest : ℕ → List SharedFile → Type 0
Newest high [] = Unit
Newest high (f ∷ fs) = (f.id < high) × Newest f.id fs

Newest-snoc :
    (high low : ℕ) (f : SharedFile) (fs : List SharedFile)
    → Newest high fs
    → All (λ g. low < g.id) fs
    → f.id ≡ low
    → low < high
    → (Newest high (fs ++ f ∷ [])) × (insert_file f fs ≡ fs ++ f ∷ [])
unfolding insert_file
Newest-snoc high low f [] n a e h = ((omega arith, tt), refl)
Newest-snoc high low f (g ∷ gs) (k, n) (l, a) e h =
    let (b, c) = Newest-snoc g.id low f gs n a e l in
    let later : leb g.id f.id ≡ false = ground arith in ((k, b), rw (later, c) refl)

sort-Newest :
    (low high : ℕ) (m : Map ℕ Row)
    → Ascending low high m
    → All IsRow m
    → (Newest high (sort_files (map (λ e. e.1.file) m)))
      × All (λ g. low ≤ g.id) (sort_files (map (λ e. e.1.file) m))
unfolding sort_files
sort-Newest low high [] a r = (tt, tt)
sort-Newest low high ((id, q) ∷ m) (l, a) ((same, size), r) =
    let (b, c) = sort-Newest (id + 1) high m a r in
    let sorted = sort_files (map (λ e. e.1.file) m) in
    let above : All (λ g. id < g.id) sorted = All-imp (λ g h. omega (arith, h)) sorted c in
    let below = (Ascending-append (id + 1) high q m a).2 in
    let (d, e) = Newest-snoc high id q.file sorted b above (sym same) (omega (arith, below)) in
    rw e (
      d,
      All-append (λ g. low ≤ g.id) sorted (q.file ∷ [])
          (All-imp (λ g h. omega (arith, h, l)) sorted c) (omega (arith, same, l), tt),
    )

-- After any sequence of uploads and removals the listing is newest first, its ids fall strictly
-- (so no two files share one), and all of them lie below the id that the next upload gets.
pub run-Newest :
    (max : ℕ) (cs : List Call)
    → Newest (run (new_share max) cs).next_id (list (run (new_share max) cs))
unfolding list
run-Newest max cs =
    let v = run-IsSound (new_share max) cs (new_share-IsSound max) in
    (sort-Newest 0 (run (new_share max) cs).next_id (run (new_share max) cs).rows v.ids v.rows).0

ok-injective : {A : Type 0} {a b : A} → ◌≡◌ {A = Result Thrown A} (ok a) (ok b) → a ≡ b
ok-injective {A} {a} h = ap (λ r. elim r [ ok x ↦ x | err e ↦ a ]) h

get-added :
    (row : Row) (s : Share)
    → (get_file s.next_id (record s { rows = Maps.set s.next_id row s.rows })
        ≡ ok (record {
          name = row.file.name;
          content_type = row.content_type;
          content = row.content;
        }))
unfolding get_file
get-added row s = rw (Maps.get-set_self s.next_id row s.rows) refl

get-removed : (id : ℕ) (s : Share) → get_file id (step s (removes id)) ≡ err file_not_found
unfolding get_file step remove_file
get-removed id s = elim (Option-cases (Maps.get id s.rows)) [
  | inl gone ↦ rw (gone, gone) refl
  | inr (r, found) ↦ rw (found, Maps.get-delete_self id s.rows) refl
]

-- An upload that is accepted can be read back under the id it was given, with its sanitized name,
-- its type and its bytes, and once it is removed reading that id fails with "no file".
pub get_file-add_file :
    (name : Str) (content : Bytes) (node : Str) (content_type : Option Str) (now : ℕ) (s s' : Share)
    (f : SharedFile)
    → add_file name content node content_type now s ≡ ok (f, s')
    → (get_file f.id s'
        ≡ ok (record {
          name = sanitize_file_name name;
          content_type = content_type;
          content = content;
        }))
      × (get_file f.id (step s' (removes f.id)) ≡ err file_not_found)
unfolding add_file get_file
get_file-add_file name content node content_type now s s' f h = (
  elim (Bool-cases (ltb s.max_total_bytes (s.total + length content))) [
    | inl full ↦ absurd (cc)
    | inr room ↦
        let e = ok-injective (rw room at h) in
        let file : SharedFile = record {
          id = s.next_id;
          name = sanitize_file_name name;
          size = length content;
          node = node;
          modified = now;
        } in
        let row : Row = record { file = file; content_type = content_type; content = content } in
        subst
          (λ x.
            get_file x.0.id x.1
            ≡ ok (record {
              name = sanitize_file_name name;
              content_type = content_type;
              content = content;
            }))
          e (get-added row s)
  ],
  get-removed f.id s',
)
