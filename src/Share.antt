-- ===== src/Share.antt =====
-- core/share.ts: the file share of the island, with the store in memory. `modified` is the clock
-- that `nowIso()` prints, and sizes and ids stay far below 2^53.
pub mod Build
pub mod Interface
pub mod Names
pub mod Quota
pub mod Refinement
pub mod Remote
pub mod RemoteNames
pub mod Sqlite
use vpn_pi.Common.{
  ℕ, ◌+◌, ◌-◌, ◌*◌, Bool, true, false, not, ◌&&◌, ◌||◌, Option, none, some, List, [], ◌∷◌, ◌++◌,
  map, nat_eq, Str, lit, str_eq, ◌==◌, ltb, leb, length, take, trim, if◌then◌else◌,
}
use vpn_pi.Common.Maps
use vpn_pi.Common.Maps.{Map}
use vpn_pi.Errors.{Thrown, file_not_found, share_quota_exceeded}
use vpn_pi.Errors.Result.{Result, ok, err, ◌>>=◌, ◌>>◌, or_throw, ensure}
use vpn_pi.Platform.{Bytes}

pub record SharedFile : Type 0 where
  pub id : ℕ
  pub name : Str
  pub size : ℕ
  pub node : Str
  pub modified : ℕ

pub record FileContent : Type 0 where
  pub name : Str
  pub content_type : Option Str
  pub content : Bytes

abbrev pub default_share_max_bytes : ℕ
default_share_max_bytes = 1024 * 1024 * 1024

abbrev pub is_slash : ℕ → Bool
is_slash c = c == 0x2f || c == 0x5c

-- `[\u0000-\u001f\u007f"]`.
abbrev pub is_forbidden : ℕ → Bool
is_forbidden c = leb c 0x1f || c == 0x7f || c == 0x22

-- `raw.split(/[/\\]/).pop()`: the last segment; `segment` is the one being read.
unfoldable pub base_from : (segment : Str) → Str → Str
base_from segment [] = segment
base_from segment (c ∷ s) = base_from (if is_slash c then [] else segment ++ c ∷ []) s

abbrev pub replaced : ℕ → ℕ
replaced c = if is_forbidden c then 0x5f else c

abbrev pub clean_name : Str → Str
clean_name raw = take 160 (trim (map replaced (base_from [] raw)))

unfoldable pub sanitize_file_name : Str → Str
unfolding base_from
sanitize_file_name raw =
    let clean = clean_name raw in
    if not (clean == []) && not (clean == lit ".") && not (clean == lit "..")
    then clean
    else lit "unnamed"

pub record Row : Type 0 where
  pub file : SharedFile
  pub content_type : Option Str
  pub content : Bytes

-- `MemoryFileShare`.
pub record Share : Type 0 where
  pub max_total_bytes : ℕ
  pub rows : Map ℕ Row
  pub next_id : ℕ
  pub total : ℕ

unfoldable pub new_share : (max_total_bytes : ℕ) → Share
new_share max = record { max_total_bytes = max; rows = []; next_id = 1; total = 0 }

-- `sort((a, b) => b.id - a.id)`, by insertion.
unfoldable pub insert_file : SharedFile → List SharedFile → List SharedFile
insert_file f [] = f ∷ []
insert_file f (g ∷ gs) =
    let rest = insert_file f gs in if leb g.id f.id then f ∷ g ∷ gs else g ∷ rest

unfoldable pub sort_files : List SharedFile → List SharedFile
sort_files [] = []
sort_files (f ∷ fs) = insert_file f (sort_files fs)

unfoldable pub list : Share → List SharedFile
list s = sort_files (map (λ e. e.1.file) s.rows)

-- `name` and `content` are the upload's, `node` the verified identity of the adder.
unfoldable pub add_file :
    (name : Str)
    → (content : Bytes) → (node : Str) → Option Str
    → (now : ℕ) → Share
    → Result Thrown (SharedFile × Share)
add_file name content node content_type now s =
    if ltb s.max_total_bytes (s.total + length content)
    then err share_quota_exceeded
    else (let file : SharedFile = record {
      id = s.next_id;
      name = sanitize_file_name name;
      size = length content;
      node = node;
      modified = now;
    } in
        let row : Row = record { file = file; content_type = content_type; content = content } in
        ok (
          file,
          record s {
            next_id = s.next_id + 1;
            rows = Maps.set s.next_id row s.rows;
            total = s.total + length content;
          },
        ))

unfoldable pub get_file : ℕ → Share → Result Thrown FileContent
get_file id s = do
  r ← or_throw (Maps.get id s.rows) file_not_found
  ok (record { name = r.file.name; content_type = r.content_type; content = r.content })

unfoldable pub remove_file : ℕ → Share → Result Thrown Share
remove_file id s = do
  r ← or_throw (Maps.get id s.rows) file_not_found
  ok (record s { total = s.total - r.file.size; rows = Maps.delete id s.rows })

pub data Call : Type 0 where
  adds : (name : Str) → (content : Bytes) → (node : Str) → Option Str → (now : ℕ) → Call
  removes : ℕ → Call

-- A call that throws leaves the share as it was.
abbrev kept_or : Share → Result Thrown Share → Share
kept_or s (ok s') = s'
kept_or s (err e) = s

abbrev share_of : Result Thrown (SharedFile × Share) → Result Thrown Share
share_of (ok (f, s)) = ok s
share_of (err e) = err e

unfoldable pub step : Share → Call → Share
step s (adds name content node content_type now) =
    kept_or s (share_of (add_file name content node content_type now s))
step s (removes id) = kept_or s (remove_file id s)

unfoldable pub run : Share → List Call → Share
run s [] = s
run s (c ∷ cs) = run (step s c) cs
