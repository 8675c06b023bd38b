-- ===== src/Share/Sqlite.antt =====
-- SqliteFileShare of core/share.ts: its four methods over the table `files`, whose statements are
-- an interface.
use vpn_pi.Common.{ℕ, ◌+◌, Option, List, Str, nat_eq, ◌==◌, ltb, length, if◌then◌else◌}
use vpn_pi.Errors.{Thrown, file_not_found, share_quota_exceeded}
use vpn_pi.Errors.Result.{Result, ok, err, or_throw}
use vpn_pi.Platform.{Bytes}
use vpn_pi.Share.{SharedFile, FileContent, sanitize_file_name}

-- The columns that an INSERT gives.
pub record NewRow : Type 0 where
  pub name : Str
  pub size : ℕ
  pub node : Str
  pub content_type : Option Str
  pub content : Bytes
  pub modified : ℕ

pub record FilesTable (S : Type 0) : Type 0 where
  -- SELECT … ORDER BY id DESC, SELECT COALESCE(SUM(size), 0), INSERT … RETURNING id,
  -- SELECT … WHERE id = ?, and DELETE … WHERE id = ? with the number of its changes
  pub all : S → List SharedFile
  pub sum_size : S → ℕ
  pub insert : NewRow → S → ℕ × S
  pub select : ℕ → S → Option FileContent
  pub remove : ℕ → S → ℕ × S

pub record FilesSnapshot : Type 0 where
  pub root : Str
  pub bind : Str
  pub files : List SharedFile

pub record SqliteShare (S : Type 0) : Type 0 where
  pub db : S
  pub root_label : Str
  pub bind : Str
  pub max_total_bytes : ℕ

module _ {S : Type 0} (table : FilesTable S) where
  unfoldable pub list_rows : SqliteShare S → FilesSnapshot
  list_rows s = record { root = s.root_label; bind = s.bind; files = table.all s.db }

  unfoldable pub add_row :
      (name : Str)
      → (content : Bytes) → (node : Str) → Option Str
      → (now : ℕ) → SqliteShare S
      → Result Thrown (SharedFile × SqliteShare S)
  add_row name content node content_type now s =
      if ltb s.max_total_bytes (table.sum_size s.db + length content)
      then err share_quota_exceeded
      else (let safe_name = sanitize_file_name name in
          let row : NewRow = record {
            name = safe_name;
            size = length content;
            node = node;
            content_type = content_type;
            content = content;
            modified = now;
          } in
          let (id, db) = table.insert row s.db in
          ok (
            record {
              id = id;
              name = safe_name;
              size = length content;
              node = node;
              modified = now;
            },
            record s { db = db },
          ))

  unfoldable pub get_row : ℕ → SqliteShare S → Result Thrown FileContent
  get_row id s = or_throw (table.select id s.db) file_not_found

  unfoldable pub remove_row : ℕ → SqliteShare S → Result Thrown (SqliteShare S)
  remove_row id s =
      let (changes, db) = table.remove id s.db in
      if changes == 0 then err file_not_found else ok (record s { db = db })
