-- ===== src/Share/Interface.antt =====
-- The interface `FileShare` of core/share.ts, what its clients ask and are told, and the two stores
-- that keep the files themselves: MemoryFileShare and SqliteFileShare.
use vpn_pi.Common.{ℕ, Option, List, [], ◌∷◌, Str, lit}
use vpn_pi.Errors.{Thrown}
use vpn_pi.Errors.Result.{Result, ok, err, ◌>>=◌}
use vpn_pi.Platform.{Bytes}
use vpn_pi.Share.{SharedFile, FileContent, Share, list, add_file, get_file, remove_file}
use vpn_pi.Share.Sqlite.{
  FilesSnapshot, FilesTable, SqliteShare, list_rows, add_row, get_row, remove_row,
}

-- The methods, over a state `S`; `now` is what `nowIso()` prints.
pub record FileShare (S : Type 0) : Type 0 where
  pub list_files : S → FilesSnapshot
  pub add :
      (name : Str)
      → (content : Bytes) → (node : Str) → Option Str
      → (now : ℕ) → S
      → Result Thrown (SharedFile × S)
  pub get : ℕ → S → Result Thrown FileContent
  pub remove : ℕ → S → Result Thrown S

unfoldable pub memory_share : FileShare Share
memory_share = record {
  list_files = λ s. record { root = lit "memory"; bind = lit "mock"; files = list s };
  add = add_file;
  get = get_file;
  remove = remove_file;
}

unfoldable pub sqlite_share : {S : Type 0} → FilesTable S → FileShare (SqliteShare S)
sqlite_share table = record {
  list_files = list_rows table;
  add = add_row table;
  get = get_row table;
  remove = remove_row table;
}

pub data Request : Type 0 where
  browse : Request
  upload : (name : Str) → (content : Bytes) → (node : Str) → Option Str → (now : ℕ) → Request
  download : ℕ → Request
  discard : ℕ → Request

pub data Answer : Type 0 where
  browsed : List SharedFile → Answer
  uploaded : SharedFile → Answer
  downloaded : FileContent → Answer
  discarded : Answer
  thrown : Thrown → Answer

-- The answer to a call, and the store after it: a call that throws leaves the store `s` as it was.
abbrev pub answered : {A S : Type 0} → (A → Answer) → S → Result Thrown (A × S) → Answer × S
answered says s (ok (a, s')) = (says a, s')
answered says s (err e) = (thrown e, s)

abbrev says_discarded : Unit {0} → Answer
says_discarded u = discarded

module _ {S : Type 0} (share : FileShare S) where
  unfoldable pub ask : Request → S → Answer × S
  ask browse s = (browsed (share.list_files s).files, s)
  ask (upload name content node content_type now) s =
      answered uploaded s (share.add name content node content_type now s)
  ask (download id) s = answered downloaded s (share.get id s >>= λ c. ok (c, s))
  ask (discard id) s = answered says_discarded s (share.remove id s >>= λ s'. ok (tt, s'))

  unfoldable pub ask_all : List Request → S → List Answer
  ask_all [] s = []
  ask_all (r ∷ rs) s = (ask r s).0 ∷ ask_all rs (ask r s).1
