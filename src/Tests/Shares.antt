-- ===== src/Tests/Shares.antt =====
-- A table `files` kept as a list of rows, and the share over it at concrete requests.
use vpn_pi.Common.{ℕ, ◌+◌, ◌≡◌, refl, none, List, [], ◌∷◌, ◌++◌, lit, nat_eq, map, if◌then◌else◌}
use vpn_pi.Common.Maps
use vpn_pi.Common.Maps.{Map}
use vpn_pi.Share.{sort_files, new_share}
use vpn_pi.Share.Sqlite.{NewRow, FilesTable, SqliteShare}
use vpn_pi.Share.Interface.{
  Request, upload, download, discard, browse, memory_share, sqlite_share, ask_all,
}
use vpn_pi.Share.Refinement.{
  FilesTableLaws, file_of, content_of, sum_sizes, map_option, ask_all-sqlite_share,
}

record Rows : Type 0 where
  rows : Map ℕ NewRow
  last_id : ℕ

abbrev list_table : FilesTable Rows
list_table = record {
  all = λ s. sort_files (map file_of s.rows);
  sum_size = λ s. sum_sizes s.rows;
  insert = λ row s. (
    s.last_id + 1,
    record { rows = s.rows ++ (s.last_id + 1, row) ∷ []; last_id = s.last_id + 1 },
  );
  select = λ id s. map_option content_of (Maps.get id s.rows);
  remove = λ id s. (if Maps.has id s.rows then 1 else 0, record s { rows = Maps.delete id s.rows });
}

abbrev list_laws : FilesTableLaws list_table
list_laws = record {
  rows = λ s. s.rows;
  last_id = λ s. s.last_id;
  all-rows = λ s. refl;
  sum_size-rows = λ s. refl;
  select-rows = λ id s. refl;
  insert-id = λ row s. refl;
  insert-rows = λ row s. refl;
  insert-last_id = λ row s. refl;
  remove-changes = λ id s. refl;
  remove-rows = λ id s. refl;
  remove-last_id = λ id s. refl;
}

abbrev vega_share : SqliteShare Rows
vega_share = record {
  db = record { rows = []; last_id = 0 };
  root_label = lit "vega:island.db";
  bind = lit "wg0:8787";
  max_total_bytes = 5;
}

abbrev requests : List Request
requests =
    upload (lit "a.txt") (1 ∷ 2 ∷ 3 ∷ []) (lit "alice") none 10
    ∷ upload (lit "big") (1 ∷ 2 ∷ 3 ∷ []) (lit "bob") none 11
    ∷ upload (lit "../b.txt") (4 ∷ []) (lit "bob") none 12
    ∷ discard 1
    ∷ download 1
    ∷ upload (lit "c") [] (lit "bob") none 13
    ∷ browse
    ∷ []

ask_all-sqlite_share_example :
    ask_all (sqlite_share list_table) requests vega_share
    ≡ ask_all memory_share requests (new_share 5)
ask_all-sqlite_share_example =
    ask_all-sqlite_share list_table list_laws vega_share requests refl refl
