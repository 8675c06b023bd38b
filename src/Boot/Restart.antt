-- ===== src/Boot/Restart.antt =====
-- The administrator's token over restarts of the daemon (main.ts).
use vpn_pi.Common.{◌≡◌, refl, ap, ◌∙◌, List, [], ◌∷◌, false, Str, trim, arith}
use vpn_pi.Boot.{DataDir, provision_admin_token}

-- A start of the daemon with a data directory and no token in the environment.
abbrev pub started : (fresh : Str) → DataDir → Str × DataDir
started fresh dir = provision_admin_token false [] fresh dir

unfoldable pub restarts : List Str → Str × DataDir → Str × DataDir
restarts [] s = s
restarts (fresh ∷ later) s = restarts later (started fresh s.1)

start_again :
    (fresh later : Str) (dir : DataDir)
    → trim fresh ≡ fresh
    → started later (started fresh dir).1 ≡ started fresh dir
unfolding provision_admin_token
start_again fresh later dir h = ground arith

-- However often the daemon is started again, with whatever fresh randomness, the administrator's
-- token and the data directory stay what the first start made of them (a generated token has no
-- white space at its ends).
pub restarts-started :
    (fresh : Str) (dir : DataDir) (later : List Str)
    → trim fresh ≡ fresh
    → restarts later (started fresh dir) ≡ started fresh dir
unfolding restarts
restarts-started fresh dir [] h = refl
restarts-started fresh dir (next ∷ later) h =
    ap (restarts later) (start_again fresh next dir h) ∙ restarts-started fresh dir later h
