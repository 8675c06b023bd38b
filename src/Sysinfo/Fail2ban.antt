-- ===== src/Sysinfo/Fail2ban.antt =====
-- core/sysinfo.ts, lines 44 to 94: the jails of fail2ban, replayed from its journal.
use vpn_pi.Common.{
  ℕ, ◌+◌, Bool, not, ◌&&◌, Option, none, some, List, [], ◌∷◌, map, Str, str_eq, length, filterb,
  get_or, if◌then◌else◌,
}
use vpn_pi.Common.Maps
use vpn_pi.Common.Maps.{Map}
use vpn_pi.Json.{Json}
use vpn_pi.Canonical.{str_leb}
use vpn_pi.Sysinfo.Journal.{BanAction, ban_action}
use vpn_pi.Sysinfo.Lines.{filled_lines, message_of_line}

pub record JailStatus : Type 0 where
  pub jail : Str
  pub currently_banned : ℕ
  pub total_banned : ℕ
  pub banned_ips : List Str

-- The replay of the fail2ban journal: whether each address of a jail is banned, and the bans.
pub record Bans : Type 0 where
  pub banned : Map Str (Map Str Bool)
  pub totals : Map Str ℕ

abbrev pub ips_of : Str → Bans → Map Str Bool
ips_of jail b = get_or (Maps.get jail b.banned) []

unfoldable pub apply_action : BanAction → Bans → Bans
apply_action a b = record {
  banned = Maps.set a.jail (Maps.set a.ip a.is_ban (ips_of a.jail b)) b.banned;
  totals =
      if a.is_ban && not a.restore
      then Maps.set a.jail (get_or (Maps.get a.jail b.totals) 0 + 1) b.totals
      else b.totals;
}

unfoldable pub apply_actions : List BanAction → Bans → Bans
apply_actions [] b = b
apply_actions (a ∷ as') b = apply_actions as' (apply_action a b)

-- `sort()` on texts.
unfoldable pub insert_text : Str → List Str → List Str
insert_text s [] = s ∷ []
insert_text s (t ∷ ts) = let rest = insert_text s ts in if str_leb s t then s ∷ t ∷ ts else t ∷ rest

unfoldable pub sort_texts : List Str → List Str
sort_texts [] = []
sort_texts (s ∷ ss) = insert_text s (sort_texts ss)

abbrev pub banned_of : Map Str Bool → List Str
banned_of ips = map (λ e. e.0) (filterb (λ e. e.1) ips)

unfoldable pub jail_status : (totals : Map Str ℕ) → Str × Map Str Bool → JailStatus
jail_status totals (jail, ips) = record {
  jail = jail;
  currently_banned = length (filterb (λ b. b) (map (λ e. e.1) ips));
  total_banned = get_or (Maps.get jail totals) 0;
  banned_ips = sort_texts (banned_of ips);
}

module _ (parse_text : Str → Option Json) where
  unfoldable pub actions_of : List Str → List BanAction
  actions_of [] = []
  actions_of (line ∷ lines) = elim (message_of_line parse_text line) [
    | none ↦ actions_of lines
    | some message ↦ elim (ban_action message) [
      | none ↦ actions_of lines
      | some a ↦ a ∷ actions_of lines
    ]
  ]

  unfoldable pub read_fail2ban : Option Str → List JailStatus
  unfolding actions_of
  read_fail2ban none = []
  read_fail2ban (some out) =
      let b = apply_actions (actions_of (filled_lines out)) (record { banned = []; totals = [] }) in
      map (jail_status b.totals) b.banned
