-- ===== src/Sysinfo/Replay.antt =====
-- The replay of the fail2ban journal (core/sysinfo.ts), against what the journal says.
use vpn_pi.Common.{
  ◌+◌, ◌≡◌, refl, sym, ap, ◌∙◌, Bool, false, ◌&&◌, ◌||◌, Option, some, List, [], ◌∷◌, map, Str,
  str_eq, ◌==◌, length, All, filterb, get_or, contains, inl, inr, Bool-cases, if◌then◌else◌, arith,
  str_beq_iff,
}
use vpn_pi.Common.Maps
use vpn_pi.Common.Maps.{Map}
use vpn_pi.Json.{Json}
use vpn_pi.Sysinfo.Lines.{filled_lines}
use vpn_pi.Sysinfo.Journal.{BanAction}
use vpn_pi.Sysinfo.Fail2ban.{
  JailStatus, Bans, ips_of, apply_action, apply_actions, insert_text, sort_texts, banned_of,
  jail_status, actions_of, read_fail2ban,
}

-- Whether the last of the actions on an address of a jail is a ban, `was` where there is none.
abbrev pub last_is_ban : (jail ip : Str) → (was : Bool) → List BanAction → Bool
last_is_ban jail ip was [] = was
last_is_ban jail ip was (a ∷ as') =
    last_is_ban jail ip (if a.jail == jail && a.ip == ip then a.is_ban else was) as'

abbrev flag : Str → Map Str Bool → Bool
flag ip m = get_or (Maps.get ip m) false

flag-apply_action :
    (jail ip : Str) (a : BanAction) (b : Bans)
    → flag ip (ips_of jail (apply_action a b))
      ≡ (if a.jail == jail && a.ip == ip then a.is_ban else flag ip (ips_of jail b))
unfolding apply_action
flag-apply_action jail ip a b = ground (
  arith,
  Maps.get-set a.jail jail (Maps.set a.ip a.is_ban (ips_of a.jail b)) b.banned,
  Maps.get-set a.ip ip a.is_ban (ips_of a.jail b),
  str_beq_iff a.jail jail,
)

pub flag-apply_actions :
    (jail ip : Str) (as' : List BanAction) (b : Bans)
    → flag ip (ips_of jail (apply_actions as' b))
      ≡ last_is_ban jail ip (flag ip (ips_of jail b)) as'
unfolding apply_actions
flag-apply_actions jail ip [] b = refl
flag-apply_actions jail ip (a ∷ as') b =
    flag-apply_actions jail ip as' (apply_action a b)
    ∙ ap (λ was. last_is_ban jail ip was as') (flag-apply_action jail ip a b)

-- Both levels of the replay's maps hold every key once.
IsTidy : Bans → Type 0
IsTidy b = Maps.IsDistinct b.banned × All (λ e. Maps.IsDistinct e.1) b.banned

ips_of-IsDistinct :
    (jail : Str) (m : Map Str (Map Str Bool))
    → All (λ e. Maps.IsDistinct e.1) m
    → Maps.IsDistinct (get_or (Maps.get jail m) [])
unfolding Maps.get
ips_of-IsDistinct jail [] h = tt
ips_of-IsDistinct jail ((j, ips) ∷ m) (d, h) = elim (Bool-cases (j == jail)) [
  | inl hit ↦ rw hit d
  | inr miss ↦ rw miss (ips_of-IsDistinct jail m h)
]

apply_action-IsTidy : (a : BanAction) (b : Bans) → IsTidy b → IsTidy (apply_action a b)
unfolding apply_action IsTidy
apply_action-IsTidy a b (outer, inner) = (
  Maps.set-IsDistinct a.jail _ b.banned outer,
  Maps.All-set (λ e. Maps.IsDistinct e.1) a.jail _ b.banned
      (Maps.set-IsDistinct a.ip a.is_ban _ (ips_of-IsDistinct a.jail b.banned inner)) inner,
)

apply_actions-IsTidy : (as' : List BanAction) (b : Bans) → IsTidy b → IsTidy (apply_actions as' b)
unfolding apply_actions
apply_actions-IsTidy [] b h = h
apply_actions-IsTidy (a ∷ as') b h =
    apply_actions-IsTidy as' (apply_action a b) (apply_action-IsTidy a b h)

contains-insert_text :
    (s t : Str) (ts : List Str) → contains s (insert_text t ts) ≡ (t == s || contains s ts)
unfolding contains insert_text
contains-insert_text s t [] = refl
contains-insert_text s t (u ∷ ts) = ground (arith, contains-insert_text s t ts)

contains-sort_texts : (s : Str) (ts : List Str) → contains s (sort_texts ts) ≡ contains s ts
unfolding contains sort_texts
contains-sort_texts s [] = refl
contains-sort_texts s (t ∷ ts) =
    ground (arith, contains-insert_text s t (sort_texts ts), contains-sort_texts s ts)

length-insert_text : (t : Str) (ts : List Str) → length (insert_text t ts) ≡ length ts + 1
unfolding insert_text
length-insert_text t [] = refl
length-insert_text t (u ∷ ts) = ground (arith, length-insert_text t ts)

length-sort_texts : (ts : List Str) → length (sort_texts ts) ≡ length ts
unfolding sort_texts
length-sort_texts [] = refl
length-sort_texts (t ∷ ts) =
    ground (arith, length-insert_text t (sort_texts ts), length-sort_texts ts)

contains-banned_of :
    (ip : Str) (m : Map Str Bool) → Maps.IsDistinct m → contains ip (banned_of m) ≡ flag ip m
unfolding contains filterb Maps.get
contains-banned_of ip [] h = refl
contains-banned_of ip ((j, banned) ∷ m) (new, h) =
    ground (arith, str_beq_iff j ip, contains-banned_of ip m h)

count_true :
    (m : Map Str Bool) → length (filterb (λ b. b) (map (λ e. e.1) m)) ≡ length (banned_of m)
unfolding filterb
count_true [] = refl
count_true ((j, banned) ∷ m) = ground (arith, count_true m)

-- What a jail of the readout says, against the actions of the journal.
abbrev pub Reflects : (as' : List BanAction) → (ip : Str) → JailStatus → Type 0
Reflects as' ip s =
    (contains ip s.banned_ips ≡ last_is_ban s.jail ip false as')
    × (s.currently_banned ≡ length s.banned_ips)

All-map_of {ℓ κ μ} :
    {A : Type ℓ} {B : Type κ} (P : B → Type μ) (f : A → B) (xs : List A)
    → All (λ a. P (f a)) xs
    → All P (map f xs)
All-map_of P f [] h = tt
All-map_of P f (x ∷ xs) (p, h) = (p, All-map_of P f xs h)

All-both {ℓ κ μ ν} :
    {A : Type ℓ} {P : A → Type κ} {Q : A → Type μ} {R : A → Type ν}
    → ((a : A) → P a → Q a → R a)
    → (xs : List A) → All P xs
    → All Q xs
    → All R xs
All-both f [] h k = tt
All-both f (x ∷ xs) (p, h) (q, k) = (f x p q, All-both f xs h k)

module _ (as' : List BanAction) (ip : Str) where
  abbrev replayed : Bans
  replayed = apply_actions as' (record { banned = []; totals = [] })

  jail_status-Reflects :
      (e : Str × Map Str Bool)
      → Maps.get e.0 replayed.banned ≡ some e.1
      → Maps.IsDistinct e.1
      → Reflects as' ip (jail_status replayed.totals e)
  unfolding jail_status Maps.get
  jail_status-Reflects (jail, ips) found tidy = (
    contains-sort_texts ip (banned_of ips)
        ∙ (contains-banned_of ip ips tidy
            ∙ (ap (λ o. flag ip (get_or o [])) (sym found) ∙ flag-apply_actions jail ip as' _)),
    count_true ips ∙ sym (length-sort_texts (banned_of ips)),
  )

  pub statuses-Reflect : All (Reflects as' ip) (map (jail_status replayed.totals) replayed.banned)
  unfolding IsTidy
  statuses-Reflect =
      let tidy = apply_actions-IsTidy as' (record { banned = []; totals = [] }) (tt, tt) in
      All-map_of (Reflects as' ip) (jail_status replayed.totals) replayed.banned (
        All-both jail_status-Reflects replayed.banned (Maps.All-get_self replayed.banned tidy.0)
          tidy.1)

-- In every jail of the readout the banned addresses are those whose last action in the journal's
-- lines is a ban, and `currently_banned` is their number.
pub read_fail2ban-Reflects :
    (parse_text : Str → Option Json) (out ip : Str)
    → All
        (Reflects (actions_of parse_text (filled_lines out)) ip)
        (read_fail2ban parse_text (some out))
unfolding read_fail2ban
read_fail2ban-Reflects parse_text out ip =
    statuses-Reflect (actions_of parse_text (filled_lines out)) ip
