-- ===== src/Events/Roster.antt =====
-- What the roster of core/events.ts shows of the live peers and of the daemon's.
use vpn_pi.Common.{
  ◌≡◌, refl, ap, ◌⊎◌, inl, inr, Bool, false, not, ◌||◌, Bool-cases, Option, none, some, List, [],
  ◌∷◌, ◌++◌, Str, lit, str_eq, ◌==◌, ◌&&◌, ◌∙◌, if◌then◌else◌, is_some, Option-cases, str_beq_iff,
  arith,
}
use vpn_pi.Common.Maps
use vpn_pi.Common.Maps.{Map}
use vpn_pi.Sysinfo.Fail2ban.{JailStatus}
use vpn_pi.Sysinfo.Links.{
  WgPeer, WgStatus, DaemonPeer, LinkState, link_ok, stale, degraded, classify_link, link_text,
}
use vpn_pi.Events.Collect.{
  SecurityEvent, ban_events, live_state, daemon_of, uncovered, live_event, live_events,
  daemon_events, by_peer, collect_local,
}

-- The daemon's last entry for a key, read from its list.
unfoldable pub last_entry : Str → List DaemonPeer → Option DaemonPeer
last_entry k [] = none
last_entry k (d ∷ ds) =
    let later = last_entry k ds in
    if is_some later then later else if d.peer == k then some d else none

-- A key is a tunnel address of one of these peers.
unfoldable pub is_address : Str → List WgPeer → Bool
is_address k [] = false
is_address k (q ∷ qs) = (not (q.wg0 == []) && q.wg0 == k) || is_address k qs

-- What the daemon says of a key that is no tunnel address of these peers.
abbrev pub entry_beside : List DaemonPeer → List WgPeer → Str → Option DaemonPeer
entry_beside daemon qs k = if is_address k qs then none else last_entry k daemon

-- A peer without a tunnel address has no entry.
abbrev pub entry_of : List DaemonPeer → List WgPeer → WgPeer → Option DaemonPeer
entry_of daemon before q = if q.wg0 == [] then none else entry_beside daemon before q.wg0

-- The ladder's state, or that the link was restored where the ladder says ok and the daemon that.
abbrev pub ShowsState : LinkState → Option DaemonPeer → Option Str → Type 0
ShowsState s d state =
    (state ≡ some (link_text s))
    ⊎ ((s ≡ link_ok)
        × (state ≡ some (lit "restored"))
        × ((entry : DaemonPeer) × (d ≡ some entry) × (entry.state ≡ lit "restored")))

-- One event for each peer, in their order, made with the daemon's last entry for the peer's
-- address, where no peer before it has the same address.
abbrev pub EachShown :
    (name_for : Str → Option Str)
    → List DaemonPeer
    → List WgPeer
    → List WgPeer
    → List SecurityEvent
    → Type 0
EachShown name_for daemon before [] [] = Unit
EachShown name_for daemon before [] (e ∷ es) = ⊥
EachShown name_for daemon before (q ∷ qs) [] = ⊥
EachShown name_for daemon before (q ∷ qs) (e ∷ es) =
    (e.kind ≡ lit "link")
    × (e ≡ live_event name_for q (entry_of daemon before q))
    × ShowsState (classify_link q.handshake_age_s) (entry_of daemon before q) e.state
    × EachShown name_for daemon (q ∷ before) qs es

live_state-ShowsState :
    (s : LinkState) (d : Option DaemonPeer) → ShowsState s d (some (live_state s d))
unfolding live_state
live_state-ShowsState link_ok none = inl refl
live_state-ShowsState link_ok (some d) = elim (Bool-cases (d.state == lit "restored")) [
  | inl restored ↦
      inr (refl, rw restored refl, (d, refl, (str_beq_iff d.state (lit "restored")).0 restored))
  | inr other ↦ inl (rw other refl)
]
live_state-ShowsState stale d = inl refl
live_state-ShowsState degraded d = inl refl

live_event-kind :
    (name_for : Str → Option Str) (q : WgPeer) (d : Option DaemonPeer)
    → ((live_event name_for q d).kind ≡ lit "link")
      × ShowsState (classify_link q.handshake_age_s) d (live_event name_for q d).state
unfolding live_event
live_event-kind name_for q d = (refl, live_state-ShowsState (classify_link q.handshake_age_s) d)

module _ (name_for : Str → Option Str) where
  get-by_peer :
      (k : Str) (ds : List DaemonPeer) (m : Map Str DaemonPeer)
      → Maps.get k (by_peer name_for ds m)
        ≡ (if is_some (last_entry k ds) then last_entry k ds else Maps.get k m)
  unfolding by_peer last_entry
  get-by_peer k [] m = refl
  get-by_peer k (d ∷ ds) m =
      ground (arith, get-by_peer k ds (Maps.set d.peer d m), Maps.get-set d.peer k d m)

  get-by_peer_new :
      (k : Str) (ds : List DaemonPeer) → Maps.get k (by_peer name_for ds []) ≡ last_entry k ds
  unfolding Maps.get
  get-by_peer_new k ds = elim (Option-cases (last_entry k ds)) [
    | inl gone ↦ get-by_peer k ds [] ∙ rw gone refl
    | inr (d, there) ↦ get-by_peer k ds [] ∙ rw there refl
  ]

  by_peer-IsDistinct :
      (ds : List DaemonPeer) (m : Map Str DaemonPeer)
      → Maps.IsDistinct m
      → Maps.IsDistinct (by_peer name_for ds m)
  unfolding by_peer
  by_peer-IsDistinct [] m h = h
  by_peer-IsDistinct (d ∷ ds) m h =
      by_peer-IsDistinct ds (Maps.set d.peer d m) (Maps.set-IsDistinct d.peer d m h)

  get-uncovered :
      (k : Str) (q : WgPeer) (m : Map Str DaemonPeer)
      → Maps.get k (uncovered q m)
        ≡ (if not (q.wg0 == []) && q.wg0 == k then none else Maps.get k m)
  get-uncovered k q m = ground (arith, Maps.get-delete q.wg0 k m)

  uncovered-IsDistinct :
      (q : WgPeer) (m : Map Str DaemonPeer) → Maps.IsDistinct m → Maps.IsDistinct (uncovered q m)
  uncovered-IsDistinct q m h = ground (arith, Maps.delete-IsDistinct q.wg0 m h)

  -- What the live peers leave of the daemon's part.
  get-live_events :
      (k : Str) (qs : List WgPeer) (m : Map Str DaemonPeer)
      → Maps.get k (live_events name_for qs m).1 ≡ (if is_address k qs then none else Maps.get k m)
  unfolding live_events is_address
  get-live_events k [] m = refl
  get-live_events k (q ∷ qs) m =
      ground (arith, get-live_events k qs (uncovered q m), get-uncovered k q m)

  live_events-IsDistinct :
      (qs : List WgPeer) (m : Map Str DaemonPeer)
      → Maps.IsDistinct m
      → Maps.IsDistinct (live_events name_for qs m).1
  unfolding live_events
  live_events-IsDistinct [] m h = h
  live_events-IsDistinct (q ∷ qs) m h =
      live_events-IsDistinct qs (uncovered q m) (uncovered-IsDistinct q m h)

  get-entry_beside :
      (daemon : List DaemonPeer) (before : List WgPeer) (q : WgPeer) (m : Map Str DaemonPeer)
      → ((k : Str) → Maps.get k m ≡ entry_beside daemon before k)
      → (k : Str) → Maps.get k (uncovered q m) ≡ entry_beside daemon (q ∷ before) k
  unfolding is_address
  get-entry_beside daemon before q m h k = ground (arith, h k, get-uncovered k q m)

  live_events-EachShown :
      (daemon : List DaemonPeer) (before qs : List WgPeer) (m : Map Str DaemonPeer)
      → ((k : Str) → Maps.get k m ≡ entry_beside daemon before k)
      → EachShown name_for daemon before qs (live_events name_for qs m).0
  unfolding live_events
  live_events-EachShown daemon before [] m h = tt
  live_events-EachShown daemon before (q ∷ qs) m h =
      let same : daemon_of q m ≡ entry_of daemon before q = ground (arith, h q.wg0) in
      let (kind, state) = live_event-kind name_for q (entry_of daemon before q) in
      (
        ap (λ d. (live_event name_for q d).kind) same ∙ kind,
        ap (live_event name_for q) same,
        rw same state,
        live_events-EachShown daemon (q ∷ before) qs (uncovered q m)
            (get-entry_beside daemon before q m h),
      )

  -- The feed is the bans, then one link event for each live peer, then those of the entries that
  -- are left of the daemon's list. A live peer's event is made with the daemon's last entry for its
  -- tunnel address, if no peer before it has that address, and shows the ladder's state, or
  -- "restored", which it may only where the ladder says ok and that entry says restored. What is
  -- left holds, once each, the last entry of every key but the live peers' tunnel addresses.
  pub collect_local-roster :
      (jails : List JailStatus) (wg : WgStatus) (daemon : List DaemonPeer)
      → (live : List SecurityEvent) × (left : Map Str DaemonPeer) × (collect_local name_for jails wg
            daemon
          ≡ ban_events jails ++ (live ++ daemon_events name_for left))
        × EachShown name_for daemon [] wg.peers live
        × Maps.IsDistinct left
        × ((k : Str) → Maps.get k left ≡ entry_beside daemon wg.peers k)
  unfolding collect_local is_address
  collect_local-roster jails wg daemon =
      let m = by_peer name_for daemon [] in
      let found : (k : Str) → Maps.get k m ≡ last_entry k daemon = λ k. get-by_peer_new k daemon in
      (
        (live_events name_for wg.peers m).0,
        (live_events name_for wg.peers m).1,
        refl,
        live_events-EachShown daemon [] wg.peers m found,
        live_events-IsDistinct wg.peers m (by_peer-IsDistinct daemon [] tt),
        λ k.
            get-live_events k wg.peers m
            ∙ ap (λ x. if is_address k wg.peers then none else x) (found k),
      )
