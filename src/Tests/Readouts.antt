-- ===== src/Tests/Readouts.antt =====
-- A journal of fail2ban, the links of a node, and the report that it pushes.
use vpn_pi.Common.{
  ℕ, ◌≤◌, ◌≡◌, ◌≢◌, refl, Bool, true, false, Option, none, some, List, [], ◌∷◌, ◌++◌, Str, lit,
  str_eq, str_beq, ◌==◌, All, length, get_or, arith,
}
use vpn_pi.Common.Maps
use vpn_pi.Common.Maps.{Map}
use vpn_pi.Errors.{Thrown}
use vpn_pi.Errors.Result.{Result, ok, err}
use vpn_pi.Codec.{to_b64}
use vpn_pi.Canonical.{canonicalize}
use vpn_pi.Friends.Wire.{sign_json}
use vpn_pi.Node.State.{Http}
use vpn_pi.Json.{Json, str, obj, field, end}
use vpn_pi.Sysinfo.Journal.{ban_action}
use vpn_pi.Sysinfo.Lines.{filled_lines}
use vpn_pi.Sysinfo.Fail2ban.{JailStatus, actions_of, read_fail2ban}
use vpn_pi.Sysinfo.Links.{
  WgStatus, DaemonPeer, is_up, classify_link, degraded, mock_wg, mock_fail2ban, mock_daemon,
}
use vpn_pi.Sysinfo.Replay.{Reflects, read_fail2ban-Reflects}
use vpn_pi.Events.{
  EventReport, NodeEvents, max_report_events, sign_report, report_signable, row_of, known_label,
  report_route,
}
use vpn_pi.Events.Collect.{
  SecurityEvent, ban_events, daemon_events, collect_local, live_events, by_peer, name_by_book,
  push_report,
}
use vpn_pi.Events.Roster.{EachShown, entry_beside, collect_local-roster}
use vpn_pi.Events.Delivery.{report_json, report_route-push_report}
use vpn_pi.Tests.Served.{ask}
use vpn_pi.Tests.Toy.{toy, toy-IsLawful}
use vpn_pi.Tests.Books.{node, node-IsKeyed, alice_book}
use vpn_pi.Tests.Reports.{table}

bare :
    ban_action (lit "[sshd] Ban 192.0.2.7")
    ≡ some (record { jail = lit "sshd"; restore = false; is_ban = true; ip = lit "192.0.2.7" })
unfolding ban_action vpn_pi.Common.starts_with str_beq
bare = refl

prefixed :
    ban_action
      (lit "2026-07-01 10:20:30,123 fail2ban.actions [17]: NOTICE  [sshd] Restore Ban 192.0.2.7 ")
    ≡ some (record { jail = lit "sshd"; restore = true; is_ban = true; ip = lit "192.0.2.7" })
unfolding ban_action vpn_pi.Common.starts_with str_beq
prefixed = refl

embedded : ban_action (lit "user [sshd] Ban 192.0.2.7") ≡ none
unfolding ban_action vpn_pi.Common.starts_with
embedded = refl

-- A handshake that is exactly 180 seconds old is up and degraded.
up_and_degraded : (is_up (some 180) ≡ true) × (classify_link (some 180) ≡ degraded)
unfolding classify_link
up_and_degraded = (refl, refl)

-- Every line of the journal is the message itself.
abbrev as_message : Str → Option Json
as_message line = some (obj (field (lit "MESSAGE") (str line) end))

abbrev journal : Str
journal =
    lit "[sshd] Ban 192.0.2.7"
    ++ (0x0a ∷ (lit "[sshd] Ban 192.0.2.8" ++ (0x0a ∷ lit "[sshd] Unban 192.0.2.7")))

read_fail2ban-Reflects_example :
    All
      (Reflects (actions_of as_message (filled_lines journal)) (lit "192.0.2.7"))
      (read_fail2ban as_message (some journal))
read_fail2ban-Reflects_example = read_fail2ban-Reflects as_message journal (lit "192.0.2.7")

one_banned :
    read_fail2ban as_message (some journal)
    ≡ record {
      jail = lit "sshd";
      currently_banned = 1;
      total_banned = 2;
      banned_ips = lit "192.0.2.8" ∷ [];
    }
      ∷ []
unfolding read_fail2ban vpn_pi.Sysinfo.Fail2ban.apply_actions vpn_pi.Common.filterb
    vpn_pi.Sysinfo.Lines.split_from str_beq vpn_pi.Common.trim vpn_pi.Sysinfo.Lines.message_of_line
    ban_action vpn_pi.Canary.text_or_empty vpn_pi.Json.property vpn_pi.Json.text_of
    vpn_pi.Common.starts_with vpn_pi.Sysinfo.Fail2ban.apply_action Maps.set
    vpn_pi.Sysinfo.Fail2ban.jail_status Maps.get vpn_pi.Sysinfo.Fail2ban.sort_texts
    vpn_pi.Sysinfo.Fail2ban.insert_text
one_banned = refl

collect_local-roster_example :
    (live : List SecurityEvent) × (left : Map Str DaemonPeer) × (collect_local
        (name_by_book alice_book)
        mock_fail2ban
        (mock_wg (lit "wg0"))
        mock_daemon
      ≡ ban_events mock_fail2ban ++ (live ++ daemon_events (name_by_book alice_book) left))
    × EachShown (name_by_book alice_book) mock_daemon [] (mock_wg (lit "wg0")).peers live
    × Maps.IsDistinct left
    × ((k : Str) → Maps.get k left ≡ entry_beside mock_daemon (mock_wg (lit "wg0")).peers k)
collect_local-roster_example =
    collect_local-roster (name_by_book alice_book) mock_fail2ban (mock_wg (lit "wg0")) mock_daemon

abbrev no_report : EventReport
no_report = record { node = []; label = []; events = vpn_pi.Json.nil; at = []; sig = [] }

abbrev result_or : EventReport → Result Thrown EventReport → EventReport
result_or r (ok r') = r'
result_or r (err e) = r

abbrev no_links : WgStatus
no_links = record { iface = lit "wg0"; peers = [] }

abbrev pushed : EventReport
pushed =
    result_or no_report
      (push_report toy (node 7) (lit "alice") alice_book mock_fail2ban no_links [] 1000)

push : push_report toy (node 7) (lit "alice") alice_book mock_fail2ban no_links [] 1000 ≡ ok pushed
unfolding push_report sign_report sign_json canonicalize report_signable
    vpn_pi.Events.Collect.events_json collect_local ban_events live_events daemon_events by_peer
push = refl

few : length (collect_local (name_by_book alice_book) mock_fail2ban no_links []) ≤ max_report_events
unfolding collect_local ban_events live_events by_peer daemon_events
few = omega arith

known :
    known_label toy (to_b64 toy (7 ∷ 1 ∷ [])) (lit "alice") alice_book (to_b64 toy (7 ∷ 1 ∷ []))
    ≢ []
unfolding known_label str_beq to_b64
known e = absurd (cc)

abbrev push_text : Str → Option Json
push_text text = some (report_json pushed)

abbrev push_request : Http
push_request = ask (lit "POST") (lit "/events/report") (lit "{}") []

report_route-push_report_example :
    report_route toy push_text table
      (to_b64 toy (7 ∷ 1 ∷ []))
      (lit "alice")
      alice_book
      push_request
      1001
      []
    ≡ ok (
        table.upsert
          (row_of toy pushed
            (known_label toy (to_b64 toy (7 ∷ 1 ∷ [])) (lit "alice") alice_book pushed.node)
            1001)
          [])
report_route-push_report_example =
    report_route-push_report toy toy-IsLawful (node 7) (node-IsKeyed 7) push_text table
      (lit "alice") (to_b64 toy (7 ∷ 1 ∷ [])) (lit "alice") alice_book alice_book mock_fail2ban
      no_links [] 1000 1001 pushed push_request [] push few refl (omega arith) (omega arith) known
