-- ===== src/Messages/Logs.antt =====
-- The logs of MessageBook (core/messages.ts), by peer.
use vpn_pi.Common.{
  ℕ, zero, suc, Bool-cases, inl, inr, str_beq, ◌+◌, ◌-◌, ◌≤◌, ◌≡◌, refl, List, [], ◌∷◌, ◌++◌, Str,
  str_eq, ◌==◌, ltb, length, drop, length-append, length-drop, get_or, if◌then◌else◌, arith,
}
use vpn_pi.Common.Maps
use vpn_pi.Messages.{StoredMessage, MessageBook, max_per_peer, capped, append}

abbrev pub log_of : Str → MessageBook → List StoredMessage
log_of peer b = get_or (Maps.get peer b.logs) []

drop-append_last :
    (n : ℕ) (xs : List StoredMessage) (m : StoredMessage)
    → n ≤ length xs
    → drop n (xs ++ m ∷ []) ≡ drop n xs ++ m ∷ []
drop-append_last zero xs m h = refl
drop-append_last (suc n) [] m h = absurd (omega arith)
drop-append_last (suc n) (x ∷ xs) m h = drop-append_last n xs m (omega arith)

capped-append :
    (log : List StoredMessage) (m : StoredMessage)
    → length log ≤ max_per_peer
    → capped (log ++ m ∷ []) ≡ drop (length log + 1 - max_per_peer) log ++ m ∷ []
capped-append log m h = elim (Bool-cases (ltb max_per_peer (length (log ++ m ∷ [])))) [
  | inl long ↦
      let n : length (log ++ m ∷ []) ≡ length log + 1 = omega (arith, length-append log (m ∷ [])) in
      rw (long, n) (drop-append_last (length log + 1 - max_per_peer) log m (omega arith))
  | inr short ↦
      let n : length (log ++ m ∷ []) ≡ length log + 1 = omega (arith, length-append log (m ∷ [])) in
      let none_over : length log + 1 - max_per_peer ≡ 0 = ground arith in rw (short, none_over)
]

-- A message is appended to the log of its peer, whose oldest messages beyond the cap are dropped,
-- and the log of every other peer stays as it was.
pub log_of-append :
    (peer j : Str) (m : StoredMessage) (b : MessageBook)
    → length (log_of peer b) ≤ max_per_peer
    → log_of j (append peer m b) ≡ (
        if peer == j
        then drop (length (log_of peer b) + 1 - max_per_peer) (log_of peer b) ++ m ∷ []
        else log_of j b)
unfolding append
log_of-append peer j m b h =
    let log = log_of peer b in
    rw (Maps.get-set peer j (capped (log ++ m ∷ [])) b.logs, capped-append log m h)
      (elim (Bool-cases (str_beq peer j)) [ inl hit ↦ rw hit | inr miss ↦ rw miss ])

-- An append never makes a log longer than the cap.
pub length-log_of-append :
    (peer j : Str) (m : StoredMessage) (b : MessageBook)
    → length (log_of peer b) ≤ max_per_peer
    → length (log_of j b) ≤ max_per_peer
    → length (log_of j (append peer m b)) ≤ max_per_peer
length-log_of-append peer j m b h k =
    let log = log_of peer b in
    let cut = drop (length log + 1 - max_per_peer) log in
    rw (log_of-append peer j m b h) (elim (Bool-cases (str_beq peer j)) [
      | inl hit ↦
          rw (hit, length-append cut (m ∷ []), length-drop (length log + 1 - max_per_peer) log)
            (omega arith)
      | inr miss ↦ rw miss k
    ])
