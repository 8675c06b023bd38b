-- ===== src/Messages/Replay.antt =====
-- The ids that markSeen (core/messages.ts) keeps, over the calls between two messages.
use vpn_pi.Common.{
  ℕ, suc, ◌+◌, ◌≤◌, ◌<◌, ◌≡◌, refl, ap, ◌∙◌, subst, true, false, List, [], ◌∷◌, ◌++◌, Str, str_eq,
  leb, length, filterb, filterb-append, length-append, length-filterb-le, arith, All, append_assoc,
  Bool-cases, inl, inr,
}
use vpn_pi.Common.Maps
use vpn_pi.Common.Maps.{Map}
use vpn_pi.Messages.{
  MessageBook, max_msg_age_ms, max_msg_skew_ms, max_seen_ids, is_recent, evict, mark_seen,
}

-- The entry is there, with at most `n` entries behind it.
record Holds (id : Str) (ts n : ℕ) (m : Map Str ℕ) : Type 0 where
  before : Map Str ℕ
  behind : Map Str ℕ
  parts : m ≡ before ++ (id, ts) ∷ behind
  few : length behind ≤ n

evict-Holds :
    (id : Str) (ts n : ℕ) (pre post : Map Str ℕ)
    → length post ≤ n
    → suc n < max_seen_ids
    → Holds id ts n (evict (pre ++ (id, ts) ∷ post))
unfolding evict
evict-Holds id ts n [] post h k =
    let small : leb max_seen_ids (suc (length post)) ≡ false = ground arith in
    rw small (record { before = []; behind = post; parts = refl; few = h })
evict-Holds id ts n (e ∷ pre) post h k =
    elim (Bool-cases (leb max_seen_ids (suc (length (pre ++ (id, ts) ∷ post))))) [
      | inl large ↦ rw large (evict-Holds id ts n pre post h k)
      | inr small ↦ rw small (record { before = e ∷ pre; behind = post; parts = refl; few = h })
    ]

has-evict : (k : Str) (m : Map Str ℕ) → Maps.has k m ≡ false → Maps.has k (evict m) ≡ false
unfolding evict Maps.get
has-evict k [] h = h
has-evict k ((j, w) ∷ m) h = ground (arith, has-evict k m)

module _ (id : Str) (ts : ℕ) where
  filterb-Holds :
      (n now : ℕ) (pre post : Map Str ℕ)
      → length post ≤ n
      → now ≤ ts + max_msg_age_ms + max_msg_skew_ms
      → Holds id ts n (filterb (is_recent now) (pre ++ (id, ts) ∷ post))
  filterb-Holds n now pre post h k = record {
    before = filterb (is_recent now) pre;
    behind = filterb (is_recent now) post;
    parts =
        filterb-append (is_recent now) pre ((id, ts) ∷ post)
        ∙ ap (◌++◌ (filterb (is_recent now) pre)) (unfold filterb in ground arith);
    few = omega (arith, length-filterb-le (is_recent now) post);
  }

  pruned-Holds :
      (n now : ℕ) (m : Map Str ℕ)
      → Holds id ts n m
      → suc n < max_seen_ids
      → now ≤ ts + max_msg_age_ms + max_msg_skew_ms
      → Holds id ts n (evict (filterb (is_recent now) m))
  pruned-Holds n now m v k l =
      let f = filterb-Holds n now v.before v.behind v.few l in
      rw (v.parts, f.parts) (evict-Holds id ts n f.before f.behind f.few k)

  -- A call of `markSeen` for any id: its time and the clock.
  mark_seen-Holds :
      (n : ℕ) (other : Str) (ts' now : ℕ) (b : MessageBook)
      → Holds id ts n b.seen
      → suc n < max_seen_ids
      → now ≤ ts + max_msg_age_ms + max_msg_skew_ms
      → Holds id ts (suc n) (mark_seen other ts' now b).1.seen
  unfolding mark_seen
  mark_seen-Holds n other ts' now b v k l = elim (Bool-cases (Maps.has other b.seen)) [
    | inl old ↦ rw old (record {
      before = v.before;
      behind = v.behind;
      parts = v.parts;
      few = omega (arith, v.few);
    })
    | inr new ↦
        let w = pruned-Holds n now b.seen v k l in
        let fresh =
          has-evict other (filterb (is_recent now) b.seen)
            (Maps.has-filterb (is_recent now) other b.seen new) in
        rw
          (
            new,
            Maps.set-new other ts' (evict (filterb (is_recent now) b.seen)) fresh,
            w.parts,
            append_assoc w.before ((id, ts) ∷ w.behind) ((other, ts') ∷ []),
          )
          (record {
            before = w.before;
            behind = w.behind ++ (other, ts') ∷ [];
            parts = refl;
            few = omega (arith, w.few, length-append w.behind ((other, ts') ∷ []));
          })
  ]

  mark_seen-put :
      (now : ℕ) (b : MessageBook)
      → Maps.has id b.seen ≡ false
      → Holds id ts 0 (mark_seen id ts now b).1.seen
  unfolding mark_seen
  mark_seen-put now b new =
      let fresh =
        has-evict id (filterb (is_recent now) b.seen)
          (Maps.has-filterb (is_recent now) id b.seen new) in
      rw (new, Maps.set-new id ts (evict (filterb (is_recent now) b.seen)) fresh)
        (record {
          before = evict (filterb (is_recent now) b.seen);
          behind = [];
          parts = refl;
          few = omega arith;
        })

-- A call of `markSeen`: its id, the message's time and the clock.
pub record Mark : Type 0 where
  pub other : Str
  pub ts : ℕ
  pub now : ℕ

unfoldable pub mark_all : List Mark → MessageBook → MessageBook
mark_all [] b = b
mark_all (c ∷ cs) b = mark_all cs (mark_seen c.other c.ts c.now b).1

-- The clock of each call is where the message of that time could still be fresh.
abbrev pub IsWithin : ℕ → Mark → Type 0
IsWithin ts c = c.now ≤ ts + max_msg_age_ms + max_msg_skew_ms

mark_all-Holds :
    (id : Str) (ts n : ℕ) (cs : List Mark) (b : MessageBook)
    → Holds id ts n b.seen
    → n + length cs < max_seen_ids
    → All (IsWithin ts) cs
    → Holds id ts (n + length cs) (mark_all cs b).seen
unfolding mark_all
mark_all-Holds id ts n [] b v k a =
    let e : n ≡ n + 0 = omega arith in subst (λ m. Holds id ts m b.seen) e v
mark_all-Holds id ts n (c ∷ cs) b v k (l, a) =
    let e : suc n + length cs ≡ n + suc (length cs) = omega arith in
    let next = mark_seen-Holds id ts n c.other c.ts c.now b v (omega (arith, k)) l in
    subst (λ m. Holds id ts m (mark_all cs (mark_seen c.other c.ts c.now b).1).seen) e
      (mark_all-Holds id ts (suc n) cs _ next (omega (arith, k)) a)

Holds-has : (id : Str) (ts n : ℕ) (m : Map Str ℕ) → Holds id ts n m → Maps.has id m ≡ true
Holds-has id ts n m v = rw v.parts (Maps.has-append_right id ts v.before v.behind)

-- Once an id is accepted, `markSeen` refuses it, with any time and at any clock, after fewer than
-- 4096 further calls for any ids, as long as no call's clock is more than the age and the skew
-- past the first message's time.
pub mark_seen_twice :
    (id : Str) (ts now : ℕ) (b : MessageBook) (cs : List Mark) (ts' now' : ℕ)
    → Maps.has id b.seen ≡ false
    → length cs < max_seen_ids
    → All (IsWithin ts) cs
    → (mark_seen id ts' now' (mark_all cs (mark_seen id ts now b).1)).0 ≡ false
unfolding mark_seen
mark_seen_twice id ts now b cs ts' now' new k a =
    let v =
      mark_all-Holds id ts 0 cs (mark_seen id ts now b).1 (mark_seen-put id ts now b new)
        (omega (arith, k)) a in
    rw (Holds-has id ts (0 + length cs) _ v) refl
