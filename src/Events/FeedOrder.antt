-- ===== src/Events/FeedOrder.antt =====
-- The order, the size and the rows of the feed (core/events.ts).
use vpn_pi.Common.{
  ℕ, zero, suc, ap, ◌∙◌, ◌≡◌, refl, List, [], ◌∷◌, true, false, Bool-cases, inl, inr, Str, length,
  take, length-take, arith, min,
}
use vpn_pi.Canonical.{str_leb}
use vpn_pi.Events.{NodeEvents}
use vpn_pi.Events.Feed.{insert_row, sort_rows, list_feed, max_feed_nodes}

str_leb_total : (s t : Str) → str_leb s t ≡ false → str_leb t s ≡ true
unfolding str_leb
str_leb_total [] t h = absurd (cc)
str_leb_total (x ∷ xs) [] h = refl
str_leb_total (x ∷ xs) (y ∷ ys) h = ground (arith, str_leb_total xs ys)

-- Each row's time is at least that of the row after it.
abbrev pub Descending : List NodeEvents → Type 0
Descending [] = Unit
Descending (r ∷ []) = Unit
Descending (r ∷ q ∷ rs) = (str_leb q.at r.at ≡ true) × Descending (q ∷ rs)

insert_row-Descending :
    (r : NodeEvents) (rs : List NodeEvents) → Descending rs → Descending (insert_row r rs)
unfolding insert_row
insert_row-Descending r [] h = tt
insert_row-Descending r (q ∷ []) h = elim (Bool-cases (str_leb q.at r.at)) [
  | inl later ↦ rw later (later, tt)
  | inr earlier ↦ rw earlier (str_leb_total q.at r.at earlier, tt)
]
insert_row-Descending r (q ∷ p ∷ rs) (h, d) = elim (Bool-cases (str_leb q.at r.at)) [
  | inl later ↦ rw later (later, (h, d))
  | inr earlier ↦ elim (Bool-cases (str_leb p.at r.at)) [
    | inl between ↦ rw (earlier, between) (str_leb_total q.at r.at earlier, (between, d))
    | inr below ↦
        let ih : Descending (p ∷ insert_row r rs) =
          rw below at (insert_row-Descending r (p ∷ rs) d) in
        rw (earlier, below) (h, ih)
  ]
]

sort_rows-Descending : (rs : List NodeEvents) → Descending (sort_rows rs)
unfolding sort_rows
sort_rows-Descending [] = tt
sort_rows-Descending (r ∷ rs) = insert_row-Descending r (sort_rows rs) (sort_rows-Descending rs)

take-Descending : (n : ℕ) (rs : List NodeEvents) → Descending rs → Descending (take n rs)
take-Descending zero rs h = tt
take-Descending (suc n) [] h = tt
take-Descending (suc zero) (r ∷ rs) h = tt
take-Descending (suc (suc n)) (r ∷ []) h = tt
take-Descending (suc (suc n)) (r ∷ q ∷ rs) (h, d) = (h, take-Descending (suc n) (q ∷ rs) d)

length-insert_row :
    (r : NodeEvents) (rs : List NodeEvents) → length (insert_row r rs) ≡ suc (length rs)
unfolding insert_row
length-insert_row r [] = refl
length-insert_row r (q ∷ qs) = ground (arith, length-insert_row r qs)

length-sort_rows : (rs : List NodeEvents) → length (sort_rows rs) ≡ length rs
unfolding sort_rows
length-sort_rows [] = refl
length-sort_rows (r ∷ rs) = omega (arith, length-insert_row r (sort_rows rs), length-sort_rows rs)

-- The feed has as many entries as the table has rows, but never more than 64, and the reporters'
-- times fall (or stay equal, as texts) from each entry to the next.
pub list_feed-Descending :
    (rows : List NodeEvents)
    → (length (list_feed rows) ≡ min max_feed_nodes (length rows)) × Descending (list_feed rows)
unfolding list_feed
list_feed-Descending rows = (
  length-take max_feed_nodes (sort_rows rows) ∙ ap (min max_feed_nodes) (length-sort_rows rows),
  take-Descending max_feed_nodes (sort_rows rows) (sort_rows-Descending rows),
)
