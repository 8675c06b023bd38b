-- ===== src/Node/Histories.antt =====
-- What holds of a node whatever it is asked: its book is what a sequence of calls of the friend book
-- makes of it, and its disk holds the book.
use vpn_pi.Common.{
  ◌≡◌, refl, sym, ap, ◌∙◌, ◌⊎◌, inl, inr, Bool, true, false, some, Bool-cases, List, [], ◌∷◌, ◌++◌,
  Str, ◌+◌, ◌<◌, All, ltb, nat_eq, ◌==◌, arith,
}
use vpn_pi.Platform.{Platform}
use vpn_pi.Identity.{Identity}
use vpn_pi.Friends.Book.{FriendBook, FriendRecord, friend, to_json, new_book}
use vpn_pi.Friends.Invariant.{IsVouched}
use vpn_pi.Friends.History.{Call, friend-run-IsVouched}
use vpn_pi.Friends.History
use vpn_pi.Node.State.{Runtime, Config, Node, persist}
use vpn_pi.Node.Run.{
  Event, serves, model_answers, lock_frees, helper_exits, timer_fires, marker_goes, disk_changes,
  persist_if, step, run,
}
use vpn_pi.Node.Admin.{unlink_marker}
use vpn_pi.Node.Within.{Respects, with_book, persisted}
use vpn_pi.Node.Handled.{serve-Within}

-- The book after is the book before with some calls made.
pub record HasCalled (p : Platform) (n m : Node) : Type 0 where
  pub calls : List Call
  pub made : m.ctx.book ≡ History.run p n.ctx.book calls

run-append :
    (p : Platform) (b : FriendBook) (cs ds : List Call)
    → History.run p b (cs ++ ds) ≡ History.run p (History.run p b cs) ds
unfolding History.run
run-append p b [] ds = refl
run-append p b (c ∷ cs) ds = run-append p (History.step p b c) cs ds

book-persisted : (n : Node) → (persisted n).ctx.book ≡ n.ctx.book
unfolding persist
book-persisted n = elim (Bool-cases n.ctx.credentials.mock) [
  | inl mock ↦ rw mock refl
  | inr real ↦ rw real refl
]

module _ (p : Platform) where
  called_none : (n m : Node) → m.ctx.book ≡ n.ctx.book → HasCalled p n m
  unfolding History.run
  called_none n m e = record { calls = []; made = e }

  called_both : (a b c : Node) → HasCalled p a b → HasCalled p b c → HasCalled p a c
  called_both a b c h k = record {
    calls = h.calls ++ k.calls;
    made =
        k.made
        ∙ (ap (λ x. History.run p x k.calls) h.made
            ∙ sym (run-append p a.ctx.book h.calls k.calls));
  }

  called_one :
      (n : Node) (c : Call) → HasCalled p n (persisted (with_book n (History.step p n.ctx.book c)))
  unfolding History.run
  called_one n c = record {
    calls = c ∷ [];
    made = book-persisted (with_book n (History.step p n.ctx.book c));
  }

  called-Respects : Respects p (HasCalled p)
  called-Respects = record {
    order = record { same = λ n. called_none n n refl; then_also = called_both };
    limiter = λ n l. called_none n (record n { ctx = record n.ctx { auth_limiter = l } }) refl;
    call = called_one;
    mail = λ n m. called_none n _ (book-persisted (record n { messages = m }));
    marking = λ n m. called_none n (record n { messages = m }) refl;
    gating = λ n g. called_none n (record n { gate = g }) refl;
    sharing = λ n s. called_none n (record n { share = s }) refl;
    sending = λ n ds. called_none n (record n { sent = ds }) refl;
    visiting = λ n h. called_none n (record n { revealing = n.revealing + 1 }) refl;
  }

book-persist_if : (b : Bool) (n : Node) → (persist_if b n).ctx.book ≡ n.ctx.book
book-persist_if true n = book-persisted n
book-persist_if false n = refl

module _ (rt : Runtime) (cfg : Config) where
  open rt use {platform}

  step-HasCalled : (n : Node) (e : Event) → HasCalled platform n (step rt cfg n e)
  unfolding step unlink_marker
  step-HasCalled n (serves w req) = serve-Within rt cfg w req (called-Respects platform) n
  step-HasCalled n (model_answers k d) = called_none platform n _ (book-persist_if _ _)
  step-HasCalled n lock_frees = called_none platform n _ refl
  step-HasCalled n (helper_exits ok at) = called_none platform n _ (book-persist_if _ _)
  step-HasCalled n (timer_fires now) = called_none platform n _ refl
  step-HasCalled n (marker_goes removed) = called_none platform n _ (ground arith)
  step-HasCalled n (disk_changes writes) = called_none platform n _ refl

  -- The routes of a node refine the friend book: whatever requests, answers of the model, exits of
  -- the helper and firings of the timer a node meets, its book is what some sequence of calls of
  -- the friend book makes of the book that it began with.
  pub run-HasCalled : (n : Node) (es : List Event) → HasCalled platform n (run rt cfg n es)
  unfolding run
  run-HasCalled n [] = called_none platform n n refl
  run-HasCalled n (e ∷ es) =
      called_both platform n (step rt cfg n e) (run rt cfg (step rt cfg n e) es)
        (step-HasCalled n e) (run-HasCalled (step rt cfg n e) es)

-- The friend book is on the disk; with --mock nothing is.
abbrev pub Synced : Node → Type 0
Synced n = (n.ctx.credentials.mock ≡ true) ⊎ (n.disk.books ≡ to_json n.ctx.book)

-- The file of the friend book can be written all along.
abbrev pub CanWrite : Event → Type 0
CanWrite (disk_changes writes) = 0 < writes
CanWrite _ = Unit

abbrev StaysSynced : Node → Node → Type 0
StaysSynced n m = (0 < n.writes) × Synced n → (0 < m.writes) × Synced m

persisted-Synced : (n : Node) → 0 < n.writes → (0 < (persisted n).writes) × Synced (persisted n)
unfolding persist
persisted-Synced n h = elim (Bool-cases n.ctx.credentials.mock) [
  | inl mock ↦ rw mock (h, inl refl)
  | inr real ↦
      let first : ltb 0 n.writes ≡ true = ground (arith, h) in rw (real, first) (h, inr refl)
]

synced-Respects : (p : Platform) → Respects p StaysSynced
synced-Respects p = record {
  order = record { same = λ n h. h; then_also = λ a b c h k s. k (h s) };
  limiter = λ n l h. h;
  call = λ n c h. persisted-Synced (with_book n (History.step p n.ctx.book c)) h.0;
  mail = λ n m h. persisted-Synced (record n { messages = m }) h.0;
  marking = λ n m h. h;
  gating = λ n g h. h;
  sharing = λ n s h. h;
  sending = λ n ds h. h;
  visiting = λ n there h. h;
}

unlinked-StaysSynced : (removed : Bool) (n : Node) → StaysSynced n (unlink_marker removed n)
unfolding unlink_marker
unlinked-StaysSynced removed n h = elim (Bool-cases (n.revealing == 0)) [
  | inl nobody ↦ rw nobody h
  | inr waiting ↦ rw waiting h
]

persist_if-StaysSynced : (b : Bool) (n : Node) → StaysSynced n (persist_if b n)
persist_if-StaysSynced true n h = persisted-Synced n h.0
persist_if-StaysSynced false n h = h

module _ (rt : Runtime) (cfg : Config) where
  step-StaysSynced : (n : Node) (e : Event) → CanWrite e → StaysSynced n (step rt cfg n e)
  unfolding step
  step-StaysSynced n (serves w req) u h =
      serve-Within rt cfg w req (synced-Respects rt.platform) n h
  step-StaysSynced n (model_answers k d) u h = persist_if-StaysSynced _ _ h
  step-StaysSynced n lock_frees u h = h
  step-StaysSynced n (helper_exits ok at) u h = persist_if-StaysSynced _ _ h
  step-StaysSynced n (timer_fires now) u h = h
  step-StaysSynced n (marker_goes removed) u h = unlinked-StaysSynced removed n h
  step-StaysSynced n (disk_changes writes) u h = (u, h.1)

  -- If friends.json, the first of the files, can be written all along and holds the friend book of
  -- a node, it does after any sequence of requests, whether they succeed or throw, and of events of
  -- the gate and of the other files; with --mock nothing is kept.
  pub run-Synced :
      (n : Node) (es : List Event)
      → 0 < n.writes
      → All CanWrite es
      → Synced n
      → Synced (run rt cfg n es)
  unfolding run
  run-Synced n [] can all h = h
  run-Synced n (e ∷ es) can (one, all) h =
      let (can', h') = step-StaysSynced n e one (can, h) in
      run-Synced (step rt cfg n e) es can' all h'

  -- Whatever a new node is asked, every friend in its book stands under its own Ed25519 key, and a
  -- token or an accept with exactly these keys and the recorded nonce was signed with that key.
  pub node_friend-IsVouched :
      (n : Node) (id : Identity) (label wg0 : Str) (es : List Event) (peer : Str) (r : FriendRecord)
      → n.ctx.book ≡ new_book id label wg0
      → friend peer (run rt cfg n es).ctx.book ≡ some r
      → (r.peer.ed25519 ≡ peer) × IsVouched rt.platform r
  node_friend-IsVouched n id label wg0 es peer r new found =
      let h = run-HasCalled rt cfg n es in
      let book = h.made ∙ ap (λ b. History.run rt.platform b h.calls) new in
      friend-run-IsVouched rt.platform id label wg0 h.calls peer r
        (ap (λ b. friend peer b) (sym book) ∙ found)
