-- ===== src/ServerClient/Queue.antt =====
-- No change is lost while the object lives.
use daw_project.Common.{
  if_elim, ℕ, zero, suc, ◌≡◌, refl, arith, Bool, true, false, ◌&&◌, ◌||◌, not, Option, none, some,
  List, [], ◌∷◌, ◌++◌, ltb, ◌-◌,
}
use daw_project.Common.Find.{any}
use daw_project.Document.DisplayName.{eqb_name}
use daw_project.ServerClient.{
  Bytes, Browser, StoredItem, ServerClient, Effect, is_open, persist_outbox, adopt_queues,
  adopt_orphan_outboxes, orphan_items, read_queues, storage_key, submit_signal, watchdog_timeout_ms,
  send_loop, after_loop, flush_outbox, submit_change, send_change,
}
use daw_project.ServerClient.Connection.{
  socket_opens, connect, socket_closes, text_arrives, first_document, binary_arrives,
  watchdog_fires, close, request_resync, resync_fires, reconnect_fires, disconnect,
  schedule_reconnect,
}
use daw_project.ServerClient.Events.{Event, handle, run}

abbrev pub queued : Bytes → List Bytes → Bool
queued c queue = any (eqb_name c) queue

any-append {ℓ} :
    {A : Type ℓ} (p : A → Bool) (xs ys : List A) → any p (xs ++ ys) ≡ (any p xs || any p ys)
unfolding any
any-append p [] ys = refl
any-append p (x ∷ xs) ys = ground (arith, any-append p xs ys)

or_true : (b : Bool) → (b || true) ≡ true
or_true true = refl
or_true false = refl

module _ {B : Browser} where
  abbrev sends_it : Bytes → Effect B → Bool
  sends_it c e = elim e [ send_change d ↦ eqb_name c d | _ ↦ false ]

  abbrev pub sends : Bytes → List (Effect B) → Bool
  sends c effects = any (sends_it c) effects

  abbrev submits_it : Bytes → Event B → Bool
  submits_it c e = elim e [ Event.change d ↦ eqb_name c d | _ ↦ false ]

  abbrev pub submitted : Bytes → List (Event B) → Bool
  submitted c events = any (submits_it c) events

  -- On the wire, or still in the queue.
  abbrev pub Kept : Bytes → ServerClient B × List (Effect B) → Type 0
  Kept c r = (sends c r.1 || queued c r.0.outbox) ≡ true

module _ (B : Browser) where
  pub outbox-persist_outbox : (s : ServerClient B) → (persist_outbox s).outbox ≡ s.outbox
  unfolding persist_outbox
  outbox-persist_outbox s = ground arith

  adopt_queues-keeps :
      (c : Bytes) (is : List (StoredItem B)) (adopted : Option (List Bytes)) (s : ServerClient B)
      → queued c s.outbox ≡ true
      → queued c (adopt_queues is adopted s).outbox ≡ true
  unfolding adopt_queues
  adopt_queues-keeps c [] adopted s h = h
  adopt_queues-keeps c (i ∷ is) none s h = h
  adopt_queues-keeps c (i ∷ is) (some xs) s h =
      rw
        (
          outbox-persist_outbox (record s { outbox = xs ++ s.outbox }),
          any-append (eqb_name c) xs s.outbox,
          h,
        )
        (or_true (queued c xs))

  adopt-keeps :
      (c : Bytes) (s : ServerClient B)
      → queued c s.outbox ≡ true
      → queued c (adopt_orphan_outboxes s).outbox ≡ true
  unfolding adopt_orphan_outboxes
  adopt-keeps c s h =
      if_elim (λ (r : ServerClient B). queued c r.outbox ≡ true) s.storage.denied (λ _. h)
        (λ _.
          adopt_queues-keeps c (orphan_items (storage_key s) s.storage.items)
            (read_queues (orphan_items (storage_key s) s.storage.items)) s h)

  send_loop-sends :
      (c : Bytes) (budget : ℕ) (xs : List Bytes)
      → queued c xs ≡ true
      → (send_loop {B = B} budget xs).1 ≡ true
      → sends c (send_loop {B = B} budget xs).0 ≡ true
  unfolding any send_loop
  send_loop-sends c budget [] h a = cc
  send_loop-sends c zero (x ∷ xs) h a = cc
  send_loop-sends c (suc budget) (x ∷ xs) h a = ground (arith, send_loop-sends c budget xs)

  after_loop-Kept :
      (c : Bytes) (r : List (Effect B) × Bool) (s : ServerClient B)
      → (r.1 ≡ true → sends c r.0 ≡ true)
      → queued c s.outbox ≡ true
      → Kept c (after_loop r s)
  unfolding after_loop
  after_loop-Kept c (effects, true) s f h = rw (f refl) refl
  after_loop-Kept c (effects, false) s f h = rw h (or_true (sends c effects))

  still-Kept :
      (c : Bytes) (r : ServerClient B × List (Effect B)) → queued c r.0.outbox ≡ true → Kept c r
  still-Kept c r h = rw h (or_true (sends c r.1))

  queue_elim :
      (c : Bytes) (queue : List Bytes) (r t : ServerClient B × List (Effect B))
      → queued c queue ≡ true
      → Kept c t
      → Kept {B = B} c (elim queue [ [] ↦ r | _ ∷ _ ↦ t ])
  unfolding any
  queue_elim c [] r t h k = cc
  queue_elim c (x ∷ xs) r t h k = k

  flush_outbox-Kept :
      (c : Bytes) (budget : ℕ) (s : ServerClient B)
      → queued c s.outbox ≡ true
      → Kept c (flush_outbox budget s)
  unfolding flush_outbox
  flush_outbox-Kept c budget s h =
      queue_elim c s.outbox (s, []) _ h
        (if_elim (Kept c) (is_open s.socket)
          (λ _.
            after_loop-Kept c (send_loop budget s.outbox) s (send_loop-sends c budget s.outbox h) h)
          (λ _. still-Kept c (s, []) h))

  outbox-close : (s : ServerClient B) → (close s).0.outbox ≡ s.outbox
  outbox-close s = ground arith

  outbox-disconnect : (s : ServerClient B) → (disconnect s).0.outbox ≡ s.outbox
  unfolding disconnect
  outbox-disconnect s = ground arith

  close-Kept : (c : Bytes) (s : ServerClient B) → queued c s.outbox ≡ true → Kept c (close s)
  close-Kept c s h = still-Kept c (close s) (rw (outbox-close s) h)

  sends-append :
      (c : Bytes) (xs ys : List (Effect B)) → sends c (xs ++ ys) ≡ (sends c xs || sends c ys)
  sends-append c xs ys = any-append (sends_it c) xs ys

  pushed-Kept :
      (c d : Bytes) (s : ServerClient B)
      → (queued c s.outbox || eqb_name c d) ≡ true
      → Kept c (persist_outbox (record s { outbox = s.outbox ++ d ∷ [] }), [])
  unfolding any
  pushed-Kept c d s h =
      rw
        (
          outbox-persist_outbox (record s { outbox = s.outbox ++ d ∷ [] }),
          any-append (eqb_name c) s.outbox (d ∷ []),
        )
        (ground arith)

  submit_change-Kept :
      (c d : Bytes) (s : ServerClient B)
      → (queued c s.outbox || eqb_name c d) ≡ true
      → Kept c (submit_change d s)
  unfolding submit_change any
  submit_change-Kept c d s h =
      if_elim (Kept c) (is_open s.socket && not s.awaiting_initial_doc) (λ _. ground arith)
        (λ _. pushed-Kept c d s h)

  first_document-Kept :
      (c : Bytes) (budget : ℕ) (b : Bytes) (s : ServerClient B)
      → queued c s.outbox ≡ true
      → Kept c (first_document budget b s)
  unfolding first_document any
  first_document-Kept c budget b s h =
      let kept =
        flush_outbox-Kept c budget
          (adopt_orphan_outboxes (record s { awaiting_initial_doc = false }))
          (adopt-keeps c (record s { awaiting_initial_doc = false }) h) in
      kept

  handle-Kept :
      (c : Bytes) (e : Event B) (s : ServerClient B)
      → queued c s.outbox ≡ true
      → Kept c (handle e s)
  unfolding handle connect socket_opens socket_closes schedule_reconnect text_arrives binary_arrives
      watchdog_fires request_resync resync_fires reconnect_fires submit_signal
  handle-Kept c (Event.connects true p) s h = rw h (or_true _)
  handle-Kept c (Event.connects false p) s h = rw h (or_true _)
  handle-Kept c (Event.opens now) s h = rw h (or_true _)
  handle-Kept c Event.closes s h = rw h (or_true _)
  handle-Kept c (Event.text now t) s h = rw h (or_true _)
  handle-Kept c (Event.binary now budget b) s h =
      if_elim (Kept c) s.awaiting_initial_doc
        (λ _. first_document-Kept c budget b (record s { last_activity = now }) h)
        (λ _. rw h (or_true _))
  handle-Kept c (Event.watchdog now) s h =
      if_elim (Kept c) (ltb watchdog_timeout_ms (now - s.last_activity))
        (λ _. close-Kept c (record s { watching = false }) h) (λ _. rw h (or_true _))
  handle-Kept c Event.asks_resync s h = rw h (or_true _)
  handle-Kept c Event.resync s h = close-Kept c (record s { resyncing = false }) h
  handle-Kept c (Event.reconnect true) s h = rw h (or_true _)
  handle-Kept c (Event.reconnect false) s h = rw h (or_true _)
  handle-Kept c Event.disconnects s h = still-Kept c (disconnect s) (rw (outbox-disconnect s) h)
  handle-Kept c (Event.change d) s h = submit_change-Kept c d s (rw h refl)
  handle-Kept c (Event.signal t) s h =
      if_elim (Kept c) (is_open s.socket) (λ _. rw h (or_true _)) (λ _. rw h (or_true _))
  handle-Kept c (Event.others st) s h = rw h (or_true _)

  handle-submits :
      (c : Bytes) (e : Event B) (s : ServerClient B) → submits_it c e ≡ true → Kept c (handle e s)
  unfolding handle
  handle-submits c (Event.change d) s h = submit_change-Kept c d s (ground arith)
  handle-submits c _ s h = cc

  -- No change is lost while the client lives: whatever happens, in any order, to the connection, the
  -- watchdog, the storage and the timers, a change that was queued at the start or is handed in on the
  -- way is on the wire or still in the queue at the end.
  pub run-Kept :
      (c : Bytes) (events : List (Event B)) (s : ServerClient B)
      → (queued c s.outbox || submitted c events) ≡ true
      → Kept c (run events s)
  unfolding run any
  run-Kept c [] s h = ground arith
  run-Kept c (e ∷ es) s h =
      rw (sends-append c (handle e s).1 (run es (handle e s).0).1)
        (ground (arith, handle-Kept c e s, handle-submits c e s, run-Kept c es (handle e s).0))
