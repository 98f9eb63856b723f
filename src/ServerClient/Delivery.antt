-- ===== src/ServerClient/Delivery.antt =====
-- What a connection sends when its document arrives, and what a tab leaves behind for the next one.
use daw_project.Common.{
  ℕ, zero, suc, ◌≤◌, ◌≡◌, refl, arith, ◌∙◌, ap, true, false, Option, none, some, List, [], ◌∷◌,
  ◌++◌, map, length, if_elim, str_eq, str_eq_iff,
}
use mathlib.Core.List.{append-nil, append_assoc}
use daw_project.Common.Find.{remove_first}
use daw_project.ServerClient.{
  Bytes, Browser, StoredItem, StorageKey, Storage, ServerClient, Effect, on_document, send_change,
  is_open, is_orphan, decode_all, item_at, storage_key, set_item, persist_outbox, write_outbox,
  encode_outbox, orphan_items, read_queues, adopt_queues, adopt_orphan_outboxes, send_loop,
  after_loop, flush_outbox, submit_change,
}
use daw_project.ServerClient.Connection.{first_document, binary_arrives}
use daw_project.ServerClient.Queue.{outbox-persist_outbox}

module _ (B : Browser) where
  socket-persist : (s : ServerClient B) → (persist_outbox s).socket ≡ s.socket
  unfolding persist_outbox
  socket-persist s = ground arith

  outbox-adopt_queues :
      (is : List (StoredItem B)) (adopted : List Bytes) (s : ServerClient B)
      → read_queues is ≡ some adopted
      → (adopt_queues is (some adopted) s).outbox ≡ adopted ++ s.outbox
  unfolding adopt_queues read_queues
  outbox-adopt_queues [] adopted s h = ground arith
  outbox-adopt_queues (i ∷ is) adopted s h =
      outbox-persist_outbox B (record s { outbox = adopted ++ s.outbox })

  socket-adopt_queues :
      (is : List (StoredItem B)) (adopted : Option (List Bytes)) (s : ServerClient B)
      → (adopt_queues is adopted s).socket ≡ s.socket
  unfolding adopt_queues
  socket-adopt_queues [] adopted s = refl
  socket-adopt_queues (i ∷ is) none s = refl
  socket-adopt_queues (i ∷ is) (some xs) s = socket-persist (record s { outbox = xs ++ s.outbox })

  send_loop-all :
      (budget : ℕ) (xs : List Bytes)
      → length xs ≤ budget
      → send_loop {B = B} budget xs ≡ (map send_change xs, true)
  unfolding send_loop
  send_loop-all budget [] h = ground arith
  send_loop-all zero (x ∷ xs) h = absurd (omega arith)
  send_loop-all (suc budget) (x ∷ xs) h = ground (arith, send_loop-all budget xs)

  abbrev Emptied : List Bytes → ServerClient B × List (Effect B) → Type 0
  Emptied queue r = (r.0.outbox ≡ []) × (r.1 ≡ map send_change queue)

  after_loop-Emptied :
      (queue : List Bytes) (s : ServerClient B)
      → Emptied queue (after_loop (map send_change queue, true) s)
  unfolding after_loop
  after_loop-Emptied queue s = (outbox-persist_outbox B (record s { outbox = [] }), refl)

  queue_cases :
      (queue : List Bytes) (s : ServerClient B) (r : ServerClient B × List (Effect B))
      → s.outbox ≡ queue
      → Emptied queue r
      → Emptied queue (elim queue [ [] ↦ (s, []) | _ ∷ _ ↦ r ])
  queue_cases [] s r e h = (e, refl)
  queue_cases (x ∷ xs) s r e h = h

  flush_outbox-Emptied :
      (budget : ℕ) (s : ServerClient B)
      → is_open s.socket ≡ true
      → length s.outbox ≤ budget
      → Emptied s.outbox (flush_outbox budget s)
  unfolding flush_outbox
  flush_outbox-Emptied budget s h l =
      queue_cases s.outbox s _ refl
        (rw (h, send_loop-all budget s.outbox l) (after_loop-Emptied s.outbox s))

  outbox-adopt :
      (s : ServerClient B) (adopted : List Bytes)
      → s.storage.denied ≡ false
      → read_queues (orphan_items (storage_key s) s.storage.items) ≡ some adopted
      → (adopt_orphan_outboxes s).outbox ≡ adopted ++ s.outbox
  unfolding adopt_orphan_outboxes
  outbox-adopt s adopted d h =
      if_elim (λ (r : ServerClient B). r.outbox ≡ adopted ++ s.outbox) s.storage.denied (λ e. cc)
        (λ _. rw h (outbox-adopt_queues (orphan_items (storage_key s) s.storage.items) adopted s h))

  socket-adopt : (s : ServerClient B) → (adopt_orphan_outboxes s).socket ≡ s.socket
  unfolding adopt_orphan_outboxes
  socket-adopt s =
      if_elim (λ (r : ServerClient B). r.socket ≡ s.socket) s.storage.denied (λ _. refl)
        (λ _.
          socket-adopt_queues (orphan_items (storage_key s) s.storage.items)
            (read_queues (orphan_items (storage_key s) s.storage.items)) s)

  first_document-sends :
      (budget : ℕ) (d : Bytes) (s : ServerClient B) (queue : List Bytes)
      → is_open s.socket ≡ true
      → (adopt_orphan_outboxes (record s { awaiting_initial_doc = false })).outbox ≡ queue
      → length queue ≤ budget
      → ((first_document budget d s).0.outbox ≡ [])
        × ((first_document budget d s).1 ≡ on_document d ∷ map send_change queue)
  unfolding first_document
  first_document-sends budget d s queue h e l =
      let t = adopt_orphan_outboxes (record s { awaiting_initial_doc = false }) in
      let sent =
        flush_outbox-Emptied budget t
          (rw (socket-adopt (record s { awaiting_initial_doc = false })) h) (rw e l) in
      (sent.0, rw (sent.1, e) refl)

  -- The first document of an open connection: the application gets it, and then every change that waits
  -- goes out, in order, those of the closed tabs before ours, and the queue is empty. Storage allows
  -- access, the queues there read, and the socket lasts for that many sends.
  pub binary_arrives-delivers :
      (now budget : ℕ) (d : Bytes) (s : ServerClient B) (adopted : List Bytes)
      → is_open s.socket ≡ true
      → s.awaiting_initial_doc ≡ true
      → s.storage.denied ≡ false
      → read_queues (orphan_items (storage_key s) s.storage.items) ≡ some adopted
      → length (adopted ++ s.outbox) ≤ budget
      → ((binary_arrives now budget d s).0.outbox ≡ [])
        × ((binary_arrives now budget d s).1
            ≡ on_document d ∷ map send_change (adopted ++ s.outbox))
  unfolding binary_arrives
  binary_arrives-delivers now budget d s adopted h w n e l = rw w (
      first_document-sends budget d (record s { last_activity = now }) (adopted ++ s.outbox) h
        (outbox-adopt (record s { last_activity = now; awaiting_initial_doc = false }) adopted n e)
        l)

  -- What an encoded queue reads back as.
  decode_all-map : (queue : List Bytes) → decode_all B (map B.btoa queue) ≡ some queue
  unfolding decode_all
  decode_all-map [] = refl
  decode_all-map (c ∷ cs) = rw (B.atob-btoa c, decode_all-map cs) refl

  read_queues-one :
      (key : StorageKey) (queue : List Bytes)
      → read_queues {B = B} (record { key = key; value = encode_outbox B queue } ∷ [])
        ≡ some (queue ++ [])
  unfolding read_queues
  read_queues-one key queue = rw (B.parse-stringify (map B.btoa queue), decode_all-map queue) refl

  is_orphan_new :
      (ours key : StorageKey)
      → key.project ≡ ours.project
      → str_eq key.tab ours.tab ≡ false
      → is_orphan ours key ≡ true
  is_orphan_new ours key e n = rw ((str_eq_iff key.project ours.project).1 e, n) refl

  -- The one orphan of a storage, as it reads.
  read_left :
      (ours key : StorageKey) (queue : List Bytes) (st : Storage B)
      → key.project ≡ ours.project
      → str_eq key.tab ours.tab ≡ false
      → orphan_items ours (remove_first (item_at key) st.items) ≡ []
      → read_queues (orphan_items ours (set_item key (encode_outbox B queue) st).items) ≡ some queue
  unfolding orphan_items
  read_left ours key queue st e n alone =
      rw (is_orphan_new ours key e n, alone)
        (read_queues-one key queue ∙ ap some (append-nil queue))

  write_outbox-push :
      (key : StorageKey) (queue : List Bytes) (c : Bytes) (st : Storage B)
      → st.full ≡ false
      → write_outbox key (queue ++ c ∷ []) st ≡ set_item key (encode_outbox B (queue ++ c ∷ [])) st
  unfolding write_outbox
  write_outbox-push key [] c st f = ground arith
  write_outbox-push key (x ∷ xs) c st f = ground arith

  -- Offline, the change goes to the storage behind those that wait.
  stored :
      (c : Bytes) (s : ServerClient B)
      → is_open s.socket ≡ false
      → s.storage.denied ≡ false
      → s.storage.full ≡ false
      → (submit_change c s).0.storage
        ≡ set_item (storage_key s) (encode_outbox B (s.outbox ++ c ∷ [])) s.storage
  unfolding submit_change persist_outbox
  stored c s h d f = ground (arith, write_outbox-push (storage_key s) s.outbox c s.storage f)

  -- A tab loses its connection and closes after a change; its queue reaches the server through the next
  -- tab of the project. With storage that allows access and has room, no third queue there, and a
  -- socket of the next tab that lasts for as many sends as both queues and that change have, the first
  -- document of the next tab makes it send the queue of the closed one, that change last, and then its
  -- own, and nothing waits.
  pub next_tab-delivers :
      (c d : Bytes) (now budget : ℕ) (s next : ServerClient B)
      → is_open s.socket ≡ false
      → s.storage.denied ≡ false
      → s.storage.full ≡ false
      → s.project_id ≡ next.project_id
      → str_eq s.tab_id next.tab_id ≡ false
      → orphan_items (storage_key next) (remove_first (item_at (storage_key s)) s.storage.items)
        ≡ []
      → next.storage ≡ (submit_change c s).0.storage
      → is_open next.socket ≡ true
      → next.awaiting_initial_doc ≡ true
      → length (s.outbox ++ c ∷ next.outbox) ≤ budget
      → ((binary_arrives now budget d next).0.outbox ≡ [])
        × ((binary_arrives now budget d next).1
            ≡ on_document d ∷ map send_change (s.outbox ++ c ∷ next.outbox))
  unfolding orphan_items
  next_tab-delivers c d now budget s next off den full same other alone e on waits l =
      let there = e ∙ stored c s off den full in
      let read =
        ap (λ (st : Storage B). read_queues (orphan_items (storage_key next) st.items)) there
        ∙ read_left (storage_key next) (storage_key s) (s.outbox ++ c ∷ []) s.storage same other
            alone in
      rw (← append_assoc s.outbox (c ∷ []) next.outbox) (
        binary_arrives-delivers now budget d next (s.outbox ++ c ∷ []) on waits (rw there den) read
          (rw (append_assoc s.outbox (c ∷ []) next.outbox) l))
