-- ===== src/Hub/Store/Logged.antt =====
-- The way of a message from the log to the message store.
use ws_cluster.Common.{
  ℕ, ◌+◌, ◌≤◌, ◌≡◌, refl, sym, ◌∙◌, ap, true, List, [], ◌∷◌, ◌++◌, append-nil, length, map, take,
  drop, take-append-drop, Option, none, some, ok, All, M, for_each, pure, ltb, if◌then◌else◌, arith,
}
use ws_cluster.Wire.Addr.{addr_client, addr_group}
use ws_cluster.Wire.Message.{Message}
use ws_cluster.Wire.Message.RoundTrip.{IsMessage, message_bytes}
use ws_cluster.Filelog.File.{Outcome, Calls}
use ws_cluster.Filelog.Loops.{Loops, open_log}
use ws_cluster.Filelog.Loops.OnWay.{flat}
use ws_cluster.Filelog.Loops.Delivery.{run_events-delivers}
use ws_cluster.Filelog.Loops.Events.{LogEvent, ticks, reads, run_events, IsSoundEvent, records}
use ws_cluster.Database.Store.{save_chat_msg, save_group_msg}
use ws_cluster.Hub.Store.{ChatMsg, Sorted, no_msgs, save_messages_to_db}
use ws_cluster.Hub.Store.Sorting.{IsNamed, rows, joined, buffers, sort_bufs-rows}
use ws_cluster.Hub.Store.Cutting.{
  All-take, All-drop, cut_buffers, joined-nil, joined-joined, nil_not_cons, All-cut, rows-append,
}

-- A save that is noted: what the store has been handed, beside what it does with it.
abbrev pub noting :
    {D : Type 0}
    → (List ChatMsg → M D (Unit {0}))
    → (Sorted → List ChatMsg → Sorted)
    → List ChatMsg
    → M (D × Sorted) (Unit {0})
noting save note ms (d, s) = ((save ms d).0, ((save ms d).1, note s ms))

abbrev pub note_chats : Sorted → List ChatMsg → Sorted
note_chats s ms = joined s ms []

abbrev pub note_groups : Sorted → List ChatMsg → Sorted
note_groups s ms = joined s [] ms

-- Lists of rows of which `P` holds are saved without an error.
abbrev pub Takes : {D : Type 0} → (ChatMsg → Type 0) → (List ChatMsg → M D (Unit {0})) → Type 0
Takes {D} P save = (ms : List ChatMsg) → All P ms → (d : D) → (d' : D) × (save ms d ≡ (ok tt, d'))

module _ {D : Type 0} (save_chat save_group : List ChatMsg → M D (Unit {0})) (P : ChatMsg → Type 0)
    (takes_chat : Takes P save_chat) (takes_group : Takes P save_group) where
  chat_part :
      (ms : List ChatMsg) (d : D) (s : Sorted)
      → All P ms
      → (d' : D) × ((if ltb 0 (length ms) then noting save_chat note_chats ms else pure tt) (d, s)
          ≡ (ok tt, (d', joined s ms [])))
  chat_part [] d s h = (d, λ i. (ok tt, (d, sym (joined-nil s) i)))
  chat_part (m ∷ ms) d s h =
      let (d', e) = takes_chat (m ∷ ms) h d in
      let some_row : ltb 0 (length (m ∷ ms)) ≡ true = ground arith in (d', rw some_row (rw e refl))

  group_part :
      (ms : List ChatMsg) (d : D) (s : Sorted)
      → All P ms
      → (d' : D) × ((if ltb 0 (length ms) then noting save_group note_groups ms else pure tt) (d, s)
          ≡ (ok tt, (d', joined s [] ms)))
  group_part [] d s h = (d, λ i. (ok tt, (d, sym (joined-nil s) i)))
  group_part (m ∷ ms) d s h =
      let (d', e) = takes_group (m ∷ ms) h d in
      let some_row : ltb 0 (length (m ∷ ms)) ≡ true = ground arith in (d', rw some_row (rw e refl))

  abbrev save_all : ℕ → List (Option (List ℕ)) → M (D × Sorted) (Unit {0})
  save_all now bufs =
      save_messages_to_db (noting save_chat note_chats) (noting save_group note_groups) now bufs

  -- One list of records.
  save-rows :
      (now : ℕ) (ms : List Message) (d : D) (s : Sorted)
      → All IsMessage ms
      → All IsNamed ms
      → All P (rows now addr_client ms)
      → All P (rows now addr_group ms)
      → (d' : D) × (save_all now (buffers ms) (d, s)
          ≡ (ok tt, (d', joined s (rows now addr_client ms) (rows now addr_group ms))))
  unfolding save_messages_to_db
  save-rows now ms d s h g pc pg =
      let chats = rows now addr_client ms in
      let groups = rows now addr_group ms in
      let (d1, e1) = chat_part chats d s pc in
      let (d2, e2) = group_part groups d1 (joined s chats []) pg in
      let whole : joined (joined s chats []) [] groups ≡ joined s chats groups =
        joined-joined s chats [] [] groups ∙ ap (λ t. joined s t groups) (append-nil chats) in
      (
        d2,
        rw (sort_bufs-rows now ms no_msgs h g) (rw e1 e2)
            ∙ ap (λ (x : Sorted). (ok tt, (d2, x))) whole,
      )

  -- The calls that readloop makes, one after the other.
  saves-rows :
      (now : ℕ) (given : List (List (Option (List ℕ)))) (ms : List Message) (d : D) (s : Sorted)
      → All IsMessage ms
      → All IsNamed ms
      → All P (rows now addr_client ms)
      → All P (rows now addr_group ms)
      → flat given ≡ buffers ms
      → (d' : D) × (for_each given (save_all now) (d, s)
          ≡ (ok tt, (d', joined s (rows now addr_client ms) (rows now addr_group ms))))
  saves-rows now [] [] d s h g pc pg e = (d, λ i. (ok tt, (d, sym (joined-nil s) i)))
  saves-rows now [] (m ∷ ms) d s h g pc pg e = absurd (nil_not_cons e)
  saves-rows now (bufs ∷ given) ms d s h g pc pg e =
      let n = length bufs in
      let (here, later) = cut_buffers bufs (flat given) ms e in
      let (pc1, pc2) = All-cut P now addr_client n ms pc in
      let (pg1, pg2) = All-cut P now addr_group n ms pg in
      let s1 = joined s (rows now addr_client (take n ms)) (rows now addr_group (take n ms)) in
      let (d1, e1) =
        save-rows now (take n ms) d s (All-take IsMessage n ms h) (All-take IsNamed n ms g) pc1
          pg1 in
      let (d2, e2) =
        saves-rows now given (drop n ms) d1 s1 (All-drop IsMessage n ms h) (All-drop IsNamed n ms g)
          pc2 pg2 later in
      let whole : joined s1 (rows now addr_client (drop n ms)) (rows now addr_group (drop n ms))
          ≡ joined s (rows now addr_client ms) (rows now addr_group ms) =
        joined-joined s (rows now addr_client (take n ms)) (rows now addr_client (drop n ms))
          (rows now addr_group (take n ms)) (rows now addr_group (drop n ms))
        ∙ rw (
          sym (rows-append now addr_client (take n ms) (drop n ms)),
          sym (rows-append now addr_group (take n ms) (drop n ms)),
          take-append-drop n ms,
        ) in
      (
        d2,
        rw (ap (λ b. save_all now b (d, s)) here ∙ e1) e2
            ∙ ap (λ (x : Sorted). (ok tt, (d2, x))) whole,
      )

module _ {E D : Type 0} (insert_chat insert_group : E → List ChatMsg → M D (Unit {0}))
    (P : ChatMsg → Type 0) (inserts_chat : (engine : E) → Takes P (insert_chat engine))
    (inserts_group : (engine : E) → Takes P (insert_group engine)) where
  Takes-chat_msg : (engine : Option E) → Takes P (save_chat_msg insert_chat engine)
  unfolding save_chat_msg
  Takes-chat_msg none ms h d = (d, refl)
  Takes-chat_msg (some engine) ms h d = inserts_chat engine ms h d

  Takes-group_msg : (engine : Option E) → Takes P (save_group_msg insert_group engine)
  unfolding save_group_msg
  Takes-group_msg none ms h d = (d, refl)
  Takes-group_msg (some engine) ms h d = inserts_group engine ms h d

  -- The message store is a DbMessageStore, with an engine that inserts rows of which `P` holds without
  -- an error, or with none. It is handed a row for every chat message for a client and for every one
  -- for a group among the messages in the log, each once and in the order of the log: for well-formed
  -- messages of at most 4092 bytes with names that can be read, whose rows `P` holds of, on a log that
  -- is empty at first, after any order of records, ticks and rounds, a tick and enough rounds more, as
  -- long as the blocks are written and read. What an engine does with the rows is not said.
  pub logged_messages_handed :
      (engine : Option E) (es : List LogEvent) (o : Outcome) (cs : List Calls) (ms : List Message)
      (now : ℕ) (d : D)
      → All IsSoundEvent es
      → All (λ c. c.reads ≡ true) cs
      → length es + 1 ≤ length cs
      → records es ≡ map message_bytes ms
      → All IsMessage ms
      → All IsNamed ms
      → All P (rows now addr_client ms)
      → All P (rows now addr_group ms)
      → let save_chat = noting (save_chat_msg insert_chat engine) note_chats in
        let save_group = noting (save_group_msg insert_group engine) note_groups in
        (start s : Loops) × (d' : D) × (open_log [] ≡ some (ok start))
        × (run_events (es ++ (ticks o ∷ map reads cs)) start ≡ (ok tt, s))
        × (for_each s.given (save_messages_to_db save_chat save_group now) (d, no_msgs)
            ≡ (ok tt, (d', joined no_msgs (rows now addr_client ms) (rows now addr_group ms))))
  logged_messages_handed engine es o cs ms now d sound reads_ok enough logged h g pc pg =
      let (start, s, opens, runs, _, given) = run_events-delivers es o cs sound reads_ok enough in
      let (d', saves) =
        saves-rows (save_chat_msg insert_chat engine) (save_group_msg insert_group engine) P
          (Takes-chat_msg engine) (Takes-group_msg engine) now s.given ms d no_msgs h g pc pg
          (given ∙ ap (map some) logged) in
      (start, s, d', opens, runs, saves)
