-- ===== src/Hub/Store/Sorting.antt =====
-- What saveMessagesToDb stores of the messages in the log.
use ws_cluster.Common.{
  ℕ, ◌≤◌, ◌≡◌, length, refl, sym, ◌∙◌, ap, true, false, Bool-cases, inl, inr, List, [], ◌∷◌, ◌++◌,
  append_assoc, append-nil, map, Option, some, Result, ok, err, panicked, All, ◌==◌, if◌then◌else◌,
  arith,
}
use ws_cluster.Wire.Addr.{
  Addr, addr_broadcast, addr_type, addr_address, addr_client, addr_group, new_addr,
}
use ws_cluster.Wire.Addr.Fields.{layout, layout-address, new_addr-layout}
use ws_cluster.Wire.Body.{Body, Msgchat, chat, command_of}
use ws_cluster.Wire.Message.{Header, Message, decode_message}
use ws_cluster.Wire.Message.RoundTrip.{IsMessage, message_bytes, message-Reads}
use ws_cluster.Hub.Store.{
  ChatMsg, Sorted, chat_msg, new_chat_msg, sort_body, sort_message, sort_bufs,
}

abbrev pub name_of : Addr → List ℕ
name_of addr = elim (addr_address addr) [ ok name ↦ name | err e ↦ [] ]

-- The names of both ends of a message can be read.
abbrev pub IsNamed : Message → Type 0
IsNamed m =
    (addr_address m.header.source ≡ ok (name_of m.header.source))
    × (addr_address m.header.dest ≡ ok (name_of m.header.dest))

-- The rows for the chat messages to destinations of a type.
abbrev pub body_rows : ℕ → ℕ → Header → Body → List ChatMsg
body_rows now typ header (chat body) =
    if addr_type header.dest == typ
    then chat_msg now header body (name_of header.source) (name_of header.dest) ∷ []
    else []
body_rows now typ header _ = []

abbrev pub rows : ℕ → ℕ → List Message → List ChatMsg
rows now typ [] = []
rows now typ (m ∷ ms) = body_rows now typ m.header m.body ++ rows now typ ms

abbrev pub joined : Sorted → List ChatMsg → List ChatMsg → Sorted
joined s chats groups = record { chatmsgs = s.chatmsgs ++ chats; groupmsgs = s.groupmsgs ++ groups }

new_chat_msg-named :
    (now : ℕ) (m : Message) (b : Msgchat)
    → IsNamed m
    → new_chat_msg now m.header b
      ≡ ok (chat_msg now m.header b (name_of m.header.source) (name_of m.header.dest))
unfolding new_chat_msg
new_chat_msg-named now m b (from, to) = rw (from, to, new_chat_msg)

pub same_sorted :
    {c c' g g' : List ChatMsg}
    → c ≡ c'
    → g ≡ g'
    → Path
        (Result Sorted)
        (ok (record { chatmsgs = c; groupmsgs = g }))
        (ok (record { chatmsgs = c'; groupmsgs = g' }))
same_sorted e d i = ok (record { chatmsgs = e i; groupmsgs = d i })

-- The two kinds of destination exclude each other.
sort_body-rows :
    (now : ℕ) (m : Message) (b : Msgchat) (s : Sorted)
    → IsNamed m
    → sort_body now m.header (chat b) s
      ≡ ok (
          joined s
            (body_rows now addr_client m.header (chat b))
            (body_rows now addr_group m.header (chat b)))
unfolding sort_body
sort_body-rows now m b s named = elim (Bool-cases (addr_type m.header.dest == addr_client)) [
  | inl c ↦
      let not_group : (addr_type m.header.dest == addr_group) ≡ false = ground arith in
      rw (new_chat_msg-named now m b named)
        (rw (c, not_group) (same_sorted refl (sym (append-nil s.groupmsgs))))
  | inr c ↦ elim (Bool-cases (addr_type m.header.dest == addr_group)) [
    | inl g ↦
        rw (new_chat_msg-named now m b named)
          (rw (c, g) (same_sorted (sym (append-nil s.chatmsgs)) refl))
    | inr g ↦ rw (c, g) (same_sorted (sym (append-nil s.chatmsgs)) (sym (append-nil s.groupmsgs)))
  ]
]

sort_message-other :
    (now : ℕ) (m : Message) (rest : List ℕ) (s : Sorted)
    → (m.header.command == 3) ≡ false
    → sort_message now (ok m, rest) s ≡ ok s
unfolding sort_message
sort_message-other now m rest s e = rw e

sort_message-rows :
    (now : ℕ) (header : Header) (body : Body) (rest : List ℕ) (s : Sorted)
    → header.command ≡ command_of body
    → IsNamed (record { header = header; body = body })
    → sort_message now (ok (record { header = header; body = body }), rest) s
      ≡ ok (joined s (body_rows now addr_client header body) (body_rows now addr_group header body))
unfolding sort_message
sort_message-rows now header (chat b) rest s e named =
    rw e (sort_body-rows now (record { header = header; body = chat b }) b s named)
sort_message-rows now header body rest s e named =
    rw e (same_sorted (sym (append-nil s.chatmsgs)) (sym (append-nil s.groupmsgs)))

sort_bufs-next :
    (now : ℕ) (buf : List ℕ) (bufs : List (Option (List ℕ))) (s s' : Sorted)
    → sort_message now (decode_message buf) s ≡ ok s'
    → sort_bufs now (some buf ∷ bufs) s ≡ sort_bufs now bufs s'
unfolding sort_bufs
sort_bufs-next now buf bufs s s' e = rw (e, sort_bufs)

-- The log's records as they are read: the encodings of messages.
abbrev pub buffers : List Message → List (Option (List ℕ))
buffers ms = map some (map message_bytes ms)

sort_message-bytes :
    (now : ℕ) (m : Message) (s : Sorted)
    → IsMessage m
    → IsNamed m
    → sort_message now (decode_message (message_bytes m)) s
      ≡ ok (
          joined s
            (body_rows now addr_client m.header m.body)
            (body_rows now addr_group m.header m.body))
sort_message-bytes now m s v named =
    let reads : decode_message (message_bytes m) ≡ (ok m, []) =
      ap decode_message (sym (append-nil (message_bytes m))) ∙ message-Reads m v [] in
    rw reads (sort_message-rows now m.header m.body [] s v.command_ok named)

-- The loop over the encodings of well-formed messages, with names that can be read, adds, in their order, the chat messages for clients to the
-- one list and those for groups to the other, and nothing else.
pub sort_bufs-rows :
    (now : ℕ) (ms : List Message) (s : Sorted)
    → All IsMessage ms
    → All IsNamed ms
    → sort_bufs now (buffers ms) s
      ≡ ok (joined s (rows now addr_client ms) (rows now addr_group ms))
sort_bufs-rows now [] s h g =
    unfold sort_bufs in same_sorted (sym (append-nil s.chatmsgs)) (sym (append-nil s.groupmsgs))
sort_bufs-rows now (m ∷ ms) s h g =
    let chats = body_rows now addr_client m.header m.body in
    let groups = body_rows now addr_group m.header m.body in
    let s' = joined s chats groups in
    sort_bufs-next now (message_bytes m) (buffers ms) s s' (sort_message-bytes now m s h.0 g.0)
    ∙ sort_bufs-rows now ms s' h.1 g.1
    ∙ same_sorted (append_assoc s.chatmsgs chats (rows now addr_client ms))
        (append_assoc s.groupmsgs groups (rows now addr_group ms))

sort_bufs-panic :
    (now : ℕ) (buf : List ℕ) (bufs : List (Option (List ℕ))) (s : Sorted)
    → sort_message now (decode_message buf) s ≡ err panicked
    → sort_bufs now (some buf ∷ bufs) s ≡ err panicked
unfolding sort_bufs
sort_bufs-panic now buf bufs s e = rw (e, sort_bufs)

abbrev ok_value : Result Addr → Addr
ok_value (ok a) = a
ok_value (err e) = []

unnamed_panics :
    (now : ℕ) (header : Header) (b : Msgchat) (rest : List ℕ) (s : Sorted)
    → header.command ≡ 3
    → addr_type header.dest ≡ addr_client
    → addr_address header.source ≡ err panicked
    → sort_message now (ok (record { header = header; body = chat b }), rest) s ≡ err panicked
unfolding sort_message sort_body
unnamed_panics now header b rest s c d e =
    let panics : new_chat_msg now header b ≡ err panicked =
      unfold new_chat_msg in rw (e, new_chat_msg) in
    let to_client : (addr_type header.dest == addr_client) ≡ true = rw d in
    rw (c, to_client, panics)

-- A logged chat message for a client whose source is a broadcast address makes saveMessagesToDb
-- panic, whatever follows it in the log.
pub broadcast_source_panics :
    (now domain device : ℕ) (name : List ℕ) (m : Message) (b : Msgchat)
    (bufs : List (Option (List ℕ))) (s : Sorted)
    → length name ≤ 26
    → new_addr addr_broadcast domain device name ≡ ok m.header.source
    → IsMessage m
    → m.body ≡ chat b
    → addr_type m.header.dest ≡ addr_client
    → sort_bufs now (some (message_bytes m) ∷ bufs) s ≡ err panicked
broadcast_source_panics now domain device name m b bufs s short made v is_chat to =
    let source : m.header.source ≡ layout addr_broadcast domain device name =
      ap ok_value (sym made ∙ new_addr-layout addr_broadcast domain device name short) in
    let panics : addr_address m.header.source ≡ err panicked =
      ap addr_address source ∙ layout-address addr_broadcast domain device name short in
    let reads : decode_message (message_bytes m) ≡ (ok m, []) =
      ap decode_message (sym (append-nil (message_bytes m))) ∙ message-Reads m v [] in
    let whole : Path Message m (record { header = m.header; body = chat b }) =
      ap (λ t. record { header = m.header; body = t }) is_chat in
    sort_bufs-panic now (message_bytes m) bufs s (
      ap (λ p. sort_message now p s) reads
      ∙ ap (λ p. sort_message now (ok p, []) s) whole
      ∙ unnamed_panics now m.header b [] s (v.command_ok ∙ ap command_of is_chat) to panics)
