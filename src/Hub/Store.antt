-- ===== src/Hub/Store.antt =====
-- hub/hub.go: saveMessagesToDb, the SubFunc of the message log. The message store of the package
-- database is a parameter. `now` is the clock, which the code reads for each message.
pub mod Sorting
pub mod Cutting
pub mod Logged
use ws_cluster.Common.{
  ℕ, ◌+◌, Bool, true, false, List, [], ◌∷◌, ◌++◌, length, Option, none, some, Result, ok, err,
  panicked, M, ◌>>=◌, ◌>>◌, pure, lift, ltb, ◌==◌, if◌then◌else◌,
}
use ws_cluster.Wire.Addr.{addr_type, addr_domain, addr_address, addr_client, addr_group}
use ws_cluster.Wire.Body.{Body, Msgchat, chat}
use ws_cluster.Wire.Message.{Header, Message, decode_message}

-- ChatMsg, and GroupMsg, which has the same fields; the database gives the ID.
pub record ChatMsg : Type 0 where
  pub from_domain : ℕ
  pub to_domain : ℕ
  pub from : List ℕ
  pub to : List ℕ
  pub type : ℕ
  pub text : List ℕ
  pub extra : List ℕ
  pub create_at : ℕ

-- The two slices that the loop fills.
pub record Sorted : Type 0 where
  pub chatmsgs : List ChatMsg
  pub groupmsgs : List ChatMsg

abbrev pub no_msgs : Sorted
no_msgs = record { chatmsgs = []; groupmsgs = [] }

abbrev pub chat_msg : ℕ → Header → Msgchat → List ℕ → List ℕ → ChatMsg
chat_msg now header body from to = record {
  from_domain = addr_domain header.source;
  to_domain = addr_domain header.dest;
  from = from;
  to = to;
  type = body.type;
  text = body.text;
  extra = body.extra;
  create_at = now;
}

-- The names are read first from the source, then from the destination, and either may panic.
unfoldable pub new_chat_msg : ℕ → Header → Msgchat → Result ChatMsg
new_chat_msg now header body = elim (addr_address header.source) [
  | err e ↦ err e
  | ok from ↦ elim (addr_address header.dest) [
    | err e ↦ err e
    | ok to ↦ ok (chat_msg now header body from to)
  ]
]

abbrev pub add_chat : Sorted → Result ChatMsg → Result Sorted
add_chat s (err e) = err e
add_chat s (ok m) = ok (record s { chatmsgs = s.chatmsgs ++ (m ∷ []) })

abbrev pub add_group : Sorted → Result ChatMsg → Result Sorted
add_group s (err e) = err e
add_group s (ok m) = ok (record s { groupmsgs = s.groupmsgs ++ (m ∷ []) })

-- A message that is no chat message, or is neither for a client nor for a group, is left out.
unfoldable pub sort_body : ℕ → Header → Body → Sorted → Result Sorted
unfolding new_chat_msg
sort_body now header (chat body) s =
    if addr_type header.dest == addr_client
    then add_chat s (new_chat_msg now header body)
    else if addr_type header.dest == addr_group
    then add_group s (new_chat_msg now header body)
    else ok s
sort_body now header _ s = err panicked

unfoldable pub sort_message : ℕ → Result Message × List ℕ → Sorted → Result Sorted
unfolding sort_body
sort_message now (err e, rest) s = ok s
sort_message now (ok packet, rest) s =
    if packet.header.command == 3 then sort_body now packet.header packet.body s else ok s

-- The loop over the records; one that is nil panics.
unfoldable pub sort_bufs : ℕ → List (Option (List ℕ)) → Sorted → Result Sorted
unfolding sort_message
sort_bufs now [] s = ok s
sort_bufs now (none ∷ bufs) s = err panicked
sort_bufs now (some buf ∷ bufs) s = elim (sort_message now (decode_message buf) s) [
  | err e ↦ err e
  | ok s' ↦ sort_bufs now bufs s'
]

module _ {D : Type 0} (save_chat_msg : List ChatMsg → M D (Unit {0}))
    (save_group_msg : List ChatMsg → M D (Unit {0})) where
  unfoldable pub save_messages_to_db : ℕ → List (Option (List ℕ)) → M D (Unit {0})
  save_messages_to_db now bufs = do
    msgs ← lift (sort_bufs now bufs no_msgs)
    (if ltb 0 (length msgs.chatmsgs) then save_chat_msg msgs.chatmsgs else pure tt)
    (if ltb 0 (length msgs.groupmsgs) then save_group_msg msgs.groupmsgs else pure tt)
