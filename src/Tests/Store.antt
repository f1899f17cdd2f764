-- ===== src/Tests/Store.antt =====
-- The way of messages to the message store at concrete inputs.
use ws_cluster.Common.{
  ℕ, ◌≤◌, length, All, ◌≡◌, refl, List, [], ◌∷◌, ◌++◌, map, some, ok, M, for_each, replicate, arith,
}
use ws_cluster.Wire.Addr.{Addr, addr_client, addr_group, addr_address, addr_type}
use ws_cluster.Wire.Addr.Fields.{layout}
use ws_cluster.Wire.Body.{chat, Msgchat}
use ws_cluster.Wire.Message.{Message}
use ws_cluster.Wire.Message.RoundTrip.{IsMessage, message_bytes}
use ws_cluster.Filelog.File.{complete}
use ws_cluster.Filelog.Loops.{Loops, open_log}
use ws_cluster.Filelog.Loops.Events.{LogEvent, record_comes, ticks, reads, run_events}
use ws_cluster.Hub.Store.{ChatMsg, no_msgs, sort_bufs, save_messages_to_db}
use ws_cluster.Hub.Store.Sorting.{IsNamed, rows, joined, buffers, sort_bufs-rows}
use ws_cluster.Database.Store.{save_chat_msg, save_group_msg}
use ws_cluster.Hub.Store.Logged.{noting, note_chats, note_groups, Takes, logged_messages_handed}
use ws_cluster.Tests.Wire.{client, sys}
use ws_cluster.Tests.LogFile.{good}

abbrev pub sport : Addr
sport = layout 3 7 0 sys

abbrev talk : Msgchat
talk = record { type = 1; text = 104 ∷ 105 ∷ []; extra = [] }

-- A chat message.
abbrev pub from_to : Addr → Addr → Message
from_to source dest = record {
  header = record { source = source; dest = dest; seq = 1; ack_seq = 0; command = 3; status = 0 };
  body = chat talk;
}

abbrev to_client : Message
to_client = from_to client client

abbrev to_group : Message
to_group = from_to client sport

to_client-IsMessage : IsMessage to_client
to_client-IsMessage = record {
  header_ok = record {
    source_size = refl;
    dest_size = refl;
    seq_bound = omega arith;
    ack_seq_bound = omega arith;
  };
  body_ok = omega arith;
  command_ok = refl;
}

to_group-IsMessage : IsMessage to_group
to_group-IsMessage = record {
  header_ok = record {
    source_size = refl;
    dest_size = refl;
    seq_bound = omega arith;
    ack_seq_bound = omega arith;
  };
  body_ok = omega arith;
  command_ok = refl;
}

to_client-IsNamed : IsNamed to_client
unfolding addr_address
to_client-IsNamed = (refl, refl)

to_group-IsNamed : IsNamed to_group
unfolding addr_address
to_group-IsNamed = (refl, refl)

abbrev both : List Message
both = to_client ∷ to_group ∷ []

sort_bufs-rows_example :
    sort_bufs 5 (buffers both) no_msgs
    ≡ ok (joined no_msgs (rows 5 addr_client both) (rows 5 addr_group both))
sort_bufs-rows_example =
    sort_bufs-rows 5 both no_msgs (to_client-IsMessage, (to_group-IsMessage, tt))
      (to_client-IsNamed, (to_group-IsNamed, tt))

-- An engine that keeps the rows.
abbrev insert_rows : ℕ → List ChatMsg → M (List ChatMsg) (Unit {0})
insert_rows engine ms d = (ok tt, d ++ ms)

-- A text that the column takes.
abbrev IsShort : ChatMsg → Type 0
IsShort m = length m.text ≤ 1024

insert_rows-Takes : (engine : ℕ) → Takes IsShort (insert_rows engine)
insert_rows-Takes engine ms h d = (d ++ ms, refl)

chats-IsShort : All IsShort (rows 5 addr_client both)
unfolding addr_type addr_address
chats-IsShort = (omega arith, tt)

groups-IsShort : All IsShort (rows 5 addr_group both)
unfolding addr_type addr_address
groups-IsShort = (omega arith, tt)

abbrev talking : List LogEvent
talking =
    record_comes complete (message_bytes to_client)
    ∷ record_comes complete (message_bytes to_group)
    ∷ []

logged_messages_handed_example :
    let save_chat = noting (save_chat_msg insert_rows (some 1)) note_chats in
    let save_group = noting (save_group_msg insert_rows (some 1)) note_groups in
    (start s : Loops) × (d' : List ChatMsg) × (open_log [] ≡ some (ok start))
    × (run_events (talking ++ (ticks complete ∷ map reads (replicate 3 good))) start ≡ (ok tt, s))
    × (for_each s.given (save_messages_to_db save_chat save_group 5) ([], no_msgs)
        ≡ (ok tt, (d', joined no_msgs (rows 5 addr_client both) (rows 5 addr_group both))))
logged_messages_handed_example =
    logged_messages_handed insert_rows insert_rows IsShort insert_rows-Takes insert_rows-Takes
      (some 1) talking complete (replicate 3 good) both 5 []
      ((omega arith, omega arith), ((omega arith, omega arith), tt)) (refl, (refl, (refl, tt)))
      (omega arith) refl (to_client-IsMessage, (to_group-IsMessage, tt))
      (to_client-IsNamed, (to_group-IsNamed, tt)) chats-IsShort groups-IsShort

client_type : addr_type client ≡ addr_client
unfolding addr_type
client_type = refl
