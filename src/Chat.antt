-- ===== src/Chat.antt =====
-- chat/client.go: a client that logs in at a server and sends and counts messages. A parameter `sum`
-- stands for md5 and hex.
pub mod Login
pub mod Counting
use ws_cluster.Common.{
  ℕ, ◌+◌, ◌-◌, ◌%◌, ◌^◌, ◌*◌, Bool, true, false, List, [], ◌∷◌, ◌++◌, Option, none, some, Result,
  ok, err, ltb, ◌==◌, if◌then◌else◌,
}
use ws_cluster.Wire.Addr.{Addr, new_group_addr, new_addr, addr_client}
use ws_cluster.Wire.Addr.Text.{addr_string, decimal}
use ws_cluster.Wire.Body.{chat, group_in_out, Msgchat, MsgGroupInOut}
use ws_cluster.Wire.Message.{Header, Message, make_empty_header_message}
use ws_cluster.Hub.Http.Query.{addr_name, nonce_name, digest_name, notice_name, pair_text}

-- "addr=%v&nonce=%v&digest=%v&notice=1"
abbrev pub query_text : List ℕ → List ℕ → List ℕ → List ℕ
query_text text nonce digest =
    pair_text addr_name text
    ++ (b'&'
        ∷ (pair_text nonce_name nonce
            ++ (b'&'
                ∷ (pair_text digest_name digest ++ (b'&' ∷ pair_text notice_name (b'1' ∷ []))))))

-- newPeer: the query of the URL that it dials. `now` is the clock in nanoseconds.
unfoldable pub login_query : (List ℕ → List ℕ) → List ℕ → ℕ → Addr → Result (List ℕ)
unfolding addr_string decimal
login_query sum secret now addr = elim (addr_string addr) [
  | err e ↦ err e
  | ok text ↦
      let nonce = decimal now in ok (query_text text nonce (sum (text ++ (nonce ++ secret))))
]

-- What the goroutine of main does with the peers and the channel `quit`, oldest first.
pub data Effect : Type 0 where
  pushes : Message → Effect
  quits : Effect

-- The variables of main. A Go `int` is its 64-bit pattern.
pub record Counters : Type 0 where
  pub interval_msg_num : ℕ
  pub total_msg_num : ℕ
  pub total_peer_num : ℕ
  pub group_num : ℕ
  pub effects : List Effect

abbrev pub no_counts : Counters
no_counts = record {
  interval_msg_num = 0;
  total_msg_num = 0;
  total_peer_num = 0;
  group_num = 0;
  effects = [];
}

-- What comes on the four channels: a peer, of which its address is read, and which is nil where the
-- answer to the login comes before newPeer has set it; a peer that is gone; a message; a second.
pub data Arrival : Type 0 where
  connected : Option Addr → Arrival
  disconnected : Arrival
  received : Message → Arrival
  tick : Arrival

abbrev pub incr : ℕ → ℕ
incr n = (n + 1) % 2 ^ 64

abbrev pub decr : ℕ → ℕ
decr n = (n + (2 ^ 64 - 1)) % 2 ^ 64

-- ClientPeer.OnMessage and ClientPeer.OnDisconnect: what they send on the channels.
unfoldable pub on_message : Option Addr → Message → Arrival
on_message peer msg = if msg.header.command == 1 then connected peer else received msg

abbrev pub on_disconnect : Option Addr → Arrival
on_disconnect peer = disconnected

-- "test"
abbrev pub test_name : List ℕ
test_name = b't' ∷ b'e' ∷ b's' ∷ b't' ∷ []

-- The group that each client joins.
unfoldable pub test_group : Result Addr
unfolding new_group_addr
test_group = new_group_addr 1 test_name

-- The message that joins a group, from a peer.
unfoldable pub join_test : Addr → Addr → Message
unfolding make_empty_header_message
join_test group source =
    let msg =
      make_empty_header_message 5 (group_in_out (record { in_out = 1; groups = group ∷ [] })) in
    record msg { header = record msg.header { source = source } }

abbrev pub add_effect : Effect → Counters → Counters
add_effect e s = record s { effects = s.effects ++ (e ∷ []) }

-- One round of the loop of main's goroutine.
unfoldable pub count_arrival : Addr → Arrival → Counters → Counters
unfolding join_test
count_arrival group (connected peer) s =
    let s1 = record s { total_peer_num = incr s.total_peer_num } in
    elim peer [ none ↦ s1 | some addr ↦ add_effect (pushes (join_test group addr)) s1 ]
count_arrival group disconnected s =
    let s1 = record s { total_peer_num = decr s.total_peer_num } in
    if s1.total_peer_num == 0 then add_effect quits s1 else s1
count_arrival group (received msg) s =
    let s1 = record s { interval_msg_num = incr s.interval_msg_num } in
    if ltb 0 msg.header.ack_seq
    then record s1 { group_num = incr s1.group_num }
    else record s1 { total_msg_num = incr s1.total_msg_num }
count_arrival group tick s = record s { interval_msg_num = 0 }

unfoldable pub count_arrivals : Addr → List Arrival → Counters → Counters
unfolding count_arrival
count_arrivals group [] s = s
count_arrivals group (a ∷ arrivals) s = count_arrivals group arrivals (count_arrival group a s)

-- The message that sendtoclient pushes.
unfoldable pub hello_message : Addr → Addr → Message
unfolding make_empty_header_message
hello_message from to =
    let msg =
      make_empty_header_message 3
        (chat (record { type = 1; text = b'h' ∷ b'e' ∷ b'l' ∷ b'l' ∷ b'o' ∷ []; extra = [] })) in
    record msg { header = record msg.header { source = from; dest = to } }

-- The address of one of the clients that main starts: "client_" and its number.
unfoldable pub client_addr : ℕ → Result Addr
unfolding new_addr decimal
client_addr index =
    new_addr addr_client 0 1 (b'c' ∷ b'l' ∷ b'i' ∷ b'e' ∷ b'n' ∷ b't' ∷ b'_' ∷ decimal index)
