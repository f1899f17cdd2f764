-- ===== src/Wire/Body/Takes.antt =====
-- Decoding a body never gives bytes back to the input.
use ws_cluster.Common.{
  ℕ, zero, suc, ◌+◌, ◌-◌, ◌≤◌, ◌≡◌, List, [], ◌∷◌, length, ok, M, ◌>>=◌, pure, ignore, length-drop,
  arith, ap,
}
use ws_cluster.Wire.Io.{read_uint8, read_uint16, read_string, read_uint64}
use ws_cluster.Wire.Io.Takes
use ws_cluster.Wire.Io.Takes.{Takes, >>=-Takes, pure-Takes, ignore-Takes, weaken}
use ws_cluster.Wire.Addr.{Addr, empty_addr, decode_addr}
use ws_cluster.Wire.Body.{
  Body, chat, chat_resp, group_in_out, kill, login_ack, loc, offline, offline_notice, query_client,
  query_servers, empty, MsgOffline, MsgLoc, decode_addrs, decode_or_keep, decode_chat,
  decode_chat_resp, decode_group_in_out, decode_kill, decode_login_ack, decode_loc, decode_offline,
  decode_offline_notice, decode_query_client, decode_body,
}

addr-kept : (old : Addr) (r : List ℕ) → length (decode_addr old r).1 ≤ length r
unfolding decode_addr
addr-kept old [] = omega arith
addr-kept old (b ∷ r) = omega (arith, length-drop 31 r)

-- An address that is read takes 32 bytes, or all that are left, of an input that is not empty.
pub addr-exact :
    (old : Addr) (r rest : List ℕ) (addr : Addr)
    → decode_addr old r ≡ (ok addr, rest)
    → (1 ≤ length r) × (length rest ≡ length r - 32)
unfolding decode_addr
addr-exact old [] rest addr e = cc
addr-exact old (b ∷ r) rest addr e =
    (omega arith, omega (arith, length-drop 31 r, ap (λ p. length p.1) e))

addr-Takes : (old : Addr) → Takes 1 (decode_addr old)
addr-Takes old = record {
  kept = addr-kept old;
  taken = λ r rest addr e. omega (arith, addr-exact old r rest addr e);
}

addrs-Takes : (num : ℕ) → Takes 0 (decode_addrs num)
unfolding decode_addrs
addrs-Takes zero = pure-Takes []
addrs-Takes (suc num) = weaken 1 _ (
    >>=-Takes 1 0 (decode_addr empty_addr) _ (addr-Takes empty_addr) (λ addr.
      >>=-Takes 0 0 (decode_addrs num) _ (addrs-Takes num) (λ addrs. pure-Takes (addr ∷ addrs))))

keep-Takes : (old : Addr) → Takes 0 (decode_or_keep old)
unfolding decode_or_keep
keep-Takes old = ignore-Takes 1 old (decode_addr old) (addr-Takes old)

chat-Takes : Takes 9 decode_chat
unfolding decode_chat
chat-Takes = >>=-Takes 1 8 read_uint8 _ Takes.read_uint8-Takes (λ type.
    >>=-Takes 4 4 read_string _ Takes.read_string-Takes
      (λ text. >>=-Takes 4 0 read_string _ Takes.read_string-Takes (λ extra. pure-Takes _)))

chat_resp-Takes : Takes 5 decode_chat_resp
unfolding decode_chat_resp
chat_resp-Takes =
    >>=-Takes 1 4 read_uint8 _ Takes.read_uint8-Takes
      (λ state. >>=-Takes 4 0 read_string _ Takes.read_string-Takes (λ error. pure-Takes _))

group_in_out-Takes : Takes 1 decode_group_in_out
unfolding decode_group_in_out
group_in_out-Takes = >>=-Takes 1 0 read_uint8 _ Takes.read_uint8-Takes (λ in_out.
    >>=-Takes 0 0 (ignore 0 read_uint8) _ (ignore-Takes 1 0 read_uint8 Takes.read_uint8-Takes)
      (λ num. >>=-Takes 0 0 (decode_addrs num) _ (addrs-Takes num) (λ groups. pure-Takes _)))

kill-Takes : Takes 8 decode_kill
unfolding decode_kill
kill-Takes = >>=-Takes 8 0 read_uint64 _ Takes.read_uint64-Takes (λ login_at. pure-Takes _)

login_ack-Takes : Takes 12 decode_login_ack
unfolding decode_login_ack
login_ack-Takes =
    >>=-Takes 4 8 read_string _ Takes.read_string-Takes (λ remote_addr.
      >>=-Takes 8 0 read_uint64 _ Takes.read_uint64-Takes (λ login_at. pure-Takes _))

loc-Takes : (m : MsgLoc) → Takes 0 (decode_loc m)
unfolding decode_loc
loc-Takes m = >>=-Takes 0 0 (decode_or_keep m.target) _ (keep-Takes m.target) (λ target.
    >>=-Takes 0 0 (decode_or_keep m.peer) _ (keep-Takes m.peer) (λ peer.
      >>=-Takes 0 0 (decode_or_keep m.server) _ (keep-Takes m.server) (λ server. pure-Takes _)))

offline-Takes : (m : MsgOffline) → Takes 3 (decode_offline m)
unfolding decode_offline
offline-Takes m = >>=-Takes 0 3 (decode_or_keep m.peer) _ (keep-Takes m.peer) (λ peer.
    >>=-Takes 1 2 read_uint8 _ Takes.read_uint8-Takes (λ notice.
      >>=-Takes 2 0 read_uint16 _ Takes.read_uint16-Takes
        (λ num. >>=-Takes 0 0 (decode_addrs num) _ (addrs-Takes num) (λ targets. pure-Takes _))))

-- A decoder under a constructor of `Body`.
tagged-Takes :
    {A : Type 0} (n : ℕ) (d : M (List ℕ) A) (tag : A → Body)
    → Takes n d
    → Takes 0 (do m ← d; pure (tag m))
tagged-Takes n d tag h = weaken (n + 0) _ (>>=-Takes n 0 d _ h (λ m. pure-Takes (tag m)))

pub body-Takes : (b : Body) → Takes 0 (decode_body b)
unfolding decode_body decode_offline_notice decode_query_client
body-Takes (chat m) = tagged-Takes 9 decode_chat chat chat-Takes
body-Takes (chat_resp m) = tagged-Takes 5 decode_chat_resp chat_resp chat_resp-Takes
body-Takes (group_in_out m) = tagged-Takes 1 decode_group_in_out group_in_out group_in_out-Takes
body-Takes (kill m) = tagged-Takes 8 decode_kill kill kill-Takes
body-Takes (login_ack m) = tagged-Takes 12 decode_login_ack login_ack login_ack-Takes
body-Takes (loc m) = tagged-Takes 0 (decode_loc m) loc (loc-Takes m)
body-Takes (offline m) = tagged-Takes 3 (decode_offline m) offline (offline-Takes m)
body-Takes (offline_notice m) =
    tagged-Takes 0 (decode_offline_notice m) offline_notice
      (>>=-Takes 0 0 (decode_or_keep m.peer) _ (keep-Takes m.peer) (λ peer. pure-Takes _))
body-Takes (query_client m) =
    tagged-Takes 0 (decode_query_client m) query_client
      (>>=-Takes 0 0 (decode_or_keep m.peer) _ (keep-Takes m.peer) (λ peer. pure-Takes _))
body-Takes query_servers = pure-Takes query_servers
body-Takes empty = pure-Takes empty
