-- ===== src/Wire/Body/RoundTrip.antt =====
-- Each body is read back from the bytes that it is written as.
use ws_cluster.Common.{
  ℕ, zero, suc, ◌+◌, ◌%◌, ◌^◌, ◌<◌, ◌≡◌, refl, ap, List, [], ◌∷◌, ◌++◌, length, All, M, lift, ◌∙◌,
  take_all, drop_all, ◌≤◌, ◌>>=◌, ◌>>◌, pure, ignore, ok, append_assoc, append-nil, arith, take,
  drop, take-append, drop-append, length-append,
}
use ws_cluster.Wire.Io.{buffer, le_bytes, overlay}
use ws_cluster.Wire.Io.Laws
use ws_cluster.Wire.Io.Laws.{Emits, Reads, Emits->>, Reads->>=, counted}
use ws_cluster.Wire.Addr.{Addr, IsAddr, empty_addr, encode_addr, decode_addr}
use ws_cluster.Wire.Body.{
  command_of, make_empty_body, decode_chat_resp, decode_group_in_out, decode_kill, decode_login_ack,
  decode_loc, decode_offline, decode_offline_notice, decode_query_client, encode_chat_resp,
  encode_group_in_out, encode_kill, encode_login_ack, encode_loc, encode_offline,
  encode_offline_notice, encode_query_client, Body, chat, chat_resp, group_in_out, kill, login_ack,
  loc, offline, offline_notice, query_client, query_servers, empty, encode_body, decode_body,
  encode_addrs, decode_addrs, decode_or_keep, encode_chat, decode_chat,
}

overlay_whole : (n : ℕ) (bs old : List ℕ) → length bs ≡ n → length old ≡ n → overlay bs old ≡ bs
overlay_whole n [] [] h k = refl
overlay_whole n [] (d ∷ old) h k = absurd (omega arith)
overlay_whole n (b ∷ bs) [] h k = absurd (omega arith)
overlay_whole zero (b ∷ bs) (d ∷ old) h k = absurd (omega arith)
overlay_whole (suc n) (b ∷ bs) (d ∷ old) h k =
    ap (◌∷◌ b) (overlay_whole n bs old (omega arith) (omega arith))

pub addr-Reads : (addr old : Addr) → IsAddr addr → IsAddr old → Reads (decode_addr old) addr addr
unfolding decode_addr
addr-Reads [] old h k rest = absurd (omega arith)
addr-Reads (b ∷ bs) old h k rest =
    ground (arith, overlay_whole 32 (b ∷ bs) old, take-append 31 bs rest, drop-append 31 bs rest)

pub addr-Emits : (addr : Addr) → Emits (encode_addr addr) addr
unfolding encode_addr
addr-Emits addr w = refl

abbrev pub concat : List (List ℕ) → List ℕ
concat [] = []
concat (x ∷ xs) = x ++ concat xs

pub addrs-Emits : (addrs : List Addr) → Emits (encode_addrs addrs) (concat addrs)
unfolding encode_addrs
addrs-Emits [] w = rw append-nil
addrs-Emits (addr ∷ addrs) w = simp (addr-Emits, addrs-Emits addrs, append_assoc)

-- Decoding `num` addresses from the bytes of at least as many takes the first `num`, and leaves the
-- bytes of the others.
pub decode_addrs-take :
    (num : ℕ) (addrs : List Addr) (rest : List ℕ)
    → All IsAddr addrs
    → num ≤ length addrs
    → decode_addrs num (concat addrs ++ rest)
      ≡ (ok (take num addrs), concat (drop num addrs) ++ rest)
unfolding decode_addrs
decode_addrs-take zero addrs rest h k = refl
decode_addrs-take (suc num) [] rest h k = absurd (omega arith)
decode_addrs-take (suc num) (addr ∷ addrs) rest h k = simp (
  append_assoc,
  addr-Reads addr empty_addr h.0 refl,
  decode_addrs-take num addrs rest h.1 (omega arith),
)

pub addrs-Reads :
    (num : ℕ) (addrs : List Addr)
    → All IsAddr addrs
    → num ≡ length addrs
    → Reads (decode_addrs num) (concat addrs) addrs
addrs-Reads num addrs h e rest =
    decode_addrs-take num addrs rest h (omega arith)
    ∙ rw (take_all num addrs (omega arith), drop_all num addrs (omega arith))

-- The bytes of a body.
abbrev pub body_bytes : Body → List ℕ
body_bytes (chat m) = m.type ∷ (counted m.text ++ counted m.extra)
body_bytes (chat_resp m) = m.state ∷ counted m.error
body_bytes (group_in_out m) = m.in_out ∷ ((length m.groups % 2 ^ 8) ∷ concat m.groups)
body_bytes (kill m) = le_bytes 8 m.login_at
body_bytes (login_ack m) = counted m.remote_addr ++ le_bytes 8 m.login_at
body_bytes (loc m) = m.target ++ (m.peer ++ m.server)
body_bytes (offline m) =
    m.peer ++ (m.notice ∷ (le_bytes 2 (length m.targets % 2 ^ 16) ++ concat m.targets))
body_bytes (offline_notice m) = m.peer
body_bytes (query_client m) = m.peer
body_bytes query_servers = []
body_bytes empty = []

-- The lengths and numbers of a body fit the fields that they are written to.
abbrev pub IsBody : Body → Type 0
IsBody (chat m) = (length m.text < 2 ^ 32) × (length m.extra < 2 ^ 32)
IsBody (chat_resp m) = length m.error < 2 ^ 32
IsBody (group_in_out m) = (length m.groups < 2 ^ 8) × All IsAddr m.groups
IsBody (kill m) = m.login_at < 2 ^ 64
IsBody (login_ack m) = (length m.remote_addr < 2 ^ 32) × (m.login_at < 2 ^ 64)
IsBody (loc m) = IsAddr m.target × IsAddr m.peer × IsAddr m.server
IsBody (offline m) = IsAddr m.peer × (length m.targets < 2 ^ 16) × All IsAddr m.targets
IsBody (offline_notice m) = IsAddr m.peer
IsBody (query_client m) = IsAddr m.peer
IsBody query_servers = Unit {0}
IsBody empty = Unit {0}

pub ruleset emits = (
  Laws.uint8-Emits, Laws.uint16-Emits, Laws.uint64-Emits, Laws.string-Emits, addr-Emits,
  addrs-Emits, append_assoc, append-nil,
)

pub body-Emits : (b : Body) → Emits (encode_body b) (body_bytes b)
unfolding encode_body encode_chat encode_chat_resp encode_group_in_out encode_kill encode_login_ack
    encode_loc encode_offline encode_offline_notice encode_query_client
body-Emits (chat m) w = simp emits
body-Emits (chat_resp m) w = simp emits
body-Emits (group_in_out m) w = simp emits
body-Emits (kill m) w = simp emits
body-Emits (login_ack m) w = simp emits
body-Emits (loc m) w = simp emits
body-Emits (offline m) w = simp emits
body-Emits (offline_notice m) w = simp emits
body-Emits (query_client m) w = simp emits
body-Emits query_servers w = simp emits
body-Emits empty w = simp emits

-- A fresh body of the type that a command names, filled from the input.
abbrev pub read_body : ℕ → M (List ℕ) Body
read_body command = do old ← lift (make_empty_body command); decode_body old

keep-Reads : (addr old : Addr) → IsAddr addr → IsAddr old → Reads (decode_or_keep old) addr addr
unfolding decode_or_keep
keep-Reads addr old h k rest = rw (addr-Reads addr old h k rest)

pub body-Reads : (b : Body) → IsBody b → Reads (read_body (command_of b)) (body_bytes b) b
unfolding decode_body make_empty_body decode_chat decode_chat_resp decode_group_in_out decode_kill
    decode_login_ack decode_loc decode_offline decode_offline_notice decode_query_client
body-Reads (chat m) (ht, he) rest =
    simp (append_assoc, Laws.uint8-Reads, Laws.string-Reads m.text ht, Laws.string-Reads m.extra he)
body-Reads (chat_resp m) h rest = simp (Laws.uint8-Reads, Laws.string-Reads m.error h)
body-Reads (group_in_out m) (hn, hg) rest =
    simp (Laws.uint8-Reads, addrs-Reads (length m.groups % 2 ^ 8) m.groups hg (omega arith))
body-Reads (kill m) h rest = simp (Laws.uint64-Reads m.login_at h)
body-Reads (login_ack m) (hr, hl) rest =
    simp (append_assoc, Laws.string-Reads m.remote_addr hr, Laws.uint64-Reads m.login_at hl)
body-Reads (loc m) (ht, hp, hs) rest = simp (
  append_assoc,
  keep-Reads m.target empty_addr ht refl,
  keep-Reads m.peer empty_addr hp refl,
  keep-Reads m.server empty_addr hs refl,
)
body-Reads (offline m) (hp, hn, ht) rest = simp (
  append_assoc,
  Laws.uint8-Reads,
  keep-Reads m.peer empty_addr hp refl,
  Laws.uint16-Reads (length m.targets % 2 ^ 16) (omega arith),
  addrs-Reads (length m.targets % 2 ^ 16) m.targets ht (omega arith),
)
body-Reads (offline_notice m) h rest = simp (keep-Reads m.peer empty_addr h refl)
body-Reads (query_client m) h rest = simp (keep-Reads m.peer empty_addr h refl)
body-Reads query_servers h rest = refl
body-Reads empty h rest = refl
