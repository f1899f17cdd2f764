-- ===== src/Wire/Body/Bounds.antt =====
-- A body that is decoded is well-formed, and of the type that the header names.
use ws_cluster.Common.{
  ℕ, zero, suc, ◌≤◌, ◌<◌, ◌^◌, ◌≡◌, refl, List, [], ◌∷◌, length, ignore, All, Ensures, ensures_next,
  ensures_pure, ensures_ignore, arith,
}
use ws_cluster.Wire.Io.{overlay, read, read_uint8, read_uint16, read_uint64, read_string}
use ws_cluster.Wire.Io.Bounds.{
  IsBytes, uint8-Ensures, uint16-Ensures, uint64-Ensures, string-Ensures, read-Ensures,
}
use ws_cluster.Wire.Addr.{Addr, IsAddr, empty_addr, decode_addr}
use ws_cluster.Wire.Body.{
  Body, chat, chat_resp, group_in_out, kill, login_ack, loc, offline, offline_notice, query_client,
  query_servers, empty, command_of, decode_addrs, decode_or_keep, decode_chat, decode_chat_resp,
  decode_group_in_out, decode_kill, decode_login_ack, decode_loc, decode_offline,
  decode_offline_notice, decode_query_client, decode_body,
}
use ws_cluster.Wire.Body.RoundTrip.{IsBody}

overlay-length :
    (src dst : List ℕ) → length src ≤ length dst → length (overlay src dst) ≡ length dst
overlay-length [] dst h = refl
overlay-length (s ∷ ss) [] h = absurd (omega arith)
overlay-length (s ∷ ss) (d ∷ ds) h = omega (arith, overlay-length ss ds (omega arith))

pub addr-Ensures : (old : Addr) → IsAddr old → Ensures IsBytes (decode_addr old) IsAddr
unfolding decode_addr
addr-Ensures old h =
    ensures_next (read 32) (λ bs. length bs ≤ 32) (read-Ensures 32)
      λ bs short. ensures_pure (omega (arith, overlay-length bs old (omega (arith, h)), h))

keep-Ensures : (old : Addr) → IsAddr old → Ensures IsBytes (decode_or_keep old) IsAddr
unfolding decode_or_keep
keep-Ensures old h = ensures_ignore old (decode_addr old) h (addr-Ensures old h)

addrs-Ensures :
    (n : ℕ) → Ensures IsBytes (decode_addrs n) (λ addrs. (length addrs ≡ n) × All IsAddr addrs)
unfolding decode_addrs
addrs-Ensures zero = ensures_pure (refl, tt)
addrs-Ensures (suc n) =
    ensures_next (decode_addr empty_addr) IsAddr (addr-Ensures empty_addr refl) λ addr h.
      ensures_next (decode_addrs n) (λ addrs. (length addrs ≡ n) × All IsAddr addrs)
        (addrs-Ensures n) λ addrs hs. ensures_pure (omega (arith, hs.0), (h, hs.1))

-- A body under its constructor.
abbrev IsBodyFor : Body → Body → Type 0
IsBodyFor old b = IsBody b × (command_of b ≡ command_of old)

-- What a receiver of MakeEmptyBody holds before Decode.
abbrev pub IsReceiver : Body → Type 0
IsReceiver (loc m) = IsBody (loc m)
IsReceiver (offline m) = IsAddr m.peer
IsReceiver (offline_notice m) = IsAddr m.peer
IsReceiver (query_client m) = IsAddr m.peer
IsReceiver b = Unit {0}

pub body-Ensures : (b : Body) → IsReceiver b → Ensures IsBytes (decode_body b) (IsBodyFor b)
unfolding decode_body decode_chat decode_chat_resp decode_group_in_out decode_kill decode_login_ack
    decode_loc decode_offline decode_offline_notice decode_query_client
body-Ensures (chat m) r =
    ensures_next decode_chat (λ x. IsBody (chat x))
      (ensures_next read_uint8 _ uint8-Ensures λ type ht.
        ensures_next read_string _ string-Ensures
          λ text hx. ensures_next read_string _ string-Ensures λ extra he. ensures_pure (hx, he))
      λ x h. ensures_pure (h, refl)
body-Ensures (chat_resp m) r =
    ensures_next decode_chat_resp (λ x. IsBody (chat_resp x))
      (ensures_next read_uint8 _ uint8-Ensures
        λ state hs. ensures_next read_string _ string-Ensures λ error he. ensures_pure he)
      λ x h. ensures_pure (h, refl)
body-Ensures (group_in_out m) r =
    ensures_next decode_group_in_out (λ x. IsBody (group_in_out x))
      (ensures_next read_uint8 _ uint8-Ensures λ in_out hi.
        ensures_next (ignore 0 read_uint8) (λ v. v < 2 ^ 8)
          (ensures_ignore 0 read_uint8 (omega arith) uint8-Ensures)
          λ num hn.
            ensures_next (decode_addrs num) _ (addrs-Ensures num)
              λ groups hg. ensures_pure (omega (arith, hg.0), hg.1))
      λ x h. ensures_pure (h, refl)
body-Ensures (kill m) r =
    ensures_next decode_kill (λ x. IsBody (kill x))
      (ensures_next read_uint64 _ uint64-Ensures λ at h. ensures_pure h)
      λ x h. ensures_pure (h, refl)
body-Ensures (login_ack m) r =
    ensures_next decode_login_ack (λ x. IsBody (login_ack x))
      (ensures_next read_string _ string-Ensures
        λ remote hr. ensures_next read_uint64 _ uint64-Ensures λ at ha. ensures_pure (hr, ha))
      λ x h. ensures_pure (h, refl)
body-Ensures (loc m) r =
    ensures_next (decode_loc m) (λ x. IsBody (loc x))
      (ensures_next (decode_or_keep m.target) _ (keep-Ensures m.target r.0) λ target ht.
        ensures_next (decode_or_keep m.peer) _ (keep-Ensures m.peer r.1) λ peer hp.
          ensures_next (decode_or_keep m.server) _ (keep-Ensures m.server r.2)
            λ server hs. ensures_pure (ht, hp, hs))
      λ x h. ensures_pure (h, refl)
body-Ensures (offline m) r =
    ensures_next (decode_offline m) (λ x. IsBody (offline x))
      (ensures_next (decode_or_keep m.peer) _ (keep-Ensures m.peer r) λ peer hp.
        ensures_next read_uint8 _ uint8-Ensures λ notice hn.
          ensures_next read_uint16 _ uint16-Ensures λ num hm.
            ensures_next (decode_addrs num) _ (addrs-Ensures num)
              λ targets hg. ensures_pure (hp, omega (arith, hg.0), hg.1))
      λ x h. ensures_pure (h, refl)
body-Ensures (offline_notice m) r =
    ensures_next (decode_offline_notice m) (λ x. IsBody (offline_notice x))
      (ensures_next (decode_or_keep m.peer) _ (keep-Ensures m.peer r) λ peer hp. ensures_pure hp)
      λ x h. ensures_pure (h, refl)
body-Ensures (query_client m) r =
    ensures_next (decode_query_client m) (λ x. IsBody (query_client x))
      (ensures_next (decode_or_keep m.peer) _ (keep-Ensures m.peer r) λ peer hp. ensures_pure hp)
      λ x h. ensures_pure (h, refl)
body-Ensures query_servers r = ensures_pure (tt, refl)
body-Ensures empty r = ensures_pure (tt, refl)
