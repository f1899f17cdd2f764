-- ===== src/Peer/Outbound/Delivery.antt =====
-- What one peer writes, the peer at the other end of the connection receives.
use ws_cluster.Common.{
  ℕ, zero, suc, ◌+◌, ◌%◌, ◌^◌, ◌<◌, ◌≡◌, refl, sym, ◌∙◌, ap, true, Bool-cases, inl, inr, List, [],
  ◌∷◌, ◌++◌, length-append, append_assoc, append-nil, length, map, some, ok, All, for_each, ◌==◌,
  if◌then◌else◌, arith, ltb, Option,
}
use ws_cluster.Wire.Addr.{Addr, addr_type, addr_client}
use ws_cluster.Wire.Body.RoundTrip.{body_bytes}
use ws_cluster.Wire.Message.{Message}
use ws_cluster.Wire.Message.RoundTrip.{IsMessage, message_bytes, header_bytes, message-Emits}
use ws_cluster.Peer.Inbound.{frame_messages, set_source, frame_messages-frame_bytes}
use ws_cluster.Peer.Outbound.{
  Sender, Socket, with_seq, next_seq, write_frame, write_message, read_frame, read_frames,
  join_messages,
}

-- The messages as they are numbered, when the last number given was `n`.
abbrev pub numbered : ℕ → List Message → List Message
numbered n [] = []
numbered n (m ∷ ms) =
    let next = (n + 1) % 2 ^ 32 in
    let new = with_seq next m ∷ numbered next ms in
    let old = m ∷ numbered n ms in if m.header.seq == 0 then new else old

-- The last number given after them.
abbrev pub last_number : ℕ → List Message → ℕ
last_number n [] = n
last_number n (m ∷ ms) =
    let new = last_number ((n + 1) % 2 ^ 32) ms in
    let old = last_number n ms in if m.header.seq == 0 then new else old

abbrev pub sound : Socket
sound = record { opens = true; closes = true }

write_message-sound :
    (m : Message) (p : Sender)
    → write_message sound m p ≡ (
        let (m', p') = next_seq m p in
        (ok tt, record p' { frames = p'.frames ++ (message_bytes m' ∷ []) }))
unfolding write_message write_frame
write_message-sound m p = rw (message-Emits (next_seq m p).0 [])

writes_next :
    (m : Message) (ms : List Message) (n : ℕ) (frames : List (List ℕ))
    → ((k : ℕ) (f : List (List ℕ))
        → for_each ms (write_message sound) (record { auto_seq = k; frames = f }) ≡ (
          ok tt,
          record { auto_seq = last_number k ms; frames = f ++ map message_bytes (numbered k ms) },
        ))
    → for_each (m ∷ ms) (write_message sound) (record { auto_seq = n; frames = frames }) ≡ (
      ok tt,
      record {
        auto_seq = last_number n (m ∷ ms);
        frames = frames ++ map message_bytes (numbered n (m ∷ ms));
      },
    )
unfolding next_seq
writes_next m ms n frames later =
    let p : Sender = record { auto_seq = n; frames = frames } in
    let next = (n + 1) % 2 ^ 32 in
    rw (write_message-sound m p) (elim (Bool-cases (m.header.seq == 0)) [
      | inl e ↦ rw e (
          later next (frames ++ (message_bytes (with_seq next m) ∷ []))
          ∙ ap (λ f. (ok tt, record { auto_seq = last_number next ms; frames = f }))
              (append_assoc frames (message_bytes (with_seq next m) ∷ [])
                (map message_bytes (numbered next ms))))
      | inr e ↦ rw e (
          later n (frames ++ (message_bytes m ∷ []))
          ∙ ap (λ f. (ok tt, record { auto_seq = last_number n ms; frames = f }))
              (append_assoc frames (message_bytes m ∷ []) (map message_bytes (numbered n ms))))
    ])

writes :
    (ms : List Message) (n : ℕ) (frames : List (List ℕ))
    → for_each ms (write_message sound) (record { auto_seq = n; frames = frames }) ≡ (
      ok tt,
      record { auto_seq = last_number n ms; frames = frames ++ map message_bytes (numbered n ms) },
    )
writes [] n frames = rw (append-nil frames)
writes (m ∷ ms) n frames = writes_next m ms n frames (writes ms)

pub with_seq-IsMessage : (n : ℕ) (m : Message) → n < 2 ^ 32 → IsMessage m → IsMessage (with_seq n m)
with_seq-IsMessage n m h v = record {
  header_ok = record {
    source_size = v.header_ok.source_size;
    dest_size = v.header_ok.dest_size;
    seq_bound = h;
    ack_seq_bound = v.header_ok.ack_seq_bound;
  };
  body_ok = v.body_ok;
  command_ok = v.command_ok;
}

numbered-IsMessage : (n : ℕ) (ms : List Message) → All IsMessage ms → All IsMessage (numbered n ms)
numbered-IsMessage n [] h = tt
numbered-IsMessage n (m ∷ ms) h = elim (Bool-cases (m.header.seq == 0)) [
  | inl e ↦ rw e (
    with_seq-IsMessage ((n + 1) % 2 ^ 32) m (omega arith) h.0,
    numbered-IsMessage ((n + 1) % 2 ^ 32) ms h.1,
  )
  | inr e ↦ rw e (h.0, numbered-IsMessage n ms h.1)
]

frame_messages-message :
    (addr : Addr) (m : Message)
    → IsMessage m
    → frame_messages addr (message_bytes m) ≡ some (set_source addr m ∷ [])
frame_messages-message addr m v =
    let whole : (message_bytes m ++ []) ++ [] ≡ message_bytes m =
      append-nil (message_bytes m ++ []) ∙ append-nil (message_bytes m) in
    ap (frame_messages addr) (sym whole)
    ∙ frame_messages-frame_bytes addr (m ∷ []) [] (v, tt) (omega arith)

message_bytes-some : (m : Message) → IsMessage m → 0 < length (message_bytes m)
message_bytes-some m v = omega (
  arith,
  v.header_ok.source_size,
  length-append (header_bytes m.header) (body_bytes m.body),
  length-append m.header.source _,
)

-- The messages before the first whose frame is longer than the limit.
abbrev pub fitting : ℕ → List Message → List Message
fitting limit [] = []
fitting limit (m ∷ ms) =
    let later = m ∷ fitting limit ms in if ltb limit (length (message_bytes m)) then [] else later

read_frame-some :
    (addr : Addr) (frame : List ℕ) (later : Option (List Message))
    → 0 < length frame
    → read_frame addr frame later ≡ join_messages (frame_messages addr frame) later
unfolding read_frame
read_frame-some addr [] later h = absurd (omega (arith, h))
read_frame-some addr (b ∷ bs) later h = refl

read_frame-message :
    (addr : Addr) (m : Message) (ms : List Message)
    → IsMessage m
    → read_frame addr (message_bytes m) (some ms) ≡ some (set_source addr m ∷ ms)
read_frame-message addr m ms v =
    read_frame-some addr (message_bytes m) (some ms) (message_bytes-some m v)
    ∙ rw (frame_messages-message addr m v) refl

reads :
    (limit : ℕ) (addr : Addr) (ms : List Message)
    → All IsMessage ms
    → read_frames limit addr (map message_bytes ms)
      ≡ some (map (set_source addr) (fitting limit ms))
unfolding read_frames
reads limit addr [] h = refl
reads limit addr (m ∷ ms) h = elim (Bool-cases (ltb limit (length (message_bytes m)))) [
  | inl e ↦ rw e refl
  | inr e ↦ rw e (rw (reads limit addr ms h.1) (read_frame-message addr m _ h.0))
]

-- Well-formed messages are written to a websocket that takes them, each in a frame of its own. At the
-- other end a goroutine that calls OnMessage is started for each of them, in their order, up to the
-- first whose frame is longer than the reader's limit, where the reading ends: as they were written,
-- with the number that the writer gave to those that had none and the source that the reader sets.
pub write_messages-read_frames :
    (limit : ℕ) (addr : Addr) (ms : List Message) (n : ℕ)
    → All IsMessage ms
    → (p : Sender) × (for_each ms (write_message sound) (record { auto_seq = n; frames = [] })
        ≡ (ok tt, p))
      × (p.auto_seq ≡ last_number n ms)
      × (read_frames limit addr p.frames
          ≡ some (map (set_source addr) (fitting limit (numbered n ms))))
write_messages-read_frames limit addr ms n h = (
  record { auto_seq = last_number n ms; frames = map message_bytes (numbered n ms) },
  writes ms n [],
  refl,
  reads limit addr (numbered n ms) (numbered-IsMessage n ms h),
)

abbrev pub seq_of : Message → ℕ
seq_of m = m.header.seq

-- The numbers after `n`.
abbrev pub count_up : ℕ → ℕ → List ℕ
count_up n zero = []
count_up n (suc k) = (n + 1) ∷ count_up (n + 1) k

set_source-seq : (addr : Addr) (m : Message) → seq_of (set_source addr m) ≡ seq_of m
unfolding set_source
set_source-seq addr m = elim (Bool-cases (addr_type addr == addr_client)) [
  | inl e ↦ rw e
  | inr e ↦ rw e
]

received_numbers :
    (addr : Addr) (ms : List Message) (n : ℕ)
    → All (λ m. seq_of m ≡ 0) ms
    → n + length ms < 2 ^ 32
    → map seq_of (map (set_source addr) (numbered n ms)) ≡ count_up n (length ms)
received_numbers addr [] n h less = refl
received_numbers addr (m ∷ ms) n h less =
    let none_yet : (m.header.seq == 0) ≡ true = ground (arith, h.0) in
    let small : (n + 1) % 2 ^ 32 ≡ n + 1 = omega arith in
    rw none_yet (
      rw (
        set_source-seq addr (with_seq ((n + 1) % 2 ^ 32) m),
        small,
        received_numbers addr ms (n + 1) h.1 (omega arith),
      ))

-- Messages without a number, none longer than the reader's limit, are received with consecutive ones,
-- from the number after the last that the writer gave, as long as they stay below 2 ^ 32.
pub write_messages-count_up :
    (limit : ℕ) (addr : Addr) (ms : List Message) (n : ℕ)
    → All IsMessage ms
    → All (λ m. seq_of m ≡ 0) ms
    → n + length ms < 2 ^ 32
    → fitting limit (numbered n ms) ≡ numbered n ms
    → (p : Sender) × (received : List Message) × (for_each ms
          (write_message sound)
          (record { auto_seq = n; frames = [] })
        ≡ (ok tt, p))
      × (read_frames limit addr p.frames ≡ some received)
      × (map seq_of received ≡ count_up n (length ms))
write_messages-count_up limit addr ms n h unnumbered less fits =
    let (p, e, _, received) = write_messages-read_frames limit addr ms n h in
    (
      p,
      map (set_source addr) (numbered n ms),
      e,
      received ∙ rw fits refl,
      received_numbers addr ms n unnumbered less,
    )
