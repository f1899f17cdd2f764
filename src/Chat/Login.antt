-- ===== src/Chat/Login.antt =====
-- A client logs in at the server.
use ws_cluster.Common.{
  ℕ, ◌^◌, ◌≤◌, ◌<◌, ◌≡◌, ◌≢◌, refl, ◌∙◌, ap, List, [], ◌∷◌, ◌++◌, append_assoc, length, false, some,
  All, ok, same, if◌then◌else◌, arith,
}
use ws_cluster.Hub.Http.{
  ClientRequest, admitted, refused, bad_request, admit_client, check_digest, upgrade_client,
  is_empty_text,
}
use ws_cluster.Wire.Addr.{Addr, new_addr, addr_client}
use ws_cluster.Wire.Addr.Fields.{layout, new_addr-layout}
use ws_cluster.Wire.Addr.Text.{addr_string, decimal, decimal_digits, type_char}
use ws_cluster.Wire.Addr.Parse.{parse_client_addr}
use ws_cluster.Wire.Addr.Parse.Digits.{IsDigit, decimal_digits-spelled}
use ws_cluster.Wire.Addr.Parse.RoundTrip.{spelled, addr_string-spelled, parse_parts-spelled}
use ws_cluster.Hub.Session.{new_client_peer}
use ws_cluster.Chat.{query_text, login_query}
use ws_cluster.Hub.Http.Query.{
  read_request, addr_name, nonce_name, digest_name, notice_name, pair_text, query_get,
}
use ws_cluster.Hub.Http.Query.Plain.{IsPlain, get-here, get-later, get-last}

IsPlain-names :
    All IsPlain addr_name
    × All IsPlain nonce_name
    × All IsPlain digest_name
    × All IsPlain notice_name
IsPlain-names = (ground arith, ground arith, ground arith, ground arith)

-- The names are "addr", "nonce", "digest" and "notice".
module _ (text nonce digest : List ℕ) (h : All IsPlain text) (g : All IsPlain nonce)
    (f : All IsPlain digest) where
  -- Behind the address, the name is one of the others.
  get-behind :
      (name : List ℕ)
      → same addr_name name ≡ false
      → same nonce_name name ≡ false
      → query_get (query_text text nonce digest) name
        ≡ query_get
            (pair_text digest_name digest ++ (b'&' ∷ pair_text notice_name (b'1' ∷ [])))
            name
  get-behind name a n =
      let (ha, hn, hd, hm) = IsPlain-names in
      get-later addr_name text (λ e. cc) ha h _ name a
      ∙ get-later nonce_name nonce (λ e. cc) hn g _ name n

  read_request-query_text :
      (remote : List ℕ)
      → read_request remote (query_text text nonce digest) ≡ record {
        addr = text;
        nonce = nonce;
        digest = digest;
        notice = b'1' ∷ [];
        remote_addr = remote;
      }
  unfolding read_request
  read_request-query_text remote =
      let (ha, hn, hd, hm) = IsPlain-names in
      let a_n : same addr_name nonce_name ≡ false = unfold same in refl in
      let a_d : same addr_name digest_name ≡ false = unfold same in refl in
      let a_m : same addr_name notice_name ≡ false = unfold same in refl in
      let n_d : same nonce_name digest_name ≡ false = unfold same in refl in
      let n_m : same nonce_name notice_name ≡ false = unfold same in refl in
      let d_m : same digest_name notice_name ≡ false = unfold same in refl in
      let addr_is =
        get-here addr_name text (λ e. cc) ha h
          (pair_text nonce_name nonce
            ++ (b'&'
                ∷ (pair_text digest_name digest ++ (b'&' ∷ pair_text notice_name (b'1' ∷ []))))) in
      let nonce_is =
        get-later addr_name text (λ e. cc) ha h _ nonce_name a_n
        ∙ get-here nonce_name nonce (λ e. cc) hn g
            (pair_text digest_name digest ++ (b'&' ∷ pair_text notice_name (b'1' ∷ []))) in
      let digest_is =
        get-behind digest_name a_d n_d
        ∙ get-here digest_name digest (λ e. cc) hd f (pair_text notice_name (b'1' ∷ [])) in
      let notice_is =
        get-behind notice_name a_m n_m
        ∙ get-later digest_name digest (λ e. cc) hd f (pair_text notice_name (b'1' ∷ []))
            notice_name d_m
        ∙ get-last notice_name (b'1' ∷ []) (λ e. cc) hm (ground arith) in
      λ i. record {
        addr = addr_is i;
        nonce = nonce_is i;
        digest = digest_is i;
        notice = notice_is i;
        remote_addr = remote;
      }

digits-IsPlain : (s : List ℕ) → All IsDigit s → All IsPlain s
digits-IsPlain [] d = tt
digits-IsPlain (c ∷ s) d = (ground (arith, d.0), digits-IsPlain s d.1)

append-IsPlain : (s t : List ℕ) → All IsPlain s → All IsPlain t → All IsPlain (s ++ t)
append-IsPlain [] t h g = g
append-IsPlain (c ∷ s) t h g = (h.0, append-IsPlain s t h.1 g)

decimal-IsPlain : (n : ℕ) → n < 2 ^ 64 → All IsPlain (decimal n) × (decimal n ≢ [])
unfolding decimal
decimal-IsPlain n h =
    let (d, _, ne) = decimal_digits-spelled 19 n (omega arith) in
    (digits-IsPlain (decimal_digits 20 n) d, ne)

-- The text of a client's address is plain, if its name is.
spelled-IsPlain :
    (domain device : ℕ) (name : List ℕ)
    → domain < 2 ^ 32
    → device < 256
    → All IsPlain name
    → All IsPlain (spelled addr_client domain device name)
unfolding type_char
spelled-IsPlain domain device name hd hv hn =
    let slash : IsPlain b'/' = ground arith in
    let kind : IsPlain b'c' = ground arith in
    let behind =
      append-IsPlain (decimal device) (b'/' ∷ name) (decimal-IsPlain device (omega arith)).0
        (slash, hn) in
    let domain_there = (decimal-IsPlain domain (omega arith)).0 in
    (
      slash,
      (
        kind,
        (
          slash,
          append-IsPlain (decimal domain) (b'/' ∷ (decimal device ++ (b'/' ∷ name))) domain_there
              (slash, behind),
        ),
      ),
    )

is_empty_text-not : (s : List ℕ) → s ≢ [] → is_empty_text s ≡ false
is_empty_text-not [] h = absurd (h refl)
is_empty_text-not (c ∷ s) h = refl

upgraded :
    (conn : ℕ) (addr : Addr) (r : ClientRequest)
    → r.notice ≡ b'1' ∷ []
    → upgrade_client (some conn) r (ok addr) ≡ admitted (new_client_peer addr r.remote_addr 1 conn)
unfolding upgrade_client same
upgraded conn addr r e =
    ap
      (λ o.
        admitted (new_client_peer addr r.remote_addr (if same o (b'1' ∷ []) then 1 else 0) conn))
      e

-- A client's address with a plain name of at most 26 bytes, a domain below 2 ^ 32 and a device below
-- 256 is dialled; the hashes are plain texts and not empty, as hexadecimal digits are. The server reads
-- the query as it was meant: where the hash with the client's secret is the one with the server's
-- token, as it is where the two are the same, the client is let in with its own address, and with the
-- notices that it asks for; where it is another, the request is refused.
pub client_is_admitted :
    (sum : List ℕ → List ℕ) (secret token remote name : List ℕ) (now conn domain device : ℕ)
    → now < 2 ^ 63
    → domain < 2 ^ 32
    → device < 256
    → length name ≤ 26
    → All IsPlain name
    → ((t : List ℕ) → All IsPlain (sum t) × (sum t ≢ []))
    → (addr : Addr) × (text : List ℕ) × (query : List ℕ) × (new_addr addr_client domain device name
        ≡ ok addr)
      × (addr_string addr ≡ ok text)
      × (login_query sum secret now addr ≡ ok query)
      × (admit_client sum token (some conn) (read_request remote query) ≡ (
          if same (sum (text ++ (decimal now ++ secret))) (sum (text ++ (decimal now ++ token)))
          then admitted (new_client_peer addr remote 1 conn)
          else refused bad_request))
unfolding login_query admit_client check_digest parse_client_addr
client_is_admitted sum secret token remote name now conn domain device hnow hd hv hl hn hs =
    let addr = layout addr_client domain device name in
    let text = spelled addr_client domain device name in
    let nonce = decimal now in
    let digest = sum (text ++ (nonce ++ secret)) in
    let is_text = addr_string-spelled addr_client domain device name (omega arith) hd hl in
    let parses =
      parse_parts-spelled addr_client domain device name (omega arith) hd (λ kind. addr_client) refl
        hv hl in
    let read =
      read_request-query_text text nonce digest (spelled-IsPlain domain device name hd hv hn)
        (decimal-IsPlain now (omega arith)).0 (hs (text ++ (nonce ++ secret))).0 remote in
    let request : ClientRequest = record {
      addr = text;
      nonce = nonce;
      digest = digest;
      notice = b'1' ∷ [];
      remote_addr = remote;
    } in
    let nonce_there = is_empty_text-not nonce (decimal-IsPlain now (omega arith)).1 in
    let digest_there = is_empty_text-not digest (hs (text ++ (nonce ++ secret))).1 in
    (
      addr,
      text,
      query_text text nonce digest,
      new_addr-layout addr_client domain device name hl,
      is_text,
      rw (is_text, login_query) refl,
      rw read (
          rw (nonce_there, digest_there)
            (rw (append_assoc text nonce token)
              (rw parses (rw (upgraded conn addr request refl) refl)))),
    )
