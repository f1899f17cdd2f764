-- ===== src/Hub/Http/Digest.antt =====
-- What the digest of a request covers.
use ws_cluster.Common.{
  ℕ, ◌≡◌, refl, sym, ◌∙◌, ap, Bool, true, false, ◌||◌, inl, inr, List, [], ◌∷◌, ◌++◌, append_assoc,
  some, Bool-cases, ok, same, arith,
}
use ws_cluster.Wire.Addr.{Addr}
use ws_cluster.Wire.Addr.Parse.{parse_client_addr}
use ws_cluster.Hub.State.{ClientPeer}
use ws_cluster.Hub.Http.{
  ClientRequest, Admission, refused, admitted, bad_request, check_digest, admit_client,
  upgrade_client, is_empty_text,
}
use ws_cluster.Hub.Http.Login.{request_peer}

abbrev is_refused : {P : Type 0} → Admission P → Bool
is_refused (refused reply) = true
is_refused (admitted p) = false

abbrev lacks_text : ClientRequest → Bool
lacks_text r = is_empty_text r.addr || is_empty_text r.nonce || is_empty_text r.digest

is_empty_text-append : (s t : List ℕ) → is_empty_text s ≡ false → is_empty_text (s ++ t) ≡ false
is_empty_text-append [] t e = absurd (ground (arith, e))
is_empty_text-append (c ∷ s) t e = refl

none_holds : (a b c : Bool) → (a || b || c) ≡ false → (a ≡ false) × (c ≡ false)
none_holds true b c e = absurd (ground (arith, e))
none_holds false true c e = absurd (ground (arith, e))
none_holds false false c e = (refl, e)

module _ (sum : List ℕ → List ℕ) (token : List ℕ) (conn : ℕ) where
  -- A request that is let in has its three texts, and its digest is right.
  admitted-checks :
      (r : ClientRequest) (p : ClientPeer)
      → admit_client sum token (some conn) r ≡ admitted p
      → (lacks_text r ≡ false) × (same r.digest (sum ((r.addr ++ r.nonce) ++ token)) ≡ true)
  unfolding admit_client check_digest
  admitted-checks r p i = elim (Bool-cases (lacks_text r)) [
    | inl e ↦
        let refusal : admit_client sum token (some conn) r ≡ refused bad_request = rw e in
        absurd (ground (arith, ap is_refused (sym refusal ∙ i)))
    | inr e ↦ elim (Bool-cases (same r.digest (sum ((r.addr ++ r.nonce) ++ token)))) [
      | inl d ↦ (e, d)
      | inr d ↦
          let refusal : admit_client sum token (some conn) r ≡ refused bad_request = rw (e, d) in
          absurd (ground (arith, ap is_refused (sym refusal ∙ i)))
    ]
  ]

  -- The digest of a request that is let in lets in another request too: one whose address goes on
  -- with the first bytes of that nonce, and whose nonce is the rest, if that is an address.
  pub digest_admits_longer_name :
      (r : ClientRequest) (x : List ℕ) (a : ℕ) (y : List ℕ) (p : ClientPeer) (addr : Addr)
      → r.nonce ≡ x ++ (a ∷ y)
      → admit_client sum token (some conn) r ≡ admitted p
      → parse_client_addr (r.addr ++ x) ≡ ok addr
      → admit_client sum token (some conn) (record r { addr = r.addr ++ x; nonce = a ∷ y })
        ≡ admitted (request_peer r addr conn)
  unfolding admit_client check_digest upgrade_client
  digest_admits_longer_name r x a y p addr n i parses =
      let (has_texts, d) = admitted-checks r p i in
      let r' = record r { addr = r.addr ++ x; nonce = a ∷ y } in
      let (addr_text, digest_text) =
        none_holds (is_empty_text r.addr) (is_empty_text r.nonce) (is_empty_text r.digest)
          has_texts in
      let texts : lacks_text r' ≡ false =
        rw (is_empty_text-append r.addr x addr_text, digest_text) in
      let text : (r.addr ++ x) ++ (a ∷ y) ≡ r.addr ++ r.nonce =
        append_assoc r.addr x (a ∷ y) ∙ ap (λ t. r.addr ++ t) (sym n) in
      let d' : same r.digest (sum (((r.addr ++ x) ++ (a ∷ y)) ++ token)) ≡ true = rw text d in
      rw (texts, d', parses)
