-- ===== src/Tests/Chat.antt =====
-- A client that logs in, and what it counts, at concrete inputs.
use ws_cluster.Common.{
  ℕ, ◌+◌, ◌%◌, ◌≡◌, ◌≢◌, refl, List, [], ◌∷◌, ◌++◌, length, All, none, some, ok, same,
  if◌then◌else◌, arith,
}
use ws_cluster.Wire.Addr.{Addr, new_addr, addr_client}
use ws_cluster.Wire.Addr.Text.{addr_string, decimal}
use ws_cluster.Hub.Session.{new_client_peer}
use ws_cluster.Hub.Http.{admitted, refused, bad_request, admit_client}
use ws_cluster.Hub.Http.Query.{read_request, query_get}
use ws_cluster.Hub.Http.Query.Plain.{IsPlain}
use ws_cluster.Chat.{
  test_group, client_addr, pushes, join_test, login_query, connected, disconnected, received, tick,
  count_arrivals, no_counts,
}
use ws_cluster.Chat.Login.{client_is_admitted}
use ws_cluster.Tests.Wire.{client, hello}

-- One digit, for a hash.
abbrev pub digit_sum : List ℕ → List ℕ
digit_sum t = (48 + length t % 10) ∷ []

digit_sum-IsPlain : (t : List ℕ) → All IsPlain (digit_sum t) × (digit_sum t ≢ [])
digit_sum-IsPlain t = ((ground arith, tt), λ e. cc)

-- "client_0" and the secret "123".
abbrev first_client : List ℕ
first_client = b'c' ∷ b'l' ∷ b'i' ∷ b'e' ∷ b'n' ∷ b't' ∷ b'_' ∷ b'0' ∷ []

abbrev secret : List ℕ
secret = b'1' ∷ b'2' ∷ b'3' ∷ []

client_is_admitted_example :
    (addr : Addr) × (text : List ℕ) × (query : List ℕ) × (new_addr addr_client 0 1 first_client
      ≡ ok addr)
    × (addr_string addr ≡ ok text)
    × (login_query digit_sum secret 1600000000 addr ≡ ok query)
    × (admit_client digit_sum secret (some 7) (read_request (b'r' ∷ []) query) ≡ (
        if same
          (digit_sum (text ++ (decimal 1600000000 ++ secret)))
          (digit_sum (text ++ (decimal 1600000000 ++ secret)))
        then admitted (new_client_peer addr (b'r' ∷ []) 1 7)
        else refused bad_request))
client_is_admitted_example =
    client_is_admitted digit_sum secret secret (b'r' ∷ []) first_client 1600000000 7 0 1
      (omega arith) (omega arith) (omega arith) (omega arith) (ground arith) digit_sum-IsPlain

-- "x=%2Fa+b&y" has "/a b" under "x".
escapes_are_read :
    query_get (b'x' ∷ b'=' ∷ b'%' ∷ b'2' ∷ b'F' ∷ b'a' ∷ b'+' ∷ b'b' ∷ b'&' ∷ b'y' ∷ []) (b'x' ∷ [])
    ≡ b'/' ∷ b'a' ∷ b' ' ∷ b'b' ∷ []
unfolding query_get same
escapes_are_read = refl

-- A client that is gone before its login is answered: there are -1 peers, and then none again.
gone_before_login :
    (count_arrivals client (disconnected ∷ connected none ∷ []) no_counts).total_peer_num ≡ 0
unfolding count_arrivals
gone_before_login = refl

two_messages :
    (count_arrivals client (received hello ∷ tick ∷ received hello ∷ []) no_counts).total_msg_num
    ≡ 2
unfolding count_arrivals
two_messages = refl

-- The first client joins the group when its login is answered.
login_joins :
    (group addr : Addr) × (test_group ≡ ok group)
    × (client_addr 0 ≡ ok addr)
    × ((count_arrivals group (connected (some addr) ∷ []) no_counts).effects
        ≡ pushes (join_test group addr) ∷ [])
unfolding count_arrivals test_group client_addr
login_joins = (_, _, refl, refl, refl)
