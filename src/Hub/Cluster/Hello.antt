-- ===== src/Hub/Cluster/Hello.antt =====
-- The request of newServerPeer is what handleServerWebSocket of another server is given.
use ws_cluster.Common.{
  ℕ, ◌^◌, ◌≤◌, ◌<◌, ◌≡◌, refl, sym, ◌∙◌, ap, List, ◌∷◌, ◌++◌, All, Option, some, ok, length, same,
  if◌then◌else◌, arith,
}
use ws_cluster.Wire.Addr.{addr_server}
use ws_cluster.Wire.Addr.Text.{addr_string, type_char, decimal}
use ws_cluster.Wire.Addr.Fields.{layout}
use ws_cluster.Wire.Addr.Parse.{parse_server_addr, parse_correct_addr, parse_addr, char_type}
use ws_cluster.Wire.Addr.Parse.RoundTrip.{spelled, addr_string-spelled, parse_parts-spelled}
use ws_cluster.Hub.State.{Server, ServerPeer, ServerInfo}
use ws_cluster.Hub.Logic.{server_info}
use ws_cluster.Hub.Http.{
  ServerRequest, refused, admitted, bad_request, check_digest, admit_server, upgrade_server,
}
use ws_cluster.Hub.Cluster.Headers.{
  header_value, IsVisible, header_value-visible, visible_append, visible_decimal,
}
use ws_cluster.Hub.Cluster.{ConnectHeader, connect_header, listed_server}

-- A server as NewHub makes it: an address of NewServerAddr, and two URLs, whose texts are read back.
pub record IsServer (parse_url : List ℕ → Option (List ℕ)) (s : Server) : Type 0 where
  pub domain : ℕ
  pub name : List ℕ
  pub url : List ℕ
  pub domain_lt : domain < 2 ^ 32
  pub name_le : length name ≤ 26
  pub has_addr : s.addr ≡ layout addr_server domain 0 name
  pub has_url : s.client_url ≡ some url
  pub reads_client : parse_url url ≡ some url
  pub reads_server : parse_url s.server_url ≡ some s.server_url

module _ {parse_url : List ℕ → Option (List ℕ)} {s : Server} (i : IsServer parse_url s) where
  abbrev pub server_text : List ℕ
  server_text = spelled addr_server i.domain 0 i.name

  pub server-addr_string : addr_string s.addr ≡ ok server_text
  server-addr_string =
      rw i.has_addr
        (addr_string-spelled addr_server i.domain 0 i.name (omega arith) i.domain_lt i.name_le)

  pub server-parse_server_addr : parse_server_addr server_text ≡ ok s.addr
  unfolding parse_server_addr
  server-parse_server_addr = rw i.has_addr (
      parse_parts-spelled addr_server i.domain 0 i.name (omega arith) i.domain_lt
        (λ kind. addr_server) refl (omega arith) i.name_le)

  pub server-parse_addr : parse_addr server_text ≡ ok s.addr
  unfolding parse_addr char_type type_char
  server-parse_addr = rw i.has_addr (
      parse_parts-spelled addr_server i.domain 0 i.name (omega arith) i.domain_lt char_type refl
        (omega arith) i.name_le)

-- What another server reads from the headers. A value with other control characters in it, which
-- net/http refuses, does not come to the handler.
abbrev pub request_read : (List ℕ → Option (List ℕ)) → ConnectHeader → ServerRequest
request_read parse_url h = record {
  addr = header_value h.addr;
  server_url = parse_url (header_value h.server_url);
  client_url = parse_url (header_value h.client_url);
  digest = header_value h.digest;
}

-- A server whose name and URLs have visible characters only.
pub record IsVisibleServer {parse_url : List ℕ → Option (List ℕ)} {s : Server}
    (i : IsServer parse_url s) : Type 0 where
  pub name_visible : All IsVisible i.name
  pub url_visible : All IsVisible i.url
  pub server_url_visible : All IsVisible s.server_url

server_text-visible :
    {parse_url : List ℕ → Option (List ℕ)} {s : Server} (i : IsServer parse_url s)
    → All IsVisible i.name
    → All IsVisible (server_text i)
unfolding type_char
server_text-visible i h =
    let slash : IsVisible b'/' = ground arith in
    let kind : IsVisible b's' = ground arith in
    let device =
      visible_append (decimal 0) (b'/' ∷ i.name) (visible_decimal 0 (omega arith)) (slash, h) in
    (
      slash,
      (
        kind,
        (
          slash,
          visible_append (decimal i.domain) (b'/' ∷ (decimal 0 ++ (b'/' ∷ i.name)))
              (visible_decimal i.domain i.domain_lt) (slash, device),
        ),
      ),
    )

-- The peer of a server.
abbrev pub server_peer : ℕ → Server → ServerPeer
server_peer conn s = record { addr = s.addr; conn = conn; server = s }

same_server :
    (s : Server) (u : List ℕ)
    → s.client_url ≡ some u
    → Path Server (record { addr = s.addr; client_url = some u; server_url = s.server_url }) s
same_server s u e = λ j. record { addr = s.addr; client_url = sym e j; server_url = s.server_url }

module _ {parse_url : List ℕ → Option (List ℕ)} (sum : List ℕ → List ℕ) (token : List ℕ)
    {host : Server} (i : IsServer parse_url host) where
  pub host_header : ConnectHeader
  host_header = record {
    addr = server_text i;
    server_url = host.server_url;
    client_url = i.url;
    digest = sum (server_text i ++ token);
  }

  pub connect_header-host_header : connect_header sum token host ≡ ok host_header
  unfolding connect_header host_header
  connect_header-host_header =
      rw (server-addr_string i, connect_header) (rw (i.has_url, connect_header))

  -- The request, as it was made.
  sent_request : ServerRequest
  sent_request = record {
    addr = server_text i;
    server_url = parse_url host.server_url;
    client_url = parse_url i.url;
    digest = sum (server_text i ++ token);
  }

  request_read-host_header :
      IsVisibleServer i
      → ((t : List ℕ) → All IsVisible (sum t))
      → request_read parse_url host_header ≡ sent_request
  unfolding host_header sent_request
  request_read-host_header v sums = λ j. record {
    addr = header_value-visible (server_text i) (server_text-visible i v.name_visible) j;
    server_url = parse_url (header_value-visible host.server_url v.server_url_visible j);
    client_url = parse_url (header_value-visible i.url v.url_visible j);
    digest = header_value-visible (sum (server_text i ++ token)) (sums (server_text i ++ token)) j;
  }

  admit_server-sent_request :
      (token' : List ℕ) (conn : ℕ)
      → admit_server sum token' (some conn) sent_request ≡ (
          if same (sum (server_text i ++ token)) (sum (server_text i ++ token'))
          then admitted (server_peer conn host)
          else refused bad_request)
  unfolding sent_request admit_server check_digest upgrade_server
  admit_server-sent_request token' conn =
      let check = same (sum (server_text i ++ token)) (sum (server_text i ++ token')) in
      rw (i.reads_server, admit_server)
        (rw (i.reads_client, admit_server)
          (rw (server-parse_server_addr i, admit_server)
            (ap (λ s. if check then admitted (server_peer conn s) else refused bad_request)
              (same_server host i.url i.has_url))))

  pub admit_server-host_header :
      IsVisibleServer i
      → ((t : List ℕ) → All IsVisible (sum t))
      → (token' : List ℕ) (conn : ℕ)
      → admit_server sum token' (some conn) (request_read parse_url host_header) ≡ (
          if same (sum (server_text i ++ token)) (sum (server_text i ++ token'))
          then admitted (server_peer conn host)
          else refused bad_request)
  admit_server-host_header v sums token' conn =
      ap (admit_server sum token' (some conn)) (request_read-host_header v sums)
      ∙ admit_server-sent_request token' conn

  -- A server has an address of NewServerAddr, and a name and URLs with visible ASCII characters only,
  -- as the hashes have, which net/http sends as they are. It makes its headers without a panic. Another
  -- server, whose token gives the same digest, lets it in, with the address and the URLs that it has;
  -- any other refuses it. The texts of the URLs are assumed to be read back by url.Parse, and the
  -- upgrade to give a connection.
  pub hello_admitted :
      IsVisibleServer i
      → ((t : List ℕ) → All IsVisible (sum t))
      → (token' : List ℕ) (conn : ℕ)
      → (header : ConnectHeader) × (connect_header sum token host ≡ ok header)
        × (admit_server sum token' (some conn) (request_read parse_url header) ≡ (
            if same (sum (server_text i ++ token)) (sum (server_text i ++ token'))
            then admitted (server_peer conn host)
            else refused bad_request))
  hello_admitted v sums token' conn =
      (host_header, connect_header-host_header, admit_server-host_header v sums token' conn)

-- The entry of a server in the list is read back as the server.
pub listed-server_info :
    {parse_url : List ℕ → Option (List ℕ)} {s : Server} (i : IsServer parse_url s)
    → (info : ServerInfo) × (server_info s ≡ ok info)
      × (info.addr ≡ server_text i)
      × (listed_server parse_url info ≡ ok s)
unfolding server_info listed_server parse_correct_addr
listed-server_info {s} i =
    let correct : parse_correct_addr (server_text i) ≡ some s.addr =
      rw (server-parse_addr i, parse_correct_addr) in
    (
      record { addr = server_text i; client_url = i.url; server_url = s.server_url },
      rw (server-addr_string i, server_info) (rw (i.has_url, server_info)),
      refl,
      rw (correct, listed_server)
          (rw (i.reads_server, listed_server)
            (rw i.reads_client (ap ok (same_server s i.url i.has_url)))),
    )
