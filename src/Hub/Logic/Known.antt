-- ===== src/Hub/Logic/Known.antt =====
-- The list of servers with which a hub answers, server by server.
use ws_cluster.Common.{
  ◌≡◌, refl, sym, ◌∙◌, ap, inl, inr, List, ◌∷◌, map, values, ok, err, Result-cases, ok-injective,
  ok-ne-err,
}
use ws_cluster.Hub.State.{Hub, Server, ServerInfo, RespBody, query_servers_resp}
use ws_cluster.Hub.Logic.{server_info, server_infos, logic_query_servers}

resp-injective :
    {a b : List ServerInfo} → Path RespBody (query_servers_resp a) (query_servers_resp b) → a ≡ b
resp-injective e = cc

pub server_infos-cons :
    (t : Server) (ts : List Server) (info : ServerInfo) (infos : List ServerInfo)
    → server_info t ≡ ok info
    → server_infos (t ∷ ts) ≡ ok infos
    → (rest : List ServerInfo) × (server_infos ts ≡ ok rest) × (infos ≡ info ∷ rest)
unfolding server_infos
server_infos-cons t ts info infos e a = elim (Result-cases (server_infos ts)) [
  | inl (rest, r) ↦
      let all : server_infos (t ∷ ts) ≡ ok (info ∷ rest) =
        rw (e, server_infos) (rw (r, server_infos) refl) in
      (rest, r, ok-injective (sym a ∙ all))
  | inr (x, r) ↦
      let none : server_infos (t ∷ ts) ≡ err x = rw (e, server_infos) (rw (r, server_infos) refl) in
      absurd (ok-ne-err _ _ (sym a ∙ none))
]

pub servers-answer :
    (h : Hub) (infos : List ServerInfo)
    → logic_query_servers h ≡ ok (query_servers_resp infos)
    → server_infos (h.server ∷ map (λ p. p.server) (values h.server_peers)) ≡ ok infos
unfolding logic_query_servers
servers-answer h infos e =
    elim (Result-cases (server_infos (h.server ∷ map (λ p. p.server) (values h.server_peers)))) [
      | inl (found, r) ↦
          let answer : logic_query_servers h ≡ ok (query_servers_resp found) =
            rw (r, logic_query_servers) refl in
          r ∙ ap ok (resp-injective (ok-injective (sym answer ∙ e)))
      | inr (x, r) ↦
          let answer : logic_query_servers h ≡ err x = rw (r, logic_query_servers) refl in
          absurd (ok-ne-err _ _ (sym e ∙ answer))
    ]
