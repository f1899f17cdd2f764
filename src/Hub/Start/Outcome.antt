-- ===== src/Hub/Start/Outcome.antt =====
-- What Main starts, whatever the command line says.
use ws_cluster.Common.{
  ℕ, ◌≤◌, ◌≡◌, refl, sym, ◌∙◌, ap, inl, inr, List, [], panicked, length, Option, none, some, Result,
  ok, err, M, ◌>>=◌, ◌>>◌, pure, Result-cases, ok-injective, ok-ne-err, arith, Ensures, ensures-ok,
  AnyState, Holds-any, ensures_any, ensures_next, ensures_pure, lookup, insert, same,
}
use ws_cluster.Hub.State.{Packet}
use ws_cluster.Queue.{queue_packet}
use ws_cluster.Hub.Intake.{Intake, take_packet, log_packet, enqueue}
use ws_cluster.Hub.Config.{
  Config, ServerConfig, Machine, declare_flags, server_config, peer_config, database_config,
  load_config,
}
use ws_cluster.Hub.Config.Flags.{
  FlagSet, parse_flags, get_text, codes, text_var, int_var, duration_var,
}
use ws_cluster.Wire.Addr.{Addr, new_server_addr, new_addr, addr_server}
use ws_cluster.Wire.Addr.Fields.{layout, new_addr-layout}
use native.Mathlib.Decide.{dec_le}
use mathlib.Core.Option
use ws_cluster.Hub.Start.{
  Started, start_failure, empty_hub, new_hub, message_log, with_store, main_hub,
}

declare_flags-empty : (m : Machine) → (flags : FlagSet) × (declare_flags m [] ≡ (ok [], flags))
unfolding declare_flags text_var int_var duration_var get_text lookup insert same
declare_flags-empty m = (_, refl)

-- No database, and a server's settings of which `Q` holds.
abbrev IsLoaded : (ServerConfig → Type 0) → Config → Type 0
IsLoaded Q conf = (conf.dc ≡ none) × Q conf.sc

module _ (m : Machine) {Q : ServerConfig → Type 0} (q : Ensures AnyState (server_config m) Q)
    (args : List (List ℕ × List ℕ)) where
  finish-IsLoaded :
      Ensures AnyState
        (do
          parse_flags m.int_value m.duration_value args
          sc ← server_config m
          cpc ← peer_config m
          dc ← database_config m []
          dir ← get_text (codes "data-dir")
          pure (record { sc = sc; dc = dc; cpc = cpc; data_dir = dir }))
        (IsLoaded Q)
  unfolding database_config
  finish-IsLoaded = ensures_any (parse_flags m.int_value m.duration_value args) λ parsed.
      ensures_next (server_config m) Q q λ sc settings.
        ensures_any (peer_config m)
          λ cpc. ensures_any (get_text (codes "data-dir")) λ dir. ensures_pure (refl, settings)

  load_config-IsLoaded :
      (conf : Config) (flags : FlagSet) → load_config m args [] ≡ (ok conf, flags) → IsLoaded Q conf
  unfolding load_config
  load_config-IsLoaded conf flags e =
      let (declared, d) = declare_flags-empty m in
      (ensures-ok declared finish-IsLoaded tt (rw d at e)).0

  module _ {S L : Type 0} (open_store : List ℕ → Result S) (open_log : List ℕ → Option L) where
    -- Main makes a hub without a store.
    main_hub-new_hub :
        (st : Started L)
        → main_hub m open_store open_log args ≡ ok st
        → (conf : Config) × Q conf.sc × (new_hub {S = S} open_log none conf ≡ ok st)
    unfolding main_hub with_store
    main_hub-new_hub st e = elim (Result-cases (load_config m args []).0) [
      | inl (conf, l) ↦
          let (no_database, settings) =
            load_config-IsLoaded conf (load_config m args []).1
              (λ i. (l i, (load_config m args []).1)) in
          let made : main_hub m open_store open_log args ≡ new_hub {S = S} open_log none conf =
            rw (l, main_hub) (rw (no_database, with_store) refl) in
          (conf, settings, sym made ∙ e)
      | inr (x, l) ↦
          let made : main_hub m open_store open_log args ≡ err (start_failure x) =
            rw (l, main_hub) refl in
          absurd (ok-ne-err _ _ (sym e ∙ made))
    ]

new_server_addr-layout :
    (name : List ℕ) (addr : Addr)
    → new_server_addr 0 name ≡ ok addr
    → (length name ≤ 26) × (addr ≡ layout addr_server 0 0 name)
unfolding new_server_addr new_addr
new_server_addr-layout name addr e = elim (dec_le (length name) 26) [
  | yes h ↦ (h, ok-injective (sym e ∙ new_addr-layout addr_server 0 0 name h))
  | no h ↦ absurd (ground arith)
]

-- A hub without a store has no log.
new_hub-parts :
    (S : Type 0) {L : Type 0} (open_log : List ℕ → Option L) (conf : Config) (st : Started L)
    → new_hub {S = S} open_log none conf ≡ ok st
    → (addr : Addr) × (new_server_addr 0 conf.sc.id ≡ ok addr)
      × (st.hub ≡ empty_hub conf addr)
      × (st.log ≡ none)
unfolding new_hub message_log
new_hub-parts S {L} open_log conf st e = elim (Result-cases (new_server_addr 0 conf.sc.id)) [
  | inl (addr, a) ↦
      let made : new_hub {S = S} open_log none conf
          ≡ ok (record { hub = empty_hub conf addr; log = none }) =
        rw (a, new_hub) refl in
      let same_started = ok-injective (sym e ∙ made) in
      (
        addr,
        a,
        ap (λ (x : Started L). x.hub) same_started,
        ap (λ (x : Started L). x.log) same_started,
      )
  | inr (x, a) ↦
      let made : new_hub {S = S} open_log none conf ≡ err panicked = rw (a, new_hub) refl in
      absurd (ok-ne-err _ _ (sym e ∙ made))
]

-- Whatever the command line says, a hub that Main starts has no message log: each packet is queued,
-- and none is written.
pub main_hub-logs_nothing :
    {S L : Type 0} (m : Machine) (open_store : List ℕ → Result S) (open_log : List ℕ → Option L)
    (args : List (List ℕ × List ℕ)) (st : Started L)
    → main_hub m open_store open_log args ≡ ok st
    → (write : List ℕ → M L (Unit {0})) (packet : Packet) (s : Intake L) → s.log ≡ st.log
    → take_packet write packet s
      ≡ Option.map (λ q. record s { queue = q }) (queue_packet packet s.queue)
unfolding take_packet enqueue
main_hub-logs_nothing {S} m open_store open_log args st e write packet s log =
    let any : Ensures AnyState (server_config m) (λ sc. Unit {0}) = record {
      holds = λ s i. Holds-any (server_config m s);
    } in
    let (conf, _, made) =
      main_hub-new_hub m {Q = λ sc. Unit {0}} any args open_store open_log st e in
    let (_, _, _, no_log) = new_hub-parts S open_log conf st made in
    ap (λ o. elim o [ none ↦ enqueue packet s | some l ↦ log_packet write packet l s ])
      (log ∙ no_log)
