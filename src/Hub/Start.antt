-- ===== src/Hub/Start.antt =====
-- hub/hubmain.go, Main, up to the call of Run, and hub/hub.go, NewHub with the test of CheckOrigin.
-- `open_store` stands for InitMysqlDb and NewDbMessageStore, and `open_log` for NewFileLog, whose
-- error is dropped.
pub mod Origins
pub mod Outcome
use ws_cluster.Common.{
  ℕ, Bool, true, false, ◌&&◌, ◌||◌, List, [], ◌∷◌, Option, none, some, Error, Result, ok, err,
  panicked, exited, same, ◌==◌, if◌then◌else◌,
}
use ws_cluster.Wire.Addr.{Addr, new_server_addr}
use ws_cluster.Hub.State.{Hub}
use ws_cluster.Hub.Config.{Config, Machine, load_config}

unfoldable pub is_prefix : List ℕ → List ℕ → Bool
is_prefix [] s = true
is_prefix (x ∷ xs) [] = false
is_prefix (x ∷ xs) (y ∷ s) = x == y && is_prefix xs s

-- `strings.Contains(s, sub)`
unfoldable pub contains_text : List ℕ → List ℕ → Bool
unfolding is_prefix
contains_text [] sub = is_prefix sub []
contains_text (c ∷ s) sub = is_prefix sub (c ∷ s) || contains_text s sub

-- CheckOrigin, of the origins that are allowed and the header "Origin" of the request.
unfoldable pub check_origin : List ℕ → List ℕ → Bool
unfolding contains_text
check_origin origins origin =
    if same origins (b'*' ∷ []) then true else contains_text origins origin

-- A new hub and its message log, if it has one.
pub record Started (L : Type 0) : Type 0 where
  pub hub : Hub
  pub log : Option L

-- No connection is open.
unfoldable pub empty_hub : Config → Addr → Hub
empty_hub conf addr = record {
  server = record {
    addr = addr;
    client_url = some conf.sc.client_url;
    server_url = conf.sc.server_url;
  };
  client_peers = [];
  server_peers = [];
  groups = [];
  location = [];
  connected = λ conn. false;
  sent = [];
}

-- An error of LoadConfig is a panic, if the process has not ended before.
unfoldable pub start_failure : Error → Error
start_failure exited = exited
start_failure e = panicked

module _ {S L : Type 0} where
  unfoldable pub message_log : (List ℕ → Option L) → Option S → Config → Option L
  message_log open_log ms conf = elim ms [
    | none ↦ none
    | some store ↦ open_log conf.sc.message_file
  ]

  -- An ID that is too long is a nil address, through which the code reads.
  unfoldable pub new_hub : (List ℕ → Option L) → Option S → Config → Result (Started L)
  unfolding empty_hub message_log
  new_hub open_log ms conf = elim (new_server_addr 0 conf.sc.id) [
    | err e ↦ err panicked
    | ok addr ↦ ok (record { hub = empty_hub conf addr; log = message_log open_log ms conf })
  ]

  unfoldable pub with_store :
      (List ℕ → Result S) → (List ℕ → Option L) → Config → Result (Started L)
  unfolding new_hub
  with_store open_store open_log conf = elim conf.dc [
    | none ↦ new_hub open_log none conf
    | some dc ↦ elim (open_store dc.db_source) [
      | err e ↦ err e
      | ok store ↦ new_hub open_log (some store) conf
    ]
  ]

  unfoldable pub main_hub :
      Machine
      → (List ℕ → Result S)
      → (List ℕ → Option L)
      → List (List ℕ × List ℕ)
      → Result (Started L)
  unfolding with_store start_failure
  main_hub m open_store open_log args = elim (load_config m args []).0 [
    | ok conf ↦ with_store open_store open_log conf
    | err e ↦ err (start_failure e)
  ]
