-- ===== src/Hub/Cluster/World.antt =====
-- The world of other servers that a server dials when it starts, and what the dialling does there.
use ws_cluster.Common.{
  ℕ, ◌≡◌, refl, ◌∙◌, inl, inr, List, ◌++◌, some, Bool-cases, Dict, lookup, insert, lookup-insert,
  same, same→eq, same_refl,
}
use mathlib.Core.Path.{subst}
use ws_cluster.Wire.Addr.{Addr}
use ws_cluster.Hub.State.{Hub, Server, ServerPeer}
use ws_cluster.Hub.Cluster.{Start, server_path}

-- The other servers of the cluster, by the URL that is dialled.
abbrev pub World : Type 0
World = Dict Hub

-- An entry of a map under the key.
abbrev pub Entry : {V : Type 0} → (Addr → V → Type 0) → Addr → Dict V → Type 0
Entry {V} Q k m = (v : V) × (lookup k m ≡ some v) × Q k v

module _ {V : Type 0} (Q : Addr → V → Type 0) (j : Addr) (v : V) (m : Dict V) (q : Q j v) where
  pub insert-Entry : (k : Addr) → Entry Q k m → Entry Q k (insert j v m)
  insert-Entry k (w, e, r) = elim (Bool-cases (same j k)) [
    | inl t ↦ (v, lookup-insert j k v m ∙ rw t refl, subst (λ x. Q x v) (same→eq j k t) q)
    | inr f ↦ (w, lookup-insert j k v m ∙ rw f e, r)
  ]

  pub insert-Entry_self : Entry Q j (insert j v m)
  insert-Entry_self = (v, lookup-insert j j v m ∙ rw (same_refl j) refl, q)

abbrev pub AtAddr : Addr → ServerPeer → Type 0
AtAddr k p = p.addr ≡ k

-- A peer stands under its address.
abbrev pub Knows : Addr → Hub → Type 0
Knows a h = Entry AtAddr a h.server_peers

-- The server at a URL exists, and has a peer for the address.
abbrev pub Meets : Addr → List ℕ → World → Type 0
Meets a url w = Entry (λ k h. Knows a h) url w

abbrev pub Exists : List ℕ → World → Type 0
Exists url w = Entry (λ k (h : Hub). Unit {0}) url w

abbrev pub dialled_url : Server → List ℕ
dialled_url t = t.server_url ++ server_path

-- No peer and no server is lost.
pub record Grows (a : Addr) (s s' : Start World) : Type 0 where
  pub server : s'.hub.server ≡ s.hub.server
  pub knows : (b : Addr) → Knows b s.hub → Knows b s'.hub
  pub exists : (url : List ℕ) → Exists url s.world → Exists url s'.world
  pub meets : (url : List ℕ) → Meets a url s.world → Meets a url s'.world

pub Grows-refl : (a : Addr) (s : Start World) → Grows a s s
Grows-refl a s = record { server = refl; knows = λ b k. k; exists = λ u e. e; meets = λ u e. e }

pub Grows-trans : {a : Addr} {s t u : Start World} → Grows a s t → Grows a t u → Grows a s u
Grows-trans f g = record {
  server = g.server ∙ f.server;
  knows = λ b k. g.knows b (f.knows b k);
  exists = λ x e. g.exists x (f.exists x e);
  meets = λ x e. g.meets x (f.meets x e);
}
