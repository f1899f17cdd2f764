-- ===== src/Hub/Group/FanOut.antt =====
-- Who gets the messages of a group.
use ws_cluster.Common.{
  ℕ, ◌≡◌, refl, ◌∙◌, List, [], ◌∷◌, ◌++◌, append_assoc, append-nil, Option, none, some, Dict, Key,
  lookup, insert, values, lookup-insert, lookup-remove, Unique, insert-Unique, remove-Unique, same,
  same_refl, ok, for_each, All, if◌then◌else◌,
}
use ws_cluster.Wire.Addr.{Addr}
use ws_cluster.Wire.Message.{Message}
use ws_cluster.Hub.State.{Hub, Group, GroupPacket, join, leave, message, pushed}
use ws_cluster.Hub.Output.{push_message}
use ws_cluster.Hub.Output.Open.{AllOpen, sending, pushes, push_message-open}
use ws_cluster.Hub.Group.{group_apply, group_send, group_receive, group_loop}

-- The connection of a member, by the last packet that names it.
abbrev pub last_conn : Key → List GroupPacket → Option ℕ → Option ℕ
last_conn k [] before = before
last_conn k (message msg ∷ ps) before = last_conn k ps before
last_conn k (join addr conn ∷ ps) before =
    last_conn k ps (if same addr k then some conn else before)
last_conn k (leave addr conn ∷ ps) before = last_conn k ps (if same addr k then none else before)

-- A join or a leave.
abbrev pub IsChange : GroupPacket → Type 0
IsChange (message msg) = ⊥
IsChange (join addr conn) = Unit {0}
IsChange (leave addr conn) = Unit {0}

push_all :
    (msg : Message) (conns : List ℕ) (h : Hub)
    → AllOpen h
    → for_each conns (λ conn. push_message conn msg) h ≡ (ok tt, sending h (pushes msg conns))
push_all msg [] h open_all = rw append-nil
push_all msg (conn ∷ conns) h open_all =
    rw (push_message-open conn msg h open_all)
      (push_all msg conns (sending h (pushed conn msg ∷ [])) open_all ∙ rw append_assoc)

-- The hub after one packet of a group.
abbrev after : Addr → GroupPacket → Group → List GroupPacket → Hub → Hub
after addr p g rest h = record h {
  groups = insert addr (record (group_apply p g) { packet = rest }) h.groups;
}

group_loop-change :
    (addr : Addr) (p : GroupPacket) (g : Group) (rest : List GroupPacket) (h : Hub)
    → IsChange p
    → lookup addr h.groups ≡ some g
    → g.packet ≡ p ∷ rest
    → group_loop addr h ≡ (ok tt, after addr p g rest h)
unfolding group_send group_receive group_loop insert
group_loop-change addr (join a c) g rest h change e q = rw (e, group_loop) (rw q)
group_loop-change addr (leave a c) g rest h change e q = rw (e, group_loop) (rw q)
group_loop-change addr (message m) g rest h change e q = elim change [ ]

group_loop-message :
    (addr : Addr) (msg : Message) (g : Group) (rest : List GroupPacket) (h : Hub)
    → AllOpen h
    → lookup addr h.groups ≡ some g
    → g.packet ≡ message msg ∷ rest
    → group_loop addr h
      ≡ (ok tt, sending (after addr (message msg) g rest h) (pushes msg (values g.members)))
unfolding group_send group_receive group_loop insert
group_loop-message addr msg g rest h open_all e q =
    rw (e, group_loop)
      (rw q (push_all msg (values g.members) (after addr (message msg) g rest h) open_all))

lookup-group_apply :
    (k : Key) (p : GroupPacket) (ps : List GroupPacket) (g : Group)
    → last_conn k ps (lookup k (group_apply p g).members)
      ≡ last_conn k (p ∷ ps) (lookup k g.members)
unfolding group_apply
lookup-group_apply k (message m) ps g = refl
lookup-group_apply k (join a c) ps g = rw (lookup-insert a k c g.members)
lookup-group_apply k (leave a c) ps g = rw (lookup-remove a k g.members)

group_apply-Unique :
    (p : GroupPacket) (g : Group) → Unique g.members → Unique (group_apply p g).members
unfolding group_apply
group_apply-Unique (message m) g u = u
group_apply-Unique (join a c) g u = insert-Unique a c g.members u
group_apply-Unique (leave a c) g u = remove-Unique a g.members u

-- Where all connections are open and a group has joins and leaves in its channel and then a message,
-- as many rounds of its loop push the message once to each member and to no one else: to those whose
-- last packet is a join, or who have none and were members before.
pub group_loop-FanOut :
    (addr : Addr) (ps : List GroupPacket) (msg : Message) (rest : List GroupPacket) (g : Group)
    (h : Hub)
    → AllOpen h
    → lookup addr h.groups ≡ some g
    → Unique g.members
    → g.packet ≡ ps ++ (message msg ∷ rest)
    → All IsChange ps
    → (h' : Hub) × (members : Dict ℕ) × (for_each
          (ps ++ (message msg ∷ []))
          (λ _. group_loop addr)
          h
        ≡ (ok tt, h'))
      × (h'.sent ≡ h.sent ++ pushes msg (values members))
      × Unique members
      × ((k : Key) → lookup k members ≡ last_conn k ps (lookup k g.members))
group_loop-FanOut addr [] msg rest g h open_all e u q changes = (
  sending (after addr (message msg) g rest h) (pushes msg (values g.members)),
  g.members,
  rw (group_loop-message addr msg g rest h open_all e q),
  refl,
  u,
  λ k. refl,
)
group_loop-FanOut addr (p ∷ ps) msg rest g h open_all e u q changes =
    let r = ps ++ (message msg ∷ rest) in
    let g' : Group = record (group_apply p g) { packet = r } in
    let found : lookup addr (after addr p g r h).groups ≡ some g' =
      lookup-insert addr addr g' h.groups ∙ rw (same_refl addr) in
    let (h', members, run, s, v, l) =
      group_loop-FanOut addr ps msg rest g' (after addr p g r h) open_all found
        (group_apply-Unique p g u) refl changes.1 in
    (
      h',
      members,
      rw (group_loop-change addr p g r h changes.0 e q) run,
      s,
      v,
      λ k. l k ∙ lookup-group_apply k p ps g,
    )
