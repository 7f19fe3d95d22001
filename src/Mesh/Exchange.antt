-- ===== src/Mesh/Exchange.antt =====
-- cluster/gossip.go and core/pipeline.go together: what two nodes of a mesh send each other.
use mango_waf.Common.{
  lt→ltb, ap, ℕ, ◌+◌, ◌<◌, ◌≡◌, ◌⊎◌, refl, ◌∙◌, true, false, some, arith, Bool-cases, inl, inr,
}
use mango_waf.Common.Bytes.{str_eq_refl, codes, str_eq, is_empty}
use mango_waf.Pipeline.{Pipeline, Env, Broadcast, ban, unban}
use mango_waf.Mesh.{
  no_call, Message, MeshNode, Call, notify_msg, notify_ban, handle, ban_message, unban_message,
}

-- A node of the mesh with its pipeline, whose calls of `BroadcastBan` and `BroadcastUnban` wait to be sent.
pub record Node : Type 0 where
  pub mesh : MeshNode
  pub pipeline : Pipeline

unfoldable pub message_of : ℕ → MeshNode → Broadcast → Message
unfolding ban_message unban_message
message_of sent n (ban ip duration) = ban_message sent n ip duration
message_of sent n (unban ip) = unban_message sent n ip

unfoldable pub receive : Env → Message → Node → Node
unfolding notify_msg handle
receive env w node =
    let (mesh, call) = notify_msg env.now env.now_sec (some w) node.mesh in
    record { mesh = mesh; pipeline = handle env call node.pipeline }

-- One transmission of a broadcast of the first node, sent at a second, as it changes the second node. When and how
-- often memberlist transmits a broadcast is its own affair.
unfoldable pub exchange : Env → ℕ → Node → Broadcast → Node → Node
unfolding receive message_of
exchange env sent a x b = receive env (message_of sent a.mesh x) b

message_of-action :
    (sent : ℕ) (n : MeshNode) (x : Broadcast) → is_empty (message_of sent n x).action ≡ false
unfolding message_of ban_message unban_message
message_of-action sent n (ban ip duration) = refl
message_of-action sent n (unban ip) = elim (Bool-cases (str_eq ip (codes "all"))) [
  | inl b ↦ rw b refl
  | inr b ↦ rw b refl
]

message_of-source :
    (sent : ℕ) (n : MeshNode) (x : Broadcast) → (message_of sent n x).source ≡ n.node_name
unfolding message_of ban_message unban_message
message_of-source sent n (ban ip duration) = refl
message_of-source sent n (unban ip) = refl

message_of-sent_at :
    (sent : ℕ) (n : MeshNode) (x : Broadcast) → (message_of sent n x).sent_at ≡ sent
unfolding message_of ban_message unban_message
message_of-sent_at sent n (ban ip duration) = refl
message_of-sent_at sent n (unban ip) = refl

message_of-domain :
    (sent : ℕ) (n : MeshNode) (x : Broadcast) → is_empty (message_of sent n x).domain ≡ true
unfolding message_of ban_message unban_message
message_of-domain sent n (ban ip duration) = refl
message_of-domain sent n (unban ip) = refl

-- A ban or an unban is neither taken for the metrics of a domain nor for an alert.
pub notify_msg-message_of :
    (now now_sec sent : ℕ) (n to : MeshNode) (x : Broadcast)
    → notify_msg now now_sec (some (message_of sent n x)) to
      ≡ (to, notify_ban now_sec (message_of sent n x) to)
unfolding notify_msg
notify_msg-message_of now now_sec sent n to x =
    let d = message_of-domain sent n x in
    let a = message_of-action sent n x in rw (d, a) (ground arith)

notify_ban-ignored :
    (now_sec : ℕ) (w : Message) (n : MeshNode)
    → (w.source ≡ n.node_name) ⊎ (w.sent_at + 60 < now_sec)
    → notify_ban now_sec w n ≡ no_call
unfolding notify_ban
notify_ban-ignored now_sec w n (inl e) = rw (e, str_eq_refl n.node_name) refl
notify_ban-ignored now_sec w n (inr late) = elim (Bool-cases (str_eq w.source n.node_name)) [
  | inl b ↦ rw b refl
  | inr b ↦ rw (b, lt→ltb (w.sent_at + 60) now_sec late) refl
]

module _ (env : Env) (sent : ℕ) (from to : Node) (x : Broadcast) where
  pub receive_lem : receive env (message_of sent from.mesh x) to ≡ record to {
    pipeline =
        handle env (notify_ban env.now_sec (message_of sent from.mesh x) to.mesh) to.pipeline;
  }
  unfolding receive
  receive_lem =
      ap (λ (r : MeshNode × Call). record { mesh = r.0; pipeline = handle env r.1 to.pipeline })
        (notify_msg-message_of env.now env.now_sec sent from.mesh to.mesh x)

  -- A message under the node's own name, and one that is older than a minute, change nothing.
  pub receive-ignored :
      (from.mesh.node_name ≡ to.mesh.node_name) ⊎ (sent + 60 < env.now_sec)
      → receive env (message_of sent from.mesh x) to ≡ to
  unfolding handle
  receive-ignored h =
      let source = message_of-source sent from.mesh x in
      let at = message_of-sent_at sent from.mesh x in
      let ignored =
        notify_ban-ignored env.now_sec (message_of sent from.mesh x) to.mesh (rw (source, at) h) in
      receive_lem ∙ rw ignored refl
