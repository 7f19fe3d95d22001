-- ===== src/Mesh/Bans.antt =====
-- cluster/gossip.go and core/pipeline.go together: a ban that reaches a node is not announced again, an unban is.
use mango_waf.Common.{
  ap, ℕ, ◌+◌, ◌≤◌, ◌≡◌, refl, ◌∙◌, false, ◌||◌, some, List, [], ◌∷◌, ◌++◌, ltb, arith, Bool-cases,
  inl, inr,
}
use mango_waf.Common.Bytes.{Str, codes, str_eq, str_eq→≡}
use mango_waf.Pipeline.{Pipeline, Env, Broadcast, ban, unban}
use mango_waf.Pipeline.Bans.{
  get_state, is_trusted_proxy, is_whitelisted, record_ban, push_xdp, push_queue, push_ban,
  push_cloudflare, ban_ip, ban_ip_remote, broadcast, unban_ip, unban_all_ips,
}
use mango_waf.Mesh.{notify_ban, handle, ban_message, unban_message}
use mango_waf.Mesh.Exchange.{Node, message_of, receive, receive_lem}

-- The methods of a ban put nothing on the broadcast queue.
module _ (env : Env) (ip : Str) where
  is_trusted_proxy-mesh : (p : Pipeline) → (is_trusted_proxy env ip p).1.mesh ≡ p.mesh
  unfolding is_trusted_proxy get_state
  is_trusted_proxy-mesh p = ground arith

  record_ban-mesh : (duration : ℕ) (p : Pipeline) → (record_ban env ip duration p).mesh ≡ p.mesh
  unfolding record_ban
  record_ban-mesh duration p = ground arith

  push_ban-mesh : (duration : ℕ) (p : Pipeline) → (push_ban env ip duration p).1.mesh ≡ p.mesh
  unfolding push_ban push_xdp push_queue
  push_ban-mesh duration p = ground (arith, is_trusted_proxy-mesh p)

  banning-mesh :
      (duration : ℕ) (p : Pipeline)
      → (push_cloudflare env ip (push_ban env ip duration (record_ban env ip duration p)).1).mesh
        ≡ p.mesh
  unfolding push_cloudflare
  banning-mesh duration p =
      push_ban-mesh duration (record_ban env ip duration p) ∙ record_ban-mesh duration p

  ban_ip-mesh : (duration : ℕ) (p : Pipeline) → (ban_ip env ip duration p).1.mesh ≡ p.mesh
  unfolding ban_ip
  ban_ip-mesh duration p =
      let q = (is_trusted_proxy env ip p).1 in
      let t = is_trusted_proxy-mesh p in
      elim (Bool-cases ((is_trusted_proxy env ip p).0 || is_whitelisted ip q)) [
        | inl b ↦ rw b t
        | inr b ↦ rw b (banning-mesh duration q ∙ t)
      ]

  pub ban_ip_remote-mesh :
      (duration : ℕ) (p : Pipeline) → (ban_ip_remote env ip duration p).1.mesh ≡ p.mesh
  unfolding ban_ip_remote
  ban_ip_remote-mesh duration p =
      let q = (is_trusted_proxy env ip p).1 in
      let t = is_trusted_proxy-mesh p in
      elim (Bool-cases ((is_trusted_proxy env ip p).0 || is_whitelisted ip q)) [
        | inl b ↦ rw b t
        | inr b ↦ rw b (ban_ip-mesh duration q ∙ t)
      ]

-- What a broadcast that is heeded adds to the queue of the node that receives it.
abbrev pub answered : Broadcast → List Broadcast → List Broadcast
answered (ban ip duration) queue = queue
answered (unban ip) queue = queue ++ unban ip ∷ []

module _ (env : Env) where
  unban_ip-mesh :
      (ip : Str) (p : Pipeline) (queue : List Broadcast)
      → p.mesh ≡ some queue
      → (unban_ip env ip p).mesh ≡ some (queue ++ unban ip ∷ [])
  unfolding unban_ip broadcast
  unban_ip-mesh ip p queue e = rw e refl

  unban_all_ips-mesh :
      (p : Pipeline) (queue : List Broadcast)
      → p.mesh ≡ some queue
      → (unban_all_ips env p).mesh ≡ some (queue ++ unban (codes "all") ∷ [])
  unfolding unban_all_ips broadcast
  unban_all_ips-mesh p queue e = rw e refl

  -- The second node heeds what the first one sends at a second: their names differ, and it is not a minute late.
  pub record IsHeeded (sent : ℕ) (from to : Node) : Type 0 where
    pub named : str_eq from.mesh.node_name to.mesh.node_name ≡ false
    pub fresh : env.now_sec ≤ sent + 60

  handled-mesh :
      (sent : ℕ) (from to : Node) (x : Broadcast) (queue : List Broadcast)
      → IsHeeded sent from to
      → to.pipeline.mesh ≡ some queue
      → (handle env (notify_ban env.now_sec (message_of sent from.mesh x) to.mesh) to.pipeline).mesh
        ≡ some (answered x queue)
  unfolding handle notify_ban message_of ban_message unban_message str_eq
  handled-mesh sent from to (ban ip duration) queue h e =
      let fresh : ltb (sent + 60) env.now_sec ≡ false = ground (arith, h.fresh) in
      rw (h.named, fresh) (ban_ip_remote-mesh env ip duration to.pipeline ∙ e)
  handled-mesh sent from to (unban ip) queue h e =
      let fresh : ltb (sent + 60) env.now_sec ≡ false = ground (arith, h.fresh) in
      elim (Bool-cases (str_eq ip (codes "all"))) [
        | inl b ↦
            let all = str_eq→≡ ip (codes "all") b in
            rw (h.named, fresh, all) (unban_all_ips-mesh to.pipeline queue e)
        | inr b ↦ rw (h.named, fresh, b) (rw b (unban_ip-mesh ip to.pipeline queue e))
      ]

  pub receive-mesh :
      (sent : ℕ) (from to : Node) (x : Broadcast) (queue : List Broadcast)
      → IsHeeded sent from to
      → to.pipeline.mesh ≡ some queue
      → (receive env (message_of sent from.mesh x) to).pipeline.mesh ≡ some (answered x queue)
  receive-mesh sent from to x queue h e =
      ap (λ (n : Node). n.pipeline.mesh) (receive_lem env sent from to x)
      ∙ handled-mesh sent from to x queue h e

  pub receive-node_name :
      (sent : ℕ) (from to : Node) (x : Broadcast)
      → (receive env (message_of sent from.mesh x) to).mesh.node_name ≡ to.mesh.node_name
  receive-node_name sent from to x =
      ap (λ (n : Node). n.mesh.node_name) (receive_lem env sent from to x)
