-- ===== src/Server/Effects.antt =====
-- core/server.go: what `handleRequest` may do to the bans.
use mango_waf.Pipeline.Process.{process}
use mango_waf.Request.{Request}
use mango_waf.Pipeline.Bans.{is_whitelisted, increment_conn_count}
use mango_waf.Server.{
  count_request, is_logo, handle_form, is_form, handle_checked, on_verify_failed, handle_request,
  act_on_answer, serve_verified, refuse, Counts, escalate, handle_from, act_as, extract_ip, Outside,
  Verified, solved, refused, ignored, crashed,
}
use mango_waf.Shards.{fnv32a, load}
use mango_waf.Pipeline.Safety.{has_valid_proof-Safe, ban_unless_trusted-Safe, process-Keeps}
use mango_waf.Pipeline.BanSafety.{
  put_state-Safe, get_state-Safe, ban_ip_local-Safe, is_trusted_proxy-Safe,
}
use mango_waf.Common.Bytes.{str_eq, Str}
use mango_waf.Pipeline.{Pipeline, Action, ActionType, Fingerprint, Engines, Env}
use mango_waf.Pipeline.{ActionType, allow, challenge, block, rate_limit, drop}
use mango_waf.Common.{
  subst, true, false, none, some, Option, ◌≡◌, sym, inl, inr, refl, Bool-cases, ◌≢◌,
}
use mango_waf.Pipeline.BanLaws.{
  Keeps-trans, Keeps, outputs, if-Safe, then-Safe, read-Safe, bind-Safe, pure-Safe, Safe,
}

module _ (ip : Str) (env : Env) where
  increment_conn_count-Safe : (j : Str) → Safe ip (increment_conn_count env j)
  unfolding increment_conn_count
  increment_conn_count-Safe j =
      search (bind-Safe, then-Safe, get_state-Safe, put_state-Safe, pure-Safe) depth 10

  pub extract_ip-Safe :
      (split_host_port : Str → Option Str) (remote_addr : Str) (r : Request)
      → Safe ip (extract_ip env split_host_port remote_addr r)
  unfolding extract_ip
  extract_ip-Safe split_host_port remote_addr r =
      search (bind-Safe, is_trusted_proxy-Safe, read-Safe, pure-Safe) depth 10

module _ (env : Env) (engines : Engines) (o : Outside) (r : Request) (ip : Str) where
  ruleset steps = (
    pure-Safe, read-Safe, bind-Safe, then-Safe, if-Safe, is_trusted_proxy-Safe, ban_ip_local-Safe,
    increment_conn_count-Safe, ban_unless_trusted-Safe, has_valid_proof-Safe,
  )

  serve_verified-Safe : (c : Counts) → Safe ip (serve_verified env engines o r ip c)
  unfolding serve_verified
  serve_verified-Safe c = search steps depth 14

  escalate-Safe : Safe ip (escalate env engines o r ip)
  unfolding escalate
  escalate-Safe = search steps depth 14

  refuse-Safe : (a : Action) (c : Counts) → Safe ip (refuse env engines o r ip a c)
  unfolding refuse
  refuse-Safe a c = search steps depth 14

  act_as-Safe :
      (k : ActionType) (a : Action) (c : Counts) → Safe ip (act_as env engines o r ip k a c)
  unfolding act_as
  act_as-Safe allow a c = pure-Safe ip _
  act_as-Safe challenge a c = then-Safe ip _ _ escalate-Safe (pure-Safe ip _)
  act_as-Safe block a c = refuse-Safe a c
  act_as-Safe rate_limit a c = refuse-Safe a c
  act_as-Safe drop a c = refuse-Safe a c

  act_on_answer-Safe :
      (answer : Option Action) (c : Counts) → Safe ip (act_on_answer env engines o r ip answer c)
  unfolding act_on_answer
  act_on_answer-Safe none c = pure-Safe ip _
  act_on_answer-Safe (some a) c = act_as-Safe a.kind a c

  process-Safe : (fp : Option Fingerprint) → Safe ip (process env engines r ip fp)
  process-Safe fp = record { keeps = process-Keeps env engines r ip fp }

  pub on_verify_failed-Safe : (c : Counts) → Safe ip (on_verify_failed env engines o r ip c)
  unfolding on_verify_failed
  on_verify_failed-Safe c = search steps depth 14

  handle_checked-Safe :
      (fp : Option Fingerprint) (c : Counts) → Safe ip (handle_checked env engines o r ip fp c)
  unfolding handle_checked
  handle_checked-Safe fp c =
      search (steps, process-Safe, serve_verified-Safe, act_on_answer-Safe) depth 14

  handle_form-Safe :
      (v : Verified) (fp : Option Fingerprint) (c : Counts)
      → v ≢ solved
      → Safe ip (handle_form env engines o r ip v fp c)
  unfolding handle_form
  handle_form-Safe solved fp c unsolved = absurd (unsolved refl)
  handle_form-Safe refused fp c unsolved =
      bind-Safe ip _ _ (on_verify_failed-Safe c) (handle_checked-Safe fp)
  handle_form-Safe ignored fp c unsolved = handle_checked-Safe fp c
  handle_form-Safe crashed fp c unsolved = pure-Safe ip _

  pub handle_from-Safe :
      (fp : Option Fingerprint) (c : Counts)
      → (is_form r ≡ true → o.verify_form r ip ≢ solved)
      → Safe ip (handle_from env engines o r ip fp c)
  unfolding handle_from
  handle_from-Safe fp c unsolved = elim (Bool-cases (is_form r)) [
    | inl form ↦ rw form (
        if-Safe ip (is_logo r.path) _ _ (pure-Safe ip _)
          (handle_form-Safe (o.verify_form r ip) fp (count_request r c) (unsolved form)))
    | inr other ↦ rw other (
        if-Safe ip (is_logo r.path) _ _ (pure-Safe ip _)
          (handle_checked-Safe fp (count_request r c)))
  ]

module _ (env : Env) (engines : Engines) (o : Outside) (split_host_port : Str → Option Str)
    (remote_addr : Str) (r : Request) (fp : Option Fingerprint) (c : Counts) (ip : Str)
    (p : Pipeline) (address : (extract_ip env split_host_port remote_addr r p).0 ≡ ip)
    (unsolved : is_form r ≡ true → o.verify_form r ip ≢ solved) where
  handle_request-Keeps :
      Keeps ip p (handle_request env engines o split_host_port remote_addr r fp c p).1
  unfolding handle_request
  handle_request-Keeps =
      let first = extract_ip env split_host_port remote_addr r p in
      Keeps-trans ip p first.1 _ ((extract_ip-Safe ip env split_host_port remote_addr r).keeps p) (
        subst (λ (j : Str). Keeps ip first.1 (handle_from env engines o r j fp c first.1).1)
          (sym address) ((handle_from-Safe env engines o r ip fp c unsolved).keeps first.1))

  -- Whatever a whitelisted client sends but a form that solves a challenge, which unbans its address, nothing
  -- leaves the pipeline for it: neither a layer of the pipeline nor the handler's own escalations, a third
  -- failed challenge among them, put its address into the ban map, the kernel map or a queue.
  pub outputs-handle_request :
      is_whitelisted ip p ≡ true
      → outputs (handle_request env engines o split_host_port remote_addr r fp c p).1 ≡ outputs p
  outputs-handle_request h = handle_request-Keeps.spared h

  -- A request that solves no form leaves the ban of every address but its client's as it was.
  pub banned-handle_request :
      (j : Str)
      → str_eq ip j ≡ false
      → load fnv32a j (handle_request env engines o split_host_port remote_addr r fp c p).1.banned
        ≡ load fnv32a j p.banned
  banned-handle_request j h = handle_request-Keeps.others j h
