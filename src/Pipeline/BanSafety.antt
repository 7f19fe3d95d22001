-- ===== src/Pipeline/BanSafety.antt =====
-- The methods on bans and states keep the bans of the other addresses, and do nothing to an address
-- of the static whitelist.
use mango_waf.Common.{
  ℕ, ◌+◌, ◌≡◌, refl, ◌∙◌, ◌⊎◌, Bool, true, false, ◌||◌, arith, ltb, if◌then◌else◌, Bool-cases,
  Option-cases, inl, inr,
}
use mango_waf.Common.Bytes.{Str, is_empty}
use mango_waf.Shards.{fnv32a, load, load_or_store}
use mango_waf.Shards.Laws.{load-store, load-remove, load-load_or_store}
use mango_waf.Pipeline.{IpState, ban, Pipeline, Env, ◌>>◌, pure, modify}
use mango_waf.Pipeline.Bans.{
  get_state, put_state, is_trusted_proxy, get_conn_count, is_whitelisted, drop_expired_ban,
  is_banned, record_ban, push_xdp, push_queue, push_ban, push_cloudflare, ban_ip, broadcast,
  ban_ip_local, has_dynamic_whitelist, check_is_trusted_proxy, ban_ip_remote,
}
use mango_waf.Pipeline.BanLaws.{
  Keeps, Safe, Keeps-refl, Keeps-trans, whitelisted-eq, pure-Safe, bind-Safe, if-Safe, guarded-Safe,
}

module _ (env : Env) (ip : Str) where
  pub get_state-Safe : (j : Str) → Safe ip (get_state env j)
  unfolding get_state
  get_state-Safe j = record {
    keeps = λ p. record { cfg = refl; spared = λ h. refl; others = λ k h. refl };
  }

  pub put_state-Safe : (j : Str) (s : IpState) → Safe ip (modify (put_state env j s))
  unfolding put_state
  put_state-Safe j s = record {
    keeps = λ p. record { cfg = refl; spared = λ h. refl; others = λ k h. refl };
  }

  pub is_trusted_proxy-Safe : (j : Str) → Safe ip (is_trusted_proxy env j)
  unfolding is_trusted_proxy
  is_trusted_proxy-Safe j =
      if-Safe ip (is_empty j) _ _ (pure-Safe ip false)
        (bind-Safe ip (get_state env j) _ (get_state-Safe j) (λ s. pure-Safe ip s.is_trusted_proxy))

  pub get_conn_count-Safe : (j : Str) → Safe ip (get_conn_count env j)
  unfolding get_conn_count
  get_conn_count-Safe j =
      bind-Safe ip (get_state env j) _ (get_state-Safe j) (λ s. pure-Safe ip s.active_conns)

  pub has_dynamic_whitelist-Safe : (j : Str) → Safe ip (has_dynamic_whitelist env j)
  unfolding has_dynamic_whitelist
  has_dynamic_whitelist-Safe j = record {
    keeps = λ p. elim (Option-cases (load fnv32a j p.whitelist)) [
      | inl e ↦ rw (e, has_dynamic_whitelist) (Keeps-refl ip p)
      | inr (t, e) ↦
          rw (e, has_dynamic_whitelist)
            (elim (Bool-cases (ltb t env.now)) [
              | inl late ↦ rw late (record { cfg = refl; spared = λ h. refl; others = λ k h. refl })
              | inr early ↦ rw early (Keeps-refl ip p)
            ])
    ];
  }

  drop_expired_ban-Keeps :
      (p : Pipeline) → is_whitelisted ip p ≡ false → Keeps ip p (drop_expired_ban env ip p).1
  unfolding drop_expired_ban
  drop_expired_ban-Keeps p w = elim (Option-cases (load fnv32a ip p.banned)) [
    | inl e ↦ rw (e, drop_expired_ban) (Keeps-refl ip p)
    | inr (t, e) ↦
        rw (e, drop_expired_ban)
          (elim (Bool-cases (ltb t env.now)) [
            | inl late ↦ rw late (record {
              cfg = refl;
              spared = λ h. cc;
              others = λ j h. load-remove fnv32a j ip p.banned ∙ rw h refl;
            })
            | inr early ↦ rw early (Keeps-refl ip p)
          ])
  ]

  record_ban-Keeps :
      (duration : ℕ) (p : Pipeline)
      → is_whitelisted ip p ≡ false
      → Keeps ip p (record_ban env ip duration p)
  unfolding record_ban
  record_ban-Keeps duration p w =
      let r = load_or_store fnv32a ip (env.now + duration) p.banned in
      let fact = λ (j : Str). (load-load_or_store fnv32a j ip (env.now + duration) p.banned).0 in
      elim (Bool-cases r.1) [
        | inl old ↦ rw old (record {
          cfg = refl;
          spared = λ h. cc;
          others = λ j h. load-store fnv32a j ip _ r.2 ∙ rw h (fact j ∙ rw h refl);
        })
        | inr new ↦
            rw new (record { cfg = refl; spared = λ h. cc; others = λ j h. fact j ∙ rw h refl })
      ]

  -- The pushes touch no ban, and stand behind the guard by the whitelist.
  pushed-Keeps :
      (p q : Pipeline)
      → is_whitelisted ip p ≡ false
      → q.cfg ≡ p.cfg
      → q.banned ≡ p.banned
      → Keeps ip p q
  pushed-Keeps p q w c b = record { cfg = c; spared = λ h. cc; others = λ j h. rw b refl }

  record Stays (p q : Pipeline) : Type 0 where
    cfg : q.cfg ≡ p.cfg
    banned : q.banned ≡ p.banned

  is_trusted_proxy-Stays : (p : Pipeline) → Stays p (is_trusted_proxy env ip p).1
  unfolding is_trusted_proxy get_state
  is_trusted_proxy-Stays p = ground arith

  push_ban-Stays : (duration : ℕ) (p : Pipeline) → Stays p (push_ban env ip duration p).1
  unfolding push_ban push_xdp push_queue
  push_ban-Stays duration p = ground (arith, is_trusted_proxy-Stays p)

  banning-Keeps :
      (duration : ℕ) (p : Pipeline)
      → is_whitelisted ip p ≡ false
      → Keeps ip p
          (push_cloudflare env ip (push_ban env ip duration (record_ban env ip duration p)).1)
  unfolding push_cloudflare
  banning-Keeps duration p w =
      let q = record_ban env ip duration p in
      let h = record_ban-Keeps duration p w in
      let s = push_ban-Stays duration q in
      Keeps-trans ip p q _ h (pushed-Keeps q _ (whitelisted-eq ip p q h.cfg ∙ w) s.cfg s.banned)

  pub ban_ip-Safe : (duration : ℕ) → Safe ip (ban_ip env ip duration)
  unfolding ban_ip
  ban_ip-Safe duration =
      bind-Safe ip (is_trusted_proxy env ip) _ (is_trusted_proxy-Safe ip)
        (λ b. guarded-Safe ip b tt _ (banning-Keeps duration))

  pub is_banned-Safe : Safe ip (is_banned env ip)
  unfolding is_banned
  is_banned-Safe =
      bind-Safe ip (is_trusted_proxy env ip) _ (is_trusted_proxy-Safe ip)
        (λ b. guarded-Safe ip b false (drop_expired_ban env ip) drop_expired_ban-Keeps)

  -- The broadcast stands behind a guard of its own.
  spared_cases :
      (b c d w : Bool) → ((b || c || d || w) ≡ true) ⊎ (((b || c || d || w) ≡ false) × (w ≡ false))
  spared_cases b c d w = ground arith

  announced-Keeps :
      (duration : ℕ) (p : Pipeline)
      → is_whitelisted ip p ≡ false
      → Keeps ip p (broadcast env (ban ip duration) (ban_ip env ip duration p).1)
  unfolding broadcast
  announced-Keeps duration p w =
      let q = (ban_ip env ip duration p).1 in
      let h = (ban_ip-Safe duration).keeps p in
      Keeps-trans ip p q _ h
        (pushed-Keeps q _ (whitelisted-eq ip p q h.cfg ∙ w) (ground arith) (ground arith))

  announcing-Keeps :
      (duration : ℕ) (b : Bool) (p : Pipeline)
      → Keeps ip p
          ((if is_empty ip || b || check_is_trusted_proxy env ip p || is_whitelisted ip p
              then pure tt
              else (do ban_ip env ip duration; modify (broadcast env (ban ip duration))))
            p).1
  announcing-Keeps duration b p =
      elim (spared_cases (is_empty ip) b (check_is_trusted_proxy env ip p) (is_whitelisted ip p)) [
        | inl e ↦ rw e (Keeps-refl ip p)
        | inr (e, w) ↦ rw e (announced-Keeps duration p w)
      ]

  pub ban_ip_local-Safe : (duration : ℕ) → Safe ip (ban_ip_local env ip duration)
  unfolding ban_ip_local
  ban_ip_local-Safe duration = record {
    keeps = λ p.
        let r = is_trusted_proxy env ip p in
        Keeps-trans ip p r.1 _ ((is_trusted_proxy-Safe ip).keeps p)
          (announcing-Keeps duration r.0 r.1);
  }

  pub ban_ip_remote-Safe : (duration : ℕ) → Safe ip (ban_ip_remote env ip duration)
  unfolding ban_ip_remote
  ban_ip_remote-Safe duration =
      bind-Safe ip (is_trusted_proxy env ip) _ (is_trusted_proxy-Safe ip)
        (λ b. guarded-Safe ip b tt (ban_ip env ip duration) (λ p w. (ban_ip-Safe duration).keeps p))
