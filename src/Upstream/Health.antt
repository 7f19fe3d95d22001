-- ===== src/Upstream/Health.antt =====
-- core/upstream.go: the health checks. What a probe of a backend gives is an input.
use mango_waf.Common.{
  ◌∙◌, ap, sym, ℕ, ◌+◌, ◌≡◌, refl, Bool, true, false, not, ◌&&◌, ◌||◌, List, [], ◌∷◌, map, ltb, leb,
  ◌==◌, if◌then◌else◌, arith, Bool-cases, inl, inr,
}
use mango_waf.Common.Bytes.{Str}
use mango_waf.Common.Dict.{Dict}
use mango_waf.Upstream.{UpstreamBackend, UpstreamPool, UpstreamConfig, new_backend}

-- A URL that does not parse, a request that fails, and an answer with its status.
pub data Probe : Type 0 where
  unparsed unreachable : Probe
  answered : ℕ → Probe

-- The statuses that do not count as a failure.
unfoldable pub is_up : ℕ → Bool
is_up status =
    not (leb 500 status && not (status == 503) && (status == 500 || status == 502 || status == 504))

-- A backend after a probe that is up, or down.
unfoldable pub after_probe : Bool → UpstreamBackend → UpstreamBackend
after_probe up b = if up then record b { is_alive = true; failures = 0 } else record b {
  is_alive = if b.is_alive && leb 3 (b.failures + 1) then false else b.is_alive;
  failures = b.failures + 1;
}

unfoldable pub check_backend : Probe → UpstreamBackend → UpstreamBackend
unfolding after_probe is_up
check_backend unparsed b = b
check_backend unreachable b = after_probe false b
check_backend (answered status) b = after_probe (is_up status) b

-- One run over all pools, given the probe of each URL.
unfoldable pub run_health_checks : (Str → Probe) → Dict UpstreamPool → Dict UpstreamPool
unfolding check_backend
run_health_checks probe [] = []
run_health_checks probe ((name, pool) ∷ pools) =
    (name, record pool { backends = map (λ b. check_backend (probe b.url) b) pool.backends })
    ∷ run_health_checks probe pools

-- The probes of a backend, the oldest first.
abbrev pub check_all : List Probe → UpstreamBackend → UpstreamBackend
check_all [] b = b
check_all (p ∷ probes) b = check_all probes (check_backend p b)

-- The failures since the last probe that was up, n of them before these.
unfoldable pub failures_since : ℕ → List Probe → ℕ
unfolding is_up
failures_since n [] = n
failures_since n (unparsed ∷ probes) = failures_since n probes
failures_since n (unreachable ∷ probes) = failures_since (n + 1) probes
failures_since n (answered status ∷ probes) =
    let fresh = failures_since 0 probes in
    let more = failures_since (n + 1) probes in if is_up status then fresh else more

after_probe-counts :
    (up : Bool) (b : UpstreamBackend)
    → b.is_alive ≡ ltb b.failures 3
    → (after_probe up b).is_alive ≡ ltb (after_probe up b).failures 3
unfolding after_probe
after_probe-counts true b h = refl
after_probe-counts false b h = ground (arith, h)

-- A backend that is counted right so far is alive after more probes exactly while fewer than three have
-- failed since the last that was up.
check_all-counts :
    (probes : List Probe) (b : UpstreamBackend)
    → b.is_alive ≡ ltb b.failures 3
    → (check_all probes b).is_alive ≡ ltb (failures_since b.failures probes) 3
unfolding check_backend failures_since
check_all-counts [] b h = h
check_all-counts (unparsed ∷ probes) b h = check_all-counts probes b h
check_all-counts (unreachable ∷ probes) b h =
    check_all-counts probes (after_probe false b) (after_probe-counts false b h)
check_all-counts (answered status ∷ probes) b h =
    let up = is_up status in
    let spec = λ (c : Bool).
      ltb (if c then failures_since 0 probes else failures_since (b.failures + 1) probes) 3 in
    let next = λ (c : Bool). (check_all probes (after_probe c b)).is_alive in
    elim (Bool-cases up) [
      | inl u ↦
          ap next u
          ∙ check_all-counts probes (after_probe true b) (after_probe-counts true b h)
          ∙ sym (ap spec u)
      | inr d ↦
          ap next d
          ∙ check_all-counts probes (after_probe false b) (after_probe-counts false b h)
          ∙ sym (ap spec d)
    ]

-- A backend is taken out by three failed probes in a row and put back by the first that is up, whatever
-- probes came before; a URL that does not parse leaves it as it is.
pub check_all-new_backend :
    (u : UpstreamConfig) (probes : List Probe)
    → (check_all probes (new_backend u)).is_alive ≡ ltb (failures_since 0 probes) 3
check_all-new_backend u probes = check_all-counts probes (new_backend u) refl
