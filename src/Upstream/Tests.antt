-- ===== src/Upstream/Tests.antt =====
-- A pool of three backends, the second of which is alive.
use mango_waf.Common.{ltb, ◌<◌, ◌≡◌, refl, Bool, true, false, [], ◌∷◌, any, length, ltb→lt}
use mango_waf.Common.Bytes.{codes}
use mango_waf.Upstream.{UpstreamBackend, UpstreamPool, alive_at, next_backend, new_backend}
use mango_waf.Upstream.RoundRobin.{next_backend_lem}
use mango_waf.Upstream.Health.{
  unreachable, answered, check_all, failures_since, check_all-new_backend,
}

abbrev backend : Bool → UpstreamBackend
backend alive = record { url = codes "http://10.0.0.1"; weight = 1; is_alive = alive; failures = 0 }

abbrev pool : UpstreamPool
pool = record { backends = backend false ∷ backend true ∷ backend false ∷ []; current = 2 }

next_backend_lem_example :
    (alive_at pool.backends (next_backend pool).0 ≡ any (λ b. b.is_alive) pool.backends)
    × ((next_backend pool).1.current < length pool.backends)
next_backend_lem_example = next_backend_lem pool (ltb→lt 0 3 refl)

check_all-new_backend_example :
    (check_all
      (unreachable ∷ answered 503 ∷ unreachable ∷ answered 500 ∷ unreachable ∷ [])
      (new_backend (record { url = codes "http://10.0.0.1"; weight = 0 }))).is_alive
    ≡ ltb
        (failures_since 0
          (unreachable ∷ answered 503 ∷ unreachable ∷ answered 500 ∷ unreachable ∷ []))
        3
check_all-new_backend_example =
    check_all-new_backend (record { url = codes "http://10.0.0.1"; weight = 0 })
      (unreachable ∷ answered 503 ∷ unreachable ∷ answered 500 ∷ unreachable ∷ [])
