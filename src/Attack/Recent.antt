-- ===== src/Attack/Recent.antt =====
-- core/server.go: which domains are under attack, by the ticks of the detector.
use mango_waf.Common.Dict.{lookup-insert, lookup, insert, Dict}
use mango_waf.Attack.Detector.{
  is_domain_attack, new_detector, WatchedDomain, detect_domain, detect, judge_domain,
  broadcast_metric, start_attack, end_attack, currently_under_attack, Detector, Metric, Tick, Peers,
}
use mango_waf.Common.Bytes.{to_lower, str_eq_refl, str_eq, Str}
use mango_waf.Common.{
  map, take, any, value_or, ℕ, true, false, none, some, inl, inr, refl, Bool, Option, ◌≡◌, ◌+◌, leb,
  if◌then◌else◌, Bool-cases, zero, suc, [], ◌∷◌, List, ◌&&◌, ◌||◌, ltb, arith, ap, sym, ◌∙◌,
}

module _ (o : Option Peers) (m : Metric) (s : Detector) where
  broadcast-under : (broadcast_metric o m s).domain_under_attack ≡ s.domain_under_attack
  broadcast-under =
      elim o as (λ o. (broadcast_metric o m s).domain_under_attack ≡ s.domain_under_attack) [
        | none ↦ refl
        | some p ↦ refl
      ]

  broadcast-normal : (broadcast_metric o m s).domain_normal_count ≡ s.domain_normal_count
  broadcast-normal =
      elim o as (λ o. (broadcast_metric o m s).domain_normal_count ≡ s.domain_normal_count) [
        | none ↦ refl
        | some p ↦ refl
      ]

-- Whether a domain is under attack, and how many calm ticks have passed since.
abbrev pub normal_count : Str → Detector → ℕ
normal_count d s = value_or 0 (lookup d s.domain_normal_count)

abbrev pub view : Str → Detector → Bool × ℕ
view d s = (currently_under_attack d s, normal_count d s)

abbrev pub calm_step : Bool → Bool × ℕ → Bool × ℕ
calm_step true (u, c) = (true, 0)
calm_step false (true, c) = if leb 10 (c + 1) then (false, 0) else (true, c + 1)
calm_step false (false, c) = (false, c)

value_or-insert :
    {V : Type 0} (default : V) (e d : Str) (v : V) (m : Dict V)
    → value_or default (lookup e (insert d v m))
      ≡ (if str_eq d e then v else value_or default (lookup e m))
value_or-insert default e d v m =
    rw (lookup-insert e d v m) (elim (Bool-cases (str_eq d e)) [ inl h ↦ rw h | inr h ↦ rw h ])

module _ (t : Tick) (d e : Str) (s : Detector) where
  start_attack-view :
      view e (start_attack t d s) ≡ (if str_eq d e then (true, normal_count e s) else view e s)
  unfolding start_attack currently_under_attack
  start_attack-view =
      rw (value_or-insert false e d true s.domain_under_attack)
        (elim (Bool-cases (str_eq d e)) [ inl h ↦ rw h | inr h ↦ rw h ])

  pub end_attack-view : view e (end_attack t d s) ≡ (if str_eq d e then (false, 0) else view e s)
  unfolding end_attack currently_under_attack
  end_attack-view =
      rw
        (
          broadcast-under t.mesh (record { domain = d; rps = 0; conns = 0; ended = true })
              (record s { domain_under_attack = insert d false s.domain_under_attack }),
          value_or-insert false e d false s.domain_under_attack,
          value_or-insert 0 e d 0 s.domain_normal_count,
        )
        (elim (Bool-cases (str_eq d e)) [ inl h ↦ rw h | inr h ↦ rw h ])

  set_count-view :
      (n : ℕ)
      → view e (record s { domain_normal_count = insert d n s.domain_normal_count })
        ≡ (if str_eq d e then (currently_under_attack e s, n) else view e s)
  unfolding currently_under_attack
  set_count-view n =
      rw (value_or-insert 0 e d n s.domain_normal_count)
        (elim (Bool-cases (str_eq d e)) [ inl h ↦ rw h | inr h ↦ rw h ])

abbrev pub counted : Str → ℕ → Detector → Detector
counted d n s = record s { domain_normal_count = insert d n s.domain_normal_count }

judge_self :
    (t : Tick) (d : Str) (attack : Bool) (s : Detector)
    → view d (judge_domain t d attack s) ≡ calm_step attack (view d s)
unfolding judge_domain
judge_self t d true s = elim (Bool-cases (currently_under_attack d s)) [
  | inl u ↦ rw (u, set_count-view t d d s 0, str_eq_refl d, u)
  | inr u ↦ rw (
    u,
    start_attack-view t d d (counted d 0 s),
    str_eq_refl d,
    value_or-insert 0 d d 0 s.domain_normal_count,
    str_eq_refl d,
  )
]
judge_self t d false s = elim (Bool-cases (currently_under_attack d s)) [
  | inr u ↦ rw u (ap (λ (b : Bool). (b, normal_count d s)) u)
  | inl u ↦ elim (Bool-cases (leb 10 (normal_count d s + 1))) [
    | inl over ↦
        rw (u, over, end_attack-view t d d (counted d (normal_count d s + 1) s), str_eq_refl d)
    | inr more ↦ rw (u, more, set_count-view t d d s (normal_count d s + 1), str_eq_refl d, u)
  ]
]

judge_other :
    (t : Tick) (d e : Str) (attack : Bool) (s : Detector)
    → str_eq d e ≡ false
    → view e (judge_domain t d attack s) ≡ view e s
unfolding judge_domain
judge_other t d e true s h = elim (Bool-cases (currently_under_attack d s)) [
  | inl u ↦ rw (u, set_count-view t d e s 0, h)
  | inr u ↦ rw (u, start_attack-view t d e (counted d 0 s), h, set_count-view t d e s 0, h)
]
judge_other t d e false s h = elim (Bool-cases (currently_under_attack d s)) [
  | inr u ↦ rw u
  | inl u ↦ elim (Bool-cases (leb 10 (normal_count d s + 1))) [
    | inl over ↦ rw (
      u,
      over,
      end_attack-view t d e (counted d (normal_count d s + 1) s),
      h,
      set_count-view t d e s (normal_count d s + 1),
      h,
    )
    | inr more ↦ rw (u, more, set_count-view t d e s (normal_count d s + 1), h)
  ]
]

broadcast-view :
    (o : Option Peers) (m : Metric) (e : Str) (s : Detector)
    → view e (broadcast_metric o m s) ≡ view e s
unfolding currently_under_attack
broadcast-view none m e s = refl
broadcast-view (some p) m e s = refl

module _ (rps_threshold : ℕ) (t : Tick) where
  detect_domain_self :
      (d : WatchedDomain) (s : Detector)
      → view (to_lower d.name) (detect_domain rps_threshold t d s)
        ≡ calm_step (is_domain_attack rps_threshold t d) (view (to_lower d.name) s)
  unfolding detect_domain
  detect_domain_self d s =
      judge_self t (to_lower d.name) (is_domain_attack rps_threshold t d) _
      ∙ ap (calm_step (is_domain_attack rps_threshold t d))
          (broadcast-view t.mesh _ (to_lower d.name) s)

  detect_domain_other :
      (d : WatchedDomain) (e : Str) (s : Detector)
      → str_eq (to_lower d.name) e ≡ false
      → view e (detect_domain rps_threshold t d s) ≡ view e s
  unfolding detect_domain
  detect_domain_other d e s h =
      judge_other t (to_lower d.name) e (is_domain_attack rps_threshold t d) _ h
      ∙ broadcast-view t.mesh _ e s

  detect_apart :
      (e : Str) (ds : List WatchedDomain) (s : Detector)
      → any (λ (d : WatchedDomain). str_eq (to_lower d.name) e) ds ≡ false
      → view e (detect rps_threshold t ds s) ≡ view e s
  unfolding detect
  detect_apart e [] s h = refl
  detect_apart e (d ∷ ds) s h =
      detect_apart e ds (detect_domain rps_threshold t d s) (ground (arith, h))
      ∙ detect_domain_other d e s (ground (arith, h))

-- The domain stands in the list, and no other of the same name does.
pub data Only (d : WatchedDomain) : List WatchedDomain → Type 0 where
  first :
      (ds : List WatchedDomain)
      → any (λ (e : WatchedDomain). str_eq (to_lower e.name) (to_lower d.name)) ds ≡ false
      → Only d (d ∷ ds)
  later :
      (e : WatchedDomain) {ds : List WatchedDomain}
      → str_eq (to_lower e.name) (to_lower d.name) ≡ false
      → Only d ds
      → Only d (e ∷ ds)

detect-Only :
    (rps_threshold : ℕ) (t : Tick) (d : WatchedDomain) {ds : List WatchedDomain} (s : Detector)
    → Only d ds
    → view (to_lower d.name) (detect rps_threshold t ds s)
      ≡ calm_step (is_domain_attack rps_threshold t d) (view (to_lower d.name) s)
unfolding detect
detect-Only rps_threshold t d s (first ds h) =
    detect_apart rps_threshold t (to_lower d.name) ds (detect_domain rps_threshold t d s) h
    ∙ detect_domain_self rps_threshold t d s
detect-Only rps_threshold t d s (later e h o) =
    detect-Only rps_threshold t d (detect_domain rps_threshold t e s) o
    ∙ ap (calm_step (is_domain_attack rps_threshold t d))
        (detect_domain_other rps_threshold t e (to_lower d.name) s h)

-- The detector after some ticks, the newest first.
abbrev pub after_ticks : ℕ → List WatchedDomain → List Tick → Detector
after_ticks rps_threshold ds [] = new_detector
after_ticks rps_threshold ds (t ∷ ts) = detect rps_threshold t ds (after_ticks rps_threshold ds ts)

-- The calm ticks since the last attack, and the state of one domain after the ticks.
abbrev calm : List Bool → ℕ
calm [] = 0
calm (true ∷ bs) = 0
calm (false ∷ bs) = calm bs + 1

abbrev id : Bool → Bool
id b = b

any-take : (n : ℕ) (bs : List Bool) → any id (take n bs) ≡ (any id bs && ltb (calm bs) n)
any-take zero [] = refl
any-take zero (true ∷ bs) = refl
any-take zero (false ∷ bs) = ground arith
any-take (suc n) [] = refl
any-take (suc n) (true ∷ bs) = ground arith
any-take (suc n) (false ∷ bs) = ground (arith, any-take n bs)

abbrev calm_run : List Bool → Bool × ℕ
calm_run [] = (false, 0)
calm_run (b ∷ bs) = calm_step b (calm_run bs)

-- The state that a history leads to.
abbrev Led : List Bool → Bool × ℕ → Type 0
Led bs r = (r.0 ≡ (any id bs && ltb (calm bs) 10)) × (r.0 ≡ true → r.1 ≡ calm bs)

calm_step-Led :
    (bs : List Bool) (u : Bool) (c : ℕ) → Led bs (u, c) → Led (false ∷ bs) (calm_step false (u, c))
calm_step-Led bs true c (h, k) =
    let same = k refl in (ground (arith, h, same), λ u. ground (arith, h, same, u))
calm_step-Led bs false c (h, k) = (ground (arith, h), λ u. cc)

calm_run-Led : (bs : List Bool) → Led bs (calm_run bs)
calm_run-Led [] = (refl, λ u. cc)
calm_run-Led (true ∷ bs) = (refl, λ u. refl)
calm_run-Led (false ∷ bs) = calm_step-Led bs (calm_run bs).0 (calm_run bs).1 (calm_run-Led bs)

after_ticks-calm_run :
    (rps_threshold : ℕ) (d : WatchedDomain) {ds : List WatchedDomain} (ts : List Tick)
    → Only d ds
    → view (to_lower d.name) (after_ticks rps_threshold ds ts)
      ≡ calm_run (map (λ (t : Tick). is_domain_attack rps_threshold t d) ts)
unfolding currently_under_attack lookup
after_ticks-calm_run rps_threshold d [] o = refl
after_ticks-calm_run rps_threshold d {ds} (t ∷ ts) o =
    detect-Only rps_threshold t d (after_ticks rps_threshold ds ts) o
    ∙ ap (calm_step (is_domain_attack rps_threshold t d))
        (after_ticks-calm_run rps_threshold d ts o)

any-map :
    (f : Tick → Bool) (n : ℕ) (ts : List Tick) → any id (take n (map f ts)) ≡ any f (take n ts)
any-map f zero ts = refl
any-map f (suc n) [] = refl
any-map f (suc n) (t ∷ ts) = ap (λ (b : Bool). f t || b) (any-map f n ts)

-- A domain of the configuration whose name no other has is under attack exactly when its load was above the
-- threshold in one of the last ten ticks, whatever the other domains do.
pub currently_under_attack-after_ticks :
    (rps_threshold : ℕ) (d : WatchedDomain) (ds : List WatchedDomain) (ts : List Tick)
    → Only d ds
    → currently_under_attack (to_lower d.name) (after_ticks rps_threshold ds ts)
      ≡ any (λ (t : Tick). is_domain_attack rps_threshold t d) (take 10 ts)
currently_under_attack-after_ticks rps_threshold d ds ts o =
    let over = λ (t : Tick). is_domain_attack rps_threshold t d in
    ap (λ (v : Bool × ℕ). v.0) (after_ticks-calm_run rps_threshold d ts o)
    ∙ (calm_run-Led (map over ts)).0
    ∙ sym (any-take 10 (map over ts))
    ∙ any-map over 10 ts
