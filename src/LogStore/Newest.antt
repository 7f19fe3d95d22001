-- ===== src/LogStore/Newest.antt =====
-- core/logstore.go: the ring buffer set beside a list of the newest events, newest first.
use mathlib.Core.List.{reverse-append, reverse-cons}
use native.Mathlib.Nat.{mod-lt, mod_self, mod-eq_of_lt, add-mod_right}
use mango_waf.Common.{
  some, length-set, ap₂, ℕ, zero, suc, ◌+◌, ◌-◌, ◌%◌, ◌≤◌, ◌<◌, ◌≡◌, refl, ap, sym, ◌∙◌, subst,
  Bool, true, List, [], ◌∷◌, ◌++◌, reverse, ltb, ltb→lt, length, length-append, length-take,
  length-drop, get_elem?, set, take, drop, keep, append_nil, append_assoc, arith, Bool-cases, inl,
  inr,
}
use mango_waf.Common.Bytes.{Str, to_lower, to_upper, trim_space}
use mango_waf.Common.Slices.{
  take-drop, drop-beyond, take-append, drop-append, take-all, length-reverse, set-append, Around,
  around, get_elem?-append_left, get_elem?-append_right, get_elem?-reverse, drop-get_elem?,
  get_elem?-some,
}
use mango_waf.LogStore.{Event, LogStore}
use mango_waf.LogStore.Ring.{add_wanted, worker_step, is_wanted, query_from, query_logs}

abbrev pub shown : ℕ → List Event → List Event
shown h events = reverse (take h events) ++ reverse (drop h events)

-- The events held, the newest first.
abbrev pub newest : LogStore → List Event
newest ls = shown ls.head ls.events

-- The head moves only when the buffer is full.
pub record IsRing (ls : LogStore) : Type 0 where
  pub room : 0 < ls.max_cap
  pub fits : length ls.events ≤ ls.max_cap
  pub bounded : ls.head < ls.max_cap
  pub unmoved : ltb (length ls.events) ls.max_cap ≡ true → ls.head ≡ 0

shown-append : (s t : List Event) → shown (length s) (s ++ t) ≡ reverse s ++ reverse t
shown-append s t = ap₂ (λ a b. reverse a ++ reverse b) (take-append s t) (drop-append s t)

-- What is kept when the oldest event is overwritten.
take-overwritten :
    (before after : List Event) (x e : Event)
    → take (length (before ++ x ∷ after)) (e ∷ (reverse before ++ reverse (x ∷ after)))
      ≡ e ∷ (reverse before ++ reverse after)
take-overwritten before after x e =
    let kept = reverse before ++ reverse after in
    let size : length (before ++ x ∷ after) ≡ suc (length kept) = omega (
      arith,
      length-append before (x ∷ after),
      length-append (reverse before) (reverse after),
      length-reverse before,
      length-reverse after,
    ) in
    ap₂ (λ n l. take n (e ∷ l)) size
      (ap (λ l. reverse before ++ l) (reverse-cons x after)
        ∙ sym (append_assoc (reverse before) (reverse after) (x ∷ [])))
    ∙ ap (◌∷◌ e) (take-append kept (x ∷ []))

shown-written :
    (before after : List Event) (e : Event)
    → shown (length (before ++ e ∷ [])) (before ++ e ∷ after)
      ≡ e ∷ (reverse before ++ reverse after)
shown-written before after e =
    ap (shown (length (before ++ e ∷ []))) (sym (append_assoc before (e ∷ []) after))
    ∙ shown-append (before ++ e ∷ []) after
    ∙ ap (λ l. l ++ reverse after) (reverse-append before (e ∷ []))

next_shown :
    (before after : List Event) (x e : Event)
    → shown ((length before + 1) % length (before ++ x ∷ after)) (before ++ e ∷ after)
      ≡ e ∷ (reverse before ++ reverse after)
next_shown before [] x e =
    let size = length-append before (x ∷ []) in
    let start : (length before + 1) % length (before ++ x ∷ []) ≡ 0 =
      ap (λ n. n % length (before ++ x ∷ [])) (sym size) ∙ mod_self (length (before ++ x ∷ [])) in
    ap (λ h. shown h (before ++ e ∷ [])) start
    ∙ reverse-append before (e ∷ [])
    ∙ ap (◌∷◌ e) (sym (append_nil (reverse before)))
next_shown before (y ∷ ys) x e =
    let size : length before + 1 < length (before ++ x ∷ y ∷ ys) =
      omega (arith, length-append before (x ∷ y ∷ ys)) in
    let next : (length before + 1) % length (before ++ x ∷ y ∷ ys) ≡ length (before ++ e ∷ []) =
      mod-eq_of_lt size ∙ sym (length-append before (e ∷ [])) in
    ap (λ h. shown h (before ++ e ∷ y ∷ ys)) next ∙ shown-written before (y ∷ ys) e

overwritten :
    (events : List Event) (h : ℕ) (e : Event)
    → Around events h
    → shown ((h + 1) % length events) (set events h e) ≡ take (length events) (e ∷ shown h events)
overwritten events h e a =
    let at = sym a.index in
    ap₂ (λ l k. shown ((k + 1) % length l) (set l k e)) a.whole at
    ∙ ap (shown ((length a.before + 1) % length (a.before ++ a.here ∷ a.after)))
        (set-append a.before a.after a.here e)
    ∙ next_shown a.before a.after a.here e
    ∙ sym (take-overwritten a.before a.after a.here e)
    ∙ ap (λ l. take (length (a.before ++ a.here ∷ a.after)) (e ∷ l))
        (sym (shown-append a.before (a.here ∷ a.after)))
    ∙ sym (ap₂ (λ l k. take (length l) (e ∷ shown k l)) a.whole at)

worker_step-shown :
    (e : Event) (ls : LogStore)
    → IsRing ls
    → newest (worker_step e ls) ≡ take ls.max_cap (e ∷ newest ls)
unfolding worker_step
worker_step-shown e ls r = elim (Bool-cases (ltb (length ls.events) ls.max_cap)) [
  | inl b ↦
      let start : ls.head ≡ 0 = r.unmoved b in
      let room = ltb→lt (length ls.events) ls.max_cap b in
      rw b (
        ap (λ h. shown h (ls.events ++ e ∷ [])) start
        ∙ reverse-append ls.events (e ∷ [])
        ∙ sym (
            take-all ls.max_cap (e ∷ reverse ls.events)
              (omega (arith, room, length-reverse ls.events)))
        ∙ ap (λ h. take ls.max_cap (e ∷ shown h ls.events)) (sym start))
  | inr b ↦
      let full : length ls.events ≡ ls.max_cap = ground (arith, b, r.fits) in
      let inside : ls.head < length ls.events = omega (arith, full, r.bounded) in
      rw b (
        subst (λ n. shown ((ls.head + 1) % n) (set ls.events ls.head e) ≡ take n (e ∷ newest ls))
          full (overwritten ls.events ls.head e (around ls.events ls.head inside)))
]

worker_step-IsRing : (e : Event) (ls : LogStore) → IsRing ls → IsRing (worker_step e ls)
unfolding worker_step
worker_step-IsRing e ls r = elim (Bool-cases (ltb (length ls.events) ls.max_cap)) [
  | inl b ↦
      let more : length (ls.events ++ e ∷ []) ≤ ls.max_cap =
        omega (arith, length-append ls.events (e ∷ []), ltb→lt (length ls.events) ls.max_cap b) in
      rw b (record { room = r.room; fits = more; bounded = r.bounded; unmoved = λ _. r.unmoved b })
  | inr b ↦
      let same = length-set ls.events ls.head e in
      let fits : length (set ls.events ls.head e) ≤ ls.max_cap = omega (arith, same, r.fits) in
      rw b (record {
        room = r.room;
        fits = fits;
        bounded = mod-lt (ls.head + 1) r.room;
        unmoved = λ h. cc (sym b, ap (λ n. ltb n ls.max_cap) (sym same), h);
      })
]

-- Taking an event puts it in front of the newest and forgets what is beyond the capacity; the buffer stays
-- a ring: within its capacity, with its head inside and moved only when it is full.
pub worker_step-newest :
    (e : Event) (ls : LogStore)
    → IsRing ls
    → (newest (worker_step e ls) ≡ take ls.max_cap (e ∷ newest ls)) × IsRing (worker_step e ls)
worker_step-newest e ls r = (worker_step-shown e ls r, worker_step-IsRing e ls r)

length-newest : (ls : LogStore) → length (newest ls) ≡ length ls.events
length-newest ls = omega (
  arith,
  length-append (reverse (take ls.head ls.events)) (reverse (drop ls.head ls.events)),
  length-reverse (take ls.head ls.events),
  length-reverse (drop ls.head ls.events),
  length-take ls.head ls.events,
  length-drop ls.head ls.events,
)

get_elem?-newest :
    (ls : LogStore) (i : ℕ)
    → ls.head ≤ length ls.events
    → i < length ls.events
    → get_elem? ls.events ((ls.head + length ls.events - 1 - i) % length ls.events)
      ≡ get_elem? (newest ls) i
get_elem?-newest ls i h lt =
    let n = length ls.events in
    let older = take ls.head ls.events in
    let newer = drop ls.head ls.events in
    let cut : length older ≡ ls.head = omega (arith, length-take ls.head ls.events, h) in
    let left : length newer ≡ n - ls.head = length-drop ls.head ls.events in
    elim (Bool-cases (ltb i ls.head)) [
      | inl b ↦
          let below = ltb→lt i ls.head b in
          let sum : ls.head + n - 1 - i ≡ (ls.head - 1 - i) + n = omega (arith, below) in
          let small : ls.head - 1 - i < n = omega (arith, h, below) in
          let first : i < length (reverse older) =
            omega (arith, length-reverse older, cut, below) in
          let inside : i < length older = omega (arith, cut, below) in
          let at : length older - 1 - i ≡ ls.head - 1 - i = omega (arith, cut) in
          let kept : length older - 1 - i < length older = omega (arith, cut, below) in
          ap (λ k. get_elem? ls.events (k % n)) sum
          ∙ ap (get_elem? ls.events)
              (add-mod_right (ls.head - 1 - i) n ∙ mod-eq_of_lt small ∙ sym at)
          ∙ ap (λ l. get_elem? l (length older - 1 - i)) (sym (take-drop ls.head ls.events))
          ∙ get_elem?-append_left older newer (length older - 1 - i) kept
          ∙ sym (get_elem?-reverse older i inside)
          ∙ sym (get_elem?-append_left (reverse older) (reverse newer) i first)
      | inr b ↦
          let above : ls.head ≤ i = ground (arith, b) in
          let k = i - ls.head in
          let sum : ls.head + n - 1 - i < n = omega (arith, above, lt) in
          let inside : k < length newer = omega (arith, left, above, lt) in
          let at : ls.head + n - 1 - i ≡ length older + (length newer - 1 - k) =
            omega (arith, cut, left, above, lt, h) in
          let shifted : length (reverse older) + k ≡ i =
            omega (arith, length-reverse older, cut, above) in
          ap (get_elem? ls.events) (mod-eq_of_lt sum ∙ at)
          ∙ ap (λ l. get_elem? l (length older + (length newer - 1 - k)))
              (sym (take-drop ls.head ls.events))
          ∙ get_elem?-append_right older newer (length newer - 1 - k)
          ∙ sym (get_elem?-reverse newer k inside)
          ∙ sym (get_elem?-append_right (reverse older) (reverse newer) k)
          ∙ ap (get_elem? (newest ls)) shifted
    ]

head_le : (ls : LogStore) → IsRing ls → ls.head ≤ length ls.events
head_le ls r = elim (Bool-cases (ltb (length ls.events) ls.max_cap)) [
  | inl b ↦ omega (arith, r.unmoved b)
  | inr b ↦ ground (arith, b, r.fits, r.bounded)
]

take-nil : (n : ℕ) → take {A = Event} n [] ≡ []
take-nil zero = refl
take-nil (suc n) = refl

-- A round that looks at the first of the events left.
add_wanted-keep :
    (wanted : Event → Bool) (e : Event) (found skipped l : List Event) (room : ℕ)
    → found ≡ take room (keep wanted l)
    → skipped ≡ take (suc room) (keep wanted l)
    → add_wanted wanted (some e) found skipped ≡ take (suc room) (keep wanted (e ∷ l))
unfolding add_wanted
add_wanted-keep wanted e found skipped l room f s = elim (Bool-cases (wanted e)) [
  | inl b ↦ rw b (ap (◌∷◌ e) f)
  | inr b ↦ rw b s
]

query_from-newest :
    (wanted : Event → Bool) (ls : LogStore) (left i room : ℕ)
    → ls.head ≤ length ls.events
    → i + left ≡ length ls.events
    → query_from wanted ls left i room ≡ take room (keep wanted (drop i (newest ls)))
unfolding query_from
query_from-newest wanted ls zero i room h s =
    let over : length (newest ls) ≤ i = omega (arith, length-newest ls, s) in
    sym (ap (λ l. take room (keep wanted l)) (drop-beyond i (newest ls) over) ∙ take-nil room)
query_from-newest wanted ls (suc left) i zero h s = refl
query_from-newest wanted ls (suc left) i (suc room) h s =
    let inside : i < length (newest ls) = omega (arith, length-newest ls, s) in
    let (e, at) = get_elem?-some (newest ls) i inside in
    let lt : i < length ls.events = omega (arith, s) in
    let next : suc i + left ≡ length ls.events = omega (arith, s) in
    let found = query_from-newest wanted ls left (suc i) room h next in
    let skipped = query_from-newest wanted ls left (suc i) (suc room) h next in
    let rest = drop (suc i) (newest ls) in
    ap
      (λ o.
        add_wanted wanted o (query_from wanted ls left (suc i) room)
          (query_from wanted ls left (suc i) (suc room)))
      (get_elem?-newest ls i h lt ∙ at)
    ∙ add_wanted-keep wanted e (query_from wanted ls left (suc i) room)
        (query_from wanted ls left (suc i) (suc room)) rest room found skipped
    ∙ sym (ap (λ l. take (suc room) (keep wanted l)) (drop-get_elem? (newest ls) i e at))

-- `QueryLogs` gives the newest 500 of the wanted events, the newest first.
pub query_logs_lem :
    (log_type search domain : Str) (ls : LogStore)
    → IsRing ls
    → query_logs log_type search domain ls
      ≡ take 500 (
          keep
            (is_wanted
              (to_upper (trim_space log_type))
              (to_lower (trim_space search))
              (to_lower (trim_space domain)))
            (newest ls))
unfolding query_logs
query_logs_lem log_type search domain ls r =
    query_from-newest
      (is_wanted (to_upper (trim_space log_type)) (to_lower (trim_space search))
        (to_lower (trim_space domain)))
      ls (length ls.events) 0 500 (head_le ls r) (omega arith)
