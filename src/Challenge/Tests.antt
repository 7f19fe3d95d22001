-- ===== src/Challenge/Tests.antt =====
-- Runs of the challenges, and the theorems at concrete inputs, with short stand-ins for the hashes.
use mango_waf.Common.Dict.{lookup}
use mango_waf.Common.{
  ◌⊎◌, if◌then◌else◌, subst, ℕ, suc, ◌+◌, ◌-◌, ◌*◌, ◌/◌, ◌≡◌, refl, Bool, true, false, Option, none,
  some, List, [], ◌∷◌, ◌++◌, arith,
}
use mango_waf.Common.Int.{pos}
use mango_waf.Common.Bytes.{Str, codes, str_eq, has_prefix}
use mango_waf.Challenge.{second, ChallengeConfig, Manager, HttpRequest, new_manager, ttl}
use mango_waf.Challenge.Proof.{
  evict, verify_proof, cookie_with_name, set_session_cookie, set_proof_cookie,
}
use mango_waf.Challenge.Solve.{accept, verify_pow, handle_verification}
use mango_waf.Challenge.Laws.{IsAddress, verify_proof-cookie_with_name}
use mango_waf.Challenge.Sound.{IsCached, IsAuthentic, verify_proof-true}
use mango_waf.Challenge.Solutions.{IsJustified, handle_verification-IsJustified}

abbrev some_hmac : Str → Str → Str
some_hmac key s = codes "h" ++ s

abbrev some_sha256 : Str → Str
some_sha256 s = codes "0f" ++ s

abbrev config : ChallengeConfig
config = record {
  cookie_secret = codes "key";
  cookie_ttl = pos (60 * second);
  pow_difficulty = pos 4;
}

abbrev manager : Manager
manager = record { cfg = config; secret = codes "key"; verified_ips = (codes "10.0.0.9", 7) ∷ [] }

abbrev client : Str
client = codes "10.0.0.1"

abbrev other : Str
other = codes "10.0.0.2"

client-IsAddress : IsAddress client
unfolding mango_waf.Common.Bytes.has_byte
client-IsAddress = record { filled = refl; plain = refl }

-- A request with one cookie.
abbrev with_cookie : Str → Str → HttpRequest
with_cookie name value = record {
  method = codes "GET";
  form_value = λ k. [];
  cookie = λ k. if str_eq k name then some value else none;
}

abbrev session_value : Str
session_value =
    (cookie_with_name some_hmac (5 * second) client (codes "mango_session") manager).value

verify_proof-cookie_with_name_example :
    (verify_proof some_hmac
      (9 * second)
      (with_cookie (codes "mango_session") session_value)
      other
      manager).0
    ≡ true
unfolding mango_waf.Challenge.Proof.cookie_of str_eq cookie_with_name
    mango_waf.Common.Decimal.print_nat ttl
verify_proof-cookie_with_name_example =
    verify_proof-cookie_with_name some_hmac (5 * second) (9 * second) client other
      (codes "mango_session") false (with_cookie (codes "mango_session") session_value) manager
      manager client-IsAddress refl (omega arith) (omega arith) refl

verify_proof-true_example :
    IsCached some_hmac 6 (codes "10.0.0.9") manager
    ⊎ IsAuthentic some_hmac 6 (with_cookie (codes "mango_proof") []) manager
unfolding verify_proof lookup str_eq mango_waf.Challenge.Proof.verify_cached
verify_proof-true_example =
    verify_proof-true some_hmac 6 (with_cookie (codes "mango_proof") []) (codes "10.0.0.9") manager
      refl

-- A posted solution of one zero.
abbrev posted : Str → HttpRequest
posted difficulty = record {
  method = codes "POST";
  form_value = λ k.
      if str_eq k (codes "difficulty")
      then difficulty
      else if str_eq k (codes "challenge_type")
      then codes "pow"
      else codes "7";
  cookie = λ k. none;
}

handle_verification-IsJustified_example :
    IsJustified some_hmac some_sha256 6
      (posted (codes "1"))
      client
      manager
      (accept some_hmac some_sha256 6 client manager)
unfolding str_eq handle_verification verify_pow
handle_verification-IsJustified_example =
    handle_verification-IsJustified some_hmac some_sha256 6 (posted (codes "1")) client manager
      (accept some_hmac some_sha256 6 client manager) refl
