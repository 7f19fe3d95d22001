-- ===== src/Pipeline/BanLaws.antt =====
-- What a method of the pipeline may do to the bans: `Keeps` for one run, and its rules for the
-- methods that are built from others.
use mango_waf.Common.{
  ℕ, ◌≡◌, refl, ◌∙◌, Bool, true, false, ◌||◌, Option, none, some, List, if◌then◌else◌, Bool-cases,
  inl, inr,
}
use mango_waf.Common.Int.{ℤ}
use mango_waf.Common.Bytes.{Str, str_eq}
use mango_waf.Common.Dict.{Dict}
use mango_waf.Shards.{Sharded, fnv32a, load}
use mango_waf.Pipeline.{
  Action, BanRequest, Broadcast, Pipeline, M, ◌>>=◌, ◌>>◌, pure, read, ◌or_else◌, or_rest,
  when_some,
}
use mango_waf.Pipeline.Bans.{is_whitelisted}

-- What leaves the pipeline when an address is banned.
pub record Outputs : Type 0 where
  pub bans : Sharded ℕ
  pub kernel : Option (Dict ℕ)
  pub worker : List BanRequest
  pub peers : Option (List Broadcast)
  pub cloudflare : Option (List Str)
  pub counter : ℤ

abbrev pub outputs : Pipeline → Outputs
outputs p = record {
  bans = p.banned;
  kernel = p.xdp;
  worker = p.ban_queue;
  peers = p.mesh;
  cloudflare = p.cf_bans;
  counter = p.banned_ips;
}

-- From p to q the configuration stays, nothing leaves for an address of the static whitelist, and
-- the bans of the other addresses stay.
pub record Keeps (ip : Str) (p q : Pipeline) : Type 0 where
  pub cfg : q.cfg ≡ p.cfg
  pub spared : is_whitelisted ip p ≡ true → outputs q ≡ outputs p
  pub others : (j : Str) → str_eq ip j ≡ false → load fnv32a j q.banned ≡ load fnv32a j p.banned

pub record Safe {A : Type 0} (ip : Str) (m : M A) : Type 0 where
  pub keeps : (p : Pipeline) → Keeps ip p (m p).1

pub Keeps-refl : (ip : Str) (p : Pipeline) → Keeps ip p p
Keeps-refl ip p = record { cfg = refl; spared = λ h. refl; others = λ j h. refl }

pub whitelisted-eq :
    (ip : Str) (p q : Pipeline) → q.cfg ≡ p.cfg → is_whitelisted ip q ≡ is_whitelisted ip p
unfolding is_whitelisted
whitelisted-eq ip p q e = rw e

pub Keeps-trans : (ip : Str) (p q r : Pipeline) → Keeps ip p q → Keeps ip q r → Keeps ip p r
Keeps-trans ip p q r h k = record {
  cfg = k.cfg ∙ h.cfg;
  spared = λ w. k.spared (whitelisted-eq ip p q h.cfg ∙ w) ∙ h.spared w;
  others = λ j e. k.others j e ∙ h.others j e;
}

module _ (ip : Str) where
  pub pure-Safe : {A : Type 0} (a : A) → Safe ip (pure a)
  pure-Safe a = record { keeps = λ p. Keeps-refl ip p }

  pub read-Safe : {A : Type 0} (f : Pipeline → A) → Safe ip (read f)
  read-Safe f = record { keeps = λ p. Keeps-refl ip p }

  pub bind-Safe :
      {A B : Type 0} (m : M A) (f : A → M B)
      → Safe ip m
      → ((a : A) → Safe ip (f a))
      → Safe ip (m >>= f)
  bind-Safe m f h k = record {
    keeps = λ p. Keeps-trans ip p (m p).1 _ (h.keeps p) ((k (m p).0).keeps (m p).1);
  }

  pub then-Safe : {A B : Type 0} (m : M A) (k : M B) → Safe ip m → Safe ip k → Safe ip (m >> k)
  then-Safe m k h g = record {
    keeps = λ p. Keeps-trans ip p (m p).1 _ (h.keeps p) (g.keeps (m p).1);
  }

  pub if-Safe :
      {A : Type 0} (b : Bool) (m k : M A) → Safe ip m → Safe ip k → Safe ip (if b then m else k)
  if-Safe true m k h g = h
  if-Safe false m k h g = g

  pub when_some-Safe :
      {B : Type 0} (o : Option B) (f : B → M (Option Action))
      → ((b : B) → Safe ip (f b))
      → Safe ip (when_some o f)
  when_some-Safe none f h = pure-Safe none
  when_some-Safe (some b) f h = h b

  or_else_rest-Safe :
      (o : Option Action) (k : M (Option Action)) → Safe ip k → Safe ip (or_rest o k)
  or_else_rest-Safe none k g = g
  or_else_rest-Safe (some a) k g = pure-Safe (some a)

  pub or_else-Safe : (m k : M (Option Action)) → Safe ip m → Safe ip k → Safe ip (m or_else k)
  or_else-Safe m k h g = record {
    keeps =
        λ p. Keeps-trans ip p (m p).1 _ (h.keeps p) ((or_else_rest-Safe (m p).0 k g).keeps (m p).1);
  }

  -- A guard by the static whitelist: behind it only the other addresses need care.
  pub guarded-Safe :
      {A : Type 0} (b : Bool) (a : A) (m : M A)
      → ((p : Pipeline) → is_whitelisted ip p ≡ false → Keeps ip p (m p).1)
      → Safe ip (read (is_whitelisted ip) >>= λ w. if b || w then pure a else m)
  guarded-Safe true a m h = record { keeps = λ p. Keeps-refl ip p }
  guarded-Safe false a m h = record {
    keeps = λ p. elim (Bool-cases (is_whitelisted ip p)) [
      | inl e ↦ rw e (Keeps-refl ip p)
      | inr e ↦ rw e (h p e)
    ];
  }
