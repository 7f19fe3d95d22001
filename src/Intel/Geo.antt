-- ===== src/Intel/Geo.antt =====
-- intelligence/intelligence.go: `GeoProvider.Lookup`, without the coordinates, which nothing decides by. The
-- parser of addresses is Go's.
use mango_waf.Common.Decimal.{print_nat}
use mango_waf.Common.Bytes.{Str, codes}
use mango_waf.Common.{
  ◌%◌, get_or, any, ℕ, none, some, [], ◌∷◌, Option, List, ◌++◌, ◌+◌, ◌==◌, if◌then◌else◌,
}
use mango_waf.Pipeline.{Env}

pub record GeoResult : Type 0 where
  pub country : Str
  pub country_code : Str
  pub city : Str
  pub asn : ℕ
  pub asn_org : Str

-- The first bytes of a place's addresses, and the place.
abbrev pub places : List (List ℕ × GeoResult)
places =
    (
      103 ∷ 113 ∷ 14 ∷ 171 ∷ 116 ∷ [],
      record {
        country = codes "Vietnam";
        country_code = codes "VN";
        city = codes "Hanoi";
        asn = 45899;
        asn_org = codes "VNPT";
      },
    )
    ∷ (
      8 ∷ 1 ∷ 104 ∷ 172 ∷ 198 ∷ 23 ∷ 34 ∷ 52 ∷ 54 ∷ [],
      record {
        country = codes "United States";
        country_code = codes "US";
        city = codes "New York";
        asn = 15169;
        asn_org = codes "Google LLC";
      },
    )
    ∷ (
      185 ∷ 195 ∷ 95 ∷ 91 ∷ 178 ∷ 77 ∷ [],
      record {
        country = codes "Russia";
        country_code = codes "RU";
        city = codes "Moscow";
        asn = 12389;
        asn_org = codes "Rostelecom";
      },
    )
    ∷ (
      114 ∷ 220 ∷ 119 ∷ 183 ∷ 123 ∷ 112 ∷ [],
      record {
        country = codes "China";
        country_code = codes "CN";
        city = codes "Beijing";
        asn = 4134;
        asn_org = codes "CHINANET";
      },
    )
    ∷ (
      128 ∷ 130 ∷ 80 ∷ 88 ∷ 141 ∷ [],
      record {
        country = codes "Germany";
        country_code = codes "DE";
        city = codes "Frankfurt";
        asn = 24940;
        asn_org = codes "Hetzner Online";
      },
    )
    ∷ (
      51 ∷ 82 ∷ 86 ∷ 31 ∷ [],
      record {
        country = codes "United Kingdom";
        country_code = codes "GB";
        city = codes "London";
        asn = 5607;
        asn_org = codes "British Telecom";
      },
    )
    ∷ (
      177 ∷ 200 ∷ 191 ∷ 186 ∷ [],
      record {
        country = codes "Brazil";
        country_code = codes "BR";
        city = codes "Sao Paulo";
        asn = 28573;
        asn_org = codes "Claro Brasil";
      },
    )
    ∷ (
      110 ∷ 180 ∷ 36 ∷ [],
      record {
        country = codes "Indonesia";
        country_code = codes "ID";
        city = codes "Jakarta";
        asn = 7713;
        asn_org = codes "Telkom Indonesia";
      },
    )
    ∷ (
      133 ∷ 210 ∷ 211 ∷ [],
      record {
        country = codes "Japan";
        country_code = codes "JP";
        city = codes "Tokyo";
        asn = 2514;
        asn_org = codes "NTT Communications";
      },
    )
    ∷ (
      90 ∷ 92 ∷ 109 ∷ [],
      record {
        country = codes "France";
        country_code = codes "FR";
        city = codes "Paris";
        asn = 12322;
        asn_org = codes "Free SAS";
      },
    )
    ∷ (
      118 ∷ 203 ∷ 122 ∷ [],
      record {
        country = codes "Singapore";
        country_code = codes "SG";
        city = codes "Singapore";
        asn = 4657;
        asn_org = codes "Singtel";
      },
    )
    ∷ []

-- `countryFallbackList`
abbrev pub country_fallback_list : List (Str × Str)
country_fallback_list =
    (codes "US", codes "United States")
    ∷ (codes "CN", codes "China")
    ∷ (codes "RU", codes "Russia")
    ∷ (codes "BR", codes "Brazil")
    ∷ (codes "DE", codes "Germany")
    ∷ (codes "JP", codes "Japan")
    ∷ (codes "GB", codes "United Kingdom")
    ∷ (codes "IN", codes "India")
    ∷ (codes "AU", codes "Australia")
    ∷ (codes "ZA", codes "South Africa")
    ∷ (codes "FR", codes "France")
    ∷ (codes "SG", codes "Singapore")
    ∷ (codes "KR", codes "South Korea")
    ∷ (codes "CA", codes "Canada")
    ∷ []

abbrev pub unknown_place : GeoResult
unknown_place = record {
  country = codes "Unknown";
  country_code = codes "XX";
  city = codes "Unknown";
  asn = 0;
  asn_org = [];
}

abbrev pub ipv6_place : GeoResult
ipv6_place = record {
  country = codes "United States";
  country_code = codes "US";
  city = codes "Ashburn";
  asn = 16509;
  asn_org = codes "Amazon.com";
}

unfoldable pub fallback_place : ℕ → ℕ → GeoResult
unfolding print_nat
fallback_place b0 b1 =
    let fb = get_or country_fallback_list (b0 % 14) ([], []) in
    record {
      country = fb.1;
      country_code = fb.0;
      city = codes "City-" ++ print_nat b1;
      asn = 1000 + b0;
      asn_org = codes "Global Transit Provider";
    }

unfoldable pub find_place : ℕ → ℕ → List (List ℕ × GeoResult) → GeoResult
unfolding fallback_place
find_place b0 b1 [] = fallback_place b0 b1
find_place b0 b1 ((bytes, geo) ∷ rest) =
    if any (λ (b : ℕ). b0 == b) bytes then geo else find_place b0 b1 rest

abbrev pub ipv4_place : Option Str → GeoResult
ipv4_place none = ipv6_place
ipv4_place (some ip4) = find_place (get_or ip4 0 0) (get_or ip4 1 0) places

abbrev pub address_place : Env → Option Str → GeoResult
address_place env none = unknown_place
address_place env (some addr) = ipv4_place (env.to4 addr)

unfoldable pub lookup_geo : Env → Str → GeoResult
unfolding find_place
lookup_geo env ip = address_place env (env.parse_ip ip)
