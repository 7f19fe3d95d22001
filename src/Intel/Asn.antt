-- ===== src/Intel/Asn.antt =====
-- intelligence/asn.go: the analysis of the organisation that an address belongs to.
use mango_waf.Common.Dict.{Dict, insert, lookup}
use mango_waf.Common.Bytes.{is_empty, codes, to_lower, Str, contains}
use mango_waf.Common.{
  any, ℕ, true, false, none, some, [], ◌∷◌, Bool, Option, List, ltb, if◌then◌else◌,
}
use mango_waf.Intel.Geo.{GeoResult}

pub data Risk : Type 0 where
  low medium high : Risk

pub record AsnInfo : Type 0 where
  pub asn : ℕ
  pub organization : Str
  pub is_hosting : Bool
  pub is_residential : Bool
  pub is_cdn : Bool
  pub is_education : Bool
  pub is_government : Bool
  pub risk_level : Risk
  pub trust_score : ℕ

abbrev pub hosting_providers : List Str
hosting_providers =
    codes "digitalocean"
    ∷ codes "amazon"
    ∷ codes "aws"
    ∷ codes "google cloud"
    ∷ codes "gcp"
    ∷ codes "microsoft azure"
    ∷ codes "azure"
    ∷ codes "ovh"
    ∷ codes "hetzner"
    ∷ codes "linode"
    ∷ codes "vultr"
    ∷ codes "choopa"
    ∷ codes "contabo"
    ∷ codes "hostinger"
    ∷ codes "godaddy"
    ∷ codes "leaseweb"
    ∷ codes "phoenixnap"
    ∷ codes "rackspace"
    ∷ codes "scaleway"
    ∷ codes "upcloud"
    ∷ codes "kamatera"
    ∷ codes "ionos"
    ∷ codes "aruba"
    ∷ codes "hostway"
    ∷ codes "quadranet"
    ∷ codes "psychz"
    ∷ codes "colocrossing"
    ∷ codes "buyvm"
    ∷ codes "ramnode"
    ∷ codes "greencloudvps"
    ∷ codes "turnkey internet"
    ∷ codes "alibaba cloud"
    ∷ codes "tencent cloud"
    ∷ codes "huawei cloud"
    ∷ codes "oracle cloud"
    ∷ codes "ibm cloud"
    ∷ codes "softlayer"
    ∷ []

abbrev pub cdn_providers : List Str
cdn_providers =
    codes "cloudflare"
    ∷ codes "fastly"
    ∷ codes "akamai"
    ∷ codes "incapsula"
    ∷ codes "imperva"
    ∷ codes "sucuri"
    ∷ codes "stackpath"
    ∷ codes "keycdn"
    ∷ codes "bunny"
    ∷ codes "cdn77"
    ∷ codes "limelight"
    ∷ codes "edgecast"
    ∷ []

abbrev pub high_risk_providers : List Str
high_risk_providers =
    codes "combahton"
    ∷ codes "blazing"
    ∷ codes "sharktech"
    ∷ codes "fdc servers"
    ∷ codes "dacentec"
    ∷ codes "quasi networks"
    ∷ codes "serverius"
    ∷ codes "ecatel"
    ∷ codes "lucky"
    ∷ codes "10vps"
    ∷ codes "vpsville"
    ∷ codes "colo4"
    ∷ codes "webhosting24"
    ∷ codes "kuroit"
    ∷ []

abbrev pub edu_keywords : List Str
edu_keywords =
    codes "university"
    ∷ codes "college"
    ∷ codes "edu"
    ∷ codes "school"
    ∷ codes "academic"
    ∷ codes "research"
    ∷ []

abbrev pub gov_keywords : List Str
gov_keywords =
    codes "government"
    ∷ codes "ministry"
    ∷ codes "federal"
    ∷ codes "military"
    ∷ codes "defense"
    ∷ codes "state of"
    ∷ []

abbrev pub isp_keywords : List Str
isp_keywords =
    codes "telecom"
    ∷ codes "telecomunicazioni"
    ∷ codes "communications"
    ∷ codes "internet service"
    ∷ codes "broadband"
    ∷ codes "fiber"
    ∷ codes "mobile"
    ∷ codes "wireless"
    ∷ codes "cellular"
    ∷ codes "cable"
    ∷ codes "netcol"
    ∷ codes "comcast"
    ∷ codes "verizon"
    ∷ codes "at&t"
    ∷ codes "deutsche telekom"
    ∷ codes "vodafone"
    ∷ codes "telefonica"
    ∷ codes "orange"
    ∷ codes "t-mobile"
    ∷ codes "viettel"
    ∷ codes "vnpt"
    ∷ codes "fpt telecom"
    ∷ codes "mobifone"
    ∷ []

abbrev pub mentions : Str → List Str → Bool
mentions org_lower keywords = any (contains org_lower) keywords

unfoldable pub classify_organization : Str → AsnInfo → AsnInfo
unfolding contains
classify_organization org_lower info =
    if mentions org_lower hosting_providers
    then record info { is_hosting = true; risk_level = medium; trust_score = 35 }
    else if mentions org_lower cdn_providers
    then record info { is_cdn = true; risk_level = low; trust_score = 75 }
    else if mentions org_lower high_risk_providers
    then record info { is_hosting = true; risk_level = high; trust_score = 10 }
    else if mentions org_lower edu_keywords
    then record info { is_education = true; risk_level = low; trust_score = 90 }
    else if mentions org_lower gov_keywords
    then record info { is_government = true; risk_level = low; trust_score = 95 }
    else if mentions org_lower isp_keywords
    then record info { is_residential = true; risk_level = low; trust_score = 80 }
    else record info { is_residential = true; trust_score = 65 }

abbrev pub new_asn_info : AsnInfo
new_asn_info = record {
  asn = 0;
  organization = [];
  is_hosting = false;
  is_residential = false;
  is_cdn = false;
  is_education = false;
  is_government = false;
  risk_level = low;
  trust_score = 70;
}

abbrev pub with_geo : Option GeoResult → AsnInfo
with_geo none = new_asn_info
with_geo (some geo) =
    if ltb 0 geo.asn
    then record new_asn_info { asn = geo.asn; organization = geo.asn_org }
    else new_asn_info

unfoldable pub fresh_analysis : Option GeoResult → AsnInfo
unfolding classify_organization to_lower
fresh_analysis geo =
    let info = with_geo geo in
    if is_empty info.organization
    then info
    else classify_organization (to_lower info.organization) info

abbrev pub analyzed :
    Str → Option GeoResult → Dict AsnInfo → Option AsnInfo → AsnInfo × Dict AsnInfo
analyzed ip geo cache (some info) = (info, cache)
analyzed ip geo cache none = (fresh_analysis geo, insert ip (fresh_analysis geo) cache)

-- The answer, and the cache with it.
unfoldable pub analyze_asn : Str → Option GeoResult → Dict AsnInfo → AsnInfo × Dict AsnInfo
unfolding lookup insert fresh_analysis
analyze_asn ip geo cache = analyzed ip geo cache (lookup ip cache)
