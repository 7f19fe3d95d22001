-- ===== src/Http2.antt =====
-- fingerprint/h2_parser.go: the frames of HTTP/2 as they arrive, and the fingerprint that is taken of them. MD5 in
-- hexadecimal is a parameter. `ExtractH2Fingerprint` also fills a value of type H2Settings, which it does not
-- return.
pub mod Wire
pub mod Known
mod Tests
use mango_waf.Common.{
  ℕ, zero, suc, ◌+◌, ◌*◌, ◌/◌, ◌%◌, ◌^◌, Bool, true, false, not, Option, none, some, List, [], ◌∷◌,
  ◌++◌, map, ltb, ◌==◌, if◌then◌else◌, length, take, drop, is_some, value_or,
}
use mango_waf.Common.Bytes.{Str, codes, has_prefix, join}
use mango_waf.Common.Decimal.{print_nat}
use mango_waf.Common.Dict.{Dict, lookup}

pub record H2Frame : Type 0 where
  pub length : ℕ
  pub frame_type : ℕ
  pub flags : ℕ
  pub stream_id : ℕ
  pub payload : Str

pub record H2SettingPair : Type 0 where
  pub id : ℕ
  pub value : ℕ

pub record H2PriorityInfo : Type 0 where
  pub stream_id : ℕ
  pub exclusive : Bool
  pub depends_on : ℕ
  pub weight : ℕ

abbrev pub preface : Str
preface = codes "PRI * HTTP/2.0" ++ 13 ∷ 10 ∷ 13 ∷ 10 ∷ b'S' ∷ b'M' ∷ 13 ∷ 10 ∷ 13 ∷ 10 ∷ []

unfoldable pub parse_h2_preface : Str → Bool
unfolding has_prefix
parse_h2_preface data_bytes = has_prefix data_bytes preface

-- `binary.BigEndian.Uint32`
abbrev pub uint32_of : ℕ → ℕ → ℕ → ℕ → ℕ
uint32_of a b c d = a * 16777216 + b * 65536 + c * 256 + d

-- One round of the loop, on the bytes from the position on: a frame and the bytes behind it.
unfoldable pub read_frame : Str → Option (H2Frame × Str)
read_frame (l ∷ m ∷ n ∷ kind ∷ flags ∷ a ∷ b ∷ c ∷ d ∷ rest) =
    let size = l * 65536 + m * 256 + n in
    if ltb (length rest) size
    then none
    else some (
      record {
        length = size;
        frame_type = kind;
        flags = flags;
        stream_id = uint32_of a b c d % 2147483648;
        payload = take size rest;
      },
      drop size rest,
    )
read_frame _ = none

unfoldable pub read_frames : ℕ → Str → List H2Frame
unfolding read_frame
read_frames zero s = []
read_frames (suc room) s = elim (read_frame s) [
  | none ↦ []
  | some (frame, rest) ↦ frame ∷ read_frames room rest
]

unfoldable pub parse_h2_frames : Str → List H2Frame
unfolding read_frames parse_h2_preface
parse_h2_frames s = read_frames 20 (if parse_h2_preface s then drop 24 s else s)

unfoldable pub parse_h2_settings_frame : Str → List H2SettingPair
parse_h2_settings_frame (i ∷ j ∷ a ∷ b ∷ c ∷ d ∷ rest) =
    record { id = i * 256 + j; value = uint32_of a b c d } ∷ parse_h2_settings_frame rest
parse_h2_settings_frame _ = []

unfoldable pub parse_h2_priority_frame : Str → ℕ → Option H2PriorityInfo
parse_h2_priority_frame (a ∷ b ∷ c ∷ d ∷ w ∷ rest) stream = some (record {
  stream_id = stream;
  exclusive = not (ltb (uint32_of a b c d) 2147483648);
  depends_on = uint32_of a b c d % 2147483648;
  weight = w;
})
parse_h2_priority_frame _ stream = none

-- What the loop of `ExtractH2Fingerprint` has collected.
pub record Collected : Type 0 where
  pub settings_order : List Str
  pub priorities : List Str
  pub window_update : ℕ

unfoldable pub print_setting : H2SettingPair → Str
unfolding print_nat
print_setting p = print_nat p.id ++ codes ":" ++ print_nat p.value

unfoldable pub print_priority : H2PriorityInfo → Str
unfolding print_nat
print_priority p =
    print_nat p.stream_id
    ++ codes ":"
    ++ (if p.exclusive then codes "1" else codes "0")
    ++ codes ":"
    ++ print_nat p.depends_on
    ++ codes ":"
    ++ print_nat p.weight

abbrev pub add_priority : Option H2PriorityInfo → Collected → Collected
add_priority none c = c
add_priority (some p) c = record c { priorities = c.priorities ++ print_priority p ∷ [] }

abbrev pub add_window : Str → Collected → Collected
add_window (a ∷ b ∷ c ∷ d ∷ rest) col = record col {
  window_update = uint32_of a b c d % 2147483648;
}
add_window _ col = col

unfoldable pub add_frame : H2Frame → Collected → Collected
unfolding parse_h2_settings_frame parse_h2_priority_frame print_setting print_priority
add_frame f c =
    if f.frame_type == 4
    then (if f.flags % 2 == 1 then c else record c {
      settings_order = c.settings_order ++ map print_setting (parse_h2_settings_frame f.payload);
    })
    else if f.frame_type == 8
    then add_window f.payload c
    else if f.frame_type == 2
    then add_priority (parse_h2_priority_frame f.payload f.stream_id) c
    else if f.frame_type == 1
    then (if f.flags / 32 % 2 == 1
        then add_priority (parse_h2_priority_frame f.payload f.stream_id) c
        else c)
    else c

unfoldable pub add_frames : List H2Frame → Collected → Collected
unfolding add_frame
add_frames [] c = c
add_frames (f ∷ frames) c = add_frames frames (add_frame f c)

pub record H2Fingerprint : Type 0 where
  pub settings_order : Str
  pub window_update : ℕ
  pub priority_frames : Str
  pub hash : Str
  pub known : Bool
  pub trust_score : ℕ

-- The names under which `InitKnownH2Fingerprints` stores browsers and tools, with their scores.
abbrev pub known_h2 : Dict ℕ
known_h2 =
    (codes "chrome_h2_120", 90)
    ∷ (codes "chrome_h2_110", 88)
    ∷ (codes "chrome_h2_android", 85)
    ∷ (codes "firefox_h2_120", 90)
    ∷ (codes "firefox_h2_esr", 85)
    ∷ (codes "safari_h2_17", 90)
    ∷ (codes "golang_h2_default", 5)
    ∷ (codes "python_h2_default", 5)
    ∷ (codes "node_h2_default", 5)
    ∷ (codes "curl_h2_default", 5)
    ∷ []

unfoldable pub extract_h2_fingerprint : (Str → Str) → List H2Frame → H2Fingerprint
unfolding add_frames join print_nat lookup
extract_h2_fingerprint md5 frames =
    let c =
      add_frames frames (record { settings_order = []; priorities = []; window_update = 0 }) in
    let settings = join (codes ";") c.settings_order in
    let priorities = join (codes "|") c.priorities in
    let hash =
      md5 (settings ++ codes "|" ++ print_nat c.window_update ++ codes "|" ++ priorities) in
    record {
      settings_order = settings;
      window_update = c.window_update;
      priority_frames = priorities;
      hash = hash;
      known = is_some (lookup hash known_h2);
      trust_score = value_or 0 (lookup hash known_h2);
    }
