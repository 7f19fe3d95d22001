-- ===== src/Http2/Wire.antt =====
-- fingerprint/h2_parser.go: frames and settings come back from their bytes.
use mango_waf.Common.{
  ap, sym, ℕ, zero, suc, ◌+◌, ◌*◌, ◌/◌, ◌%◌, ◌<◌, ◌≡◌, refl, ◌∙◌, false, Option, none, some, List,
  [], ◌∷◌, ◌++◌, ltb, length, length-append, take, arith,
}
use mango_waf.Common.Bytes.{Str, has_prefix}
use mango_waf.Common.Slices.{take-append, drop-append}
use mango_waf.Http2.{
  H2Frame, H2SettingPair, preface, uint32_of, parse_h2_preface, read_frame, read_frames,
  parse_h2_frames, parse_h2_settings_frame,
}

-- The bytes of a number of 32 bits, and of a frame and of settings as RFC 9113 has them.
abbrev pub uint32_bytes : ℕ → Str → Str
uint32_bytes n rest = n / 16777216 ∷ n / 65536 % 256 ∷ n / 256 % 256 ∷ n % 256 ∷ rest

abbrev pub frame_bytes : H2Frame → Str → Str
frame_bytes f rest =
    f.length / 65536
    ∷ f.length / 256 % 256
    ∷ f.length % 256
    ∷ f.frame_type
    ∷ f.flags
    ∷ uint32_bytes f.stream_id (f.payload ++ rest)

abbrev pub frames_bytes : List H2Frame → Str
frames_bytes [] = []
frames_bytes (f ∷ frames) = frame_bytes f (frames_bytes frames)

pub record IsFrame (f : H2Frame) : Type 0 where
  pub sized : f.length ≡ length f.payload
  pub short : f.length < 16777216
  pub stream : f.stream_id < 2147483648

abbrev pub AreFrames : List H2Frame → Type 0
AreFrames [] = Unit
AreFrames (f ∷ frames) = IsFrame f × AreFrames frames

read_frame-bytes :
    (f : H2Frame) (rest : Str) → IsFrame f → read_frame (frame_bytes f rest) ≡ some (f, rest)
unfolding read_frame
read_frame-bytes f rest h =
    let size : f.length / 65536 * 65536 + f.length / 256 % 256 * 256 + f.length % 256
        ≡ length f.payload =
      omega (arith, h.sized) in
    let stream : uint32_of (f.stream_id / 16777216) (f.stream_id / 65536 % 256)
            (f.stream_id / 256 % 256) (f.stream_id % 256)
          % 2147483648
        ≡ f.stream_id =
      omega (arith, h.stream) in
    let fits : ltb (length (f.payload ++ rest)) (length f.payload) ≡ false =
      ground (arith, length-append f.payload rest) in
    rw (size, fits, stream, take-append f.payload rest, drop-append f.payload rest)
      (ap (λ n. some (record f { length = n }, rest)) (sym h.sized))

read_frames-bytes :
    (room : ℕ) (frames : List H2Frame)
    → AreFrames frames
    → read_frames room (frames_bytes frames) ≡ take room frames
unfolding read_frames read_frame
read_frames-bytes zero frames h = refl
read_frames-bytes (suc room) [] h = refl
read_frames-bytes (suc room) (f ∷ frames) (h, t) =
    ap
      (λ (o : Option (H2Frame × Str)). elim o [
        | none ↦ []
        | some (g, rest) ↦ g ∷ read_frames room rest
      ])
      (read_frame-bytes f (frames_bytes frames) h)
    ∙ ap (◌∷◌ f) (read_frames-bytes room frames t)

-- The first 20 frames that a client sends after the preface are read as they were sent.
pub parse_h2_frames-bytes :
    (frames : List H2Frame)
    → AreFrames frames
    → parse_h2_frames (preface ++ frames_bytes frames) ≡ take 20 frames
unfolding parse_h2_frames parse_h2_preface has_prefix
parse_h2_frames-bytes frames h = read_frames-bytes 20 frames h

abbrev pub settings_bytes : List H2SettingPair → Str
settings_bytes [] = []
settings_bytes (p ∷ pairs) = p.id / 256 ∷ p.id % 256 ∷ uint32_bytes p.value (settings_bytes pairs)

-- The settings of a frame are read as they were sent.
pub parse_h2_settings_frame-bytes :
    (pairs : List H2SettingPair) → parse_h2_settings_frame (settings_bytes pairs) ≡ pairs
unfolding parse_h2_settings_frame
parse_h2_settings_frame-bytes [] = refl
parse_h2_settings_frame-bytes (p ∷ pairs) =
    let id : p.id / 256 * 256 + p.id % 256 ≡ p.id = omega arith in
    let value : uint32_of (p.value / 16777216) (p.value / 65536 % 256) (p.value / 256 % 256)
          (p.value % 256)
        ≡ p.value =
      omega arith in
    rw (id, value) (ap (◌∷◌ p) (parse_h2_settings_frame-bytes pairs))
