-- ===== src/Http2/Tests.antt =====
-- Runs of the parser of HTTP/2 frames, and the theorems at concrete inputs.
use mango_waf.Common.{◌≡◌, refl, List, [], ◌∷◌, ◌++◌, take, arith}
use mango_waf.Common.Bytes.{codes}
use mango_waf.Http2.{H2Frame, preface, parse_h2_frames, extract_h2_fingerprint}
use mango_waf.Http2.Wire.{frames_bytes, parse_h2_frames-bytes}

-- Settings, and an update of the window.
abbrev sent : List H2Frame
sent =
    record {
      length = 6;
      frame_type = 4;
      flags = 0;
      stream_id = 0;
      payload = 0 ∷ 1 ∷ 0 ∷ 1 ∷ 0 ∷ 0 ∷ [];
    }
    ∷ record {
      length = 4;
      frame_type = 8;
      flags = 0;
      stream_id = 3;
      payload = 0 ∷ 239 ∷ 0 ∷ 1 ∷ [];
    }
    ∷ []

parse_h2_frames-bytes_example : parse_h2_frames (preface ++ frames_bytes sent) ≡ take 20 sent
parse_h2_frames-bytes_example = parse_h2_frames-bytes sent (
  record { sized = refl; short = omega arith; stream = omega arith },
  (record { sized = refl; short = omega arith; stream = omega arith }, tt),
)

settings_printed : (extract_h2_fingerprint (λ s. s) sent).hash ≡ codes "1:65536|15663105|"
unfolding extract_h2_fingerprint
settings_printed = refl
