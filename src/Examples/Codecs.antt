-- ===== src/Examples/Codecs.antt =====
-- Codecs and texts.
use zigbeemq.Prelude.{codes, str_eq, to_upper, trim_space, ℕ, ◌*◌, ◌≡◌, refl, List, [], ◌∷◌, ◌++◌}
use zigbeemq.Errors.{message, ok}
use zigbeemq.Incoming.Parse.{message, parse_af_incoming, parse_af_incoming_ext}
use zigbeemq.Incoming.Parse.Laws.{
  af_length, af_ext_length, EndsBy, encode_af, encode_af_ext, parsers_end, parse-encode,
}
use zigbeemq.Relay.Codec.{second, delay_raw, inching_payload}
use zigbeemq.Examples.{report}

inching_made :
    (bytes : List ℕ) × (inching_payload (codes "enable") (codes "on") (5 * second) ≡ ok bytes)
unfolding inching_payload delay_raw trim_space to_upper str_eq
inching_made = (_, refl)

parsers_end_example :
    EndsBy 17 5 (af_length (1 ∷ 2 ∷ 3 ∷ 4 ∷ 5 ∷ [])) (parse_af_incoming (1 ∷ 2 ∷ 3 ∷ 4 ∷ 5 ∷ []))
    × EndsBy 27 5
        (af_ext_length (1 ∷ 2 ∷ 3 ∷ 4 ∷ 5 ∷ []))
        (parse_af_incoming_ext (1 ∷ 2 ∷ 3 ∷ 4 ∷ 5 ∷ []))
parsers_end_example = parsers_end (1 ∷ 2 ∷ 3 ∷ 4 ∷ 5 ∷ [])

parse-encode_example :
    (parse_af_incoming (encode_af report ++ 7 ∷ []) ≡ message report)
    × (parse_af_incoming_ext (encode_af_ext 2 0 (0 ∷ 0 ∷ 0 ∷ 0 ∷ 0 ∷ 0 ∷ []) report ++ 7 ∷ [])
        ≡ message report)
parse-encode_example = parse-encode 2 0 0 0 0 0 0 0 report (7 ∷ [])
