-- ===== src/Utf8/Tests.antt =====
-- Runs of `mosquitto_validate_utf8`, and its theorems at concrete inputs.
use artemisia.Base.{◌≡◌, refl, arith, inl, inr, some, [], ◌∷◌, ◌++◌, Rc, length}
use artemisia.Utf8.{
  code, malformed, validate_utf8, loop, sequence, lead_byte, continuation, is_allowed,
}
use artemisia.Utf8.Encode.{encode, encode_all, IsText}
use artemisia.Utf8.Complete.{validate_utf8-encode_all}
use artemisia.Utf8.Bounds.{Ends, validate_utf8-Ends, validate_utf8_cut}

surrogate : validate_utf8 (some (0xed ∷ 0xa0 ∷ 0x80 ∷ 0 ∷ [])) 3 ≡ malformed
unfolding validate_utf8 loop sequence lead_byte continuation is_allowed
surrogate = refl

euro : IsText 0x20ac
euro = record {
  printable = omega arith;
  no_control = inr (omega arith);
  no_surrogate = inl (omega arith);
  no_arabic_gap = inl (omega arith);
  no_plane_end = omega arith;
  in_range = omega arith;
}

validate_utf8-encode_all_example :
    validate_utf8 (some (encode_all (0x20ac ∷ []) ++ 0 ∷ [])) (length (encode_all (0x20ac ∷ [])))
    ≡ code Rc.success
unfolding encode
validate_utf8-encode_all_example =
    validate_utf8-encode_all (0x20ac ∷ []) (0 ∷ []) (euro, tt) (omega arith)

validate_utf8-Ends_example : Ends (validate_utf8 (some ((0xe2 ∷ []) ++ (0 ∷ []))) 1)
validate_utf8-Ends_example = validate_utf8-Ends (0xe2 ∷ []) []

validate_utf8_cut_example : validate_utf8 (some (encode 0x20ac ++ [])) 1 ≡ code Rc.success
validate_utf8_cut_example = validate_utf8_cut 0x20ac [] euro (omega arith) (omega arith)
