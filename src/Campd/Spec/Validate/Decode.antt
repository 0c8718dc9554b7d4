-- ===== src/Campd/Spec/Validate/Decode.antt =====
-- cmd/campd/src/spec.rs: `decode` as a whole, over the decoders of base64 and JSON.
use sandcamp.Base.{
  ◌≤◌, ◌≡◌, ◌↔◌, refl, true, not, arith, ltb, length, Bytes, Result, ok, err, map_err, >>=-eq-ok,
  guard-bind_iff, then_iff,
}
use sandcamp.Campd.Spec.{Spec, SpecError, max_encoded_bytes}
use sandcamp.Campd.Spec.Validate.{validate, decode}
use sandcamp.Campd.Spec.Validate.Accepts.{IsValid, validate_iff}

map_err-eq-ok :
    {E F A : Type 0} (f : E → F) (m : Result E A) (a : A) → map_err f m ≡ ok a → m ≡ ok a
map_err-eq-ok f (ok b) a e = cc
map_err-eq-ok f (err x) a e = cc

-- A text that decodes to a specification.
pub record Encodes (decode_base64 : Bytes → Result Bytes Bytes)
    (from_json : Bytes → Result Bytes Spec) (value : Bytes) (spec : Spec) : Type 0 where
  pub small : length value ≤ max_encoded_bytes
  pub json : Bytes
  pub base64 : decode_base64 value ≡ ok json
  pub parsed : from_json json ≡ ok spec
  pub valid : IsValid spec

module _ (decode_base64 : Bytes → Result Bytes Bytes) (from_json : Bytes → Result Bytes Spec) where
  -- `decode` yields a specification exactly if the text has at most 122880 bytes, is base64 of JSON
  -- for the specification, and the specification is valid.
  pub decode_iff :
      (value : Bytes) (spec : Spec)
      → (decode decode_base64 from_json value ≡ ok spec)
        ↔ Encodes decode_base64 from_json value spec
  unfolding decode
  decode_iff value spec = (
    λ e.
        let (small, rest) =
          (guard-bind_iff (not (ltb max_encoded_bytes (length value))) SpecError.encoded_too_large _
              spec).0
            e in
        let (json, base64, rest₂) =
          >>=-eq-ok (map_err SpecError.invalid_base64 (decode_base64 value)) _ rest in
        let (found, parsed, rest₃) =
          >>=-eq-ok (map_err SpecError.invalid_json (from_json json)) _ rest₂ in
        let (valid, same) = (then_iff (validate found) (ok found) spec).0 rest₃ in
        let same' : found ≡ spec = cc in
        let json_of = map_err-eq-ok SpecError.invalid_json (from_json json) found parsed in
        record {
          small = ground (arith, small);
          json = json;
          base64 = map_err-eq-ok SpecError.invalid_base64 (decode_base64 value) json base64;
          parsed = cc;
          valid = (validate_iff spec).0 cc;
        },
    λ h.
        let small : not (ltb max_encoded_bytes (length value)) ≡ true = ground (arith, h.small) in
        let valid = (validate_iff spec).1 h.valid in rw (small, h.base64, h.parsed, valid) refl,
  )
