-- ===== src/Storage/Tests.antt =====
-- A stored batch, and a payload reference.
use trail.Wire.{WireField, WireEvent}
use trail.Storage.Sorted.{Increasing, normalize_event-Increasing}
use trail.Prelude.{
  true, All, ◌≡◌, refl, List, [], ◌∷◌, ◌++◌, Text, codes, replicate, map, arith, inl, ◌<◌,
}
use trail.Prelude.Int.{pos}
use trail.Wire.Valid.{made_envelope}
use trail.Wire.Encode.{from_event, Result}
use trail.Wire.Tests.{sample_event, sample_event-IsTransportable, service}
use trail.Payload.{Ref}
use trail.Storage.{Delivery, PayloadLink, new_link}
use trail.Storage.Normalize.{is_kept, normalize_event, normalize, apply_fields, Scan}
use trail.Storage.Recover.{core_result, stored, normalize-made_envelope}
use trail.Storage.RefFields.{IsCarried, wire_fields, link_of, apply_fields-ref_fields}

abbrev delivery : Delivery
delivery = record {
  stream = codes "s";
  consumer = codes "c";
  stream_sequence = 1;
  consumer_sequence = 2;
  delivered = 1;
  received_at = pos 6;
}

normalize-made_envelope_example :
    core_result (normalize (made_envelope service sample_event []) delivery)
    ≡ Result.ok (record {
      batch_id = sample_event.id;
      metadata = service;
      delivery = delivery;
      events = stored sample_event service sample_event.id delivery ∷ [];
    })
normalize-made_envelope_example =
    normalize-made_envelope service sample_event [] delivery refl (sample_event-IsTransportable, tt)

abbrev sample_ref : Ref
sample_ref = record {
  store = codes "files";
  key = codes "k";
  content_type = codes "text/plain";
  size = pos 3;
  stored_size = pos 2;
  sha256 = replicate 32 7;
  compression = codes "gzip";
  retain_until = pos 99;
  retention_class = [];
}

sample_ref-IsCarried : IsCarried sample_ref
sample_ref-IsCarried = record {
  size = ground arith;
  stored_size = ground arith;
  retain_until = inl (ground arith);
  checksum_length = refl;
  checksum_bytes = ground arith;
}

abbrev other_link : PayloadLink
other_link = new_link (codes "response")

abbrev empty_scan : Scan
empty_scan = record {
  record_of = stored sample_event service sample_event.id delivery;
  links = other_link ∷ [];
}

apply_fields-ref_fields_example :
    (apply_fields (wire_fields sample_ref (codes "request")) empty_scan).links
    ≡ other_link ∷ link_of (codes "request") sample_ref ∷ []
unfolding trail.Prelude.text_eq
apply_fields-ref_fields_example =
    apply_fields-ref_fields sample_ref (codes "request") empty_scan (refl, ground arith)
      sample_ref-IsCarried (refl, tt)

abbrev text_field : Text → Text → WireField
text_field key text = record { key = key; type = codes "string"; text = text; num = 0 }

-- An event with two payloads, the later role first, and a link without store, key and error.
abbrev two_payloads : WireEvent
two_payloads = record (from_event sample_event) {
  fields =
      text_field (codes "payload.response.key") (codes "r")
      ∷ text_field (codes "payload.request.key") (codes "q")
      ∷ text_field (codes "payload.other.content_type") (codes "t")
      ∷ [];
}

normalize_event-Increasing_example :
    Increasing (normalize_event two_payloads service sample_event.id delivery).payloads
    × All
        (λ l. is_kept l ≡ true)
        (normalize_event two_payloads service sample_event.id delivery).payloads
normalize_event-Increasing_example =
    normalize_event-Increasing two_payloads service sample_event.id delivery
